-- ===== src/Position/LotBook/Deque.antt =====
-- Both ends of the deque: taking a lot out and putting one in moves every sum by that lot.
use qf635project.Base.{
  suc, ◌≡◌, refl, none, some, List, [], ◌∷◌, ◌++◌, length, length-append, arith,
}
use qf635project.Base.Decimal.{ℤ, ◌+ℤ◌, int_laws}
use qf635project.Position.LotBook.{Lot, Method, fifo, lifo, take_last, peek_lot, put_lot, sum_lots}

pub sum_lots-append :
    (f : Lot → ℤ) (xs ys : List Lot) → sum_lots f (xs ++ ys) ≡ sum_lots f xs +ℤ sum_lots f ys
sum_lots-append f [] ys = omega int_laws
sum_lots-append f (x ∷ xs) ys = grind (int_laws, sum_lots-append f xs ys)

take_last-sum :
    (f : Lot → ℤ) (l : Lot) (ls : List Lot)
    → f (take_last l ls).0 +ℤ sum_lots f (take_last l ls).1 ≡ f l +ℤ sum_lots f ls
unfolding take_last
take_last-sum f l [] = refl
take_last-sum f l (k ∷ ks) = grind (int_laws, take_last-sum f k ks)

take_last-length : (l : Lot) (ls : List Lot) → length (take_last l ls).1 ≡ length ls
unfolding take_last
take_last-length l [] = refl
take_last-length l (k ∷ ks) = ground (arith, take_last-length k ks)

-- The peeked lot and the others make up the sum and the length.
pub peek_lot-sum :
    (f : Lot → ℤ) (m : Method) (ls : List Lot) (lot : Lot) (others : List Lot)
    → peek_lot m ls ≡ some (lot, others)
    → (sum_lots f ls ≡ f lot +ℤ sum_lots f others) × (length ls ≡ suc (length others))
unfolding peek_lot
peek_lot-sum f m [] lot others e = cc
peek_lot-sum f fifo (l ∷ ls) lot others e = ground arith
peek_lot-sum f lifo (l ∷ ls) lot others e =
    grind (int_laws, take_last-sum f l ls, take_last-length l ls)

pub peek_lot-none : (m : Method) (ls : List Lot) → peek_lot m ls ≡ none → ls ≡ []
unfolding peek_lot
peek_lot-none m [] e = refl
peek_lot-none fifo (l ∷ ls) e = cc
peek_lot-none lifo (l ∷ ls) e = cc

pub put_lot-sum :
    (f : Lot → ℤ) (m : Method) (l : Lot) (ls : List Lot)
    → (sum_lots f (put_lot m l ls) ≡ f l +ℤ sum_lots f ls)
      × (length (put_lot m l ls) ≡ suc (length ls))
unfolding put_lot
put_lot-sum f fifo l ls = (refl, refl)
put_lot-sum f lifo l ls =
    (grind (int_laws, sum_lots-append f ls (l ∷ [])), omega (arith, length-append ls (l ∷ [])))
