-- ===== src/Feed/View/Ordered.antt =====
-- feed_handler/order_book.py: the levels of a view are in order, and the best level is the first of them.
use qf635project.Base.{
  ℕ, zero, suc, ◌≡◌, refl, ap, ◌∙◌, Bool, true, false, Option, none, some, [], ◌∷◌, All, All-map,
  Bool-cases, inl, inr, if-elim, if◌then◌else◌, arith,
}
use qf635project.Base.Decimal.{ltb_ℤ}
use qf635project.Core.{Price, Quantity}
use qf635project.Feed.OrderBook.{Levels, L2OrderBook, first_of, best, best_bid, best_ask}
use qf635project.Feed.View.{place, sorted, take, higher, top_n}

abbrev pub first : Levels → Option (Price × Quantity)
first [] = none
first (l ∷ d) = some l

first-place :
    (before : Price → Price → Bool) (l : Price × Quantity) (d : Levels)
    → first (place before l d) ≡ some (first_of before l (first d))
unfolding place
first-place before l [] = refl
first-place before l (x ∷ d) =
    if-elim (λ (e : Levels). first e ≡ some (if before x.0 l.0 then x else l)) (before x.0 l.0) _ _
      (λ h. rw h refl) (λ h. rw h refl)

first-sorted :
    (before : Price → Price → Bool) (d : Levels) → first (sorted before d) ≡ best before d
unfolding sorted best
first-sorted before [] = refl
first-sorted before (l ∷ d) =
    first-place before l (sorted before d)
    ∙ ap (λ (o : Option (Price × Quantity)). some (first_of before l o)) (first-sorted before d)

first-take : (n : ℕ) (d : Levels) → first (take (suc n) d) ≡ first d
first-take n [] = refl
first-take n (l ∷ d) = refl

module _ (before : Price → Price → Bool) where
  -- No level stands behind one that it comes before.
  abbrev pub IsOrdered : Levels → Type 0
  IsOrdered [] = Unit {0}
  IsOrdered (l ∷ d) = All (λ (x : Price × Quantity). before x.0 l.0 ≡ false) d × IsOrdered d

  module _ (asym : (p q : Price) → before p q ≡ true → before q p ≡ false)
      (behind : (p q r : Price)
        → before q p ≡ false
        → before r q ≡ false
        → before r p ≡ false) where
    place-All :
        (P : Price × Quantity → Type 0) (l : Price × Quantity) (d : Levels)
        → P l
        → All P d
        → All P (place before l d)
    unfolding place
    place-All P l [] h a = (h, tt)
    place-All P l (x ∷ d) h a =
        if-elim (All P) (before x.0 l.0) (x ∷ place before l d) (l ∷ x ∷ d)
          (λ _. (a.0, place-All P l d h a.1)) (λ _. (h, a))

    place-IsOrdered :
        (l : Price × Quantity) (d : Levels) → IsOrdered d → IsOrdered (place before l d)
    unfolding place
    place-IsOrdered l [] v = (tt, tt)
    place-IsOrdered l (x ∷ d) v = elim (Bool-cases (before x.0 l.0)) [
      | inl later ↦ rw later (
        place-All (λ (y : Price × Quantity). before y.0 x.0 ≡ false) l d (asym x.0 l.0 later) v.0,
        place-IsOrdered l d v.1,
      )
      | inr here ↦ rw here (
        (
          here,
          All-map (λ (y : Price × Quantity). before y.0 x.0 ≡ false)
              (λ (y : Price × Quantity). before y.0 l.0 ≡ false) (λ y h. behind l.0 x.0 y.0 here h)
              d v.0,
        ),
        v,
      )
    ]

    sorted-IsOrdered : (d : Levels) → IsOrdered (sorted before d)
    unfolding sorted
    sorted-IsOrdered [] = tt
    sorted-IsOrdered (l ∷ d) = place-IsOrdered l (sorted before d) (sorted-IsOrdered d)

    take-All : (P : Price × Quantity → Type 0) (n : ℕ) (d : Levels) → All P d → All P (take n d)
    take-All P zero d a = tt
    take-All P (suc n) [] a = tt
    take-All P (suc n) (l ∷ d) a = (a.0, take-All P n d a.1)

    take-IsOrdered : (n : ℕ) (d : Levels) → IsOrdered d → IsOrdered (take n d)
    take-IsOrdered zero d v = tt
    take-IsOrdered (suc n) [] v = tt
    take-IsOrdered (suc n) (l ∷ d) v = (
      take-All (λ (x : Price × Quantity). before x.0 l.0 ≡ false) n d v.0,
      take-IsOrdered n d v.1,
    )

lower_asym : (p q : Price) → ltb_ℤ p q ≡ true → ltb_ℤ q p ≡ false
lower_asym p q h = ground (arith, h)

lower_behind : (p q r : Price) → ltb_ℤ q p ≡ false → ltb_ℤ r q ≡ false → ltb_ℤ r p ≡ false
lower_behind p q r h k = ground (arith, h, k)

-- The top levels of a book are in order, bids from the highest and asks from the lowest, and if any are
-- asked for, the first of each side is the best bid or ask.
pub top_n-best :
    (n : ℕ) (b : L2OrderBook)
    → IsOrdered higher (top_n (suc n) b).0
      × IsOrdered ltb_ℤ (top_n (suc n) b).1
      × (first (top_n (suc n) b).0 ≡ best_bid b)
      × (first (top_n (suc n) b).1 ≡ best_ask b)
top_n-best n b =
    let higher_asym : (p q : Price) → higher p q ≡ true → higher q p ≡ false =
      λ p q h. lower_asym q p h in
    let higher_behind : (p q r : Price)
        → higher q p ≡ false
        → higher r q ≡ false
        → higher r p ≡ false =
      λ p q r h k. lower_behind r q p k h in
    (
      take-IsOrdered higher higher_asym higher_behind (suc n) (sorted higher b.bids)
          (sorted-IsOrdered higher higher_asym higher_behind b.bids),
      take-IsOrdered ltb_ℤ lower_asym lower_behind (suc n) (sorted ltb_ℤ b.asks)
          (sorted-IsOrdered ltb_ℤ lower_asym lower_behind b.asks),
      first-take n (sorted higher b.bids) ∙ first-sorted higher b.bids,
      first-take n (sorted ltb_ℤ b.asks) ∙ first-sorted ltb_ℤ b.asks,
    )
