-- ===== src/Feed/OrderBook/Levels.antt =====
-- feed_handler/order_book.py: what the levels of a book satisfy.
use qf635project.Base.{
  ℕ, ◌≡◌, refl, ap, ◌∙◌, true, false, Option, none, some, ◌++◌, ◌&&◌, Bool-cases, inl, inr, List,
  [], ◌∷◌, All, if-elim, if◌then◌else◌, arith,
}
use qf635project.Base.Dict.{lookup, insert, erase, lookup-insert, lookup-insert_ne, lookup-erase_ne}
use qf635project.Base.Decimal.{pos, eq_ℤ, ltb_ℤ}
use qf635project.Core.{Price, Quantity}
use qf635project.Feed.OrderBook.{
  price_eq, eq_ℤ_iff, Levels, L2OrderBook, of_snapshot, set_level, apply_levels, apply_snapshot,
  apply_delta, follows,
}

abbrev pub NonZero : Levels → Type 0
NonZero d = All (λ l. eq_ℤ l.1 (pos 0) ≡ false) d

insert-NonZero :
    (p : Price) (q : Quantity) (d : Levels)
    → eq_ℤ q (pos 0) ≡ false
    → NonZero d
    → NonZero (insert p q d)
insert-NonZero p q [] h n = (h, tt)
insert-NonZero p q ((j, w) ∷ d) h n =
    if-elim NonZero (eq_ℤ p j) ((j, q) ∷ d) ((j, w) ∷ insert p q d) (λ _. (h, n.1))
      (λ _. (n.0, insert-NonZero p q d h n.1))

erase-NonZero : (p : Price) (d : Levels) → NonZero d → NonZero (erase p d)
erase-NonZero p [] n = tt
erase-NonZero p ((j, w) ∷ d) n =
    if-elim NonZero (eq_ℤ p j) d ((j, w) ∷ erase p d) (λ _. n.1) (λ _. (n.0, erase-NonZero p d n.1))

of_snapshot-NonZero :
    (ls : List (Price × Quantity)) (d : Levels) → NonZero d → NonZero (of_snapshot ls d)
unfolding of_snapshot
of_snapshot-NonZero [] d n = n
of_snapshot-NonZero ((p, q) ∷ ls) d n =
    of_snapshot-NonZero ls (if ltb_ℤ (pos 0) q then insert p q d else d) (
      if-elim NonZero (ltb_ℤ (pos 0) q) (insert p q d) d
        (λ h. insert-NonZero p q d (ground (arith, h)) n) (λ _. n))

apply_levels-NonZero :
    (ls : List (Price × Quantity)) (d : Levels) → NonZero d → NonZero (apply_levels ls d)
unfolding apply_levels
apply_levels-NonZero [] d n = n
apply_levels-NonZero ((p, q) ∷ ls) d n = apply_levels-NonZero ls (set_level p q d) (
    if-elim NonZero (eq_ℤ q (pos 0)) (erase p d) (insert p q d) (λ _. erase-NonZero p d n)
      (λ h. insert-NonZero p q d h n))

-- No price has two levels.
abbrev pub Unique : Levels → Type 0
Unique [] = Unit {0}
Unique ((j, w) ∷ d) = (lookup j d ≡ none) × Unique d

insert-Unique : (p : Price) (q : Quantity) (d : Levels) → Unique d → Unique (insert p q d)
insert-Unique p q [] u = (refl, tt)
insert-Unique p q ((j, w) ∷ d) u =
    if-elim Unique (eq_ℤ p j) ((j, q) ∷ d) ((j, w) ∷ insert p q d) (λ _. u)
      (λ other.
        let apart : eq_ℤ j p ≡ false = ground (arith, other, eq_ℤ_iff p j, eq_ℤ_iff j p) in
        (lookup-insert_ne j p q d apart ∙ u.0, insert-Unique p q d u.1))

erase-Unique : (p : Price) (d : Levels) → Unique d → Unique (erase p d)
erase-Unique p [] u = tt
erase-Unique p ((j, w) ∷ d) u =
    if-elim Unique (eq_ℤ p j) d ((j, w) ∷ erase p d) (λ _. u.1)
      (λ other.
        let apart : eq_ℤ j p ≡ false = ground (arith, other, eq_ℤ_iff p j, eq_ℤ_iff j p) in
        (lookup-erase_ne j p d apart ∙ u.0, erase-Unique p d u.1))

lookup-erase :
    (p k : Price) (d : Levels)
    → Unique d
    → lookup p (erase k d) ≡ (if eq_ℤ p k then none else lookup p d)
lookup-erase p k [] u = ground arith
lookup-erase p k ((j, w) ∷ d) u =
    ground (arith, u.0, eq_ℤ_iff k j, eq_ℤ_iff p j, eq_ℤ_iff p k, lookup-erase p k d u.1)

set_level-Unique : (p : Price) (q : Quantity) (d : Levels) → Unique d → Unique (set_level p q d)
set_level-Unique p q d u =
    if-elim Unique (eq_ℤ q (pos 0)) (erase p d) (insert p q d) (λ _. erase-Unique p d u)
      (λ _. insert-Unique p q d u)

apply_levels-Unique :
    (ls : List (Price × Quantity)) (d : Levels) → Unique d → Unique (apply_levels ls d)
unfolding apply_levels
apply_levels-Unique [] d u = u
apply_levels-Unique ((p, q) ∷ ls) d u =
    apply_levels-Unique ls (set_level p q d) (set_level-Unique p q d u)

of_snapshot-Unique :
    (ls : List (Price × Quantity)) (d : Levels) → Unique d → Unique (of_snapshot ls d)
unfolding of_snapshot
of_snapshot-Unique [] d u = u
of_snapshot-Unique ((p, q) ∷ ls) d u =
    of_snapshot-Unique ls (if ltb_ℤ (pos 0) q then insert p q d else d)
      (if-elim Unique (ltb_ℤ (pos 0) q) (insert p q d) d (λ _. insert-Unique p q d u) (λ _. u))

-- What a price is quoted at after the entries of a delta: what the last entry of the price says, and
-- nothing where that is zero.
abbrev pub quoted : Price → List (Price × Quantity) → Option Quantity → Option Quantity
quoted p [] old = old
quoted p ((j, q) ∷ ls) old =
    quoted p ls (if eq_ℤ p j then (if eq_ℤ q (pos 0) then none else some q) else old)

-- What a price is quoted at in a snapshot: its last positive quantity.
abbrev pub listed : Price → List (Price × Quantity) → Option Quantity → Option Quantity
listed p [] old = old
listed p ((j, q) ∷ ls) old = listed p ls (if eq_ℤ p j && ltb_ℤ (pos 0) q then some q else old)

pub quoted-append :
    (p : Price) (xs ys : List (Price × Quantity)) (old : Option Quantity)
    → quoted p (xs ++ ys) old ≡ quoted p ys (quoted p xs old)
quoted-append p [] ys old = refl
quoted-append p ((j, q) ∷ xs) ys old =
    quoted-append p xs ys (if eq_ℤ p j then (if eq_ℤ q (pos 0) then none else some q) else old)

lookup-set_level :
    (p j : Price) (q : Quantity) (d : Levels)
    → Unique d
    → lookup p (set_level j q d)
      ≡ (if eq_ℤ p j then (if eq_ℤ q (pos 0) then none else some q) else lookup p d)
lookup-set_level p j q d u = elim (Bool-cases (eq_ℤ q (pos 0))) [
  | inl gone ↦ rw gone (lookup-erase p j d u)
  | inr held ↦ rw held (lookup-insert p j q d)
]

lookup-apply_levels :
    (p : Price) (ls : List (Price × Quantity)) (d : Levels)
    → Unique d
    → lookup p (apply_levels ls d) ≡ quoted p ls (lookup p d)
unfolding apply_levels
lookup-apply_levels p [] d u = refl
lookup-apply_levels p ((j, q) ∷ ls) d u =
    lookup-apply_levels p ls (set_level j q d) (set_level-Unique j q d u)
    ∙ ap (quoted p ls) (lookup-set_level p j q d u)

pub lookup-of_snapshot :
    (p : Price) (ls : List (Price × Quantity)) (d : Levels)
    → lookup p (of_snapshot ls d) ≡ listed p ls (lookup p d)
unfolding of_snapshot
lookup-of_snapshot p [] d = refl
lookup-of_snapshot p ((j, q) ∷ ls) d =
    lookup-of_snapshot p ls (if ltb_ℤ (pos 0) q then insert j q d else d)
    ∙ ap (listed p ls) (ground (arith, lookup-insert p j q d))

-- A book quotes every price, on both sides, as another after the entries of a delta.
abbrev pub Took : (bids asks : List (Price × Quantity)) → L2OrderBook → L2OrderBook → Type 0
Took bids asks b b' =
    (p : Price)
    → (lookup p b'.bids ≡ quoted p bids (lookup p b.bids))
      × (lookup p b'.asks ≡ quoted p asks (lookup p b.asks))

-- No level of the book has a zero quantity, and no price has two levels.
abbrev pub IsValid : L2OrderBook → Type 0
IsValid b = (NonZero b.bids × Unique b.bids) × NonZero b.asks × Unique b.asks

pub apply_snapshot-IsValid :
    (s : ℕ) (bids asks : List (Price × Quantity)) → IsValid (apply_snapshot s bids asks)
unfolding apply_snapshot
apply_snapshot-IsValid s bids asks = (
  (of_snapshot-NonZero bids [] tt, of_snapshot-Unique bids [] tt),
  of_snapshot-NonZero asks [] tt,
  of_snapshot-Unique asks [] tt,
)

-- A delta that is next in sequence keeps the levels valid, and sets those that it names.
pub apply_delta-IsValid :
    (s : ℕ) (bids asks : List (Price × Quantity)) (b : L2OrderBook)
    → IsValid b
    → b.initialized ≡ true
    → follows b.sequence s ≡ true
    → (b' : L2OrderBook) × (apply_delta s bids asks b ≡ some b')
      × IsValid b'
      × (b'.sequence ≡ some s)
      × (b'.initialized ≡ true)
      × Took bids asks b b'
unfolding apply_delta
apply_delta-IsValid s bids asks b ((nb, ub), na, ua) warm next = (
  record {
    bids = apply_levels bids b.bids;
    asks = apply_levels asks b.asks;
    sequence = some s;
    initialized = b.initialized;
  },
  rw (warm, next) refl,
  (
    (apply_levels-NonZero bids b.bids nb, apply_levels-Unique bids b.bids ub),
    apply_levels-NonZero asks b.asks na,
    apply_levels-Unique asks b.asks ua,
  ),
  refl,
  warm,
  (λ p. (lookup-apply_levels p bids b.bids ub, lookup-apply_levels p asks b.asks ua)),
)
