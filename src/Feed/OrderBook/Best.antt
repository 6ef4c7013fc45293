-- ===== src/Feed/OrderBook/Best.antt =====
-- feed_handler/order_book.py: the best level of a side.
use qf635project.Base.{
  ◌≡◌, refl, Bool, true, false, Option, none, some, [], ◌∷◌, All, Bool-cases, inl, inr, ◌⊎◌, arith,
}
use mathlib.Core.List.{Memᴰ}
use qf635project.Base.Decimal.{ℤ, ltb_ℤ}
use qf635project.Core.{Price, Quantity}
use qf635project.Feed.OrderBook.{Levels, L2OrderBook, best, best_bid, best_ask}

ltb_ℤ_negative : (p q r : ℤ) → ltb_ℤ p q ≡ false → ltb_ℤ q r ≡ false → ltb_ℤ p r ≡ false
ltb_ℤ_negative p q r h k = ground arith

ltb_ℤ_after : (p q : ℤ) → ltb_ℤ p q ≡ true → ltb_ℤ q p ≡ false
ltb_ℤ_after p q h = ground arith

ltb_ℤ_self : (p : ℤ) → ltb_ℤ p p ≡ false
ltb_ℤ_self p = ground arith

-- `x` is a level of `d`, and no other comes before it.
abbrev pub First : (Price → Price → Bool) → Price × Quantity → Levels → Type 0
First before x d = Memᴰ x d × All (λ l. before l.0 x.0 ≡ false) d

-- No level, or one that is first.
abbrev pub BestOf : (Price → Price → Bool) → Option (Price × Quantity) → Levels → Type 0
BestOf before o d =
    ((o ≡ none) × (d ≡ [])) ⊎ ((x : Price × Quantity) × (o ≡ some x) × First before x d)

module _ (before : Price → Price → Bool) (self : (p : Price) → before p p ≡ false)
    (after : (p q : Price) → before p q ≡ true → before q p ≡ false)
    (negative : (p q r : Price)
      → before p q ≡ false
      → before q r ≡ false
      → before p r ≡ false) where
  lower_first :
      (p y : Price) (d : Levels)
      → before y p ≡ false
      → All (λ l. before l.0 y ≡ false) d
      → All (λ l. before l.0 p ≡ false) d
  lower_first p y [] h a = tt
  lower_first p y (l ∷ d) h (first, rest) = (negative l.0 y p first h, lower_first p y d h rest)

  best-BestOf : (d : Levels) → BestOf before (best before d) d
  unfolding best
  best-BestOf [] = inl (refl, refl)
  best-BestOf (l ∷ d) = elim (best-BestOf d) [
    | inl empty ↦ rw (empty.0, empty.1) (inr (l, refl, (Memᴰ.head refl, (self l.0, tt))))
    | inr found ↦ elim (Bool-cases (before found.0.0 l.0)) [
      | inl better ↦ inr (
        found.0,
        rw (found.1, better) refl,
        (Memᴰ.tail found.2.0, (after found.0.0 l.0 better, found.2.1)),
      )
      | inr worse ↦ inr (
        l,
        rw (found.1, worse) refl,
        (Memᴰ.head refl, (self l.0, lower_first l.0 found.0.0 d worse found.2.1)),
      )
    ]
  ]

-- The best bid of a book is a level of its bids and no bid is higher; the best ask is a level of
-- its asks and no ask is lower. There is none only where the side is empty.
pub best_levels_lem :
    (b : L2OrderBook)
    → BestOf (λ p q. ltb_ℤ q p) (best_bid b) b.bids × BestOf ltb_ℤ (best_ask b) b.asks
best_levels_lem b = (
  best-BestOf (λ p q. ltb_ℤ q p) ltb_ℤ_self (λ p q. ltb_ℤ_after q p)
      (λ p q r h k. ltb_ℤ_negative r q p k h) b.bids,
  best-BestOf ltb_ℤ ltb_ℤ_self ltb_ℤ_after ltb_ℤ_negative b.asks,
)
