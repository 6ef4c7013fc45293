-- ===== src/Feed/OrderBook.antt =====
-- feed_handler/order_book.py: a book of price levels that follows snapshots and deltas in sequence.
pub mod Levels
pub mod Best
use qf635project.Base.{
  ℕ, suc, ◌+◌, ◌≡◌, ◌↔◌, refl, Bool, true, false, Option, none, some, List, [], ◌∷◌, ◌==◌, not,
  if◌then◌else◌, arith,
}
use qf635project.Base.Dict.{Eq, Dict, lookup, insert, erase}
use qf635project.Base.Decimal.{ℤ, pos, eq_ℤ, eq_ℤ→eq, ltb_ℤ, int_laws}
use qf635project.Core.{Price, Quantity}

pub eq_ℤ_iff : (a b : ℤ) → (eq_ℤ a b ≡ true) ↔ (a ≡ b)
eq_ℤ_iff a b = (eq_ℤ→eq a b, (λ h. rw h (ground arith)))

instance abbrev pub price_eq : Eq ℤ
price_eq = record { beq = eq_ℤ; beq_iff = eq_ℤ_iff }

abbrev pub Levels : Type 0
Levels = Dict ℤ Quantity

pub record L2OrderBook : Type 0 where
  pub bids : Levels
  pub asks : Levels
  pub sequence : Option ℕ
  pub initialized : Bool

-- `__init__` and `reset`
abbrev pub empty_book : L2OrderBook
empty_book = record { bids = []; asks = []; sequence = none; initialized = false }

-- `{price: qty for price, qty in levels if qty > 0}`
unfoldable pub of_snapshot : List (Price × Quantity) → Levels → Levels
of_snapshot [] d = d
of_snapshot ((price, qty) ∷ rest) d =
    of_snapshot rest (if ltb_ℤ (pos 0) qty then insert price qty d else d)

-- One entry of a delta: a level of no quantity is removed.
abbrev pub set_level : Price → Quantity → Levels → Levels
set_level price qty d = if eq_ℤ qty (pos 0) then erase price d else insert price qty d

unfoldable pub apply_levels : List (Price × Quantity) → Levels → Levels
apply_levels [] d = d
apply_levels ((price, qty) ∷ rest) d = apply_levels rest (set_level price qty d)

unfoldable pub apply_snapshot : ℕ → List (Price × Quantity) → List (Price × Quantity) → L2OrderBook
apply_snapshot sequence bids asks = record {
  bids = of_snapshot bids [];
  asks = of_snapshot asks [];
  sequence = some sequence;
  initialized = true;
}

-- The sequence number that may follow.
abbrev pub follows : Option ℕ → ℕ → Bool
follows none sequence = true
follows (some s) sequence = sequence == suc s

-- `apply_delta`; it raises SequenceGapError before a snapshot and on a gap, the book unchanged.
unfoldable pub apply_delta :
    ℕ → List (Price × Quantity) → List (Price × Quantity) → L2OrderBook → Option L2OrderBook
apply_delta sequence bids asks b =
    if not b.initialized
    then none
    else if not (follows b.sequence sequence)
    then none
    else some (record {
      bids = apply_levels bids b.bids;
      asks = apply_levels asks b.asks;
      sequence = some sequence;
      initialized = b.initialized;
    })

-- The level that is first under an order of prices.
abbrev pub first_of :
    (Price → Price → Bool) → Price × Quantity → Option (Price × Quantity) → Price × Quantity
first_of before (p, q) none = (p, q)
first_of before (p, q) (some (p', q')) = if before p' p then (p', q') else (p, q)

unfoldable pub best : (Price → Price → Bool) → Levels → Option (Price × Quantity)
best before [] = none
best before (l ∷ d) = some (first_of before l (best before d))

-- `best_bid` and `best_ask`
abbrev pub best_bid : L2OrderBook → Option (Price × Quantity)
best_bid b = best (λ p q. ltb_ℤ q p) b.bids

abbrev pub best_ask : L2OrderBook → Option (Price × Quantity)
best_ask b = best ltb_ℤ b.asks
