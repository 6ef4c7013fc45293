-- ===== src/Feed/View.antt =====
-- feed_handler/order_book.py: the views of a book. `sorted` of a dict's prices is by insertion here.
pub mod Ordered
use qf635project.Base.{
  ℕ, zero, suc, Bool, true, false, Option, none, some, List, [], ◌∷◌, not, length, if◌then◌else◌,
}
use qf635project.Base.Decimal.{ltb_ℤ}
use qf635project.Core.{Price, Quantity, Timestamp}
use qf635project.Feed.OrderBook.{Levels, L2OrderBook, best_bid, best_ask}

pub record TopOfBook : Type 0 where
  pub bid_price : Price
  pub bid_size : Quantity
  pub ask_price : Price
  pub ask_size : Quantity

pub record TickEvent : Type 0 where
  pub ts_event : Timestamp
  pub top : TopOfBook

pub record OrderBookEvent : Type 0 where
  pub ts_event : Timestamp
  pub bids : List (Price × Quantity)
  pub asks : List (Price × Quantity)
  pub sequence : ℕ
  pub is_snapshot : Bool

unfoldable pub place : (Price → Price → Bool) → Price × Quantity → Levels → Levels
place before l [] = l ∷ []
place before l (x ∷ xs) = if before x.0 l.0 then x ∷ place before l xs else l ∷ x ∷ xs

-- The levels of a side, the best first.
unfoldable pub sorted : (Price → Price → Bool) → Levels → Levels
sorted before [] = []
sorted before (l ∷ d) = place before l (sorted before d)

abbrev pub take : ℕ → Levels → Levels
take zero d = []
take (suc n) [] = []
take (suc n) (l ∷ d) = l ∷ take n d

abbrev pub higher : Price → Price → Bool
higher p q = ltb_ℤ q p

abbrev pub top_n : ℕ → L2OrderBook → Levels × Levels
top_n n b = (take n (sorted higher b.bids), take n (sorted ltb_ℤ b.asks))

unfoldable pub top_of_book : L2OrderBook → Option TopOfBook
top_of_book b = elim (best_bid b) [
  | none ↦ none
  | some bid ↦ elim (best_ask b) [
    | none ↦ none
    | some ask ↦
        some (record { bid_price = bid.0; bid_size = bid.1; ask_price = ask.0; ask_size = ask.1 })
  ]
]

abbrev pub depth : L2OrderBook → ℕ × ℕ
depth b = (length b.bids, length b.asks)

unfoldable pub make_tick_event : Timestamp → L2OrderBook → Option TickEvent
make_tick_event ts b = elim (top_of_book b) [
  | none ↦ none
  | some top ↦ some (record { ts_event = ts; top = top })
]

unfoldable pub make_book_event : Timestamp → ℕ → Bool → L2OrderBook → Option OrderBookEvent
make_book_event ts depth_levels is_snapshot b =
    if not b.initialized then none else (elim b.sequence [
      | none ↦ none
      | some sequence ↦
          let (bids, asks) = top_n depth_levels b in
          some (record {
            ts_event = ts;
            bids = bids;
            asks = asks;
            sequence = sequence;
            is_snapshot = is_snapshot;
          })
    ])
