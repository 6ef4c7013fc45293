-- ===== src/Position/Engine.antt =====
-- position/engine.py and portfolio_view.py: the books of all strategies, the marks, and what is
-- published of them. A dict key is the pair of a strategy and an instrument id.
pub mod History
use qf635project.Base.{
  ℕ, suc, ◌+◌, Bool, true, false, Option, none, some, List, [], ◌∷◌, ◌++◌, ◌==◌, not, if◌then◌else◌,
  length,
}
use qf635project.Base.Dict.{Dict, number_eq, pair_eq, lookup, lookup_or, insert}
use qf635project.Base.Decimal.{ℤ, pos, ◌+ℤ◌, div_ℤ, eq_ℤ}
use qf635project.Core.{Price, Quantity, Instrument, FillEvent, PositionUpdateEvent}
use qf635project.Position.Book
use qf635project.Position.Book.{AccountingBook, AccountingMethod, make_book}
use qf635project.Position.Pnl.{
  PortfolioAggregate, PnLSnapshotEvent, make_position_update_event, aggregate_portfolio,
}

-- The fields of a tick that the engine reads.
pub record Tick : Type 0 where
  pub instrument : Instrument
  pub bid_price : Price
  pub ask_price : Price

-- `TickEvent.mid`
abbrev pub mid : Tick → Price
mid t = div_ℤ (t.bid_price +ℤ t.ask_price) 2

pub data PositionEvent : Type 0 where
  updated : PositionUpdateEvent → PositionEvent
  snapshot_of : PnLSnapshotEvent → PositionEvent

pub record Position : Type 0 where
  pub strategy_id : ℕ
  pub instrument : Instrument
  pub quantity : Quantity
  pub average_entry_price : Price
  pub realized_pnl : Price
  pub unrealized_pnl : Price
  pub mark_price : Price

pub record PositionEngine : Type 0 where
  pub method : AccountingMethod
  pub books : Dict (ℕ × ℕ) AccountingBook
  pub instruments : Dict (ℕ × ℕ) Instrument
  pub marks : Dict ℕ Price
  pub started : Bool
  pub attempts : ℕ
  pub published : List PositionEvent
  pub dropped_events : ℕ

abbrev pub opened : AccountingMethod → PositionEngine
opened method = record {
  method = method;
  books = [];
  instruments = [];
  marks = [];
  started = false;
  attempts = 0;
  published = [];
  dropped_events = 0;
}

abbrev pub key_of : FillEvent → ℕ × ℕ
key_of fill = (fill.strategy_id, fill.instrument.instrument_id)

abbrev pub is_open : AccountingBook → Bool
is_open book = not (eq_ℤ (Book.quantity book) (pos 0))

-- `_on_market_data`, on a tick.
unfoldable pub on_market_data : Tick → PositionEngine → PositionEngine
on_market_data t e = record e { marks = insert t.instrument.instrument_id (mid t) e.marks }

abbrev pub is_of : Option ℕ → ℕ × ℕ → Bool
is_of none key = true
is_of (some sid) key = key.0 == sid

-- The books of a strategy, or of all, with their marks; a missing mark is taken for zero.
unfoldable pub books_and_marks :
    Option ℕ → Dict (ℕ × ℕ) AccountingBook → PositionEngine → List (AccountingBook × Price)
books_and_marks sid [] e = []
books_and_marks sid ((key, book) ∷ rest) e =
    if is_of sid key
    then (
      book,
      (elim (lookup key e.instruments) [
        | none ↦ pos 0
        | some instrument ↦ lookup_or instrument.instrument_id (pos 0) e.marks
      ]),
    )
      ∷ books_and_marks sid rest e
    else books_and_marks sid rest e

-- `get_portfolio_aggregate`
unfoldable pub get_portfolio_aggregate : Option ℕ → PositionEngine → PortfolioAggregate
unfolding books_and_marks
get_portfolio_aggregate sid e = aggregate_portfolio (books_and_marks sid e.books e)

module _ (accepts : ℕ → Bool) where
  -- `_safe_publish`
  unfoldable pub safe_publish : PositionEvent → PositionEngine → PositionEngine
  safe_publish event e =
      if accepts e.attempts
      then record e { attempts = e.attempts + 1; published = e.published ++ event ∷ [] }
      else record e { attempts = e.attempts + 1; dropped_events = e.dropped_events + 1 }

  -- `_publish_position_update`
  abbrev pub publish_position_update :
      ℕ → Instrument → AccountingBook → Price → PositionEngine → PositionEngine
  publish_position_update sid instrument book mark e =
      safe_publish (updated (make_position_update_event sid instrument book mark)) e

  -- `_on_fill`; a book is made, and its instrument noted, on the first fill.
  unfoldable pub on_fill : FillEvent → PositionEngine → PositionEngine
  on_fill fill e =
      let book = Book.apply_fill fill (lookup_or (key_of fill) (make_book e.method) e.books) in
      let instruments : Dict (ℕ × ℕ) Instrument = elim (lookup (key_of fill) e.books) [
        | none ↦ insert (key_of fill) fill.instrument e.instruments
        | some _ ↦ e.instruments
      ] in
      publish_position_update fill.strategy_id fill.instrument book
        (lookup_or fill.instrument.instrument_id fill.fill_price e.marks)
        (record e { books = insert (key_of fill) book e.books; instruments = instruments })

  -- One book of `mark_to_market_all`: a flat one, or one without a mark, is passed over.
  abbrev pub mark_book : (ℕ × ℕ) × AccountingBook → PositionEngine → PositionEngine
  mark_book (key, book) e = if not (is_open book) then e else (elim (lookup key e.instruments) [
    | none ↦ e
    | some instrument ↦ elim (lookup instrument.instrument_id e.marks) [
      | none ↦ e
      | some mark ↦ publish_position_update key.0 instrument book mark e
    ]
  ])

  unfoldable pub mark_books : Dict (ℕ × ℕ) AccountingBook → PositionEngine → PositionEngine
  mark_books [] e = e
  mark_books (entry ∷ rest) e = mark_books rest (mark_book entry e)

  unfoldable pub mark_to_market_all : PositionEngine → PositionEngine
  unfolding mark_books
  mark_to_market_all e = mark_books e.books e

  unfoldable pub publish_portfolio_snapshot : Option ℕ → PositionEngine → PositionEngine
  publish_portfolio_snapshot sid e =
      safe_publish
        (snapshot_of (record { strategy_id = sid; aggregate = get_portfolio_aggregate sid e })) e

-- `start` and `stop`; the subscriptions are the inputs of a run.
abbrev pub start : PositionEngine → PositionEngine
start e = record e { started = true }

abbrev pub stop : PositionEngine → PositionEngine
stop e = record e { started = false }

abbrev pub get_book : ℕ → Instrument → PositionEngine → Option AccountingBook
get_book sid instrument e = lookup (sid, instrument.instrument_id) e.books

abbrev position_of : ℕ → Instrument → AccountingBook → Price → Position
position_of sid instrument book mark = record {
  strategy_id = sid;
  instrument = instrument;
  quantity = Book.quantity book;
  average_entry_price = Book.average_entry_price book;
  realized_pnl = Book.realized_pnl book;
  unrealized_pnl = Book.unrealized_pnl book mark;
  mark_price = mark;
}

unfoldable pub get_position : ℕ → Instrument → PositionEngine → Option Position
get_position sid instrument e = elim (get_book sid instrument e) [
  | none ↦ none
  | some book ↦
      if is_open book
      then some (
          position_of sid instrument book
            (lookup_or instrument.instrument_id (Book.average_entry_price book) e.marks))
      else none
]

-- `get_all_positions`
unfoldable pub positions_of : Dict (ℕ × ℕ) AccountingBook → PositionEngine → List Position
positions_of [] e = []
positions_of ((key, book) ∷ rest) e =
    (elim (lookup key e.instruments) [
      | none ↦ []
      | some instrument ↦ elim (get_position key.0 instrument e) [ none ↦ [] | some p ↦ p ∷ [] ]
    ])
    ++ positions_of rest e

unfoldable pub get_all_positions : PositionEngine → List Position
unfolding positions_of
get_all_positions e = positions_of e.books e

-- `snapshot`: the open positions, the books and the events dropped.
unfoldable pub count_open : Dict (ℕ × ℕ) AccountingBook → ℕ
count_open [] = 0
count_open ((key, book) ∷ rest) = (if is_open book then 1 else 0) + count_open rest

unfoldable pub snapshot : PositionEngine → ℕ × ℕ × ℕ
unfolding count_open
snapshot e = (count_open e.books, length e.books, e.dropped_events)
