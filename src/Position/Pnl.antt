-- ===== src/Position/Pnl.antt =====
-- position/pnl.py: books turned into events and portfolio totals.
pub mod Totals
use qf635project.Base.{ℕ, Option, List, [], ◌∷◌}
use qf635project.Base.Decimal.{ℤ, pos, ◌+ℤ◌, ◌*ℤ◌, abs_ℤ}
use qf635project.Core.{Price, Instrument, PositionUpdateEvent}
use qf635project.Position.Book
use qf635project.Position.Book.{AccountingBook}

pub record PortfolioAggregate : Type 0 where
  pub realized_pnl : Price
  pub unrealized_pnl : Price
  pub total_pnl : Price
  pub gross_exposure : Price
  pub net_exposure : Price

pub record PnLSnapshotEvent : Type 0 where
  pub strategy_id : Option ℕ
  pub aggregate : PortfolioAggregate

abbrev pub make_position_update_event :
    ℕ → Instrument → AccountingBook → Price → PositionUpdateEvent
make_position_update_event strategy_id instrument book mark = record {
  strategy_id = strategy_id;
  instrument = instrument;
  quantity = Book.quantity book;
  average_entry_price = Book.average_entry_price book;
  realized_pnl = Book.realized_pnl book;
  unrealized_pnl = Book.unrealized_pnl book mark;
  mark_price = mark;
}

-- The four running sums of the loop.
pub record Sums : Type 0 where
  pub realized : Price
  pub unrealized : Price
  pub gross : Price
  pub net : Price

abbrev pub no_sums : Sums
no_sums = record { realized = pos 0; unrealized = pos 0; gross = pos 0; net = pos 0 }

abbrev pub notional : AccountingBook → Price → Price
notional book mark = Book.quantity book *ℤ mark

unfoldable pub add_books : List (AccountingBook × Price) → Sums → Sums
add_books [] s = s
add_books ((book, mark) ∷ rest) s = add_books rest (record {
  realized = s.realized +ℤ Book.realized_pnl book;
  unrealized = s.unrealized +ℤ Book.unrealized_pnl book mark;
  gross = s.gross +ℤ abs_ℤ (notional book mark);
  net = s.net +ℤ notional book mark;
})

abbrev pub aggregate_of : Sums → PortfolioAggregate
aggregate_of s = record {
  realized_pnl = s.realized;
  unrealized_pnl = s.unrealized;
  total_pnl = s.realized +ℤ s.unrealized;
  gross_exposure = s.gross;
  net_exposure = s.net;
}

unfoldable pub aggregate_portfolio : List (AccountingBook × Price) → PortfolioAggregate
unfolding add_books
aggregate_portfolio books_and_marks = aggregate_of (add_books books_and_marks no_sums)
