-- ===== src/Position/Tests.antt =====
-- A long of two lots that a sale flips short.
use qf635project.Base.{ℕ, ◌≡◌, none, List, [], ◌∷◌, arith}
use qf635project.Base.Decimal.{pos, ◌+ℤ◌, ◌*ℤ◌, ◌≤ℤ◌}
use qf635project.Core.{Price, Instrument, Side, buy, sell, sign, FillEvent}
use qf635project.Position.LotBook
use qf635project.Position.LotBook.{
  Lot, fifo, lifo, holds, LotBook, empty, close_lots, Closing, quantity,
}
use qf635project.Position.LotBook.CloseLoop.{
  IsDone, settled, unclosed, close_lots-IsDone, close_lots-settled, close_lots-unclosed,
}
use qf635project.Position.LotBook.Equity.{
  IsValid, equity, gain, total_gain, apply_fills, apply_fill-Accounts, methods_agree,
}
use qf635project.Position.Wavg
use qf635project.Position.Wavg.{WavgBook}
use qf635project.Position.Wavg.Equity.{NearlyAccounts, apply_fill-NearlyAccounts}

abbrev eth : Instrument
eth = record { instrument_id = 3; tick_size = pos 1; lot_size = pos 1; min_notional = none }

abbrev fill_of : Side → ℕ → ℕ → FillEvent
fill_of side price size = record {
  ts_event = 10;
  fill_id = 1;
  order_id = 1;
  strategy_id = 5;
  instrument = eth;
  side = side;
  fill_price = pos price;
  fill_quantity = pos size;
  fee = pos 2;
}

abbrev lots : List Lot
lots =
    record { quantity = pos 4; price = pos 100 } ∷ record { quantity = pos 5; price = pos 110 } ∷ []

abbrev long : LotBook
long = record { lots = lots; holding = holds buy; realized_pnl = pos 0 }

abbrev sale : FillEvent
sale = fill_of sell 120 12

apply_fill-Accounts_example :
    ((mark : Price)
      → equity (LotBook.apply_fill lifo long sale) mark ≡ equity long mark +ℤ gain sale mark)
    × (quantity (LotBook.apply_fill lifo long sale) ≡ quantity long +ℤ sign sell *ℤ pos 12)
    × IsValid (LotBook.apply_fill lifo long sale)
apply_fill-Accounts_example = apply_fill-Accounts lifo long sale (λ e. cc) (omega arith)

abbrev trades : List FillEvent
trades = fill_of buy 100 4 ∷ fill_of buy 110 5 ∷ sale ∷ []

methods_agree_example :
    (equity (apply_fills fifo empty trades) (pos 105) ≡ total_gain (pos 105) trades)
    × (equity (apply_fills lifo empty trades) (pos 105) ≡ total_gain (pos 105) trades)
methods_agree_example =
    methods_agree (pos 105) trades (omega arith, (omega arith, (omega arith, tt)))

abbrev closing : Closing
closing = record { remaining = pos 12; realized = pos 0; open_lots = lots }

close_lots-IsDone_example :
    IsDone (close_lots 3 fifo (pos 1) (pos 120) closing)
    × (pos 0 ≤ℤ (close_lots 3 fifo (pos 1) (pos 120) closing).remaining)
close_lots-IsDone_example =
    close_lots-IsDone fifo (pos 1) (pos 120) 3 closing (omega arith) (omega arith)

close_lots-settled_example :
    settled (pos 1) (pos 120) (pos 90) (close_lots 2 fifo (pos 1) (pos 120) closing)
    ≡ settled (pos 1) (pos 120) (pos 90) closing
close_lots-settled_example = close_lots-settled fifo (pos 1) (pos 120) (pos 90) 2 closing

close_lots-unclosed_example :
    unclosed (close_lots 2 lifo (pos 1) (pos 120) closing) ≡ unclosed closing
close_lots-unclosed_example = close_lots-unclosed lifo (pos 1) (pos 120) 2 closing

abbrev wavg_long : WavgBook
wavg_long = record { quantity = pos 9; avg_cost = pos 105; realized_pnl = pos 0 }

apply_fill-NearlyAccounts_example : NearlyAccounts wavg_long sale (Wavg.apply_fill wavg_long sale)
apply_fill-NearlyAccounts_example = apply_fill-NearlyAccounts wavg_long sale (omega arith)
