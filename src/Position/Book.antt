-- ===== src/Position/Book.antt =====
-- position/accounting/__init__.py and base.py: the books behind one interface.
use qf635project.Core.{Price, Quantity, FillEvent}
use qf635project.Position.LotBook
use qf635project.Position.LotBook.{LotBook, Method, fifo, lifo}
use qf635project.Position.Wavg
use qf635project.Position.Wavg.{WavgBook}

pub data AccountingMethod : Type 0 where
  wavg fifo_lots lifo_lots : AccountingMethod

pub data AccountingBook : Type 0 where
  averaged : WavgBook → AccountingBook
  by_lots : Method → LotBook → AccountingBook

-- `make_book`
unfoldable pub make_book : AccountingMethod → AccountingBook
make_book wavg = averaged Wavg.empty
make_book fifo_lots = by_lots fifo LotBook.empty
make_book lifo_lots = by_lots lifo LotBook.empty

-- The methods of the protocol, by the book's class.
unfoldable pub apply_fill : FillEvent → AccountingBook → AccountingBook
apply_fill fill (averaged b) = averaged (Wavg.apply_fill b fill)
apply_fill fill (by_lots m b) = by_lots m (LotBook.apply_fill m b fill)

unfoldable pub quantity : AccountingBook → Quantity
quantity (averaged b) = b.quantity
quantity (by_lots m b) = LotBook.quantity b

unfoldable pub average_entry_price : AccountingBook → Price
average_entry_price (averaged b) = b.avg_cost
average_entry_price (by_lots m b) = LotBook.average_entry_price b

unfoldable pub realized_pnl : AccountingBook → Price
realized_pnl (averaged b) = b.realized_pnl
realized_pnl (by_lots m b) = b.realized_pnl

unfoldable pub unrealized_pnl : AccountingBook → Price → Price
unrealized_pnl (averaged b) mark = Wavg.unrealized_pnl b mark
unrealized_pnl (by_lots m b) mark = LotBook.unrealized_pnl b mark
