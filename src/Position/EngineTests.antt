-- ===== src/Position/EngineTests.antt =====
-- position/engine.py and pnl.py at concrete inputs.
use qf635project.Base.{ℕ, ◌≡◌, refl, Bool, true, Option, none, some, List, [], ◌∷◌}
use qf635project.Base.Dict.{pair_eq, lookup}
use qf635project.Base.Decimal.{ℤ, pos, negsuc, ◌+ℤ◌, ◌-ℤ◌, ◌≤ℤ◌}
use qf635project.Core.{Instrument, Side, buy, sell, FillEvent}
use qf635project.Position.Book
use qf635project.Position.Book.{
  AccountingBook, averaged, AccountingMethod, wavg, fifo_lots, make_book,
}
use qf635project.Position.Pnl.{aggregate_portfolio, notional}
use qf635project.Position.Pnl.Totals.{Holdings, total, realized, exposure, aggregate_portfolio_lem}
use qf635project.Position.Engine.{
  Tick, PositionEngine, opened, get_portfolio_aggregate, get_all_positions, snapshot,
}
use qf635project.Position.Engine.History.{
  Input, filled, ticked, mark_all, report, run, history, run-history-opened,
}

abbrev eth : Instrument
eth = record { instrument_id = 3; tick_size = pos 1; lot_size = pos 1; min_notional = none }

abbrev fill_of : ℕ → Side → ℕ → ℕ → FillEvent
fill_of strategy side price size = record {
  ts_event = 10;
  fill_id = 1;
  order_id = 1;
  strategy_id = strategy;
  instrument = eth;
  side = side;
  fill_price = pos price;
  fill_quantity = pos size;
  fee = pos 1;
}

abbrev quoted : Tick
quoted = record { instrument = eth; bid_price = pos 118; ask_price = pos 122 }

abbrev inputs : List Input
inputs =
    filled (fill_of 5 buy 100 4)
    ∷ filled (fill_of 6 sell 110 2)
    ∷ ticked quoted
    ∷ mark_all
    ∷ filled (fill_of 5 sell 120 4)
    ∷ report none
    ∷ []

run-history-opened_example :
    lookup (5, 3) (run (λ _. true) inputs (opened wavg)).books ≡ history wavg (5, 3) inputs none
run-history-opened_example = run-history-opened (λ _. true) wavg (5, 3) inputs

abbrev holdings : Holdings
holdings =
    (averaged (record { quantity = pos 4; avg_cost = pos 100; realized_pnl = negsuc 0 }), pos 120)
    ∷ (averaged (record { quantity = negsuc 1; avg_cost = pos 110; realized_pnl = pos 7 }), pos 120)
    ∷ []

summed :
    let a = aggregate_portfolio holdings in
    (a.realized_pnl ≡ total realized holdings)
    × (a.unrealized_pnl ≡ total Book.unrealized_pnl holdings)
    × (a.total_pnl
        ≡ total (λ book mark. realized book mark +ℤ Book.unrealized_pnl book mark) holdings)
    × (a.gross_exposure ≡ total exposure holdings)
    × (a.net_exposure ≡ total notional holdings)
    × (a.net_exposure ≤ℤ a.gross_exposure)
    × (pos 0 -ℤ a.gross_exposure ≤ℤ a.net_exposure)
summed = aggregate_portfolio_lem holdings

abbrev one_fill : PositionEngine
one_fill = run (λ _. true) (filled (fill_of 5 buy 100 4) ∷ []) (opened wavg)

-- A position of an instrument that never ticked is reported at a mark of zero: a loss of its cost.
unmarked_loss : (get_portfolio_aggregate none one_fill).unrealized_pnl ≡ negsuc 399
unfolding get_portfolio_aggregate run aggregate_portfolio
    qf635project.Position.Engine.History.handle qf635project.Position.Engine.on_fill
    qf635project.Position.Engine.safe_publish ◌+ℤ◌ Book.unrealized_pnl Book.apply_fill make_book
    qf635project.Position.Wavg.unrealized_pnl qf635project.Position.Wavg.apply_fill
    qf635project.Position.Wavg.open_flat qf635project.Base.Decimal.◌*ℤ◌ ◌-ℤ◌
unmarked_loss = refl

counted : snapshot (run (λ _. true) inputs (opened fifo_lots)) ≡ (1, 2, 0)
unfolding run snapshot qf635project.Position.Engine.History.handle
    qf635project.Position.Engine.publish_portfolio_snapshot
    qf635project.Position.Engine.safe_publish qf635project.Position.Engine.on_fill
    qf635project.Position.Engine.mark_to_market_all qf635project.Position.Engine.on_market_data
    Book.quantity Book.apply_fill make_book qf635project.Position.LotBook.quantity
    qf635project.Base.Decimal.◌*ℤ◌ qf635project.Position.LotBook.apply_fill ◌+ℤ◌ ◌-ℤ◌
counted = refl
