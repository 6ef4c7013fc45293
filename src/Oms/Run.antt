-- ===== src/Oms/Run.antt =====
-- oms/engine.py: the runs of the OMS.
pub mod Lifecycle
use qf635project.Base.{ℕ, Option, List, [], ◌∷◌}
use qf635project.Core.{
  Price, Quantity, Timestamp, SignalEvent, RiskDecision, FillEvent, OrderStatus,
}
use qf635project.Oms.Response.{VenueEvent}
use qf635project.Oms.Engine.{Env, Oms, safe_cancel, cancel_strategy_orders}
use qf635project.Oms.Adoption.{VenueOrder, adopt_order}
use qf635project.Oms.Handlers.{
  on_signal, on_risk_decision, on_kill_switch, on_order_event, on_market_data, on_fill,
  driver_round, terminalize_from_venue,
}

-- What reaches the OMS: the bus events, a round of the driver, and the calls of its owner.
pub data Input : Type 0 where
  signal_event : SignalEvent → Input
  decision_event : RiskDecision → Input
  kill_switch_event : Input
  order_event : VenueEvent → Input
  mark_event : (instrument_id : ℕ) → Price → Input
  fill_event : FillEvent → Input
  driver_tick : Input
  terminalize_call : (order_id : ℕ) → OrderStatus → Option Quantity → Input
  cancel_call : (order_id : ℕ) → Input
  pause_call : (strategy_id : ℕ) → Input
  adopt_call : VenueOrder → Input

-- `number_of` is the number that stands for a strategy's text.
module _ {Algo : Type 0} (env : Env Algo) (number_of : List ℕ → ℕ) where
  unfoldable pub handle : Timestamp → Input → Oms Algo → Oms Algo
  handle now (signal_event s) e = on_signal env now s e
  handle now (decision_event d) e = on_risk_decision env now d e
  handle now kill_switch_event e = on_kill_switch env now e
  handle now (order_event event) e = on_order_event env now event e
  handle now (mark_event iid mid) e = on_market_data env now iid mid e
  handle now (fill_event f) e = on_fill env now f e
  handle now driver_tick e = driver_round env now e
  handle now (terminalize_call k status total) e = terminalize_from_venue env now k status total e
  handle now (cancel_call k) e = safe_cancel env now k e
  handle now (pause_call sid) e = cancel_strategy_orders env now sid e
  handle now (adopt_call v) e = (adopt_order env number_of now v e).1

  -- The inputs one after another, each at its time.
  unfoldable pub run : List (Timestamp × Input) → Oms Algo → Oms Algo
  run [] e = e
  run ((now, input) ∷ inputs) e = run inputs (handle now input e)
