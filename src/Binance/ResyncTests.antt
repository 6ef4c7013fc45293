-- ===== src/Binance/ResyncTests.antt =====
-- order_gateways/binance/state_bootstrap.py and user_data.py at concrete inputs: a venue that lists none
-- of an OMS's two orders, where one is known as filled.
use qf635project.Base.{ℕ, suc, ◌≡◌, refl, true, none, some, List, [], ◌∷◌}
use qf635project.Base.Decimal.{pos, ◌+ℤ◌}
use qf635project.Core.{Instrument, OrderStatus, buy, limit, gtc, acknowledged, filled}
use qf635project.Oms.StateMachine
use qf635project.Oms.Order
use qf635project.Oms.Order.{Order}
use qf635project.Oms.Algo.{ExecutionAlgo}
use qf635project.Oms.Engine
use qf635project.Oms.Engine.{Oms}
use qf635project.Oms.Exposure
use qf635project.Oms.Response
use qf635project.Oms.Handlers
use qf635project.Binance.Bootstrap.{
  Env, Resync, filled_status, resync_once, adopt_open_orders, adopt_rows, publish_venue_positions,
  terminalize_gone_orders, note_orders, note_order, prune, resolve_all, resolve_gone_orders,
  resolve_orders,
}
use qf635project.Binance.Bootstrap.Moves.{Moves}
use qf635project.Binance.Bootstrap.Confirmed.{Confirmed}
use qf635project.Binance.UserData
use qf635project.Binance.UserData.{
  ExecutionReport, trade, canceled, execution_report, trade_lite, UserDataStream, handle_frame,
  handle_execution_report, report, publish_fill, publish, stream_of, run_loop, failed, returned,
  Published, fill,
}

abbrev silent : ExecutionAlgo ℕ
silent = record { next_slice = λ now a. none; on_fill = λ fill a. a; is_done = λ a. true }

abbrev oms_env : Engine.Env ℕ
oms_env = record {
  accepts = λ n. true;
  algo = silent;
  route = λ leg now i mark. none;
  strategy_text = λ s. s ∷ [];
  hex_of = λ k. k ∷ [];
}

abbrev number_of : List ℕ → ℕ
number_of [] = 0
number_of (c ∷ cs) = c

abbrev eth : Instrument
eth = record { instrument_id = 3; tick_size = pos 1; lot_size = pos 1; min_notional = none }

abbrev order_of : ℕ → Order
order_of id = record {
  order_id = id;
  client_order_id = 5 ∷ 45 ∷ id ∷ [];
  strategy_id = 5;
  instrument = eth;
  side = buy;
  order_type = limit;
  quantity = pos 10;
  price = some (pos 100);
  time_in_force = gtc;
  created_at_ns = 1;
  status = acknowledged;
  exchange_order_id = some 77;
  cumulative_filled = pos 0;
  average_fill_price = pos 0;
  last_update_ns = 2;
  parent_leg_id = none;
  applied_fills = [];
  pending_amend = none;
}

abbrev oms : Oms ℕ
oms = record {
  orders = order_of 0 ∷ order_of 1 ∷ [];
  coid_to_order_id = [];
  signal_cache = [];
  algos = [];
  algo_ctx = [];
  latest_mark = [];
  stp_enabled = true;
  self_trade_prevented = 0;
  signal_ttl_ns = 300;
  pending_amend_timeout_ns = 50;
  last_amend_sweep_ns = 0;
  started = true;
  dropped_events = 0;
  attempts = 0;
  published = [];
  next_order_id = 2;
}

-- The venue counts what it is asked.
abbrev env : Env ℕ
env = record {
  open_rows = λ symbol w. (some [], suc w);
  all_rows = λ symbol w. (
    some (
        record {
          client_order_id = 5 ∷ 45 ∷ 0 ∷ [];
          status = filled_status;
          executed_qty = some (pos 10);
        }
        ∷ []),
    suc w,
  );
  position_rows = λ w. (none, suc w);
  by_wire = λ symbol. none;
  futures = true;
  tracked = eth ∷ [];
}

-- Both orders were missing in the pass before.
abbrev before : Resync ℕ ℕ
before = record {
  oms = oms;
  venue = 0;
  consecutive_gone = (5 ∷ 45 ∷ 0 ∷ [], 1) ∷ (5 ∷ 45 ∷ 1 ∷ [], 1) ∷ [];
  published = [];
}

abbrev statuses : List Order → List OrderStatus
statuses [] = []
statuses (o ∷ os) = o.status ∷ statuses os

-- The one is ended as filled, and the other, of which the venue says nothing, stays.
resolved :
    statuses (resync_once oms_env number_of env 90 before).oms.orders ≡ filled ∷ acknowledged ∷ []
unfolding resync_once publish_venue_positions terminalize_gone_orders resolve_all note_orders
    Exposure.open_orders adopt_open_orders adopt_rows StateMachine.is_terminal note_order
    resolve_gone_orders resolve_orders Handlers.terminalize_from_venue
    qf635project.Core.status_is_terminal Response.terminalize Order.transition_to
    StateMachine.validate_transition Engine.publish_open_orders Engine.safe_publish prune
resolved = refl

abbrev stream_env : UserData.Env
stream_env = record {
  accepts = λ n. true;
  by_wire = λ symbol. some eth;
  strategy_id_lookup = λ coid. some 5;
  unknown_strategy = 0;
}

abbrev traded : ExecutionReport
traded = record {
  execution_type = trade;
  symbol = 3;
  client_order_id = 5 ∷ 45 ∷ 0 ∷ [];
  time_ms = 7;
  is_buy = true;
  last_qty = pos 4;
  last_price = pos 100;
  fee = pos 0;
}

abbrev stream : UserDataStream
stream = record UserData.opened { client_to_order_id = (5 ∷ 45 ∷ 0 ∷ [], 0) ∷ [] }

abbrev once : UserDataStream
once = stream_of (handle_frame stream_env 8 (execution_report traded) stream)

-- The fills of the orders of a stream, as the order takes them.
abbrev taken : List Published → Order → Order
taken [] o = o
taken (fill f ∷ evs) o = taken evs (Order.record_fill o f).1
taken (_ ∷ evs) o = taken evs o

-- One report that is delivered twice is two fills with two ids: the order counts the trade twice.
counted_twice :
    (taken
      (stream_of (handle_frame stream_env 9 (execution_report traded) once)).published
      (order_of 0)).cumulative_filled
    ≡ pos 8
unfolding handle_frame handle_execution_report report publish_fill publish Order.record_fill ◌+ℤ◌
counted_twice = refl

-- A report on an order that the stream has not heard of is passed over.
unheard :
    (stream_of (handle_frame stream_env 9 (execution_report traded) UserData.opened)).published ≡ []
unfolding handle_frame handle_execution_report
unheard = refl

waits :
    run_loop
      (failed ∷ failed ∷ failed ∷ failed ∷ failed ∷ failed ∷ failed ∷ failed ∷ returned ∷ failed
        ∷ [])
      1
    ≡ 1 ∷ 2 ∷ 4 ∷ 8 ∷ 16 ∷ 32 ∷ 60 ∷ 60 ∷ 1 ∷ []
unfolding run_loop
waits = refl
