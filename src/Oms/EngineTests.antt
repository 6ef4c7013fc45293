-- ===== src/Oms/EngineTests.antt =====
-- A maker with a bid, an ask in the middle of an amend and a new order, on a bus that drops every third
-- event, and with algos that send nothing.
use qf635project.Base.{
  Extends, ◌++◌, ℕ, ◌≡◌, refl, true, false, Option, none, some, List, [], ◌∷◌, ◌==◌, ◌%◌, not,
  if◌then◌else◌, arith,
}
use qf635project.Base.Decimal.{pos, eq_ℤ, div_ℤ, ◌*ℤ◌, ◌-ℤ◌}
use qf635project.Core.{
  cancelled, Price, Quantity, Timestamp, Instrument, SignalEvent, RiskDecision, FillEvent,
  OrderStatus, Side, buy, sell, limit, gtc, passive, info, pending_new, acknowledged, filled,
  pending_amend,
}
use qf635project.Oms.Order
use qf635project.Oms.Order.{Order, leaves_quantity}
use qf635project.Oms.Store.{get_order}
use qf635project.Oms.Store.Evolution.{Follows}
use qf635project.Oms.Response.{order_cancelled, order_amended, amend_rejected, respond, sweep_order}
use qf635project.Oms.Response.Rollback.{roll_back_lem}
use qf635project.Oms.Exposure.{working_exposures}
use qf635project.Oms.Exposure.Totals.{
  reported, reported_count, open_leaves, open_count, working_exposures_lem,
}
use qf635project.Oms.Algo.{ExecutionAlgo}
use qf635project.Oms.Engine.{Env, Oms, cancel_all_resting}
use qf635project.Oms.Engine.Keeps.{Keeps}
use qf635project.Oms.Engine.Halted.{Halted, is_halted}
use qf635project.Oms.Engine.Requests.{Requests}
use qf635project.Oms.Engine.Halt.{cancel_all_resting_lem}
use qf635project.Oms.Reconcile.{reconcile_immediate}
use qf635project.Oms.Reconcile.Untouched.{CrossesNone}
use qf635project.Oms.Reconcile.SelfTrade.{reconcile_immediate-CrossesNone}
use qf635project.Oms.Twap.{TwapAlgo, create, is_done, next_slice}
use qf635project.Oms.Twap.Schedule.{wake, create-wake, create-Late}
use qf635project.Oms.Adoption.{VenueOrder}
use qf635project.Oms.Run.{
  adopt_call, Input, signal_event, decision_event, kill_switch_event, order_event, fill_event,
  driver_tick, run,
}
use qf635project.Oms.Run.Lifecycle.{run_lem}

abbrev silent : ExecutionAlgo ℕ
silent = record { next_slice = λ now a. some (none, a); on_fill = λ f a. a; is_done = λ a. true }

abbrev env : Env ℕ
env = record {
  accepts = λ n. not (n % 3 == 2);
  algo = silent;
  route = λ leg now i mark. none;
  strategy_text = λ s. s ∷ [];
  hex_of = λ k. k ∷ [];
}

abbrev eth : Instrument
eth = record { instrument_id = 3; tick_size = pos 1; lot_size = pos 1; min_notional = none }

abbrev order_of : ℕ → Side → ℕ → OrderStatus → Order
order_of id side size status = record {
  order_id = id;
  client_order_id = 5 ∷ 45 ∷ id ∷ [];
  strategy_id = 5;
  instrument = eth;
  side = side;
  order_type = limit;
  quantity = pos size;
  price = some (pos 100);
  time_in_force = gtc;
  created_at_ns = 1;
  status = status;
  exchange_order_id = some 77;
  cumulative_filled = pos 0;
  average_fill_price = pos 0;
  last_update_ns = 2;
  parent_leg_id = none;
  applied_fills = [];
  pending_amend = none;
}

abbrev book : List Order
book =
    order_of 0 buy 10 acknowledged
    ∷ order_of 1 sell 7 pending_amend
    ∷ order_of 2 buy 4 pending_new
    ∷ order_of 3 buy 6 filled
    ∷ []

abbrev oms : Oms ℕ
oms = record {
  orders = book;
  coid_to_order_id = [];
  signal_cache = [];
  algos = [];
  algo_ctx = [];
  latest_mark = [];
  stp_enabled = true;
  self_trade_prevented = 0;
  signal_ttl_ns = 300;
  pending_amend_timeout_ns = 50;
  last_amend_sweep_ns = 0;
  started = true;
  dropped_events = 0;
  attempts = 0;
  published = [];
  next_order_id = 4;
}

abbrev quote : SignalEvent
quote = record {
  event_id = 9;
  strategy_id = 5;
  instrument = eth;
  legs =
      record {
        leg_id = 1;
        side = buy;
        quantity = pos 8;
        price = some (pos 99);
        order_type = limit;
        time_in_force = gtc;
        intent = passive;
      }
      ∷ [];
  atomic = false;
}

abbrev approval : RiskDecision
approval = record {
  signal_event_id = 9;
  strategy_id = 5;
  approved = true;
  severity = info;
  rule_name = none;
  approved_legs = record { leg_id = 1; side = buy; approved_quantity = pos 8 } ∷ [];
  rejected_legs = [];
}

abbrev some_fill : FillEvent
some_fill = record {
  ts_event = 14;
  fill_id = 1;
  order_id = 0;
  strategy_id = 5;
  instrument = eth;
  side = buy;
  fill_price = pos 100;
  fill_quantity = pos 3;
  fee = pos 0;
}

-- An order that a resync finds on the venue.
abbrev from_venue : VenueOrder
from_venue = record {
  instrument = eth;
  client_order_id = 109 ∷ [];
  side = sell;
  order_type = limit;
  quantity = pos 4;
  cumulative_filled = pos 1;
  price = some (pos 120);
  time_in_force = gtc;
  exchange_order_id = some 77;
  created_at_ns = none;
}

abbrev day : List (Timestamp × Input)
day =
    (10, signal_event quote)
    ∷ (11, decision_event approval)
    ∷ (14, fill_event some_fill)
    ∷ (15, order_event (order_amended 0 15 (some (pos 99)) (some (pos 8)) none))
    ∷ (20, kill_switch_event)
    ∷ (21, order_event (order_cancelled 0 21))
    ∷ (22, adopt_call from_venue)
    ∷ (2_000_000_000, driver_tick)
    ∷ []

run_lem_example :
    (o' : Order) × (get_order 0 (run env (λ text. 7) day oms).orders ≡ some o')
    × Follows (order_of 0 buy 10 acknowledged) o'
    × (Order.is_terminal (order_of 0 buy 10 acknowledged) ≡ true → o'.status ≡ acknowledged)
run_lem_example = run_lem env (λ text. 7) day oms 0 (order_of 0 buy 10 acknowledged) refl

cancel_all_resting_lem_example :
    let e' = cancel_all_resting env 20 oms in
    ((k : ℕ) → Halted k e')
    × (e'.algos ≡ [])
    × Keeps oms e'
    × ((k : ℕ) (o : Order)
        → get_order k oms.orders ≡ some o
        → is_halted o.status ≡ false
        → Requests k oms e')
cancel_all_resting_lem_example = cancel_all_resting_lem env 20 oms

working_exposures_lem_example :
    (reported 5 3 buy (working_exposures book) ≡ open_leaves 5 3 buy book)
    × (reported_count 5 3 (working_exposures book) ≡ open_count 5 3 book)
working_exposures_lem_example = working_exposures_lem 5 3 buy book

abbrev waiting : Order
waiting = order_of 1 sell 7 pending_amend

roll_back_lem_example :
    (sweep_order 60 50 waiting ≡ respond 60 (amend_rejected 1) waiting)
    × ((sweep_order 60 50 waiting).pending_amend ≡ none)
    × ((sweep_order 60 50 waiting).status
        ≡ (if eq_ℤ (leaves_quantity waiting) (pos 0) then filled else acknowledged))
    × ((ts : Timestamp) (price : Option Price) (quantity : Option Quantity) (x : Option ℕ)
        → respond 60 (order_amended 1 ts price quantity x) (sweep_order 60 50 waiting)
          ≡ sweep_order 60 50 waiting)
    × ((ts : Timestamp)
        → (respond 60 (order_cancelled 1 ts) (sweep_order 60 50 waiting)).status
          ≡ (if eq_ℤ (leaves_quantity waiting) (pos 0) then filled else cancelled))
roll_back_lem_example = roll_back_lem 60 50 waiting refl (omega arith)

-- Another strategy asks at the price that the maker would bid.
abbrev with_sibling : Oms ℕ
with_sibling = record oms {
  orders =
      book
      ++ record (order_of 4 sell 5 acknowledged) { strategy_id = 6; price = some (pos 99) } ∷ [];
  next_order_id = 5;
}

reconcile_immediate-CrossesNone_example :
    Extends
      (CrossesNone 5 3 with_sibling.orders)
      []
      (reconcile_immediate env 11 quote quote.legs with_sibling).published
reconcile_immediate-CrossesNone_example =
    reconcile_immediate-CrossesNone env 11 quote quote.legs with_sibling
      ((refl, (refl, (refl, (refl, (refl, tt))))), (λ k h. ground (arith, h))) refl

-- Seven in three slices.
abbrev sliced : TwapAlgo
sliced = record {
  quantity = pos 7;
  num_slices = 3;
  interval_ns = 10;
  slice_qty = pos 2;
  remainder = pos 3;
  order_type = limit;
  time_in_force = gtc;
  price = none;
  slices_sent = 0;
  start_ns = 100;
  cancelled = false;
}

abbrev wakes : List Timestamp
wakes = 100 ∷ 105 ∷ 110 ∷ 131 ∷ []

create-wake_example : (wake wakes sliced).0 ≡ pos 7
unfolding create wake next_slice div_ℤ ◌*ℤ◌ ◌-ℤ◌
create-wake_example = create-wake (pos 7) 30 3 100 limit gtc none sliced wakes refl refl

create-Late_example :
    ((wake (130 ∷ 131 ∷ 132 ∷ []) sliced).0 ≡ pos 7)
    × (is_done (wake (130 ∷ 131 ∷ 132 ∷ []) sliced).1 ≡ true)
unfolding create div_ℤ ◌*ℤ◌ ◌-ℤ◌
create-Late_example =
    create-Late (pos 7) 30 3 100 limit gtc none sliced (130 ∷ 131 ∷ 132 ∷ []) refl
      (omega arith, (omega arith, (omega arith, tt))) (omega arith)
