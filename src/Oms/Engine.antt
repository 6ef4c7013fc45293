-- ===== src/Oms/Engine.antt =====
-- oms/engine.py: the state of the OMS, and the requests that it sends for orders. The n-th order id
-- that is drawn is n, and `texts` gives the texts that make up a client order id.
pub mod Keeps
pub mod Halted
pub mod Requests
pub mod Halt
use qf635project.Base.{
  ℕ, suc, ◌+◌, Bool, true, false, Option, none, some, List, [], ◌∷◌, ◌++◌, ◌==◌, ◌&&◌, not,
  if◌then◌else◌, any, map,
}
use qf635project.Base.Dict.{Dict, number_eq, text_eq, lookup, insert, erase}
use qf635project.Base.Decimal.{ℤ, pos}
use qf635project.Core.{
  Price, Quantity, Timestamp, Instrument, Side, OrderType, TimeInForce, OrderLeg, SignalEvent,
  WorkingExposure, OpenOrderDetail, pending_new, pending_cancel, pending_amend, rejected,
}
use qf635project.Oms.Order
use qf635project.Oms.Order.{Order, Outcome, returned, invalid_transition, transition_to}
use qf635project.Oms.Store.{get_order, put_order, update_order}
use qf635project.Oms.Exposure.{working_exposures, open_order_details}
use qf635project.Oms.Algo.{ChildOrderSpec, ExecutionAlgo, ExecutionRouter}

pub data Event : Type 0 where
  order_request : Order → Event
  cancel_request : (order_id : ℕ) → Event
  amend_request :
      (order_id : ℕ) (side : Side) (new_price : Option Price) (new_quantity : Quantity) → Event
  execution_routed : (leg_id : ℕ) (sliced : Bool) → Event
  order_acknowledged : (order_id exchange_order_id : ℕ) → Event
  open_orders_snapshot : List WorkingExposure → List OpenOrderDetail → Event

-- What the OMS is given: whether the bus takes its n-th event, the algos, the router, the text that a
-- strategy's number stands for, and the first twelve digits of an order id's hex form.
pub record Env (Algo : Type 0) : Type 0 where
  pub accepts : ℕ → Bool
  pub algo : ExecutionAlgo Algo
  pub route : ExecutionRouter Algo
  pub strategy_text : ℕ → List ℕ
  pub hex_of : ℕ → List ℕ

pub record Oms (Algo : Type 0) : Type 0 where
  pub orders : List Order
  pub coid_to_order_id : Dict (List ℕ) ℕ
  pub signal_cache : Dict ℕ (SignalEvent × Timestamp)
  pub algos : Dict ℕ Algo
  pub algo_ctx : Dict ℕ (SignalEvent × OrderLeg)
  pub latest_mark : Dict ℕ Price
  pub stp_enabled : Bool
  pub self_trade_prevented : ℕ
  pub signal_ttl_ns : ℕ
  pub pending_amend_timeout_ns : ℕ
  pub last_amend_sweep_ns : ℕ
  pub started : Bool
  pub dropped_events : ℕ
  pub attempts : ℕ
  pub published : List Event
  pub next_order_id : ℕ

-- The code point of `-`.
abbrev pub dash : ℕ
dash = 45

-- `_leg_has_live_children`
abbrev pub is_child_of : ℕ → Order → Bool
is_child_of leg_id o = elim o.parent_leg_id [ none ↦ false | some l ↦ leg_id == l ]

abbrev pub has_live_children : ℕ → List Order → Bool
has_live_children leg_id orders =
    any (λ o. is_child_of leg_id o && not (Order.is_terminal o)) orders

abbrev pub ids : List Order → List ℕ
ids orders = map (λ o. o.order_id) orders

abbrev pub is_open : Order → Bool
is_open o = not (Order.is_terminal o)

abbrev pub is_plain : Order → Bool
is_plain o = elim o.parent_leg_id [ none ↦ true | some _ ↦ false ]

abbrev pub legs_of : ℕ → List Order → List ℕ
legs_of sid [] = []
legs_of sid (o ∷ os) = elim o.parent_leg_id [
  | none ↦ legs_of sid os
  | some l ↦ if o.strategy_id == sid then l ∷ legs_of sid os else legs_of sid os
]

abbrev pub only : List ℕ → List ℕ → List ℕ
only wanted [] = []
only wanted (k ∷ ks) = if any (λ j. k == j) wanted then k ∷ only wanted ks else only wanted ks

module _ {Algo : Type 0} where
  -- `_retire_algo`
  unfoldable pub retire_algo : ℕ → Oms Algo → Oms Algo
  retire_algo leg_id e = record e {
    algos = erase leg_id e.algos;
    algo_ctx = erase leg_id e.algo_ctx;
  }

  unfoldable pub retire_algos : List ℕ → Oms Algo → Oms Algo
  retire_algos [] e = e
  retire_algos (leg_id ∷ leg_ids) e = retire_algos leg_ids (retire_algo leg_id e)

  abbrev pub keys : Dict ℕ Algo → List ℕ
  keys d = map (λ entry. entry.0) d

module _ {Algo : Type 0} (env : Env Algo) where
  -- `_safe_publish`
  unfoldable pub safe_publish : Event → Oms Algo → Bool × Oms Algo
  safe_publish event e =
      if env.accepts e.attempts
      then (true, record e { attempts = e.attempts + 1; published = e.published ++ event ∷ [] })
      else (false, record e { attempts = e.attempts + 1; dropped_events = e.dropped_events + 1 })

  -- `_publish_open_orders`
  unfoldable pub publish_open_orders : Oms Algo → Oms Algo
  publish_open_orders e =
      (safe_publish
        (open_orders_snapshot (working_exposures e.orders) (open_order_details e.orders)) e).1

  abbrev pub send_cancel : Oms Algo → Outcome (Unit {0}) × Order → Oms Algo
  send_cancel e (returned _, o) =
      (safe_publish (cancel_request o.order_id) (record e { orders = put_order o e.orders })).1
  send_cancel e (invalid_transition, o) = e

  -- `cancel_order` as `_safe_cancel` calls it: an unknown order is none to cancel.
  unfoldable pub safe_cancel : Timestamp → ℕ → Oms Algo → Oms Algo
  safe_cancel now order_id e = elim (get_order order_id e.orders) [
    | none ↦ e
    | some o ↦ if Order.is_terminal o then e else send_cancel e (transition_to o pending_cancel now)
  ]

  unfoldable pub cancel_if : Timestamp → (Order → Bool) → ℕ → Oms Algo → Oms Algo
  cancel_if now p order_id e = elim (get_order order_id e.orders) [
    | none ↦ e
    | some o ↦ if p o then safe_cancel now order_id e else e
  ]

  -- The loops that cancel each order of a kind.
  unfoldable pub cancel_where : Timestamp → (Order → Bool) → List ℕ → Oms Algo → Oms Algo
  cancel_where now p [] e = e
  cancel_where now p (order_id ∷ order_ids) e =
      cancel_where now p order_ids (cancel_if now p order_id e)

  -- `_cancel_children`
  unfoldable pub cancel_children : Timestamp → ℕ → Oms Algo → Oms Algo
  cancel_children now leg_id e =
      cancel_where now (λ o. is_child_of leg_id o && is_open o) (ids e.orders) e

  -- `_cancel_resting`
  unfoldable pub cancel_resting : Timestamp → ℕ → ℕ → Oms Algo → Oms Algo
  cancel_resting now sid iid e =
      cancel_where now
        (λ o. o.strategy_id == sid && o.instrument.instrument_id == iid && is_plain o && is_open o)
        (ids e.orders) e

  -- `_cancel_all_resting`
  unfoldable pub cancel_all_resting : Timestamp → Oms Algo → Oms Algo
  cancel_all_resting now e = cancel_where now is_open (ids e.orders) (retire_algos (keys e.algos) e)

  -- `cancel_strategy_orders`
  unfoldable pub cancel_strategy_orders : Timestamp → ℕ → Oms Algo → Oms Algo
  cancel_strategy_orders now sid e =
      cancel_where now (λ o. o.strategy_id == sid && is_open o) (ids e.orders)
        (retire_algos (only (legs_of sid e.orders) (keys e.algos)) e)

  -- The order that `_place_quote` and `_submit_child` build.
  abbrev pub new_order :
      Timestamp → SignalEvent → Side → ChildOrderSpec → Option ℕ → Oms Algo → Order
  new_order now signal side spec parent_leg_id e = record {
    order_id = e.next_order_id;
    client_order_id = env.strategy_text signal.strategy_id ++ dash ∷ env.hex_of e.next_order_id;
    strategy_id = signal.strategy_id;
    instrument = signal.instrument;
    side = side;
    order_type = spec.order_type;
    quantity = spec.quantity;
    price = spec.price;
    time_in_force = spec.time_in_force;
    created_at_ns = now;
    status = pending_new;
    exchange_order_id = none;
    cumulative_filled = pos 0;
    average_fill_price = pos 0;
    last_update_ns = 0;
    parent_leg_id = parent_leg_id;
    applied_fills = [];
    pending_amend = none;
  }

  abbrev pub with_order : Order → Oms Algo → Oms Algo
  with_order o e = record e {
    orders = e.orders ++ o ∷ [];
    coid_to_order_id = insert o.client_order_id o.order_id e.coid_to_order_id;
    next_order_id = suc e.next_order_id;
  }

  -- An order whose request the bus does not take is rejected.
  unfoldable pub submit : Timestamp → Order → Oms Algo → Oms Algo
  submit now o e =
      let (sent, e') = safe_publish (order_request o) (with_order o e) in
      if sent then e' else record e' {
        orders = update_order o.order_id (λ p. (transition_to p rejected now).1) e'.orders;
      }

  abbrev pub send_amend : OrderLeg → Oms Algo → Outcome (Unit {0}) × Order → Oms Algo
  send_amend leg e (returned _, o) =
      (safe_publish (amend_request o.order_id o.side leg.price leg.quantity) (record e {
        orders = put_order (record o { pending_amend = some (leg.price, leg.quantity) }) e.orders;
      })).1
  send_amend leg e (invalid_transition, o) = e

  -- `_amend_quote`, on the order that the map holds.
  unfoldable pub amend_quote : Timestamp → ℕ → OrderLeg → Oms Algo → Oms Algo
  amend_quote now order_id leg e = elim (get_order order_id e.orders) [
    | none ↦ e
    | some o ↦ send_amend leg e (transition_to o pending_amend now)
  ]
