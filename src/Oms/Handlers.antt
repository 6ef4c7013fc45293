-- ===== src/Oms/Handlers.antt =====
-- oms/engine.py: the handlers of the bus events, the sweep, the adoption of orders and the lifecycle.
pub mod Keeps
use qf635project.Base.{
  ℕ, ◌+◌, ◌*◌, Bool, true, false, Option, none, some, List, [], ◌∷◌, ◌++◌, ltb, ◌&&◌, not,
  if◌then◌else◌, any, map,
}
use qf635project.Base.Dict.{Dict, number_eq, lookup, insert, erase}
use qf635project.Core.{
  Price, Quantity, Timestamp, OrderLeg, SignalEvent, ApprovedLeg, RiskDecision, FillEvent,
  OrderStatus, status_is_terminal,
}
use qf635project.Oms.Order
use qf635project.Oms.Order.{Order, Outcome, returned, invalid_transition, record_fill, apply_fill}
use qf635project.Oms.Store.{get_order, put_order, update_order}
use qf635project.Oms.Response.{
  VenueEvent, order_acknowledged, order_rejected, cancel_rejected, amend_rejected, order_cancelled,
  order_amended, order_id_of, respond, sweep_order, fill_result, terminalize,
}
use qf635project.Oms.Engine.{
  Env, Oms, publish_open_orders, cancel_resting, cancel_all_resting, has_live_children, keys,
}
use qf635project.Oms.Slicing.{reconcile_quotes, retire_if_done, drive_algos}

abbrev pub ns_per_second : ℕ
ns_per_second = 1_000_000_000

-- The responses after which the exposures are published.
abbrev pub changes_exposure : VenueEvent → Bool
changes_exposure (order_rejected _ _) = true
changes_exposure (order_cancelled _ _) = true
changes_exposure (order_amended _ _ _ _ _) = true
changes_exposure (order_acknowledged _ _ _) = false
changes_exposure (cancel_rejected _ _) = false
changes_exposure (amend_rejected _) = false

abbrev Cache : Type 0
Cache = Dict ℕ (SignalEvent × Timestamp)

-- `_evict_stale_signals`: from the front, while older than `now - ttl`, which may be negative.
unfoldable pub evict_stale_signals : Timestamp → ℕ → Cache → Cache
evict_stale_signals now ttl [] = []
evict_stale_signals now ttl ((k, (signal, received)) ∷ rest) =
    let later = evict_stale_signals now ttl rest in
    if ltb (received + ttl) now then later else (k, (signal, received)) ∷ later

-- `approved_qty_by_leg`
abbrev pub quantities : List ApprovedLeg → Dict ℕ Quantity → Dict ℕ Quantity
quantities [] d = d
quantities (a ∷ as') d = quantities as' (insert a.leg_id a.approved_quantity d)

-- The legs that are approved, at their approved sizes.
abbrev pub approved_legs_of : Dict ℕ Quantity → List OrderLeg → List OrderLeg
approved_legs_of d [] = []
approved_legs_of d (leg ∷ legs) = elim (lookup leg.leg_id d) [
  | none ↦ approved_legs_of d legs
  | some q ↦ record leg { quantity = q } ∷ approved_legs_of d legs
]

module _ {Algo : Type 0} (env : Env Algo) (now : Timestamp) where
  unfoldable pub on_signal : SignalEvent → Oms Algo → Oms Algo
  on_signal signal e = record e {
    signal_cache =
        insert signal.event_id (signal, now)
          (evict_stale_signals now e.signal_ttl_ns e.signal_cache);
  }

  unfoldable pub on_risk_decision : RiskDecision → Oms Algo → Oms Algo
  on_risk_decision d e = elim (lookup d.signal_event_id e.signal_cache) [
    | none ↦ e
    | some (signal, _) ↦
        let e' = record e { signal_cache = erase d.signal_event_id e.signal_cache } in
        if d.approved
        then reconcile_quotes env now
            (record signal { legs = approved_legs_of (quantities d.approved_legs []) signal.legs })
            e'
        else cancel_resting env now signal.strategy_id signal.instrument.instrument_id e'
  ]

  -- `_on_alert`, for a KillSwitchEvent.
  unfoldable pub on_kill_switch : Oms Algo → Oms Algo
  on_kill_switch e = cancel_all_resting env now e

  unfoldable pub on_order_event : VenueEvent → Oms Algo → Oms Algo
  on_order_event event e =
      let e' = record e {
        orders = update_order (order_id_of event) (respond now event) e.orders;
      } in
      if changes_exposure event then publish_open_orders env e' else e'

  unfoldable pub on_market_data : ℕ → Price → Oms Algo → Oms Algo
  on_market_data iid mid e = record e { latest_mark = insert iid mid e.latest_mark }

  -- The algo that owns the order, if there is one, is told.
  abbrev pub tell_algo : FillEvent → Order → Oms Algo → Oms Algo
  tell_algo fill o e = elim o.parent_leg_id [
    | none ↦ e
    | some leg_id ↦ elim (lookup leg_id e.algos) [
      | none ↦ e
      | some a ↦
          let a' = env.algo.on_fill fill a in
          retire_if_done env now leg_id a' (record e { algos = insert leg_id a' e.algos })
    ]
  ]

  abbrev pub after_fill : FillEvent → Bool → Outcome Bool × Order → Oms Algo → Oms Algo
  after_fill fill was_terminal (returned true, o) e =
      let e' = record e { orders = put_order o e.orders } in
      publish_open_orders env (if was_terminal then e' else tell_algo fill o e')
  after_fill fill was_terminal (returned false, o) e = e
  after_fill fill was_terminal (invalid_transition, o) e = record e {
    orders = put_order o e.orders;
  }

  unfoldable pub on_fill : FillEvent → Oms Algo → Oms Algo
  on_fill fill e = elim (get_order fill.order_id e.orders) [
    | none ↦ e
    | some o ↦ after_fill fill (Order.is_terminal o) (fill_result fill o) e
  ]

  -- `_sweep_stale_pending_amends`, at most once a second.
  unfoldable pub sweep_stale_pending_amends : Oms Algo → Oms Algo
  sweep_stale_pending_amends e =
      if ltb now (e.last_amend_sweep_ns + ns_per_second) then e else record e {
        last_amend_sweep_ns = now;
        orders = map (sweep_order now e.pending_amend_timeout_ns) e.orders;
      }

  -- One round of `_algo_driver`.
  unfoldable pub driver_round : Oms Algo → Oms Algo
  driver_round e = sweep_stale_pending_amends (drive_algos env now (keys e.algos) e)

  -- `terminalize_from_venue`
  abbrev pub terminalize_order : OrderStatus → Option Quantity → Order → Oms Algo → Oms Algo
  terminalize_order status total o e =
      let e' = record e { orders = put_order (terminalize now status total o) e.orders } in
      if not (Order.is_terminal o) && status_is_terminal (terminalize now status total o).status
      then publish_open_orders env e'
      else e'

  unfoldable pub terminalize_from_venue : ℕ → OrderStatus → Option Quantity → Oms Algo → Oms Algo
  terminalize_from_venue order_id status total e = elim (get_order order_id e.orders) [
    | none ↦ e
    | some o ↦ terminalize_order status total o e
  ]

-- `start` and `stop`
unfoldable pub start : {Algo : Type 0} → Oms Algo → Oms Algo
start e = record e { started = true }

unfoldable pub stop : {Algo : Type 0} → Oms Algo → Oms Algo
stop e = record e { started = false }
