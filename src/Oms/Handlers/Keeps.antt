-- ===== src/Oms/Handlers/Keeps.antt =====
-- oms/engine.py: the runs of the OMS, and what they do to an order.
use mathlib.Core.Path.{subst}
use qf635project.Base.{
  ℕ, ◌+◌, ◌≡◌, refl, Bool, true, false, Option, none, some, List, [], if-elim, if◌then◌else◌, ◌==◌,
  ◌&&◌, not, ltb,
}
use qf635project.Base.Dict.{number_eq, lookup, insert, erase}
use qf635project.Core.{
  Quantity, Timestamp, SignalEvent, RiskDecision, FillEvent, OrderStatus, status_is_terminal,
}
use qf635project.Oms.Order
use qf635project.Oms.Order.{Order, Outcome, returned, invalid_transition}
use qf635project.Oms.Store.{get_order, put_order, update_order}
use qf635project.Oms.Store.Evolution.{
  Follows, Evolves, update_order-Evolves, put_order-Evolves, map-Evolves,
}
use qf635project.Oms.Response.{
  VenueEvent, order_id_of, respond, sweep_order, fill_result, terminalize,
}
use qf635project.Oms.Response.Rollback.{
  respond-Follows, fill_result-Follows, sweep_order-Follows, terminalize-Follows,
}
use qf635project.Oms.Engine.{
  Env, Oms, keys, publish_open_orders, cancel_where, cancel_resting, cancel_strategy_orders,
  retire_algos, only, legs_of, ids, is_open,
}
use qf635project.Oms.Engine.Keeps.{
  Keeps, Keeps-refl, Keeps-trans, publish_open_orders-orders, cancel_where-Keeps,
  retire_algos-orders,
}
use qf635project.Oms.Slicing.{reconcile_quotes, drive_algos, retire_if_done}
use qf635project.Oms.Slicing.Keeps.{
  reconcile_quotes-Keeps, drive_algos-Keeps, retire_if_done-orders,
}
use qf635project.Oms.Handlers.{
  ns_per_second, changes_exposure, approved_legs_of, quantities, on_risk_decision, on_order_event,
  tell_algo, after_fill, on_fill, sweep_stale_pending_amends, driver_round, terminalize_order,
  terminalize_from_venue,
}

module _ {Algo : Type 0} (env : Env Algo) (now : Timestamp) where
  published-Keeps : (e f : Oms Algo) → Keeps e f → Keeps e (publish_open_orders env f)
  published-Keeps e f h = rw (publish_open_orders-orders env f) h

  pub on_risk_decision-Keeps :
      (d : RiskDecision) (e : Oms Algo) → Keeps e (on_risk_decision env now d e)
  unfolding on_risk_decision cancel_resting
  on_risk_decision-Keeps d e = go (lookup d.signal_event_id e.signal_cache)
    where
      taken : Oms Algo
      taken = record e { signal_cache = erase d.signal_event_id e.signal_cache }

      go :
          (r : Option (SignalEvent × Timestamp))
          → Keeps e (elim r [
            | none ↦ e
            | some (signal, _) ↦
                let e' = record e { signal_cache = erase d.signal_event_id e.signal_cache } in
                if d.approved
                then reconcile_quotes env now
                    (record signal {
                      legs = approved_legs_of (quantities d.approved_legs []) signal.legs;
                    })
                    e'
                else cancel_resting env now signal.strategy_id signal.instrument.instrument_id e'
          ])
      go none = Keeps-refl e
      go (some (signal, _)) =
          if-elim (Keeps e) d.approved _ _ (λ _. reconcile_quotes-Keeps env now _ taken)
            (λ _. cancel_where-Keeps env now _ _ taken)

  pub on_order_event-Keeps :
      (event : VenueEvent) (e : Oms Algo) → Keeps e (on_order_event env now event e)
  unfolding on_order_event
  on_order_event-Keeps event e =
      let k = order_id_of event in
      let f : Oms Algo = record e { orders = update_order k (respond now event) e.orders } in
      let moved : Keeps e f =
        update_order-Evolves k (respond now event) e.orders (respond-Follows now event) in
      if-elim (Keeps e) (changes_exposure event) (publish_open_orders env f) f
        (λ _. published-Keeps e f moved) (λ _. moved)

  tell_algo-orders :
      (fill : FillEvent) (o : Order) (e : Oms Algo) → (tell_algo env now fill o e).orders ≡ e.orders
  tell_algo-orders fill o e = go o.parent_leg_id
    where
      at_leg :
          (k : ℕ) (r : Option Algo)
          → let f : Oms Algo = elim r [
            | none ↦ e
            | some a ↦
                let a' = env.algo.on_fill fill a in
                retire_if_done env now k a' (record e { algos = insert k a' e.algos })
          ] in
            f.orders ≡ e.orders
      at_leg k none = refl
      at_leg k (some a) =
          let a' = env.algo.on_fill fill a in
          retire_if_done-orders env now k a' (record e { algos = insert k a' e.algos })

      go :
          (r : Option ℕ)
          → let f : Oms Algo = elim r [
            | none ↦ e
            | some k ↦ elim (lookup k e.algos) [
              | none ↦ e
              | some a ↦
                  let a' = env.algo.on_fill fill a in
                  retire_if_done env now k a' (record e { algos = insert k a' e.algos })
            ]
          ] in
            f.orders ≡ e.orders
      go none = refl
      go (some k) = at_leg k (lookup k e.algos)

  pub on_fill-Keeps : (fill : FillEvent) (e : Oms Algo) → Keeps e (on_fill env now fill e)
  unfolding on_fill
  on_fill-Keeps fill e = go (get_order fill.order_id e.orders) refl
    where
      after :
          (o : Order) (t : Bool) (r : Outcome Bool × Order)
          → get_order fill.order_id e.orders ≡ some o
          → Follows o r.1
          → Keeps e (after_fill env now fill t r e)
      after o t (returned true, p) found h =
          let f : Oms Algo = record e { orders = put_order p e.orders } in
          let moved : Keeps e f = put_order-Evolves fill.order_id o p e.orders found h in
          if-elim (λ (g : Oms Algo). Keeps e (publish_open_orders env g)) t f
            (tell_algo env now fill p f) (λ _. published-Keeps e f moved)
            (λ _.
              published-Keeps e (tell_algo env now fill p f) (rw (tell_algo-orders fill p f) moved))
      after o t (returned false, p) found h = Keeps-refl e
      after o t (invalid_transition, p) found h =
          put_order-Evolves fill.order_id o p e.orders found h

      go :
          (r : Option Order)
          → get_order fill.order_id e.orders ≡ r
          → Keeps e (elim r [
            | none ↦ e
            | some o ↦ after_fill env now fill (Order.is_terminal o) (fill_result fill o) e
          ])
      go none found = Keeps-refl e
      go (some o) found =
          after o (Order.is_terminal o) (fill_result fill o) found (fill_result-Follows fill o)

  sweep-Keeps : (e : Oms Algo) → Keeps e (sweep_stale_pending_amends env now e)
  unfolding sweep_stale_pending_amends
  sweep-Keeps e =
      if-elim (Keeps e) (ltb now (e.last_amend_sweep_ns + ns_per_second)) _ _ (λ _. Keeps-refl e)
        (λ _.
          map-Evolves (sweep_order now e.pending_amend_timeout_ns) e.orders
            (sweep_order-Follows now e.pending_amend_timeout_ns))

  pub driver_round-Keeps : (e : Oms Algo) → Keeps e (driver_round env now e)
  unfolding driver_round
  driver_round-Keeps e =
      let f = drive_algos env now (keys e.algos) e in
      Keeps-trans e f (sweep_stale_pending_amends env now f)
        (drive_algos-Keeps env now (keys e.algos) e) (sweep-Keeps f)

  pub terminalize_from_venue-Keeps :
      (k : ℕ) (status : OrderStatus) (total : Option Quantity) (e : Oms Algo)
      → Keeps e (terminalize_from_venue env now k status total e)
  unfolding terminalize_from_venue
  terminalize_from_venue-Keeps k status total e = go (get_order k e.orders) refl
    where
      go :
          (r : Option Order)
          → get_order k e.orders ≡ r
          → Keeps e (elim r [ none ↦ e | some o ↦ terminalize_order env now status total o e ])
      go none found = Keeps-refl e
      go (some o) found =
          let p = terminalize now status total o in
          let f : Oms Algo = record e { orders = put_order p e.orders } in
          let moved : Keeps e f =
            put_order-Evolves k o p e.orders found (terminalize-Follows now status total o) in
          if-elim (Keeps e) (not (Order.is_terminal o) && status_is_terminal p.status)
            (publish_open_orders env f) f (λ _. published-Keeps e f moved) (λ _. moved)

  pub cancel_strategy_orders-Keeps :
      (sid : ℕ) (e : Oms Algo) → Keeps e (cancel_strategy_orders env now sid e)
  unfolding cancel_strategy_orders
  cancel_strategy_orders-Keeps sid e =
      let legs = only (legs_of sid e.orders) (keys e.algos) in
      subst
        (λ (xs : List Order).
          Evolves xs
            (cancel_where env now (λ o. o.strategy_id == sid && is_open o) (ids e.orders)
              (retire_algos legs e)).orders)
        (retire_algos-orders legs e)
        (cancel_where-Keeps env now (λ o. o.strategy_id == sid && is_open o) (ids e.orders)
          (retire_algos legs e))
