-- ===== src/Oms/Run/Lifecycle.antt =====
-- oms/engine.py: what a run does to an order.
use mathlib.Core.Path.{subst}
use qf635project.Base.Dict.{text_eq, lookup}
use qf635project.Base.{arith, none, Option, sym, refl, ◌∙◌, ℕ, ◌≡◌, true, some, List, [], ◌∷◌}
use qf635project.Core.{Timestamp, Price, Quantity}
use qf635project.Oms.StateMachine.Reachability.{Reach-terminal, terminal_iff, Reach, here}
use qf635project.Oms.Order
use qf635project.Oms.Order.{Order}
use qf635project.Oms.Store.{get_order, update_order}
use qf635project.Oms.Store.Evolution.{Follows, Evolves, update_order-Evolves, append-Evolves}
use qf635project.Oms.Engine.{
  Env, Oms, order_acknowledged, safe_publish, publish_open_orders, with_order,
}
use qf635project.Oms.Adoption.{VenueOrder, adopted, announce, adopt_order}
use qf635project.Oms.Response.{refresh}
use qf635project.Oms.Engine.Keeps.{
  Keeps, Keeps-refl, Keeps-trans, safe_cancel-Keeps, publish_open_orders-orders,
  safe_publish-orders,
}
use qf635project.Oms.Engine.Halt.{cancel_all_resting_lem}
use qf635project.Oms.Handlers.{on_signal, on_kill_switch, on_market_data}
use qf635project.Oms.Handlers.Keeps.{
  on_risk_decision-Keeps, on_order_event-Keeps, on_fill-Keeps, driver_round-Keeps,
  terminalize_from_venue-Keeps, cancel_strategy_orders-Keeps,
}
use qf635project.Oms.Run.{
  Input, signal_event, decision_event, kill_switch_event, order_event, mark_event, fill_event,
  driver_tick, terminalize_call, cancel_call, pause_call, adopt_call, handle, run,
}

module _ {Algo : Type 0} (env : Env Algo) where
  announced-orders :
      (o : Order) (e : Oms Algo) → (publish_open_orders env (announce env o e)).orders ≡ e.orders
  announced-orders o e = publish_open_orders-orders env (announce env o e) ∙ go o.exchange_order_id
    where
      go :
          (x : Option ℕ)
          → Oms.orders (elim x as (λ _. Oms Algo) [
            | none ↦ e
            | some xid ↦ (safe_publish env (order_acknowledged o.order_id xid) e).1
          ])
            ≡ e.orders
      go none = refl
      go (some xid) = safe_publish-orders env (order_acknowledged o.order_id xid) e

refresh-same :
    (quantity filled : Quantity) (price : Option Price) (o : Order)
    → ((refresh quantity filled price o).order_id ≡ o.order_id)
      × ((refresh quantity filled price o).client_order_id ≡ o.client_order_id)
      × ((refresh quantity filled price o).strategy_id ≡ o.strategy_id)
      × ((refresh quantity filled price o).instrument ≡ o.instrument)
      × ((refresh quantity filled price o).side ≡ o.side)
      × ((refresh quantity filled price o).status ≡ o.status)
unfolding refresh
refresh-same quantity filled price o = ground arith

refresh-Follows :
    (quantity filled : Quantity) (price : Option Price) (o : Order)
    → Follows o (refresh quantity filled price o)
refresh-Follows quantity filled price o =
    let (a, b, c, d, e, status) = refresh-same quantity filled price o in
    (a, b, c, d, e, subst (Reach o.status) (sym status) here)

adopt_order-Keeps :
    {Algo : Type 0} (env : Env Algo) (number_of : List ℕ → ℕ) (now : Timestamp) (v : VenueOrder)
    (e : Oms Algo)
    → Keeps e (adopt_order env number_of now v e).1
unfolding adopt_order
adopt_order-Keeps {Algo} env number_of now v e = go (lookup v.client_order_id e.coid_to_order_id)
  where
    o : Order
    o = adopted number_of now v e

    go :
        (r : Option ℕ)
        → Keeps e
            (elim r as (λ _. ℕ × Oms Algo) [
              | some k ↦ (
                k,
                record e {
                  orders = update_order k (refresh v.quantity v.cumulative_filled v.price) e.orders;
                },
              )
              | none ↦ (o.order_id, publish_open_orders env (announce env o (with_order env o e)))
            ]).1
    go (some k) =
        update_order-Evolves k (refresh v.quantity v.cumulative_filled v.price) e.orders
          (refresh-Follows v.quantity v.cumulative_filled v.price)
    go none =
        subst (Evolves e.orders) (sym (announced-orders env o (with_order env o e)))
          (append-Evolves e.orders (o ∷ []))

module _ {Algo : Type 0} (env : Env Algo) (number_of : List ℕ → ℕ) (now : Timestamp) where
  handle-Keeps : (input : Input) (e : Oms Algo) → Keeps e (handle env number_of now input e)
  unfolding handle on_signal on_kill_switch on_market_data
  handle-Keeps (signal_event s) e = Keeps-refl e
  handle-Keeps (decision_event d) e = on_risk_decision-Keeps env now d e
  handle-Keeps kill_switch_event e = (cancel_all_resting_lem env now e).2
  handle-Keeps (order_event event) e = on_order_event-Keeps env now event e
  handle-Keeps (mark_event iid mid) e = Keeps-refl e
  handle-Keeps (fill_event f) e = on_fill-Keeps env now f e
  handle-Keeps driver_tick e = driver_round-Keeps env now e
  handle-Keeps (terminalize_call k status total) e =
      terminalize_from_venue-Keeps env now k status total e
  handle-Keeps (cancel_call k) e = safe_cancel-Keeps env now k e
  handle-Keeps (pause_call sid) e = cancel_strategy_orders-Keeps env now sid e
  handle-Keeps (adopt_call v) e = adopt_order-Keeps env number_of now v e

run-Keeps :
    {Algo : Type 0} (env : Env Algo) (number_of : List ℕ → ℕ) (inputs : List (Timestamp × Input))
    (e : Oms Algo)
    → Keeps e (run env number_of inputs e)
unfolding run
run-Keeps env number_of [] e = Keeps-refl e
run-Keeps env number_of ((now, input) ∷ rest) e =
    let f = handle env number_of now input e in
    Keeps-trans e f (run env number_of rest f) (handle-Keeps env number_of now input e)
      (run-Keeps env number_of rest f)

-- Whatever the bus delivers, the driver's rounds, and the calls that end, cancel, pause or adopt orders, in
-- whatever order and at whatever times, and whatever the bus and the algos do: an order that the OMS
-- knows stays known under its id, with the same client order id, strategy, instrument and side; its
-- status moves along legal transitions only, and never once it is terminal.
pub run_lem :
    {Algo : Type 0} (env : Env Algo) (number_of : List ℕ → ℕ) (inputs : List (Timestamp × Input))
    (e : Oms Algo) (k : ℕ) (o : Order)
    → get_order k e.orders ≡ some o
    → (o' : Order) × (get_order k (run env number_of inputs e).orders ≡ some o')
      × Follows o o'
      × (Order.is_terminal o ≡ true → o'.status ≡ o.status)
run_lem env number_of inputs e k o found =
    let (o', found', follows) = run-Keeps env number_of inputs e k o found in
    (o', found', follows, (λ t. Reach-terminal (sym (terminal_iff o.status).0 ∙ t) follows.5))
