-- ===== src/Binance/Bootstrap/Confirmed.antt =====
-- order_gateways/binance/state_bootstrap.py: no order is ended on a guess.
use qf635project.Base.{
  ℕ, ◌≡◌, refl, sym, Option, some, List, [], ◌∷◌, ◌&&◌, not, inl, inr, All, Option-cases, if-elim,
}
use mathlib.Core.Path.{subst}
use qf635project.Base.Dict.{Dict, number_eq, text_eq, lookup}
use qf635project.Core.{Timestamp, OrderStatus, Quantity, status_is_terminal}
use qf635project.Oms.Order
use qf635project.Oms.Order.{Order, transition_to, set_status}
use qf635project.Oms.Store.{get_order, put_order}
use qf635project.Oms.Response.{terminalize}
use qf635project.Oms.Engine
use qf635project.Oms.Engine.{Oms, publish_open_orders}
use qf635project.Oms.Engine.Keeps.{publish_open_orders-orders}
use qf635project.Oms.Exposure.{open_orders}
use qf635project.Oms.Handlers.{terminalize_from_venue}
use qf635project.Binance.Bootstrap.{
  Env, Resync, Seen, Pass, StatusRow, terminal_status, note_orders, prune, coids_of, by_coid,
  adopt_open_orders, resolve_order, resolve_orders, resolve_gone_orders, resolve_all,
  terminalize_gone_orders,
}
use qf635project.Binance.Bootstrap.Moves.{
  Moves, Moves-refl, Moves-trans, put_order-Moves, terminalize-told,
}
use qf635project.Binance.Bootstrap.Candidates.{Candidate, note_orders-Groups, open_orders-In}

module _ {Algo Venue : Type 0} (oms_env : Engine.Env Algo) (number_of : List ℕ → ℕ)
    (env : Env Venue) (now : Timestamp) where
  -- The venue has told the terminal status of the order of the store that has this id: asked for all
  -- orders of its instrument, it has told a row of its client order id, and the pass had to look it up.
  pub record Confirmed (seen : Seen) (store : List Order) (order_id : ℕ) (status : OrderStatus)
      : Type 0 where
    pub order : Order
    pub same_id : order.order_id ≡ order_id
    pub symbol : ℕ
    pub candidate : Candidate seen store symbol order
    pub venue : Venue
    pub rows : List StatusRow
    pub listed : (env.all_rows symbol venue).0 ≡ some rows
    pub row : StatusRow
    pub found : lookup order.client_order_id (by_coid rows []) ≡ some row
    pub told : terminal_status row.status ≡ some status

  terminalize_from_venue-Moves :
      (P : ℕ → OrderStatus → Type 0) (k : ℕ) (st : OrderStatus) (total : Option Quantity)
      (e : Oms Algo)
      → P k st
      → Moves P e.orders (terminalize_from_venue oms_env now k st total e).orders
  unfolding terminalize_from_venue
  terminalize_from_venue-Moves P k st total e h = elim (Option-cases (get_order k e.orders)) [
    | inl nothing ↦ rw (nothing, terminalize_from_venue) (Moves-refl P e.orders)
    | inr (o, found) ↦
        let p = terminalize now st total o in
        let f : Oms Algo = record e { orders = put_order p e.orders } in
        let (id, told) = terminalize-told now st total o in
        let moved : Moves P e.orders f.orders =
          put_order-Moves P k o p e.orders found id
            (elim told [ inl same ↦ inl same | inr new ↦ inr (subst (P k) (sym new) h) ]) in
        rw (found, terminalize_from_venue)
          (if-elim (λ (g : Oms Algo). Moves P e.orders g.orders)
            (not (Order.is_terminal o) && status_is_terminal p.status)
            (publish_open_orders oms_env f) f
            (λ _. subst (Moves P e.orders) (sym (publish_open_orders-orders oms_env f)) moved)
            (λ _. moved))
  ]

  module _ (seen : Seen) (store : List Order) where
    abbrev Step : Resync Algo Venue → Resync Algo Venue → Type 0
    Step s s' = Moves (Confirmed seen store) s.oms.orders s'.oms.orders

    resolve_order-Step :
        (symbol : ℕ) (w : Venue) (rows : List StatusRow) (o : Order) (s : Resync Algo Venue)
        → (env.all_rows symbol w).0 ≡ some rows
        → Candidate seen store symbol o
        → Step s (resolve_order oms_env number_of env now (by_coid rows []) o s)
    resolve_order-Step symbol w rows o s listed c =
        elim (Option-cases (lookup o.client_order_id (by_coid rows []))) [
          | inl nothing ↦
              rw (nothing, resolve_order) (Moves-refl (Confirmed seen store) s.oms.orders)
          | inr (row, found) ↦ elim (Option-cases (terminal_status row.status)) [
            | inl live ↦
                rw (found, live, resolve_order) (Moves-refl (Confirmed seen store) s.oms.orders)
            | inr (st, told) ↦
                rw (found, told, resolve_order)
                  (terminalize_from_venue-Moves (Confirmed seen store) o.order_id st
                    row.executed_qty s.oms
                    (record {
                      order = o;
                      same_id = refl;
                      candidate = c;
                      symbol = symbol;
                      venue = w;
                      rows = rows;
                      listed = listed;
                      row = row;
                      found = found;
                      told = told;
                    }))
          ]
        ]

    resolve_orders-Step :
        (symbol : ℕ) (w : Venue) (rows : List StatusRow) (os : List Order) (s : Resync Algo Venue)
        → (env.all_rows symbol w).0 ≡ some rows
        → All (Candidate seen store symbol) os
        → Step s (resolve_orders oms_env number_of env now (by_coid rows []) os s)
    unfolding resolve_orders
    resolve_orders-Step symbol w rows [] s listed c = Moves-refl (Confirmed seen store) s.oms.orders
    resolve_orders-Step symbol w rows (o ∷ os) s listed c =
        let s' = resolve_order oms_env number_of env now (by_coid rows []) o s in
        Moves-trans (Confirmed seen store) s.oms.orders s'.oms.orders _
          (resolve_order-Step symbol w rows o s listed c.0)
          (resolve_orders-Step symbol w rows os s' listed c.1)

    resolve_gone_orders-Step :
        (iid : ℕ) (os : List Order) (s : Resync Algo Venue)
        → All (Candidate seen store iid) os
        → Step s (resolve_gone_orders oms_env number_of env now iid os s)
    unfolding resolve_gone_orders
    resolve_gone_orders-Step iid os s c = elim (Option-cases (env.all_rows iid s.venue).0) [
      | inl failed ↦
          rw (failed, resolve_gone_orders) (Moves-refl (Confirmed seen store) s.oms.orders)
      | inr (rows, listed) ↦
          rw (listed, resolve_gone_orders)
            (resolve_orders-Step iid s.venue rows os
              (record s { venue = (env.all_rows iid s.venue).1 }) listed c)
    ]

    resolve_all-Step :
        (d : Dict ℕ (List Order)) (s : Resync Algo Venue)
        → All (λ (entry : ℕ × List Order). All (Candidate seen store entry.0) entry.1) d
        → Step s (resolve_all oms_env number_of env now d s)
    unfolding resolve_all
    resolve_all-Step [] s c = Moves-refl (Confirmed seen store) s.oms.orders
    resolve_all-Step ((iid, os) ∷ d) s c =
        let s' = resolve_gone_orders oms_env number_of env now iid os s in
        Moves-trans (Confirmed seen store) s.oms.orders s'.oms.orders _
          (resolve_gone_orders-Step iid os s c.0) (resolve_all-Step d s' c.1)

  -- A pass over the orders that are gone ends an order only with a status that the venue tells for it,
  -- after the pass had not seen it listed where it could list, nor in flight; a request that fails
  -- changes no order.
  pub terminalize_gone_orders-Step :
      (seen : Seen) (s : Resync Algo Venue)
      → Moves
          (Confirmed seen s.oms.orders)
          s.oms.orders
          (terminalize_gone_orders oms_env number_of env now seen s).oms.orders
  unfolding terminalize_gone_orders
  terminalize_gone_orders-Step seen s =
      let opened = open_orders s.oms.orders in
      let start : Pass = record { gone = s.consecutive_gone; live = []; by_instrument = [] } in
      let p = note_orders seen opened start in
      resolve_all-Step seen s.oms.orders p.by_instrument
        (record s { consecutive_gone = prune p.live (coids_of opened) p.gone })
        (note_orders-Groups seen s.oms.orders opened start
          (open_orders-In s.oms.orders s.oms.orders (λ o at. at)) tt)

  -- What the pass has seen on the venue when it comes to the orders that are gone.
  abbrev pub seen_by : Resync Algo Venue → Seen
  seen_by s =
      (adopt_open_orders oms_env number_of env now env.tracked (record { coids = []; fetched = [] })
        s).0

  -- The orders of the OMS once the open orders of the venue are adopted.
  abbrev pub adopted_by : Resync Algo Venue → List Order
  adopted_by s =
      (adopt_open_orders oms_env number_of env now env.tracked (record { coids = []; fetched = [] })
        s).1.oms.orders
