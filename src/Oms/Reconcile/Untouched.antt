-- ===== src/Oms/Reconcile/Untouched.antt =====
-- oms/engine.py: the writes of `_reconcile_immediate`, against the resting orders of other strategies.
use mathlib.Core.Path.{subst}
use qf635project.Base.{
  ℕ, ◌+◌, ◌≤◌, ◌≡◌, refl, sym, ◌∙◌, ap, Bool, true, false, Option, none, some, List, [], ◌∷◌, ◌++◌,
  ◌==◌, if-elim, if◌then◌else◌, any, find, All, find-none, any-append, Extends, Extends-trans,
  arith,
}
use qf635project.Core.{Price, Timestamp, Side, OrderLeg, SignalEvent, rejected}
use qf635project.Oms.Order.{Order, Outcome, returned, invalid_transition, transition_to}
use qf635project.Oms.Store.{get_order, put_order, update_order}
use qf635project.Oms.Store.Evolution.{
  Follows, transition_to-Follows, put_order-Evolves, update_order-some, get_order-id,
  append-Evolves,
}
use qf635project.Oms.Engine.{
  Event, order_request, cancel_request, amend_request, execution_routed, order_acknowledged,
  open_orders_snapshot, Env, Oms, safe_publish, with_order, submit, send_amend,
}
use qf635project.Oms.Engine.Keeps.{Keeps, Keeps-trans, safe_publish-orders}
use qf635project.Oms.Reconcile.{crosses, crosses_other_strategy, stp_blocks}

-- What a map from ids to orders gives: an order is found under its id, and the ids still to be drawn
-- are of no order.
abbrev pub WellKeyed : {Algo : Type 0} → Oms Algo → Type 0
WellKeyed e =
    All (λ o. get_order o.order_id e.orders ≡ some o) e.orders
    × ((k : ℕ) → e.next_order_id ≤ k → get_order k e.orders ≡ none)

-- No resting order of another strategy meets a price.
abbrev pub Clear : ℕ → ℕ → Side → Option Price → List Order → Type 0
Clear sid iid side price orders =
    (p : Price) → price ≡ some p → any (crosses sid iid side p) orders ≡ false

-- A request for an order, or for a change of one, that meets none.
abbrev pub CrossesNone : ℕ → ℕ → List Order → Event → Type 0
CrossesNone sid iid orders (order_request o) = Clear sid iid o.side o.price orders
CrossesNone sid iid orders (amend_request k side price q) = Clear sid iid side price orders
CrossesNone sid iid orders (cancel_request k) = Unit
CrossesNone sid iid orders (execution_routed k b) = Unit
CrossesNone sid iid orders (order_acknowledged k x) = Unit
CrossesNone sid iid orders (open_orders_snapshot ws ds) = Unit

any-put_order :
    (c : Order → Bool) (o p : Order) (xs : List Order)
    → get_order p.order_id xs ≡ some o
    → c o ≡ false
    → c p ≡ false
    → any c (put_order p xs) ≡ any c xs
any-put_order c o p [] e a b = cc
any-put_order c o p (x ∷ xs) e a b = ground (arith, e, a, b, any-put_order c o p xs)

get_order-put_order-none :
    (k : ℕ) (o : Order) (xs : List Order)
    → get_order k xs ≡ none
    → get_order k (put_order o xs) ≡ none
get_order-put_order-none k o [] e = refl
get_order-put_order-none k o (x ∷ xs) e = ground (arith, e, get_order-put_order-none k o xs)

get_order-append_new :
    (k : ℕ) (o : Order) (xs : List Order)
    → get_order k xs ≡ none
    → get_order k (xs ++ o ∷ []) ≡ (if k == o.order_id then some o else none)
get_order-append_new k o [] e = refl
get_order-append_new k o (x ∷ xs) e = ground (arith, e, get_order-append_new k o xs)

-- An order of the strategy itself is none that it could cross.
crosses_own :
    (sid iid : ℕ) (side : Side) (p : Price) (o : Order)
    → o.strategy_id ≡ sid
    → crosses sid iid side p o ≡ false
crosses_own sid iid side p o e = ground (arith, e)

module _ {Algo : Type 0} (env : Env Algo) (now : Timestamp) (signal : SignalEvent)
    (e0 : Oms Algo) where
  abbrev sid : ℕ
  sid = signal.strategy_id

  abbrev iid : ℕ
  iid = signal.instrument.instrument_id

  -- While the legs are reconciled: nothing changes for the other strategies.
  abbrev pub Safe : Oms Algo → Type 0
  Safe e =
      Keeps e0 e
      × ((side : Side) (p : Price)
          → any (crosses sid iid side p) e.orders ≡ any (crosses sid iid side p) e0.orders)
      × ((k : ℕ) → e.next_order_id ≤ k → get_order k e.orders ≡ none)
      × (e.stp_enabled ≡ true)
      × Extends (CrossesNone sid iid e0.orders) e0.published e.published

  -- A test that lets a leg pass.
  abbrev pub Passes : OrderLeg → Bool × Oms Algo → Type 0
  Passes leg (blocked, e) = Safe e × (blocked ≡ false → Clear sid iid leg.side leg.price e0.orders)

  pub stp_blocks-Passes :
      (leg : OrderLeg) (e : Oms Algo) → Safe e → Passes leg (stp_blocks env now signal leg e)
  unfolding stp_blocks crosses_other_strategy
  stp_blocks-Passes leg e (kept, same, fresh, on, sent) =
      if-elim (Passes leg) e.stp_enabled _ (false, e) (λ _. go leg.price refl) (λ off. absurd (cc))
    where
      found :
          (p : Price) (r : Option Order)
          → leg.price ≡ some p
          → find (crosses sid iid leg.side p) e.orders ≡ r
          → Passes leg (elim r [
            | none ↦ (false, e)
            | some _ ↦ (true, record e { self_trade_prevented = e.self_trade_prevented + 1 })
          ])
      found p none at h = (
        (kept, same, fresh, on, sent),
        (λ _ q at'.
            let e' : q ≡ p = cc in
            rw e' (sym (same leg.side p) ∙ find-none (crosses sid iid leg.side p) e.orders h)),
      )
      found p (some o) at h = ((kept, same, fresh, on, sent), (λ h. cc))

      go :
          (price : Option Price)
          → leg.price ≡ price
          → Passes leg (elim (crosses_other_strategy sid iid leg.side price e.orders) [
            | none ↦ (false, e)
            | some _ ↦ (true, record e { self_trade_prevented = e.self_trade_prevented + 1 })
          ])
      go none at = ((kept, same, fresh, on, sent), (λ _ p at'. cc))
      go (some p) at = found p (find (crosses sid iid leg.side p) e.orders) at refl

  abbrev pub Sent : Oms Algo → Type 0
  Sent e = Extends (CrossesNone sid iid e0.orders) e0.published e.published

  pub safe_publish-Sent :
      (event : Event) (e : Oms Algo)
      → CrossesNone sid iid e0.orders event
      → Sent e
      → Sent (safe_publish env event e).1
  unfolding safe_publish
  safe_publish-Sent event e c sent =
      if-elim (λ (r : Bool × Oms Algo). Sent r.1) (env.accepts e.attempts) _ _
        (λ _.
          Extends-trans (CrossesNone sid iid e0.orders) e0.published e.published
            (e.published ++ event ∷ []) sent (event ∷ [], refl, (c, tt)))
        (λ _. sent)

  -- A request that crosses nothing, sent from a safe state.
  send-Safe :
      (event : Event) (e : Oms Algo)
      → CrossesNone sid iid e0.orders event
      → Safe e
      → Safe (safe_publish env event e).1
  unfolding safe_publish
  send-Safe event e c (kept, same, fresh, on, sent) =
      let sent' = safe_publish-Sent event e c sent in
      if-elim (λ (r : Bool × Oms Algo). Sent r.1 → Safe r.1) (env.accepts e.attempts) _ _
        (λ _ s. (kept, same, fresh, on, s)) (λ _ s. (kept, same, fresh, on, s)) sent'

  -- An order of the strategy itself is written.
  put_order-Safe :
      (k : ℕ) (o p : Order) (e : Oms Algo)
      → get_order k e.orders ≡ some o
      → o.strategy_id ≡ sid
      → Follows o p
      → Safe e
      → Safe (record e { orders = put_order p e.orders })
  put_order-Safe k o p e at own follows (kept, same, fresh, on, sent) = (
    Keeps-trans e0 e (record e { orders = put_order p e.orders }) kept
        (put_order-Evolves k o p e.orders at follows),
    (λ side price.
        any-put_order (crosses sid iid side price) o p e.orders
          (ap (λ (i : ℕ). get_order i e.orders) (follows.0 ∙ get_order-id k e.orders o at) ∙ at)
          (crosses_own sid iid side price o own)
          (crosses_own sid iid side price p (follows.2 ∙ own))
        ∙ same side price),
    (λ j h. get_order-put_order-none j p e.orders (fresh j h)),
    on,
    sent,
  )

  with_order-Safe :
      (o : Order) (e : Oms Algo)
      → o.order_id ≡ e.next_order_id
      → o.strategy_id ≡ sid
      → Safe e
      → Safe (with_order env o e)
  with_order-Safe o e id own (kept, same, fresh, on, sent) = (
    Keeps-trans e0 e (with_order env o e) kept (append-Evolves e.orders (o ∷ [])),
    (λ side price.
        let c = crosses sid iid side price in
        any-append c e.orders (o ∷ [])
        ∙ ground (arith, crosses_own sid iid side price o own)
        ∙ same side price),
    (λ k h.
        let other : (k == o.order_id) ≡ false = ground (arith, id, h) in
        get_order-append_new k o e.orders (fresh k (omega (arith, h))) ∙ rw other refl),
    on,
    sent,
  )

  pub submit-Safe :
      (o : Order) (e : Oms Algo)
      → o.order_id ≡ e.next_order_id
      → o.strategy_id ≡ sid
      → Clear sid iid o.side o.price e0.orders
      → Safe e
      → Safe (submit env now o e)
  unfolding submit
  submit-Safe o e id own clear safe =
      let reject : Order → Order = λ p. (transition_to p rejected now).1 in
      let f = with_order env o e in
      let (sent, e') = safe_publish env (order_request o) f in
      let safe' = send-Safe (order_request o) f clear (with_order-Safe o e id own safe) in
      let self : (o.order_id == o.order_id) ≡ true = ground arith in
      let at : get_order o.order_id e'.orders ≡ some o =
        ap (get_order o.order_id) (safe_publish-orders env (order_request o) f)
        ∙ get_order-append_new o.order_id o e.orders (safe.2 o.order_id (omega (arith, id)))
        ∙ rw self refl in
      if-elim Safe sent e' (record e' { orders = update_order o.order_id reject e'.orders })
        (λ _. safe')
        (λ _.
          subst (λ (xs : List Order). Safe (record e' { orders = xs }))
            (sym (update_order-some o.order_id reject o e'.orders at))
            (put_order-Safe o.order_id o (reject o) e' at own (transition_to-Follows o rejected now)
              safe'))

  pub send_amend-Safe :
      (k : ℕ) (o : Order) (leg : OrderLeg) (e : Oms Algo) (r : Outcome (Unit {0}) × Order)
      → get_order k e.orders ≡ some o
      → o.strategy_id ≡ sid
      → o.side ≡ leg.side
      → Follows o r.1
      → Clear sid iid leg.side leg.price e0.orders
      → Safe e
      → Safe (send_amend env leg e r)
  send_amend-Safe k o leg e (invalid_transition, p) at own side follows clear safe = safe
  send_amend-Safe k o leg e (returned _, p) at own side follows clear safe =
      let q : Order = record p { pending_amend = some (leg.price, leg.quantity) } in
      send-Safe (amend_request q.order_id q.side leg.price leg.quantity)
        (record e { orders = put_order q e.orders }) (rw (follows.4 ∙ side) clear)
        (put_order-Safe k o q e at own follows safe)
