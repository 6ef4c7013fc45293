-- ===== src/Oms/Engine/Keeps.antt =====
-- oms/engine.py: requests move orders along their state machine and lose none.

use qf635project.Base.{
  ℕ, ◌≡◌, refl, Bool, Option, none, some, List, [], ◌∷◌, if-elim, if◌then◌else◌, arith,
}
use qf635project.Core.{Timestamp, OrderLeg, pending_cancel, pending_amend, rejected}
use qf635project.Oms.Order
use qf635project.Oms.Order.{Order, Outcome, returned, invalid_transition, transition_to}
use qf635project.Oms.Store.{get_order, put_order, update_order}
use qf635project.Oms.Store.Evolution.{
  Follows, Evolves, Evolves-refl, Evolves-trans, append-Evolves, put_order-Evolves,
  update_order-Evolves, transition_to-Follows,
}
use qf635project.Oms.Engine.{
  Event, Env, Oms, retire_algo, retire_algos, safe_publish, publish_open_orders, send_cancel,
  safe_cancel, cancel_if, cancel_where, with_order, submit, send_amend, amend_quote, order_request,
  cancel_request, amend_request,
}

-- The orders of the second state are those of the first, later, and perhaps new ones.
abbrev pub Keeps : {Algo : Type 0} → Oms Algo → Oms Algo → Type 0
Keeps e e' = Evolves e.orders e'.orders

module _ {Algo : Type 0} where
  pub Keeps-refl : (e : Oms Algo) → Keeps e e
  Keeps-refl e = Evolves-refl e.orders

  pub Keeps-trans : (d e f : Oms Algo) → Keeps d e → Keeps e f → Keeps d f
  Keeps-trans d e f = Evolves-trans d.orders e.orders f.orders

  pub retire_algos-orders : (ks : List ℕ) (e : Oms Algo) → (retire_algos ks e).orders ≡ e.orders
  unfolding retire_algos retire_algo
  retire_algos-orders [] e = refl
  retire_algos-orders (k ∷ ks) e = retire_algos-orders ks (retire_algo k e)

module _ {Algo : Type 0} (env : Env Algo) where
  pub safe_publish-orders :
      (event : Event) (e : Oms Algo) → (safe_publish env event e).1.orders ≡ e.orders
  unfolding safe_publish
  safe_publish-orders event e = ground arith

  pub publish_open_orders-orders : (e : Oms Algo) → (publish_open_orders env e).orders ≡ e.orders
  unfolding publish_open_orders
  publish_open_orders-orders e = safe_publish-orders _ e

  -- A request that is published after the store is written.
  publish-Keeps :
      (event : Event) (e f : Oms Algo) → Keeps e f → Keeps e (safe_publish env event f).1
  publish-Keeps event e f h = rw (safe_publish-orders event f) h

  send_cancel-Keeps :
      (k : ℕ) (o : Order) (e : Oms Algo) (r : Outcome (Unit {0}) × Order)
      → get_order k e.orders ≡ some o
      → Follows o r.1
      → Keeps e (send_cancel env e r)
  send_cancel-Keeps k o e (returned _, p) found h =
      publish-Keeps (cancel_request p.order_id) e (record e { orders = put_order p e.orders })
        (put_order-Evolves k o p e.orders found h)
  send_cancel-Keeps k o e (invalid_transition, p) found h = Keeps-refl e

  pub safe_cancel-Keeps :
      (now : Timestamp) (k : ℕ) (e : Oms Algo) → Keeps e (safe_cancel env now k e)
  unfolding safe_cancel
  safe_cancel-Keeps now k e = go (get_order k e.orders) refl
    where
      go :
          (r : Option Order)
          → get_order k e.orders ≡ r
          → Keeps e (elim r [
            | none ↦ e
            | some o ↦
                if Order.is_terminal o
                then e
                else send_cancel env e (transition_to o pending_cancel now)
          ])
      go none found = Keeps-refl e
      go (some o) found =
          if-elim (Keeps e) (Order.is_terminal o) e
            (send_cancel env e (transition_to o pending_cancel now)) (λ _. Keeps-refl e)
            (λ _.
              send_cancel-Keeps k o e (transition_to o pending_cancel now) found
                (transition_to-Follows o pending_cancel now))

  pub cancel_if-Keeps :
      (now : Timestamp) (p : Order → Bool) (k : ℕ) (e : Oms Algo)
      → Keeps e (cancel_if env now p k e)
  unfolding cancel_if
  cancel_if-Keeps now p k e = go (get_order k e.orders)
    where
      go :
          (r : Option Order)
          → Keeps e (elim r [ none ↦ e | some o ↦ if p o then safe_cancel env now k e else e ])
      go none = Keeps-refl e
      go (some o) =
          if-elim (Keeps e) (p o) (safe_cancel env now k e) e (λ _. safe_cancel-Keeps now k e)
            (λ _. Keeps-refl e)

  pub cancel_where-Keeps :
      (now : Timestamp) (p : Order → Bool) (ks : List ℕ) (e : Oms Algo)
      → Keeps e (cancel_where env now p ks e)
  unfolding cancel_where
  cancel_where-Keeps now p [] e = Keeps-refl e
  cancel_where-Keeps now p (k ∷ ks) e =
      let f = cancel_if env now p k e in
      Keeps-trans e f (cancel_where env now p ks f) (cancel_if-Keeps now p k e)
        (cancel_where-Keeps now p ks f)

  pub submit-Keeps : (now : Timestamp) (o : Order) (e : Oms Algo) → Keeps e (submit env now o e)
  unfolding submit
  submit-Keeps now o e =
      let (sent, e') = safe_publish env (order_request o) (with_order env o e) in
      let reject : Order → Order = λ p. (transition_to p rejected now).1 in
      let added : Keeps e e' =
        publish-Keeps (order_request o) e (with_order env o e) (append-Evolves e.orders (o ∷ [])) in
      if-elim (Keeps e) sent e' (record e' { orders = update_order o.order_id reject e'.orders })
        (λ _. added)
        (λ _. Evolves-trans e.orders e'.orders (update_order o.order_id reject e'.orders) added (
          update_order-Evolves o.order_id reject e'.orders
            (λ p. transition_to-Follows p rejected now)))

  send_amend-Keeps :
      (k : ℕ) (o : Order) (leg : OrderLeg) (e : Oms Algo) (r : Outcome (Unit {0}) × Order)
      → get_order k e.orders ≡ some o
      → Follows o r.1
      → Keeps e (send_amend env leg e r)
  send_amend-Keeps k o leg e (returned _, p) found h =
      let q = record p { pending_amend = some (leg.price, leg.quantity) } in
      publish-Keeps (amend_request p.order_id p.side leg.price leg.quantity) e
        (record e { orders = put_order q e.orders }) (put_order-Evolves k o q e.orders found h)
  send_amend-Keeps k o leg e (invalid_transition, p) found h = Keeps-refl e

  pub amend_quote-Keeps :
      (now : Timestamp) (k : ℕ) (leg : OrderLeg) (e : Oms Algo)
      → Keeps e (amend_quote env now k leg e)
  unfolding amend_quote
  amend_quote-Keeps now k leg e = go (get_order k e.orders) refl
    where
      go :
          (r : Option Order)
          → get_order k e.orders ≡ r
          → Keeps e (elim r [
            | none ↦ e
            | some o ↦ send_amend env leg e (transition_to o pending_amend now)
          ])
      go none found = Keeps-refl e
      go (some o) found =
          send_amend-Keeps k o leg e (transition_to o pending_amend now) found
            (transition_to-Follows o pending_amend now)
