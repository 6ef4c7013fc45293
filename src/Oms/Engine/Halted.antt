-- ===== src/Oms/Engine/Halted.antt =====
-- oms/engine.py: what `_cancel_all_resting` leaves of the orders.

use qf635project.Base.{
  ℕ, ◌≡◌, refl, ◌∙◌, sym, ap, ◌⊎◌, inl, inr, Bool, true, false, Option, none, some, List, [], ◌∷◌,
  Bool-cases, if-elim, if◌then◌else◌, ◌==◌, arith, any,
}
use qf635project.Base.Dict.{number_eq}
use qf635project.Core.{
  Timestamp, OrderStatus, pending_new, pending_cancel, filled, cancelled, rejected, expired,
}
use qf635project.Oms.StateMachine
use qf635project.Oms.StateMachine.{Verdict, legal, no_transitions, illegal, validate_transition}
use qf635project.Oms.Order
use qf635project.Oms.Order.{Order, Outcome, returned, invalid_transition, transition_to, set_status}
use qf635project.Oms.Store.{get_order, put_order}
use qf635project.Oms.Store.Evolution.{get_order-id}
use qf635project.Oms.Engine.{
  cancel_request, Env, Oms, safe_publish, send_cancel, safe_cancel, cancel_if, cancel_where, ids,
  is_open,
}
use qf635project.Oms.Engine.Keeps.{safe_publish-orders}

-- Final, asked to cancel, or not acknowledged yet.
abbrev pub is_halted : OrderStatus → Bool
is_halted pending_new = true
is_halted pending_cancel = true
is_halted filled = true
is_halted cancelled = true
is_halted rejected = true
is_halted expired = true
is_halted _ = false

abbrev pub Halted : {Algo : Type 0} → ℕ → Oms Algo → Type 0
Halted k e = (o : Order) → get_order k e.orders ≡ some o → is_halted o.status ≡ true

get_order-put_order_self :
    (o p : Order) (xs : List Order) → get_order o.order_id (put_order o xs) ≡ some p → p ≡ o
get_order-put_order_self o p [] e = cc
get_order-put_order_self o p (x ∷ xs) e = ground (arith, e, get_order-put_order_self o p xs)

get_order-put_order_ne :
    (k : ℕ) (o : Order) (xs : List Order)
    → (k == o.order_id) ≡ false
    → get_order k (put_order o xs) ≡ get_order k xs
get_order-put_order_ne k o [] h = refl
get_order-put_order_ne k o (x ∷ xs) h = ground (arith, h, get_order-put_order_ne k o xs h)

terminal-halted : (s : OrderStatus) → StateMachine.is_terminal s ≡ true → is_halted s ≡ true
unfolding StateMachine.is_terminal
terminal-halted s h = ground arith

refused-halted :
    (s : OrderStatus)
    → (validate_transition (some s) pending_cancel ≡ legal → ⊥)
    → is_halted s ≡ true
unfolding validate_transition
refused-halted s h = ground arith

module _ {Algo : Type 0} (env : Env Algo) (now : Timestamp) where
  -- What a request to cancel leaves of the order.
  send_cancel-get_order :
      (j : ℕ) (o : Order) (e : Oms Algo) (p : Order) (r : Outcome (Unit {0}))
      → get_order j (send_cancel env e (r, o)).orders ≡ some p
      → (r ≡ returned tt → j ≡ o.order_id → p ≡ o)
        × ((j == o.order_id) ≡ false → get_order j e.orders ≡ some p)
        × (r ≡ invalid_transition → get_order j e.orders ≡ some p)
  send_cancel-get_order j o e p invalid_transition found = ((λ h. cc), (λ _. found), (λ _. found))
  send_cancel-get_order j o e p (returned _) found =
      let f : Oms Algo = record e { orders = put_order o e.orders } in
      let found' : get_order j (put_order o e.orders) ≡ some p =
        ap (get_order j) (sym (safe_publish-orders env (cancel_request o.order_id) f)) ∙ found in
      (
        (λ _ same.
            get_order-put_order_self o p e.orders
              (ap (λ (i : ℕ). get_order i (put_order o e.orders)) (sym same) ∙ found')),
        (λ other. sym (get_order-put_order_ne j o e.orders other) ∙ found'),
        (λ h. cc),
      )

  -- The order that is asked for is halted, and the others are as they were.
  unfoldable pub Halts : ℕ → Oms Algo → Oms Algo → Type 0
  Halts k e f =
      Halted k f
      × ((j : ℕ)
          → (j == k) ≡ false
          → (p : Order) → get_order j f.orders ≡ some p
          → get_order j e.orders ≡ some p)

  send_cancel-Halts :
      (k : ℕ) (o : Order) (e : Oms Algo)
      → get_order k e.orders ≡ some o
      → Halts k e (send_cancel env e (transition_to o pending_cancel now))
  unfolding transition_to Halts
  send_cancel-Halts k o e found = go (validate_transition (some o.status) pending_cancel) refl
    where
      at : o.order_id ≡ k
      at = get_order-id k e.orders o found

      stays :
          (v : Verdict)
          → validate_transition (some o.status) pending_cancel ≡ v
          → (v ≡ legal → ⊥)
          → Halts k e e
      stays v h n = (
        (λ p e'. let same : p ≡ o = cc in rw same (refused-halted o.status (λ q. n (sym h ∙ q)))),
        (λ j _ p e'. e'),
      )

      go :
          (v : Verdict)
          → validate_transition (some o.status) pending_cancel ≡ v
          → Halts k e (send_cancel env e (set_status o pending_cancel now v))
      go legal h =
          let q : Order = record o { status = pending_cancel; last_update_ns = now } in
          (
            (λ p e'.
                ap (λ (x : Order). is_halted x.status)
                  ((send_cancel-get_order k q e p (returned tt) e').0 refl (sym at))),
            (λ j other p e'. (send_cancel-get_order j q e p (returned tt) e').1 (rw at other)),
          )
      go no_transitions h = stays no_transitions h (λ x. cc)
      go illegal h = stays illegal h (λ x. cc)

  terminal-Halts :
      (k : ℕ) (o : Order) (e : Oms Algo)
      → get_order k e.orders ≡ some o
      → Order.is_terminal o ≡ true
      → Halts k e e
  unfolding Halts
  terminal-Halts k o e found t =
      ((λ p e'. let same : p ≡ o = cc in rw same (terminal-halted o.status t)), (λ j _ p e'. e'))

  safe_cancel-Halts : (k : ℕ) (e : Oms Algo) → Halts k e (safe_cancel env now k e)
  unfolding safe_cancel Halts
  safe_cancel-Halts k e = go (get_order k e.orders) refl
    where
      go :
          (r : Option Order)
          → get_order k e.orders ≡ r
          → Halts k e (elim r [
            | none ↦ e
            | some o ↦
                if Order.is_terminal o
                then e
                else send_cancel env e (transition_to o pending_cancel now)
          ])
      go none found = ((λ p e'. cc), (λ j _ p e'. e'))
      go (some o) found =
          if-elim (Halts k e) (Order.is_terminal o) e
            (send_cancel env e (transition_to o pending_cancel now)) (terminal-Halts k o e found)
            (λ _. send_cancel-Halts k o e found)

  pub cancel_if-Halts : (k : ℕ) (e : Oms Algo) → Halts k e (cancel_if env now is_open k e)
  unfolding cancel_if Halts
  cancel_if-Halts k e = go (get_order k e.orders) refl
    where
      go :
          (r : Option Order)
          → get_order k e.orders ≡ r
          → Halts k e
              (elim r [ none ↦ e | some o ↦ if is_open o then safe_cancel env now k e else e ])
      go none found = ((λ p e'. cc), (λ j _ p e'. e'))
      go (some o) found =
          if-elim (Halts k e) (is_open o) (safe_cancel env now k e) e (λ _. safe_cancel-Halts k e)
            (λ closed. terminal-Halts k o e found (ground (arith, closed)))

  pub cancel_where-Halted :
      (j : ℕ) (ks : List ℕ) (e : Oms Algo)
      → (any (λ k. j == k) ks ≡ true) ⊎ Halted j e
      → Halted j (cancel_where env now is_open ks e)
  unfolding cancel_where Halts
  cancel_where-Halted j [] e (inl h) = cc
  cancel_where-Halted j [] e (inr h) = h
  cancel_where-Halted j (k ∷ ks) e h =
      let f = cancel_if env now is_open k e in
      let (here, others) = cancel_if-Halts k e in
      cancel_where-Halted j ks f (elim (Bool-cases (j == k)) [
        | inl same ↦ let e' : j ≡ k = ground (arith, same) in inr (rw e' here)
        | inr other ↦ elim h [
          | inl later ↦ inl (ground (arith, later, other))
          | inr held ↦ inr (λ p at. held p (others j other p at))
        ]
      ])

  pub not_listed :
      (j : ℕ) (xs : List Order) → any (λ k. j == k) (ids xs) ≡ false → get_order j xs ≡ none
  not_listed j [] h = refl
  not_listed j (x ∷ xs) h = ground (arith, h, not_listed j xs)

  cancel_if-algos :
      (p : Order → Bool) (k : ℕ) (e : Oms Algo) → (cancel_if env now p k e).algos ≡ e.algos
  unfolding cancel_if safe_cancel safe_publish
  cancel_if-algos p k e = ground arith

  pub cancel_where-algos :
      (p : Order → Bool) (ks : List ℕ) (e : Oms Algo)
      → (cancel_where env now p ks e).algos ≡ e.algos
  unfolding cancel_where
  cancel_where-algos p [] e = refl
  cancel_where-algos p (k ∷ ks) e =
      cancel_where-algos p ks (cancel_if env now p k e) ∙ cancel_if-algos p k e
