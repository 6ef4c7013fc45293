-- ===== src/Oms/Engine/Requests.antt =====
-- oms/engine.py: the requests that `_cancel_all_resting` publishes.
use mathlib.Core.Path.{subst}
use qf635project.Base.{
  not, ℕ, ◌≤◌, ◌<◌, ◌++◌, append_nil, append_assoc, ◌≡◌, refl, ◌∙◌, sym, ap, ◌⊎◌, inl, inr, Bool,
  true, false, Option, none, some, List, [], ◌∷◌, Bool-cases, if-elim, if◌then◌else◌, ◌==◌, arith,
  any,
}
use qf635project.Base.Dict.{number_eq}
use qf635project.Core.{Timestamp, OrderStatus, pending_cancel}
use qf635project.Oms.StateMachine
use qf635project.Oms.StateMachine.{Verdict, legal, no_transitions, illegal, validate_transition}
use qf635project.Oms.Order
use qf635project.Oms.Order.{Order, Outcome, returned, invalid_transition, transition_to, set_status}
use qf635project.Oms.Store.{get_order, put_order}
use qf635project.Oms.Store.Evolution.{get_order-id}
use qf635project.Oms.Engine.{
  Event, order_request, cancel_request, amend_request, execution_routed, order_acknowledged,
  open_orders_snapshot, Env, Oms, keys, retire_algo, retire_algos, safe_publish, send_cancel,
  safe_cancel, cancel_if, cancel_where, cancel_all_resting, ids, is_open,
}
use qf635project.Oms.Engine.Keeps.{retire_algos-orders, cancel_if-Keeps}
use qf635project.Oms.Engine.Halted.{is_halted, Halts, cancel_if-Halts, not_listed}

abbrev pub asks : ℕ → Event → Bool
asks k (cancel_request j) = k == j
asks k (order_request _) = false
asks k (amend_request _ _ _ _) = false
asks k (execution_routed _ _) = false
asks k (order_acknowledged _ _) = false
asks k (open_orders_snapshot _ _) = false

-- The second state has published more, and dropped no fewer events.
abbrev Grows : {Algo : Type 0} → Oms Algo → Oms Algo → Type 0
Grows e f =
    (outs : List Event) × (f.published ≡ e.published ++ outs)
    × (e.dropped_events ≤ f.dropped_events)

-- Between the two states a request to cancel the order is published, or the bus refused an event.
abbrev pub Requests : {Algo : Type 0} → ℕ → Oms Algo → Oms Algo → Type 0
Requests k e f =
    ((outs : List Event) × (f.published ≡ e.published ++ outs) × (any (asks k) outs ≡ true))
    ⊎ (e.dropped_events < f.dropped_events)

any-append_left :
    (k : ℕ) (xs ys : List Event) → any (asks k) xs ≡ true → any (asks k) (xs ++ ys) ≡ true
any-append_left k [] ys h = cc
any-append_left k (x ∷ xs) ys h = ground (arith, h, any-append_left k xs ys)

any-append_right :
    (k : ℕ) (xs ys : List Event) → any (asks k) ys ≡ true → any (asks k) (xs ++ ys) ≡ true
any-append_right k [] ys h = h
any-append_right k (x ∷ xs) ys h = ground (arith, any-append_right k xs ys h)

module _ {Algo : Type 0} where
  Grows-refl : (e : Oms Algo) → Grows e e
  Grows-refl e = ([], sym (append_nil e.published), omega arith)

  Grows-trans : (d e f : Oms Algo) → Grows d e → Grows e f → Grows d f
  Grows-trans d e f (xs, p, m) (ys, q, n) = (
    xs ++ ys,
    q ∙ ap (λ (l : List Event). l ++ ys) p ∙ append_assoc d.published xs ys,
    omega (arith, m, n),
  )

  Requests-then : (k : ℕ) (d e f : Oms Algo) → Requests k d e → Grows e f → Requests k d f
  Requests-then k d e f (inl (xs, p, asked)) (ys, q, n) = inl (
    xs ++ ys,
    q ∙ ap (λ (l : List Event). l ++ ys) p ∙ append_assoc d.published xs ys,
    any-append_left k xs ys asked,
  )
  Requests-then k d e f (inr dropped) (ys, q, n) = inr (omega (arith, dropped, n))

  then-Requests : (k : ℕ) (d e f : Oms Algo) → Grows d e → Requests k e f → Requests k d f
  then-Requests k d e f (xs, p, m) (inl (ys, q, asked)) = inl (
    xs ++ ys,
    q ∙ ap (λ (l : List Event). l ++ ys) p ∙ append_assoc d.published xs ys,
    any-append_right k xs ys asked,
  )
  then-Requests k d e f (xs, p, m) (inr dropped) = inr (omega (arith, dropped, m))

unhalted :
    (s : OrderStatus)
    → is_halted s ≡ false
    → (StateMachine.is_terminal s ≡ false) × (validate_transition (some s) pending_cancel ≡ legal)
unfolding StateMachine.is_terminal validate_transition
unhalted s h = ground arith

module _ {Algo : Type 0} (env : Env Algo) (now : Timestamp) where
  safe_publish-Grows : (event : Event) (e : Oms Algo) → Grows e (safe_publish env event e).1
  unfolding safe_publish
  safe_publish-Grows event e =
      if-elim (λ (r : Bool × Oms Algo). Grows e r.1) (env.accepts e.attempts) _ _
        (λ _. (event ∷ [], refl, omega arith))
        (λ _. ([], sym (append_nil e.published), omega arith))

  safe_publish-Requests :
      (k : ℕ) (e : Oms Algo) → Requests k e (safe_publish env (cancel_request k) e).1
  unfolding safe_publish
  safe_publish-Requests k e =
      if-elim (λ (r : Bool × Oms Algo). Requests k e r.1) (env.accepts e.attempts) _ _
        (λ _. inl (cancel_request k ∷ [], refl, ground arith)) (λ _. inr (omega arith))

  send_cancel-Grows :
      (e : Oms Algo) (r : Outcome (Unit {0}) × Order) → Grows e (send_cancel env e r)
  send_cancel-Grows e (returned _, o) =
      safe_publish-Grows (cancel_request o.order_id) (record e { orders = put_order o e.orders })
  send_cancel-Grows e (invalid_transition, o) = Grows-refl e

  cancel_if-Grows : (k : ℕ) (e : Oms Algo) → Grows e (cancel_if env now is_open k e)
  unfolding cancel_if safe_cancel
  cancel_if-Grows k e = go (get_order k e.orders)
    where
      sends :
          (r : Option Order)
          → Grows e (elim r [
            | none ↦ e
            | some o ↦
                if Order.is_terminal o
                then e
                else send_cancel env e (transition_to o pending_cancel now)
          ])
      sends none = Grows-refl e
      sends (some o) =
          if-elim (Grows e) (Order.is_terminal o) e
            (send_cancel env e (transition_to o pending_cancel now)) (λ _. Grows-refl e)
            (λ _. send_cancel-Grows e (transition_to o pending_cancel now))

      go :
          (r : Option Order)
          → Grows e
              (elim r [ none ↦ e | some o ↦ if is_open o then safe_cancel env now k e else e ])
      go none = Grows-refl e
      go (some o) =
          if-elim (Grows e) (is_open o) (safe_cancel env now k e) e
            (λ _. sends (get_order k e.orders)) (λ _. Grows-refl e)

  cancel_where-Grows : (ks : List ℕ) (e : Oms Algo) → Grows e (cancel_where env now is_open ks e)
  unfolding cancel_where
  cancel_where-Grows [] e = Grows-refl e
  cancel_where-Grows (k ∷ ks) e =
      let f = cancel_if env now is_open k e in
      Grows-trans e f (cancel_where env now is_open ks f) (cancel_if-Grows k e)
        (cancel_where-Grows ks f)

  cancel_if-sends :
      (k : ℕ) (o : Order) (e : Oms Algo)
      → get_order k e.orders ≡ some o
      → is_halted o.status ≡ false
      → cancel_if env now is_open k e
        ≡ send_cancel env e
            (returned tt, record o { status = pending_cancel; last_update_ns = now })
  unfolding cancel_if safe_cancel transition_to
  cancel_if-sends k o e found h =
      let (live, moves) = unhalted o.status h in
      let sent : Oms Algo =
        send_cancel env e
          (returned tt, record o { status = pending_cancel; last_update_ns = now }) in
      let cancelled_now : safe_cancel env now k e ≡ sent =
        ap
          (λ (r : Option Order). elim r as (λ x. Oms Algo) [
            | none ↦ e
            | some p ↦
                if Order.is_terminal p
                then e
                else send_cancel env e (transition_to p pending_cancel now)
          ])
          found
        ∙ ap (λ (b : Bool). if b then e else send_cancel env e (transition_to o pending_cancel now))
            live
        ∙ ap (λ (v : Verdict). send_cancel env e (set_status o pending_cancel now v)) moves in
      ap
        (λ (r : Option Order). elim r as (λ x. Oms Algo) [
          | none ↦ e
          | some p ↦ if is_open p then safe_cancel env now k e else e
        ])
        found
      ∙ ap (λ (b : Bool). if not b then safe_cancel env now k e else e) live
      ∙ cancelled_now

  -- An order that is not halted is asked for.
  cancel_if-Requests :
      (k : ℕ) (o : Order) (e : Oms Algo)
      → get_order k e.orders ≡ some o
      → is_halted o.status ≡ false
      → Requests k e (cancel_if env now is_open k e)
  cancel_if-Requests k o e found h =
      let q : Order = record o { status = pending_cancel; last_update_ns = now } in
      let same : o.order_id ≡ k = get_order-id k e.orders o found in
      let sent : Requests k e (send_cancel env e (returned tt, q)) =
        subst
          (λ i.
            Requests k e
              (safe_publish env (cancel_request i) (record e { orders = put_order q e.orders })).1)
          (sym same) (safe_publish-Requests k (record e { orders = put_order q e.orders })) in
      subst (Requests k e) (sym (cancel_if-sends k o e found h)) sent

  cancel_where-Requests :
      (j : ℕ) (o : Order) (ks : List ℕ) (e : Oms Algo)
      → any (λ k. j == k) ks ≡ true
      → get_order j e.orders ≡ some o
      → is_halted o.status ≡ false
      → Requests j e (cancel_where env now is_open ks e)
  unfolding cancel_where Halts
  cancel_where-Requests j o [] e listed found h = cc
  cancel_where-Requests j o (k ∷ ks) e listed found h =
      let f = cancel_if env now is_open k e in
      let end = cancel_where env now is_open ks f in
      elim (Bool-cases (j == k)) [
        | inl same ↦
            let here : j ≡ k = ground (arith, same) in
            let asked : Requests j e f =
              subst (λ i. Requests j e (cancel_if env now is_open i e)) here
                (cancel_if-Requests j o e found h) in
            Requests-then j e f end asked (cancel_where-Grows ks f)
        | inr other ↦
            let (p, at, _) = cancel_if-Keeps env now is_open k e j o found in
            let before : get_order j e.orders ≡ some p =
              (cancel_if-Halts env now k e).1 j other p at in
            let same : p ≡ o = cc in
            then-Requests j e f end (cancel_if-Grows k e)
              (cancel_where-Requests j o ks f (ground (arith, listed, other)) (at ∙ ap some same) h)
      ]

retire_algos-published :
    {Algo : Type 0} (ks : List ℕ) (e : Oms Algo)
    → ((retire_algos ks e).published ≡ e.published)
      × ((retire_algos ks e).dropped_events ≡ e.dropped_events)
unfolding retire_algos retire_algo
retire_algos-published [] e = (refl, refl)
retire_algos-published (k ∷ ks) e = retire_algos-published ks (retire_algo k e)

-- A halt asks to cancel every order that is not halted yet.
pub cancel_all_resting-Requests :
    {Algo : Type 0} (env : Env Algo) (now : Timestamp) (e : Oms Algo) (k : ℕ) (o : Order)
    → get_order k e.orders ≡ some o
    → is_halted o.status ≡ false
    → Requests k e (cancel_all_resting env now e)
unfolding cancel_all_resting
cancel_all_resting-Requests env now e k o found h =
    let start = retire_algos (keys e.algos) e in
    let same : start.orders ≡ e.orders = retire_algos-orders (keys e.algos) e in
    let (told, dropped) = retire_algos-published (keys e.algos) e in
    then-Requests k e start (cancel_where env now is_open (ids e.orders) start)
      ([], told ∙ sym (append_nil e.published), omega (arith, dropped))
      (cancel_where-Requests env now k o (ids e.orders) start
        (elim (Bool-cases (any (λ j. k == j) (ids e.orders))) [
          | inl listed ↦ listed
          | inr unknown ↦ let gone = not_listed env now k e.orders unknown in cc
        ])
        (ap (get_order k) same ∙ found) h)
