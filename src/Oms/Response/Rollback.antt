-- ===== src/Oms/Response/Rollback.antt =====
-- oms/engine.py: every response moves an order along its state machine.
use mathlib.Core.Path.{subst}
use qf635project.Base.{
  ℕ, ◌+◌, ◌≡◌, refl, ◌∙◌, sym, ap, Bool, true, false, Option, none, some, if-elim, ltb, ◌≤◌, arith,
  if◌then◌else◌, ◌||◌, not,
}
use qf635project.Base.Decimal.{pos, eq_ℤ, ltb_ℤ}
use qf635project.Core.{
  Quantity, Price, Timestamp, OrderStatus, acknowledged, filled, pending_amend, pending_cancel,
  status_is_terminal, FillEvent, cancelled,
}
use qf635project.Oms.StateMachine.{Verdict, validate_transition, eq_status}
use qf635project.Oms.Order
use qf635project.Oms.Order.{
  Order, leaves_quantity, Outcome, returned, invalid_transition, transition_to, record_fill,
  apply_fill, was_applied, settle, status_after, set_status,
}
use qf635project.Oms.Store.Evolution.{Follows, Follows-refl, Follows-trans, transition_to-Follows}
use qf635project.Oms.Response.{
  VenueEvent, order_acknowledged, order_rejected, cancel_rejected, amend_rejected, order_cancelled,
  order_amended, attempt, respond, acknowledge, amend, roll_back, sweep_order, fill_result, refresh,
  terminalize, ratchet, ratchet_to,
}

attempt-Follows :
    (o : Order) (r : Outcome (Unit {0}) × Order) (g f : Order → Order)
    → Follows o r.1
    → ((p : Order) → Follows p (g p))
    → ((p : Order) → Follows p (f p))
    → Follows o (attempt r g f)
attempt-Follows o (returned _, p) g f h k l = Follows-trans o p (f p) h (l p)
attempt-Follows o (invalid_transition, p) g f h k l = Follows-trans o p (g p) h (k p)

no_amend-Follows : (o : Order) → Follows o (record o { pending_amend = none })
no_amend-Follows o = Follows-refl o

roll_back-Follows : (now : Timestamp) (o : Order) → Follows o (roll_back now o)
roll_back-Follows now o =
    let p = record o { pending_amend = none } in
    if-elim (Follows o) (eq_ℤ (leaves_quantity o) (pos 0)) (transition_to p filled now).1
      (transition_to p acknowledged now).1 (λ _. transition_to-Follows p filled now)
      (λ _. transition_to-Follows p acknowledged now)

-- A response leaves an order with its identity and moves it along legal transitions only.
pub respond-Follows :
    (now : Timestamp) (event : VenueEvent) (o : Order) → Follows o (respond now event o)
unfolding respond acknowledge amend
respond-Follows now (order_acknowledged k ts x) o =
    attempt-Follows o (transition_to o acknowledged ts) (λ p. p)
      (λ p. record p { exchange_order_id = some x }) (transition_to-Follows o acknowledged ts)
      Follows-refl Follows-refl
respond-Follows now (order_rejected k ts) o = transition_to-Follows o _ ts
respond-Follows now (cancel_rejected k ts) o = transition_to-Follows o _ ts
respond-Follows now (amend_rejected k) o = roll_back-Follows now o
respond-Follows now (order_cancelled k ts) o = transition_to-Follows o _ ts
respond-Follows now (order_amended k ts price quantity x) o =
    if-elim (Follows o) (eq_status o.status pending_cancel) _ _ (λ _. no_amend-Follows o)
      (λ _.
        attempt-Follows o (transition_to o acknowledged ts) _ _
          (transition_to-Follows o acknowledged ts) no_amend-Follows (λ p. Follows-refl p))

pub sweep_order-Follows :
    (now : Timestamp) (timeout : ℕ) (o : Order) → Follows o (sweep_order now timeout o)
unfolding sweep_order
sweep_order-Follows now timeout o =
    if-elim (Follows o)
      (not (eq_status o.status pending_amend) || ltb now (o.last_update_ns + timeout)) o
      (roll_back now o) (λ _. Follows-refl o) (λ _. roll_back-Follows now o)

record_fill-Follows : (o : Order) (fill : FillEvent) → Follows o (record_fill o fill).1
unfolding record_fill
record_fill-Follows o fill =
    if-elim (λ (r : Bool × Order). Follows o r.1) (was_applied fill.fill_id o) _ _
      (λ _. Follows-refl o) (λ _. Follows-refl o)

settle-Follows : (fill : FillEvent) (r : Bool × Order) → Follows r.1 (settle fill r).1
settle-Follows fill (false, o) = Follows-refl o
settle-Follows fill (true, o) = transition_to-Follows o (status_after o) fill.ts_event

pub fill_result-Follows : (fill : FillEvent) (o : Order) → Follows o (fill_result fill o).1
unfolding apply_fill
fill_result-Follows fill o =
    let p = (record_fill o fill).1 in
    let r = record_fill-Follows o fill in
    if-elim (λ (x : Outcome Bool × Order). Follows o x.1) (Order.is_terminal o) _ _ (λ _. r)
      (λ _.
        Follows-trans o p (settle fill (record_fill o fill)).1 r
          (settle-Follows fill (record_fill o fill)))

ratchet-Follows : (total : Quantity) (o : Order) → Follows o (ratchet total o)
ratchet-Follows total o =
    if-elim (Follows o) (ltb_ℤ o.cumulative_filled total) _ _ (λ _. Follows-refl o)
      (λ _. Follows-refl o)

refresh-Follows :
    (quantity total : Quantity) (price : Option Price) (o : Order)
    → Follows o (refresh quantity total price o)
unfolding refresh
refresh-Follows quantity total price o =
    if-elim (Follows o) (Order.is_terminal o) _ _ (λ _. Follows-refl o)
      (λ _. ratchet-Follows total o)

ratchet_to-Follows : (total : Option Quantity) (o : Order) → Follows o (ratchet_to total o)
ratchet_to-Follows none o = Follows-refl o
ratchet_to-Follows (some t) o = ratchet-Follows t o

pub terminalize-Follows :
    (now : Timestamp) (status : OrderStatus) (total : Option Quantity) (o : Order)
    → Follows o (terminalize now status total o)
unfolding terminalize
terminalize-Follows now status total o =
    let p = ratchet_to total o in
    if-elim (Follows o) (Order.is_terminal o || not (status_is_terminal status)) _ _
      (λ _. Follows-refl o)
      (λ _.
        Follows-trans o p (transition_to p status now).1 (ratchet_to-Follows total o)
          (transition_to-Follows p status now))

-- The order as a rollback leaves it.
abbrev rolled_back : Timestamp → Bool → Order → Order
rolled_back now done o = record o {
  pending_amend = none;
  status = if done then filled else acknowledged;
  last_update_ns = now;
}

roll_back-end :
    (now : Timestamp) (o : Order)
    → o.status ≡ pending_amend
    → roll_back now o ≡ rolled_back now (eq_ℤ (leaves_quantity o) (pos 0)) o
unfolding transition_to validate_transition
roll_back-end now o s = go (eq_ℤ (leaves_quantity o) (pos 0))
  where
    p : Order
    p = record o { pending_amend = none }

    go :
        (done : Bool)
        → (if done then (transition_to p filled now).1 else (transition_to p acknowledged now).1)
          ≡ rolled_back now done o
    go true =
        ap (λ (v : Verdict). (set_status p filled now v).1)
          (ap (λ (x : OrderStatus). validate_transition (some x) filled) s)
    go false =
        ap (λ (v : Verdict). (set_status p acknowledged now v).1)
          (ap (λ (x : OrderStatus). validate_transition (some x) acknowledged) s)

late_amend :
    (now ts : Timestamp) (price : Option Price) (quantity : Option Quantity) (x : Option ℕ)
    (o : Order) (done : Bool)
    → amend ts price quantity x (rolled_back now done o) ≡ rolled_back now done o
unfolding amend transition_to validate_transition
late_amend now ts price quantity x o true = refl
late_amend now ts price quantity x o false = refl

late_cancel :
    (now ts : Timestamp) (o : Order) (done : Bool)
    → (respond now (order_cancelled o.order_id ts) (rolled_back now done o)).status
      ≡ (if done then filled else cancelled)
unfolding respond transition_to validate_transition
late_cancel now ts o true = refl
late_cancel now ts o false = refl

-- An order that waits for an amend's response, and whose amend is rejected or has waited for the
-- timeout, has no pending amend afterwards; it is filled if nothing is left of it and acknowledged
-- otherwise. An OrderAmended for it that arrives after the rollback changes nothing, and an
-- OrderCancelled, which a gateway also sends as the answer to an amend, makes it cancelled unless it is
-- filled.
pub roll_back_lem :
    (now : Timestamp) (timeout : ℕ) (o : Order)
    → o.status ≡ pending_amend
    → o.last_update_ns + timeout ≤ now
    → (sweep_order now timeout o ≡ respond now (amend_rejected o.order_id) o)
      × ((sweep_order now timeout o).pending_amend ≡ none)
      × ((sweep_order now timeout o).status
          ≡ (if eq_ℤ (leaves_quantity o) (pos 0) then filled else acknowledged))
      × ((ts : Timestamp) (price : Option Price) (quantity : Option Quantity) (x : Option ℕ)
          → respond now (order_amended o.order_id ts price quantity x) (sweep_order now timeout o)
            ≡ sweep_order now timeout o)
      × ((ts : Timestamp)
          → (respond now (order_cancelled o.order_id ts) (sweep_order now timeout o)).status
            ≡ (if eq_ℤ (leaves_quantity o) (pos 0) then filled else cancelled))
unfolding sweep_order respond amend transition_to validate_transition
roll_back_lem now timeout o s t =
    let waits : (not (eq_status o.status pending_amend) || ltb now (o.last_update_ns + timeout))
        ≡ false =
      ground arith in
    let swept : sweep_order now timeout o ≡ roll_back now o =
      ap (λ (b : Bool). if b then o else roll_back now o) waits in
    let done = eq_ℤ (leaves_quantity o) (pos 0) in
    let (cleared, at, late, ended) =
      subst
        (λ (p : Order).
          (p.pending_amend ≡ none)
          × (p.status ≡ (if done then filled else acknowledged))
          × ((ts : Timestamp) (price : Option Price) (quantity : Option Quantity) (x : Option ℕ)
              → respond now (order_amended o.order_id ts price quantity x) p ≡ p)
          × ((ts : Timestamp)
              → (respond now (order_cancelled o.order_id ts) p).status
                ≡ (if done then filled else cancelled)))
        (sym (swept ∙ roll_back-end now o s))
        (
          refl,
          refl,
          (λ ts price quantity x. late_amend now ts price quantity x o done),
          (λ ts. late_cancel now ts o done),
        ) in
    (swept, cleared, at, late, ended)
