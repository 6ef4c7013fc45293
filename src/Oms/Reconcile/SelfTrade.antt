-- ===== src/Oms/Reconcile/SelfTrade.antt =====
-- oms/engine.py: what `_reconcile_immediate` sends crosses no resting order of another strategy.
use mathlib.Core.Path.{subst}
use qf635project.Base.{
  ℕ, ◌≡◌, refl, sym, ◌∙◌, Bool, true, false, Option, none, some, List, [], ◌∷◌, if-elim,
  if◌then◌else◌, ◌&&◌, not, All, find-All, find_sound, Extends, Extends-refl, arith,
}
use qf635project.Core.{
  Timestamp, same_side, same_side-≡, OrderLeg, SignalEvent, pending_amend, pending_cancel,
}
use qf635project.Oms.StateMachine.{eq_status}
use qf635project.Oms.Order
use qf635project.Oms.Order.{Order, Outcome, returned, invalid_transition, transition_to}
use qf635project.Oms.Store.{get_order, put_order}
use qf635project.Oms.Store.Evolution.{transition_to-Follows}
use qf635project.Oms.Engine.{
  cancel_request, Env, Oms, safe_cancel, send_cancel, new_order, send_amend, amend_quote,
}
use qf635project.Oms.Engine.Keeps.{Keeps-refl}
use qf635project.Oms.Reconcile.{
  resting_of, is_matched, exact_match, candidate, is_amendable, stp_blocks, place_quote,
  unless_blocked, settle_leg, also, reconcile_leg, reconcile_legs, withdraw, reconcile_immediate,
  leg_spec,
}
use qf635project.Oms.Reconcile.Untouched.{
  WellKeyed, Clear, CrossesNone, Safe, Passes, Sent, stp_blocks-Passes, submit-Safe,
  send_amend-Safe, safe_publish-Sent,
}

module _ {Algo : Type 0} (env : Env Algo) (now : Timestamp) (signal : SignalEvent)
    (e0 : Oms Algo) where
  -- An order that the map held at the start, and of the strategy itself.
  abbrev Known : Order → Type 0
  Known o = (get_order o.order_id e0.orders ≡ some o) × (o.strategy_id ≡ signal.strategy_id)

  amend_quote-Safe :
      (o : Order) (leg : OrderLeg) (e : Oms Algo)
      → Known o
      → o.side ≡ leg.side
      → Clear signal.strategy_id signal.instrument.instrument_id leg.side leg.price e0.orders
      → (Safe env now signal e0) e
      → (Safe env now signal e0) (amend_quote env now o.order_id leg e)
  unfolding amend_quote
  amend_quote-Safe o leg e (known, own) side clear safe =
      let (live, at, follows) = safe.0 o.order_id o known in
      subst
        (λ (r : Option Order).
          (Safe env now signal e0) (elim r [
            | none ↦ e
            | some p ↦ send_amend env leg e (transition_to p pending_amend now)
          ]))
        (sym at)
        (send_amend-Safe env now signal e0 o.order_id live leg e
          (transition_to live pending_amend now) at (follows.2 ∙ own) (follows.4 ∙ side)
          (transition_to-Follows live pending_amend now) clear safe)

  unless_blocked-Safe :
      (f : Oms Algo → Oms Algo) (leg : OrderLeg) (r : Bool × Oms Algo)
      → (Passes env now signal e0) leg r
      → ((e : Oms Algo)
          → Clear signal.strategy_id signal.instrument.instrument_id leg.side leg.price e0.orders
          → (Safe env now signal e0) e
          → (Safe env now signal e0) (f e))
      → (Safe env now signal e0) (unless_blocked env now signal f r)
  unless_blocked-Safe f leg (true, e) (safe, clear) h = safe
  unless_blocked-Safe f leg (false, e) (safe, clear) h = h e (clear refl) safe

  settle_leg-Safe :
      (leg : OrderLeg) (c : Option Order) (e : Oms Algo)
      → ((o : Order) → c ≡ some o → Known o × (o.side ≡ leg.side))
      → (Safe env now signal e0) e
      → (Safe env now signal e0) (settle_leg env now signal leg c e)
  unfolding settle_leg
  settle_leg-Safe leg none e h safe =
      unless_blocked-Safe (place_quote env now signal leg) leg (stp_blocks env now signal leg e)
        (stp_blocks-Passes env now signal e0 leg e safe)
        (λ f clear.
          submit-Safe env now signal e0 (new_order env now signal leg.side (leg_spec leg) none f) f
            refl refl clear)
  settle_leg-Safe leg (some o) e h safe =
      let (known, side) = h o refl in
      if-elim (Safe env now signal e0) (is_amendable o.status) _ e
        (λ _.
          unless_blocked-Safe (amend_quote env now o.order_id leg) leg
            (stp_blocks env now signal leg e) (stp_blocks-Passes env now signal e0 leg e safe)
            (λ f clear. amend_quote-Safe o leg f known side clear))
        (λ _. safe)

  candidate-Known :
      (matched : List ℕ) (leg : OrderLeg) (resting : List Order) (o : Order)
      → All Known resting
      → candidate matched leg resting ≡ some o
      → Known o × (o.side ≡ leg.side)
  candidate-Known matched leg resting o known e = (
    find-All Known (λ p. not (is_matched matched p) && same_side p.side leg.side) resting o known e,
    same_side-≡ o.side leg.side (
        ground (
          arith,
          find_sound (λ p. not (is_matched matched p) && same_side p.side leg.side) resting o e,
        )),
  )

  reconcile_leg-Safe :
      (resting : List Order) (leg : OrderLeg) (matched : List ℕ) (e : Oms Algo)
      → All Known resting
      → (Safe env now signal e0) e
      → (Safe env now signal e0) (reconcile_leg env now signal resting leg (matched, e)).1
  unfolding reconcile_leg
  reconcile_leg-Safe resting leg matched e known safe = go (exact_match matched leg resting)
    where
      c : Option Order
      c = candidate matched leg resting

      go :
          (r : Option Order)
          → let s : List ℕ × Oms Algo = elim r [
            | some o ↦ (o.order_id ∷ matched, e)
            | none ↦ (also env now signal c matched, settle_leg env now signal leg c e)
          ] in
            (Safe env now signal e0) s.1
      go none = settle_leg-Safe leg c e (λ o. candidate-Known matched leg resting o known) safe
      go (some o) = safe

  reconcile_legs-Safe :
      (resting : List Order) (legs : List OrderLeg) (s : List ℕ × Oms Algo)
      → All Known resting
      → (Safe env now signal e0) s.1
      → (Safe env now signal e0) (reconcile_legs env now signal resting legs s).1
  unfolding reconcile_legs
  reconcile_legs-Safe resting [] s known safe = safe
  reconcile_legs-Safe resting (leg ∷ legs) (matched, e) known safe =
      reconcile_legs-Safe resting legs (reconcile_leg env now signal resting leg (matched, e)) known
        (reconcile_leg-Safe resting leg matched e known safe)

  -- A cancel crosses nothing.
  safe_cancel-Sent :
      (k : ℕ) (e : Oms Algo)
      → (Sent env now signal e0) e
      → (Sent env now signal e0) (safe_cancel env now k e)
  unfolding safe_cancel
  safe_cancel-Sent k e sent = go (get_order k e.orders)
    where
      request : (r : Outcome (Unit {0}) × Order) → (Sent env now signal e0) (send_cancel env e r)
      request (returned _, p) =
          safe_publish-Sent env now signal e0 (cancel_request p.order_id)
            (record e { orders = put_order p e.orders }) tt sent
      request (invalid_transition, p) = sent

      go :
          (r : Option Order)
          → (Sent env now signal e0) (elim r [
            | none ↦ e
            | some o ↦
                if Order.is_terminal o
                then e
                else send_cancel env e (transition_to o pending_cancel now)
          ])
      go none = sent
      go (some o) =
          if-elim (Sent env now signal e0) (Order.is_terminal o) e
            (send_cancel env e (transition_to o pending_cancel now)) (λ _. sent)
            (λ _. request (transition_to o pending_cancel now))

  withdraw-Sent :
      (os : List Order) (matched : List ℕ) (e : Oms Algo)
      → (Sent env now signal e0) e
      → (Sent env now signal e0) (withdraw env now signal os matched e)
  unfolding withdraw
  withdraw-Sent [] matched e sent = sent
  withdraw-Sent (o ∷ os) matched e sent = withdraw-Sent os matched _ (
      if-elim (Sent env now signal e0)
        (not (is_matched matched o) && not (eq_status o.status pending_amend)) _ e
        (λ _. safe_cancel-Sent o.order_id e sent) (λ _. sent))

  resting-Known :
      (xs : List Order)
      → All (λ o. get_order o.order_id e0.orders ≡ some o) xs
      → All Known (resting_of signal xs)
  resting-Known [] h = tt
  resting-Known (x ∷ xs) h =
      if-elim (All Known) _ (x ∷ resting_of signal xs) (resting_of signal xs)
        (λ t. ((h.0, ground (arith, t)), resting-Known xs h.1)) (λ _. resting-Known xs h.1)

-- With self-trade prevention on, every order that `_reconcile_immediate` requests at a price, and every
-- change of one that it requests to a price, meets none of the orders of other strategies that at the
-- start were live on the instrument in the sense of `_STP_LIVE_STATUSES`, which leaves out those whose
-- cancellation is pending. Orders without a price, and the child orders of algos, which are placed
-- elsewhere without this test, are not spoken of.
pub reconcile_immediate-CrossesNone :
    {Algo : Type 0} (env : Env Algo) (now : Timestamp) (signal : SignalEvent) (legs : List OrderLeg)
    (e : Oms Algo)
    → WellKeyed e
    → e.stp_enabled ≡ true
    → Extends
        (CrossesNone signal.strategy_id signal.instrument.instrument_id e.orders)
        e.published
        (reconcile_immediate env now signal legs e).published
unfolding reconcile_immediate
reconcile_immediate-CrossesNone env now signal legs e (keyed, fresh) on =
    let resting = resting_of signal e.orders in
    let s = reconcile_legs env now signal resting legs ([], e) in
    let known = resting-Known env now signal e e.orders keyed in
    let safe =
      reconcile_legs-Safe env now signal e resting legs ([], e) known
        (Keeps-refl e, (λ side price. refl), fresh, on, Extends-refl _ e.published) in
    withdraw-Sent env now signal e resting s.0 s.1 safe.4
