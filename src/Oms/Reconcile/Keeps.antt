-- ===== src/Oms/Reconcile/Keeps.antt =====
-- oms/engine.py: reconciling resting orders with the legs moves orders along their state machine
-- and loses none.
use qf635project.Base.{
  ℕ, ◌≡◌, Bool, true, false, Option, none, some, List, [], ◌∷◌, if-elim, if◌then◌else◌, ◌&&◌, not,
  arith,
}
use qf635project.Base.Dict.{number_eq}
use qf635project.Core.{Timestamp, OrderLeg, SignalEvent, pending_amend}
use qf635project.Oms.StateMachine.{eq_status}
use qf635project.Oms.Order.{Order}
use qf635project.Oms.Engine.{Env, Oms, safe_cancel, new_order, amend_quote}
use qf635project.Oms.Engine.Keeps.{
  Keeps, Keeps-refl, Keeps-trans, safe_cancel-Keeps, submit-Keeps, amend_quote-Keeps,
}
use qf635project.Oms.Reconcile.{
  is_matched, exact_match, candidate, is_amendable, resting_of, stp_blocks, place_quote,
  unless_blocked, settle_leg, also, reconcile_leg, reconcile_legs, withdraw, reconcile_immediate,
  leg_spec,
}

-- A state with the same orders.
pub same-Keeps : {Algo : Type 0} (e f : Oms Algo) → f.orders ≡ e.orders → Keeps e f
same-Keeps e f same = rw same (Keeps-refl e)

module _ {Algo : Type 0} (env : Env Algo) (now : Timestamp) (signal : SignalEvent) where
  stp_blocks-orders :
      (leg : OrderLeg) (e : Oms Algo) → (stp_blocks env now signal leg e).1.orders ≡ e.orders
  unfolding stp_blocks
  stp_blocks-orders leg e = ground arith

  unless_blocked-Keeps :
      (f : Oms Algo → Oms Algo) (d : Oms Algo) (r : Bool × Oms Algo)
      → Keeps d r.1
      → ((e : Oms Algo) → Keeps e (f e))
      → Keeps d (unless_blocked env now signal f r)
  unless_blocked-Keeps f d (true, e) h k = h
  unless_blocked-Keeps f d (false, e) h k = Keeps-trans d e (f e) h (k e)

  settle_leg-Keeps :
      (leg : OrderLeg) (c : Option Order) (e : Oms Algo)
      → Keeps e (settle_leg env now signal leg c e)
  unfolding settle_leg
  settle_leg-Keeps leg none e =
      unless_blocked-Keeps (place_quote env now signal leg) e (stp_blocks env now signal leg e)
        (same-Keeps e (stp_blocks env now signal leg e).1 (stp_blocks-orders leg e))
        (λ f. submit-Keeps env now (new_order env now signal leg.side (leg_spec leg) none f) f)
  settle_leg-Keeps leg (some o) e =
      if-elim (Keeps e) (is_amendable o.status)
        (unless_blocked env now signal (amend_quote env now o.order_id leg)
          (stp_blocks env now signal leg e))
        e
        (λ _.
          unless_blocked-Keeps (amend_quote env now o.order_id leg) e
            (stp_blocks env now signal leg e)
            (same-Keeps e (stp_blocks env now signal leg e).1 (stp_blocks-orders leg e))
            (amend_quote-Keeps env now o.order_id leg))
        (λ _. Keeps-refl e)

  reconcile_leg-Keeps :
      (resting : List Order) (leg : OrderLeg) (matched : List ℕ) (e : Oms Algo)
      → Keeps e (reconcile_leg env now signal resting leg (matched, e)).1
  unfolding reconcile_leg
  reconcile_leg-Keeps resting leg matched e = go (exact_match matched leg resting)
    where
      c : Option Order
      c = candidate matched leg resting

      go :
          (r : Option Order)
          → let s : List ℕ × Oms Algo = elim r [
            | some o ↦ (o.order_id ∷ matched, e)
            | none ↦ (also env now signal c matched, settle_leg env now signal leg c e)
          ] in
            Keeps e s.1
      go none = settle_leg-Keeps leg c e
      go (some o) = Keeps-refl e

  reconcile_legs-Keeps :
      (resting : List Order) (legs : List OrderLeg) (s : List ℕ × Oms Algo)
      → Keeps s.1 (reconcile_legs env now signal resting legs s).1
  unfolding reconcile_legs
  reconcile_legs-Keeps resting [] s = Keeps-refl s.1
  reconcile_legs-Keeps resting (leg ∷ legs) (matched, e) =
      let t = reconcile_leg env now signal resting leg (matched, e) in
      Keeps-trans e t.1 (reconcile_legs env now signal resting legs t).1
        (reconcile_leg-Keeps resting leg matched e) (reconcile_legs-Keeps resting legs t)

  withdraw-Keeps :
      (os : List Order) (matched : List ℕ) (e : Oms Algo)
      → Keeps e (withdraw env now signal os matched e)
  unfolding withdraw
  withdraw-Keeps [] matched e = Keeps-refl e
  withdraw-Keeps (o ∷ os) matched e =
      let f =
        if not (is_matched matched o) && not (eq_status o.status pending_amend)
        then safe_cancel env now o.order_id e
        else e in
      Keeps-trans e f (withdraw env now signal os matched f)
        (if-elim (Keeps e) (not (is_matched matched o) && not (eq_status o.status pending_amend)) _
          _ (λ _. safe_cancel-Keeps env now o.order_id e) (λ _. Keeps-refl e))
        (withdraw-Keeps os matched f)

  pub reconcile_immediate-Keeps :
      (legs : List OrderLeg) (e : Oms Algo) → Keeps e (reconcile_immediate env now signal legs e)
  unfolding reconcile_immediate
  reconcile_immediate-Keeps legs e =
      let resting = resting_of signal e.orders in
      let s = reconcile_legs env now signal resting legs ([], e) in
      Keeps-trans e s.1 (withdraw env now signal resting s.0 s.1)
        (reconcile_legs-Keeps resting legs ([], e)) (withdraw-Keeps resting s.0 s.1)
