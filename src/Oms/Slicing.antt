-- ===== src/Oms/Slicing.antt =====
-- oms/engine.py: the driving of the algos, and the whole reconciliation of a signal.
pub mod Keeps
use qf635project.Base.{
  ℕ, ◌+◌, Bool, true, false, Option, none, some, List, [], ◌∷◌, ◌++◌, ◌==◌, ◌&&◌, ◌||◌, not,
  if◌then◌else◌, any, find, keep, map,
}
use qf635project.Base.Dict.{Dict, number_eq, lookup, insert}
use qf635project.Base.Decimal.{ℤ, leb_ℤ, eq_ℤ}
use qf635project.Core.{
  Price, Timestamp, Side, buy, sell, same_side, OrderLeg, SignalEvent, OrderStatus, pending_new,
  acknowledged, partially_filled, pending_cancel, pending_amend, filled, cancelled, rejected,
  expired,
}
use qf635project.Oms.StateMachine.{eq_status}
use qf635project.Oms.Order
use qf635project.Oms.Order.{Order, leaves_quantity}
use qf635project.Oms.Algo.{ChildOrderSpec}
use qf635project.Oms.Engine.{
  Event, execution_routed, Env, Oms, retire_algo, keys, is_child_of, has_live_children, is_plain,
  safe_publish, publish_open_orders, safe_cancel, cancel_children, new_order, submit, amend_quote,
}
use qf635project.Oms.Reconcile.{reconcile_immediate}

module _ {Algo : Type 0} (env : Env Algo) (now : Timestamp) where
  -- `_submit_child`
  unfoldable pub submit_child : ℕ → ChildOrderSpec → Oms Algo → Oms Algo
  submit_child leg_id spec e = elim (lookup leg_id e.algo_ctx) [
    | none ↦ e
    | some (signal, leg) ↦ submit env now (new_order env now signal leg.side spec (some leg_id) e) e
  ]

  -- The end of `_drive_algo` and of a fill's notice: an algo that is done is let go of.
  abbrev pub retire_if_done : ℕ → Algo → Oms Algo → Oms Algo
  retire_if_done leg_id a e =
      if env.algo.is_done a && not (has_live_children leg_id e.orders)
      then retire_algo leg_id e
      else e

  abbrev pub submit_slice : ℕ → Option ChildOrderSpec → Oms Algo → Oms Algo
  submit_slice leg_id none e = e
  submit_slice leg_id (some spec) e = publish_open_orders env (submit_child leg_id spec e)

  -- `_drive_algo`
  unfoldable pub drive_algo : ℕ → Oms Algo → Oms Algo
  drive_algo leg_id e = elim (lookup leg_id e.algos) [
    | none ↦ e
    | some a ↦ elim (env.algo.next_slice now a) [
      | none ↦ retire_algo leg_id e
      | some (spec, a') ↦
          retire_if_done leg_id a'
            (submit_slice leg_id spec (record e { algos = insert leg_id a' e.algos }))
    ]
  ]

  unfoldable pub drive_algos : List ℕ → Oms Algo → Oms Algo
  drive_algos [] e = e
  drive_algos (leg_id ∷ leg_ids) e = drive_algos leg_ids (drive_algo leg_id e)

  abbrev pub same_scope : SignalEvent → SignalEvent → Bool
  same_scope s t =
      s.strategy_id == t.strategy_id && s.instrument.instrument_id == t.instrument.instrument_id

  abbrev pub is_desired : List (OrderLeg × Algo) → ℕ → Bool
  is_desired sliced leg_id = any (λ s. leg_id == s.0.leg_id) sliced

  unfoldable pub withdraw_algo : SignalEvent → List (OrderLeg × Algo) → ℕ → Oms Algo → Oms Algo
  withdraw_algo signal sliced leg_id e = elim (lookup leg_id e.algo_ctx) [
    | none ↦ e
    | some (algo_signal, _) ↦
        if same_scope algo_signal signal && not (is_desired sliced leg_id)
        then cancel_children env now leg_id (retire_algo leg_id e)
        else e
  ]

  -- The algos whose legs the signal no longer has.
  unfoldable pub withdraw_algos :
      SignalEvent → List (OrderLeg × Algo) → List ℕ → Oms Algo → Oms Algo
  withdraw_algos signal sliced [] e = e
  withdraw_algos signal sliced (leg_id ∷ leg_ids) e =
      withdraw_algos signal sliced leg_ids (withdraw_algo signal sliced leg_id e)

  -- A leg whose algo runs resumes it; a new one starts, and is driven once.
  unfoldable pub start_algo : SignalEvent → OrderLeg → Algo → Oms Algo → Oms Algo
  start_algo signal leg a e =
      let ctx = insert leg.leg_id (signal, leg) e.algo_ctx in
      elim (lookup leg.leg_id e.algos) [
        | some _ ↦ record e { algo_ctx = ctx }
        | none ↦
            drive_algo leg.leg_id (record e { algos = insert leg.leg_id a e.algos; algo_ctx = ctx })
      ]

  unfoldable pub start_algos : SignalEvent → List (OrderLeg × Algo) → Oms Algo → Oms Algo
  start_algos signal [] e = e
  start_algos signal ((leg, a) ∷ rest) e = start_algos signal rest (start_algo signal leg a e)

  -- `_reconcile_sliced`
  unfoldable pub reconcile_sliced : SignalEvent → List (OrderLeg × Algo) → Oms Algo → Oms Algo
  reconcile_sliced signal sliced e =
      start_algos signal sliced (withdraw_algos signal sliced (keys e.algos) e)

  abbrev pub Routed : Type 0
  Routed = (List OrderLeg × List (OrderLeg × Algo)) × Oms Algo

  -- The legs so routed: placed at once, or sliced by an algo.
  abbrev pub join_routed : SignalEvent → OrderLeg → Option Algo → (Bool → Routed) → Routed
  join_routed signal leg none rest =
      let ((at_once, sliced), e) = rest false in ((leg ∷ at_once, sliced), e)
  join_routed signal leg (some a) rest =
      let ((at_once, sliced), e) = rest true in ((at_once, (leg, a) ∷ sliced), e)

  -- Each leg is routed, and announced before the next.
  unfoldable pub route_legs : SignalEvent → List OrderLeg → Oms Algo → Routed
  route_legs signal [] e = (([], []), e)
  route_legs signal (leg ∷ legs) e =
      join_routed signal leg
        (env.route leg now signal.instrument (lookup signal.instrument.instrument_id e.latest_mark))
        (λ sliced.
          route_legs signal legs (safe_publish env (execution_routed leg.leg_id sliced) e).1)

  -- `_reconcile_quotes`
  unfoldable pub reconcile_quotes : SignalEvent → Oms Algo → Oms Algo
  reconcile_quotes signal e =
      let ((at_once, sliced), e') = route_legs signal signal.legs e in
      publish_open_orders env
        (reconcile_sliced signal sliced (reconcile_immediate env now signal at_once e'))
