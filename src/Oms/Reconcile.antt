-- ===== src/Oms/Reconcile.antt =====
-- oms/engine.py: the reconciliation of a strategy's legs with its resting orders, self-trade
-- prevention.
pub mod Keeps
pub mod Untouched
pub mod SelfTrade
use qf635project.Base.{
  ℕ, ◌+◌, Bool, true, false, Option, none, some, List, [], ◌∷◌, ◌++◌, ◌==◌, ◌&&◌, ◌||◌, not,
  if◌then◌else◌, any, find, keep, map,
}
use qf635project.Base.Dict.{Dict, number_eq, lookup, insert}
use qf635project.Base.Decimal.{ℤ, leb_ℤ, eq_ℤ}
use qf635project.Core.{
  Price, Timestamp, Side, buy, sell, same_side, OrderLeg, SignalEvent, OrderStatus, pending_new,
  acknowledged, partially_filled, pending_cancel, pending_amend, filled, cancelled, rejected,
  expired,
}
use qf635project.Oms.StateMachine.{eq_status}
use qf635project.Oms.Order
use qf635project.Oms.Order.{Order, leaves_quantity}
use qf635project.Oms.Algo.{ChildOrderSpec}
use qf635project.Oms.Engine.{
  Event, execution_routed, Env, Oms, retire_algo, keys, is_child_of, has_live_children, is_plain,
  safe_publish, publish_open_orders, safe_cancel, cancel_children, new_order, submit, amend_quote,
}

abbrev pub eq_price : Option Price → Option Price → Bool
eq_price none none = true
eq_price (some p) (some q) = eq_ℤ p q
eq_price none (some _) = false
eq_price (some _) none = false

-- `_STP_LIVE_STATUSES`
abbrev pub stp_live : OrderStatus → Bool
stp_live pending_new = true
stp_live acknowledged = true
stp_live partially_filled = true
stp_live pending_amend = true
stp_live _ = false

-- A price of one side meets a price of the other.
abbrev pub meets : Side → Price → Side → Price → Bool
meets buy p sell q = leb_ℤ q p
meets sell p buy q = leb_ℤ p q
meets buy p buy q = false
meets sell p sell q = false

abbrev pub crosses : ℕ → ℕ → Side → Price → Order → Bool
crosses sid iid side price o = elim o.price [
  | none ↦ false
  | some q ↦
      not (o.strategy_id == sid)
      && o.instrument.instrument_id == iid
      && stp_live o.status
      && meets side price o.side q
]

-- `_crosses_other_strategy`
unfoldable pub crosses_other_strategy : ℕ → ℕ → Side → Option Price → List Order → Option Order
crosses_other_strategy sid iid side none orders = none
crosses_other_strategy sid iid side (some price) orders = find (crosses sid iid side price) orders

-- `active`, the statuses of `_reconcile_immediate`
abbrev pub is_active : OrderStatus → Bool
is_active pending_new = true
is_active acknowledged = true
is_active partially_filled = true
is_active pending_amend = true
is_active pending_cancel = true
is_active _ = false

abbrev pub resting_of : SignalEvent → List Order → List Order
resting_of signal orders =
    keep
      (λ o.
        o.strategy_id == signal.strategy_id
        && o.instrument.instrument_id == signal.instrument.instrument_id
        && is_plain o
        && is_active o.status)
      orders

abbrev pub is_matched : List ℕ → Order → Bool
is_matched matched o = any (λ k. o.order_id == k) matched

abbrev pub exact_match : List ℕ → OrderLeg → List Order → Option Order
exact_match matched leg resting =
    find
      (λ o.
        not (is_matched matched o)
        && same_side o.side leg.side
        && eq_price o.price leg.price
        && eq_ℤ (leaves_quantity o) leg.quantity)
      resting

abbrev pub candidate : List ℕ → OrderLeg → List Order → Option Order
candidate matched leg resting =
    find (λ o. not (is_matched matched o) && same_side o.side leg.side) resting

abbrev pub leg_spec : OrderLeg → ChildOrderSpec
leg_spec leg = record {
  quantity = leg.quantity;
  order_type = leg.order_type;
  time_in_force = leg.time_in_force;
  price = leg.price;
}

abbrev pub is_amendable : OrderStatus → Bool
is_amendable acknowledged = true
is_amendable partially_filled = true
is_amendable _ = false

module _ {Algo : Type 0} (env : Env Algo) (now : Timestamp) (signal : SignalEvent) where
  -- `_stp_blocks`
  unfoldable pub stp_blocks : OrderLeg → Oms Algo → Bool × Oms Algo
  stp_blocks leg e =
      if e.stp_enabled
      then elim (crosses_other_strategy signal.strategy_id signal.instrument.instrument_id leg.side
          leg.price e.orders) [
            | none ↦ (false, e)
            | some _ ↦ (true, record e { self_trade_prevented = e.self_trade_prevented + 1 })
          ]
      else (false, e)

  -- `_place_quote`
  abbrev pub place_quote : OrderLeg → Oms Algo → Oms Algo
  place_quote leg e = submit env now (new_order env now signal leg.side (leg_spec leg) none e) e

  abbrev pub unless_blocked : (Oms Algo → Oms Algo) → Bool × Oms Algo → Oms Algo
  unless_blocked f (true, e) = e
  unless_blocked f (false, e) = f e

  -- What is done for a leg that no resting order matches exactly.
  unfoldable pub settle_leg : OrderLeg → Option Order → Oms Algo → Oms Algo
  settle_leg leg none e = unless_blocked (place_quote leg) (stp_blocks leg e)
  settle_leg leg (some o) e =
      if is_amendable o.status
      then unless_blocked (amend_quote env now o.order_id leg) (stp_blocks leg e)
      else e

  abbrev pub also : Option Order → List ℕ → List ℕ
  also none matched = matched
  also (some o) matched = o.order_id ∷ matched

  -- One leg: an exact match stays as it is, or else the first order of the side is amended.
  unfoldable pub reconcile_leg : List Order → OrderLeg → List ℕ × Oms Algo → List ℕ × Oms Algo
  reconcile_leg resting leg (matched, e) = elim (exact_match matched leg resting) [
    | some o ↦ (o.order_id ∷ matched, e)
    | none ↦ let c = candidate matched leg resting in (also c matched, settle_leg leg c e)
  ]

  unfoldable pub reconcile_legs : List Order → List OrderLeg → List ℕ × Oms Algo → List ℕ × Oms Algo
  reconcile_legs resting [] s = s
  reconcile_legs resting (leg ∷ legs) s = reconcile_legs resting legs (reconcile_leg resting leg s)

  -- Every resting order that is not matched is cancelled, but for those in the middle of an amend.
  unfoldable pub withdraw : List Order → List ℕ → Oms Algo → Oms Algo
  withdraw [] matched e = e
  withdraw (o ∷ os) matched e = withdraw os matched (
      if not (is_matched matched o) && not (eq_status o.status pending_amend)
      then safe_cancel env now o.order_id e
      else e)

  -- `_reconcile_immediate`
  unfoldable pub reconcile_immediate : List OrderLeg → Oms Algo → Oms Algo
  reconcile_immediate legs e =
      let resting = resting_of signal e.orders in
      let (matched, e') = reconcile_legs resting legs ([], e) in withdraw resting matched e'
