-- ===== src/Oms/Order.antt =====
-- oms/order.py: the mutable view of one order. A method returns the new order with its result; what
-- it wrote before it raised stays written.
pub mod Fills
use qf635project.Base.{
  ℕ, suc, ◌+◌, Bool, true, false, Option, none, some, List, [], ◌∷◌, ◌==◌, ◌||◌, if◌then◌else◌, any,
}
use qf635project.Base.Decimal.{ℤ, pos, pos_part, ◌+ℤ◌, ◌-ℤ◌, ◌*ℤ◌, div_ℤ, ltb_ℤ, eq_ℤ}
use qf635project.Core.{
  Price, Quantity, Timestamp, Instrument, Side, OrderType, TimeInForce, OrderStatus, filled,
  partially_filled, FillEvent,
}
use qf635project.Oms.StateMachine
use qf635project.Oms.StateMachine.{Verdict, legal, no_transitions, illegal, validate_transition}

pub record Order : Type 0 where
  pub order_id : ℕ
  pub client_order_id : List ℕ
  pub strategy_id : ℕ
  pub instrument : Instrument
  pub side : Side
  pub order_type : OrderType
  pub quantity : Quantity
  pub price : Option Price
  pub time_in_force : TimeInForce
  pub created_at_ns : Timestamp
  pub status : OrderStatus
  pub exchange_order_id : Option ℕ
  pub cumulative_filled : Quantity
  pub average_fill_price : Price
  pub last_update_ns : Timestamp
  pub parent_leg_id : Option ℕ
  pub applied_fills : List ℕ
  pub pending_amend : Option (Option Price × Quantity)

abbrev pub leaves_quantity : Order → Quantity
leaves_quantity o = o.quantity -ℤ o.cumulative_filled

abbrev pub is_terminal : Order → Bool
is_terminal o = StateMachine.is_terminal o.status

-- What a method returns, or the InvalidStateTransitionError that it raises.
pub data Outcome (A : Type 0) : Type 0 where
  returned : A → Outcome A
  invalid_transition : Outcome A

abbrev pub set_status : Order → OrderStatus → Timestamp → Verdict → Outcome (Unit {0}) × Order
set_status o new_status at_ns legal =
    (returned tt, record o { status = new_status; last_update_ns = at_ns })
set_status o new_status at_ns no_transitions = (invalid_transition, o)
set_status o new_status at_ns illegal = (invalid_transition, o)

unfoldable pub transition_to : Order → OrderStatus → Timestamp → Outcome (Unit {0}) × Order
transition_to o new_status at_ns =
    set_status o new_status at_ns (validate_transition (some o.status) new_status)

-- `fill_key in self._applied_fills`
abbrev pub was_applied : ℕ → Order → Bool
was_applied fill_id o = any (λ k. fill_id == k) o.applied_fills

-- The new average, when anything is filled.
average_after : Order → FillEvent → Price
average_after o fill =
    let new_qty = o.cumulative_filled +ℤ fill.fill_quantity in
    if ltb_ℤ (pos 0) new_qty
    then div_ℤ
        (o.average_fill_price *ℤ o.cumulative_filled +ℤ fill.fill_price *ℤ fill.fill_quantity)
        (pos_part new_qty)
    else o.average_fill_price

unfoldable pub record_fill : Order → FillEvent → Bool × Order
unfolding average_after
record_fill o fill = if was_applied fill.fill_id o then (false, o) else (
  true,
  record o {
    applied_fills = fill.fill_id ∷ o.applied_fills;
    average_fill_price = average_after o fill;
    cumulative_filled = o.cumulative_filled +ℤ fill.fill_quantity;
  },
)

-- The status after a fill: filled when nothing is left.
abbrev pub status_after : Order → OrderStatus
status_after o = if eq_ℤ (leaves_quantity o) (pos 0) then filled else partially_filled

abbrev pub settle : FillEvent → Bool × Order → Outcome Bool × Order
settle fill (false, o) = (returned false, o)
settle fill (true, o) =
    let (r, o') = transition_to o (status_after o) fill.ts_event in
    (elim r [ returned _ ↦ returned true | invalid_transition ↦ invalid_transition ], o')

unfoldable pub apply_fill : Order → FillEvent → Outcome Bool × Order
apply_fill o fill = settle fill (record_fill o fill)
