-- ===== src/Oms/Response.antt =====
-- oms/engine.py: what a venue's response, a lost response and the venue's own word on an order do to
-- that order. `now` is the OMS's clock, and `ts_event` the event's.
pub mod Rollback
use qf635project.Base.{
  ℕ, ◌+◌, ◌≡◌, Bool, true, false, Option, none, some, ◌&&◌, ◌||◌, not, ltb, if◌then◌else◌,
}
use qf635project.Base.Decimal.{ℤ, pos, ltb_ℤ, eq_ℤ}
use qf635project.Core.{
  Price, Quantity, Timestamp, OrderStatus, acknowledged, filled, rejected, cancelled,
  pending_cancel, pending_amend, partially_filled, status_is_terminal, FillEvent,
}
use qf635project.Oms.StateMachine.{eq_status}
use qf635project.Oms.Order
use qf635project.Oms.Order.{
  Order, leaves_quantity, Outcome, returned, invalid_transition, transition_to, record_fill,
  apply_fill,
}

pub data VenueEvent : Type 0 where
  order_acknowledged : (order_id : ℕ) (ts_event : Timestamp) (exchange_order_id : ℕ) → VenueEvent
  order_rejected : (order_id : ℕ) (ts_event : Timestamp) → VenueEvent
  cancel_rejected : (order_id : ℕ) (ts_event : Timestamp) → VenueEvent
  amend_rejected : (order_id : ℕ) → VenueEvent
  order_cancelled : (order_id : ℕ) (ts_event : Timestamp) → VenueEvent
  order_amended :
      (order_id : ℕ) (ts_event : Timestamp) (new_price : Option Price)
      (new_quantity : Option Quantity) (new_exchange_order_id : Option ℕ)
      → VenueEvent

abbrev pub order_id_of : VenueEvent → ℕ
order_id_of (order_acknowledged k _ _) = k
order_id_of (order_rejected k _) = k
order_id_of (cancel_rejected k _) = k
order_id_of (amend_rejected k) = k
order_id_of (order_cancelled k _) = k
order_id_of (order_amended k _ _ _ _) = k

-- `try: order.transition_to(...) except InvalidStateTransitionError: ...`, then the rest.
abbrev pub attempt : Outcome (Unit {0}) × Order → (Order → Order) → (Order → Order) → Order
attempt (returned _, o) illegal then' = then' o
attempt (invalid_transition, o) illegal then' = illegal o

abbrev unchanged : Order → Order
unchanged o = o

-- `_handle_ack`
unfoldable pub acknowledge : Timestamp → ℕ → Order → Order
acknowledge ts exchange_order_id o =
    attempt (transition_to o acknowledged ts) unchanged
      (λ p. record p { exchange_order_id = some exchange_order_id })

abbrev no_amend : Order → Order
no_amend o = record o { pending_amend = none }

-- Back to acknowledged, or filled when nothing is left.
abbrev pub roll_back : Timestamp → Order → Order
roll_back now o =
    if eq_ℤ (leaves_quantity o) (pos 0)
    then (transition_to (no_amend o) filled now).1
    else (transition_to (no_amend o) acknowledged now).1

-- The new price: the venue's, or else the one asked for.
abbrev price_after : Option Price → Order → Option Price
price_after (some p) o = some p
price_after none o = elim o.pending_amend [ none ↦ o.price | some (p, _) ↦ p ]

abbrev quantity_after : Option Quantity → Order → Quantity
quantity_after (some q) o = q
quantity_after none o = elim o.pending_amend [ none ↦ o.quantity | some (_, q) ↦ q ]

abbrev exchange_order_id_after : Option ℕ → Order → Option ℕ
exchange_order_id_after (some x) o = some x
exchange_order_id_after none o = o.exchange_order_id

-- `_handle_amend`
unfoldable pub amend : Timestamp → Option Price → Option Quantity → Option ℕ → Order → Order
amend ts new_price new_quantity new_exchange_order_id o =
    if eq_status o.status pending_cancel
    then no_amend o
    else attempt (transition_to o acknowledged ts) no_amend (λ p. record p {
      price = price_after new_price p;
      quantity = quantity_after new_quantity p;
      pending_amend = none;
      exchange_order_id = exchange_order_id_after new_exchange_order_id p;
    })

-- The handlers of the responses, on the order they are about.
unfoldable pub respond : Timestamp → VenueEvent → Order → Order
unfolding acknowledge amend
respond now (order_acknowledged _ ts x) o = acknowledge ts x o
respond now (order_rejected _ ts) o = (transition_to o rejected ts).1
respond now (cancel_rejected _ ts) o = (transition_to o acknowledged ts).1
respond now (amend_rejected _) o = roll_back now o
respond now (order_cancelled _ ts) o = (transition_to o cancelled ts).1
respond now (order_amended _ ts price quantity x) o = amend ts price quantity x o

-- `_sweep_stale_pending_amends`, on one order: an amend that waits for too long is rolled back.
unfoldable pub sweep_order : Timestamp → ℕ → Order → Order
sweep_order now timeout o =
    if not (eq_status o.status pending_amend) || ltb now (o.last_update_ns + timeout)
    then o
    else roll_back now o

-- `_on_fill`, on the order: the accounting alone when it is terminal.
abbrev pub fill_result : FillEvent → Order → Outcome Bool × Order
fill_result fill o =
    if Order.is_terminal o
    then (let (b, p) = record_fill o fill in (returned b, p))
    else apply_fill o fill

-- `_refresh_adopted_order`: the filled total only grows.
abbrev pub ratchet : Quantity → Order → Order
ratchet total o =
    if ltb_ℤ o.cumulative_filled total then record o { cumulative_filled = total } else o

abbrev newer_price : Option Price → Option Price → Option Price
newer_price none old = old
newer_price (some p) old = some p

unfoldable pub refresh : Quantity → Quantity → Option Price → Order → Order
refresh quantity total price o =
    if Order.is_terminal o
    then o
    else record (ratchet total o) { quantity = quantity; price = newer_price price o.price }

-- `terminalize_from_venue`, on the order.
abbrev pub ratchet_to : Option Quantity → Order → Order
ratchet_to none o = o
ratchet_to (some total) o = ratchet total o

unfoldable pub terminalize : Timestamp → OrderStatus → Option Quantity → Order → Order
terminalize now status total o =
    if Order.is_terminal o || not (status_is_terminal status)
    then o
    else (transition_to (ratchet_to total o) status now).1
