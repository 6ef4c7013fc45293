-- ===== src/Oms/Tests.antt =====
-- A bid for 10 that is filled twice, and the same fill delivered again.
use qf635project.Base.{ℕ, ◌≡◌, ◌↔◌, refl, true, false, none, some, List, [], ◌∷◌, if◌then◌else◌}
use qf635project.Base.Decimal.{pos, ◌+ℤ◌, ◌-ℤ◌, eq_ℤ}
use qf635project.Core.{
  Instrument, FillEvent, OrderStatus, acknowledged, filled, partially_filled, cancelled, buy, limit,
  gtc, pending_cancel, pending_new, status_is_terminal,
}
use qf635project.Oms.StateMachine.{is_terminal, validate_transition, no_transitions}
use qf635project.Oms.StateMachine.Reachability.{
  Reach, here, Step, terminal_iff, Reach-terminal, live_status,
}
use qf635project.Oms.Order
use qf635project.Oms.Order.{
  Order, Outcome, returned, invalid_transition, was_applied, record_fill, apply_fill,
}
use qf635project.Oms.Order.Fills.{
  record_fills, new_quantity, record_fill-again, record_fills-total, apply_fill_cases,
}

abbrev eth : Instrument
eth = record { instrument_id = 3; tick_size = pos 1; lot_size = pos 1; min_notional = none }

abbrev bid : Order
bid = record {
  order_id = 1;
  client_order_id = 1 ∷ 2 ∷ [];
  strategy_id = 5;
  instrument = eth;
  side = buy;
  order_type = limit;
  quantity = pos 10;
  price = some (pos 100);
  time_in_force = gtc;
  created_at_ns = 1;
  status = acknowledged;
  exchange_order_id = some 77;
  cumulative_filled = pos 0;
  average_fill_price = pos 0;
  last_update_ns = 2;
  parent_leg_id = none;
  applied_fills = [];
  pending_amend = none;
}

abbrev fill_of : ℕ → ℕ → FillEvent
fill_of id size = record {
  ts_event = 10;
  fill_id = id;
  order_id = 1;
  strategy_id = 5;
  instrument = eth;
  side = buy;
  fill_price = pos 100;
  fill_quantity = pos size;
  fee = pos 0;
}

abbrev deliveries : List FillEvent
deliveries = fill_of 8 4 ∷ fill_of 9 6 ∷ fill_of 8 4 ∷ []

record_fills-total_example :
    (record_fills bid deliveries).cumulative_filled ≡ pos 0 +ℤ new_quantity [] deliveries
record_fills-total_example = record_fills-total bid deliveries

record_fill-again_example :
    record_fill (record_fill bid (fill_of 8 4)).1 (fill_of 8 4)
    ≡ (false, (record_fill bid (fill_of 8 4)).1)
record_fill-again_example = record_fill-again bid (fill_of 8 4)

apply_fill_cases_example :
    (was_applied 8 bid ≡ true → apply_fill bid (fill_of 8 4) ≡ (returned false, bid))
    × (was_applied 8 bid ≡ false
        → ((apply_fill bid (fill_of 8 4)).1.cumulative_filled ≡ pos 0 +ℤ pos 4)
          × (Order.is_terminal bid ≡ false
              → ((apply_fill bid (fill_of 8 4)).0 ≡ returned true)
                × ((apply_fill bid (fill_of 8 4)).1.status ≡ (
                    if eq_ℤ (pos 10 -ℤ (pos 0 +ℤ pos 4)) (pos 0)
                    then filled
                    else partially_filled)))
          × (Order.is_terminal bid ≡ true
              → ((apply_fill bid (fill_of 8 4)).0 ≡ invalid_transition)
                × ((apply_fill bid (fill_of 8 4)).1.status ≡ acknowledged)))
apply_fill_cases_example = apply_fill_cases bid (fill_of 8 4)

terminal_iff_example :
    (is_terminal filled ≡ status_is_terminal filled)
    × ((is_terminal filled ≡ true)
        ↔ ((t : OrderStatus) → validate_transition (some filled) t ≡ no_transitions))
terminal_iff_example = terminal_iff filled

Reach-terminal_example : cancelled ≡ cancelled
unfolding status_is_terminal
Reach-terminal_example = Reach-terminal {s = cancelled} {t = cancelled} refl here

live_status_example :
    (is_terminal pending_cancel ≡ false → Step pending_cancel filled)
    × Reach pending_new pending_cancel
live_status_example = live_status pending_cancel
