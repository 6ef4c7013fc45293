-- ===== src/Oms/Order/Fills.antt =====
-- Fill accounting of one order, and the status that follows from it.
use qf635project.Base.{ℕ, ◌≡◌, Bool, true, false, List, [], ◌∷◌, ◌==◌, if◌then◌else◌, any, arith}
use qf635project.Base.Decimal.{pos, ◌+ℤ◌, ◌-ℤ◌, eq_ℤ, int_laws}
use qf635project.Core.{Quantity, filled, partially_filled, FillEvent}
use qf635project.Oms.StateMachine
use qf635project.Oms.StateMachine.{validate_transition}
use qf635project.Oms.Order.{
  Order, is_terminal, returned, invalid_transition, transition_to, was_applied, record_fill,
  apply_fill,
}

-- A second delivery of a fill changes nothing.
pub record_fill-again :
    (o : Order) (fill : FillEvent)
    → record_fill (record_fill o fill).1 fill ≡ (false, (record_fill o fill).1)
unfolding record_fill
record_fill-again o fill = ground arith

-- All fills of a list, in order.
pub record_fills : Order → List FillEvent → Order
record_fills o [] = o
record_fills o (f ∷ fs) = record_fills (record_fill o f).1 fs

-- The quantity of the fills that are new: not among the ids seen, and the first of their id.
abbrev pub mem : ℕ → List ℕ → Bool
mem k ks = any (λ j. k == j) ks

pub new_quantity : List ℕ → List FillEvent → Quantity
new_quantity seen [] = pos 0
new_quantity seen (f ∷ fs) =
    let rest = new_quantity (f.fill_id ∷ seen) fs in
    let skipped = new_quantity seen fs in
    if mem f.fill_id seen then skipped else f.fill_quantity +ℤ rest

-- Whatever is delivered, and however often, the filled total rises by the quantities of the fills
-- that were not seen before, each counted once.
pub record_fills-total :
    (o : Order) (fs : List FillEvent)
    → (record_fills o fs).cumulative_filled ≡ o.cumulative_filled +ℤ new_quantity o.applied_fills fs
unfolding record_fills new_quantity record_fill
record_fills-total o [] = omega int_laws
record_fills-total o (f ∷ fs) = grind (int_laws, record_fills-total (record_fill o f).1 fs)

-- Applying a fill: a repeated one leaves the order as it was and says so; a new one on an order
-- that is not terminal is counted and gives the status filled when nothing is left, partially
-- filled otherwise; on a terminal order it is counted and raises, the status kept.
pub apply_fill_cases :
    (o : Order) (fill : FillEvent)
    → (was_applied fill.fill_id o ≡ true → apply_fill o fill ≡ (returned false, o))
      × (was_applied fill.fill_id o ≡ false
          → ((apply_fill o fill).1.cumulative_filled ≡ o.cumulative_filled +ℤ fill.fill_quantity)
            × (is_terminal o ≡ false
                → ((apply_fill o fill).0 ≡ returned true)
                  × ((apply_fill o fill).1.status ≡ (
                      if eq_ℤ (o.quantity -ℤ (o.cumulative_filled +ℤ fill.fill_quantity)) (pos 0)
                      then filled
                      else partially_filled)))
            × (is_terminal o ≡ true
                → ((apply_fill o fill).0 ≡ invalid_transition)
                  × ((apply_fill o fill).1.status ≡ o.status)))
unfolding apply_fill record_fill transition_to validate_transition StateMachine.is_terminal
apply_fill_cases o fill = ground arith
