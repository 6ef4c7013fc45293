-- ===== src/Oms/Exposure/Totals.antt =====
-- oms/engine.py: what the working exposures add up to.
use qf635project.Base.{
  ℕ, ◌+◌, ◌≡◌, ◌∙◌, inl, inr, Bool, List, [], ◌∷◌, ◌&&◌, if◌then◌else◌, Bool-cases, not, arith,
}
use qf635project.Base.Decimal.{pos, ◌+ℤ◌, int_laws}
use qf635project.Core.{Quantity, Side, buy, sell, same_side, WorkingExposure}
use qf635project.Oms.Order
use qf635project.Oms.Order.{Order, leaves_quantity}
use qf635project.Oms.Exposure.{
  has_key, order_has_key, add_exposure, add_exposures, working_exposures,
}

abbrev side_of : Side → WorkingExposure → Quantity
side_of buy w = w.working_buy
side_of sell w = w.working_sell

-- What the exposures say of a strategy, an instrument and a side; nothing is zero.
abbrev pub reported : ℕ → ℕ → Side → List WorkingExposure → Quantity
reported sid iid side [] = pos 0
reported sid iid side (w ∷ ws) =
    if has_key sid iid w then side_of side w else reported sid iid side ws

abbrev pub reported_count : ℕ → ℕ → List WorkingExposure → ℕ
reported_count sid iid [] = 0
reported_count sid iid (w ∷ ws) =
    if has_key sid iid w then w.open_order_count else reported_count sid iid ws

-- An open order of the strategy and the instrument.
abbrev pub counts : ℕ → ℕ → Order → Bool
counts sid iid o = not (Order.is_terminal o) && order_has_key sid iid o

-- The leaves of the open orders of a strategy, an instrument and a side, added up.
abbrev pub open_leaves : ℕ → ℕ → Side → List Order → Quantity
open_leaves sid iid side [] = pos 0
open_leaves sid iid side (o ∷ os) =
    if counts sid iid o && same_side o.side side
    then leaves_quantity o +ℤ open_leaves sid iid side os
    else open_leaves sid iid side os

abbrev pub open_count : ℕ → ℕ → List Order → ℕ
open_count sid iid [] = 0
open_count sid iid (o ∷ os) =
    if counts sid iid o then open_count sid iid os + 1 else open_count sid iid os

-- What one order adds.
grown :
    (sid iid : ℕ) (side : Side) (o : Order) (ws : List WorkingExposure)
    → (reported sid iid side (add_exposure o ws)
        ≡ reported sid iid side ws
          +ℤ (if order_has_key sid iid o && same_side o.side side
              then leaves_quantity o
              else pos 0))
      × (reported_count sid iid (add_exposure o ws)
          ≡ reported_count sid iid ws + (if order_has_key sid iid o then 1 else 0))
grown sid iid side o [] = (grind int_laws, ground arith)
grown sid iid side o (w ∷ ws) =
    (grind (int_laws, (grown sid iid side o ws).0), grind (arith, (grown sid iid side o ws).1))

add_exposures-totals :
    (sid iid : ℕ) (side : Side) (os : List Order) (ws : List WorkingExposure)
    → (reported sid iid side (add_exposures os ws)
        ≡ reported sid iid side ws +ℤ open_leaves sid iid side os)
      × (reported_count sid iid (add_exposures os ws)
          ≡ reported_count sid iid ws + open_count sid iid os)
unfolding add_exposures
add_exposures-totals sid iid side [] ws = (omega int_laws, omega arith)
add_exposures-totals sid iid side (o ∷ os) ws = elim (Bool-cases (Order.is_terminal o)) [
  | inl t ↦ rw t (add_exposures-totals sid iid side os ws)
  | inr f ↦
      let (total, count) = add_exposures-totals sid iid side os (add_exposure o ws) in
      let (total', count') = grown sid iid side o ws in
      (grind (int_laws, f, total, total'), grind (arith, f, count, count'))
]

-- For every strategy, instrument and side, the working exposures report exactly the sum of the leaves
-- of the orders that are not terminal, and how many these are on both sides.
pub working_exposures_lem :
    (sid iid : ℕ) (side : Side) (orders : List Order)
    → (reported sid iid side (working_exposures orders) ≡ open_leaves sid iid side orders)
      × (reported_count sid iid (working_exposures orders) ≡ open_count sid iid orders)
working_exposures_lem sid iid side orders =
    let (total, count) = add_exposures-totals sid iid side orders [] in
    (total ∙ omega int_laws, omega (arith, count))
