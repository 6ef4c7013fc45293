-- ===== src/Oms/Exposure.antt =====
-- oms/engine.py: `open_orders`, `working_exposures` and `open_order_details`.
pub mod Totals
use qf635project.Base.{
  ℕ, ◌+◌, Bool, true, false, List, [], ◌∷◌, ◌==◌, ◌&&◌, not, if◌then◌else◌, keep, map,
}
use qf635project.Base.Decimal.{ℤ, pos, ◌+ℤ◌}
use qf635project.Core.{Side, buy, sell, WorkingExposure, OpenOrderDetail}
use qf635project.Oms.Order
use qf635project.Oms.Order.{Order, leaves_quantity}

-- `open_orders`
unfoldable pub open_orders : List Order → List Order
open_orders orders = keep (λ o. not (Order.is_terminal o)) orders

-- An exposure of the order's strategy and instrument, with nothing in it yet.
abbrev pub fresh_exposure : Order → WorkingExposure
fresh_exposure o = record {
  strategy_id = o.strategy_id;
  instrument = o.instrument;
  working_buy = pos 0;
  working_sell = pos 0;
  open_order_count = 0;
}

-- The order's leaves, on its side.
abbrev pub grow : Order → WorkingExposure → WorkingExposure
grow o w = elim o.side [
  | buy ↦ record w {
    working_buy = w.working_buy +ℤ leaves_quantity o;
    open_order_count = w.open_order_count + 1;
  }
  | sell ↦ record w {
    working_sell = w.working_sell +ℤ leaves_quantity o;
    open_order_count = w.open_order_count + 1;
  }
]

-- `key`, on an exposure and on an order.
abbrev pub has_key : ℕ → ℕ → WorkingExposure → Bool
has_key sid iid w = sid == w.strategy_id && iid == w.instrument.instrument_id

abbrev pub order_has_key : ℕ → ℕ → Order → Bool
order_has_key sid iid o = sid == o.strategy_id && iid == o.instrument.instrument_id

abbrev pub add_exposure : Order → List WorkingExposure → List WorkingExposure
add_exposure o [] = grow o (fresh_exposure o) ∷ []
add_exposure o (w ∷ ws) =
    if has_key o.strategy_id o.instrument.instrument_id w
    then grow o w ∷ ws
    else w ∷ add_exposure o ws

-- The loop of `working_exposures` over the orders, from the exposures so far.
unfoldable pub add_exposures : List Order → List WorkingExposure → List WorkingExposure
add_exposures [] ws = ws
add_exposures (o ∷ os) ws = add_exposures os (if Order.is_terminal o then ws else add_exposure o ws)

abbrev pub working_exposures : List Order → List WorkingExposure
working_exposures orders = add_exposures orders []

abbrev detail_of : Order → OpenOrderDetail
detail_of o = record {
  order_id = o.order_id;
  strategy_id = o.strategy_id;
  instrument = o.instrument;
  side = o.side;
  quantity = o.quantity;
  leaves_quantity = leaves_quantity o;
  price = o.price;
  status = o.status;
}

unfoldable pub open_order_details : List Order → List OpenOrderDetail
open_order_details orders = map detail_of (keep (λ o. not (Order.is_terminal o)) orders)
