-- ===== src/Oms/Store.antt =====
-- oms/engine.py: the map `_orders` from ids to orders, in insertion order. An order is looked up by its
-- id, and what a handler writes to it is seen in the map, since the map holds the object.
pub mod Evolution
use qf635project.Base.{
  ℕ, Bool, true, false, Option, none, some, List, [], ◌∷◌, ◌==◌, if◌then◌else◌, find, any,
}
use qf635project.Oms.Order.{Order}

-- `self._orders.get(order_id)`
abbrev pub get_order : ℕ → List Order → Option Order
get_order order_id orders = find (λ o. order_id == o.order_id) orders

-- The order of the same id takes the place of the one in the map.
abbrev pub put_order : Order → List Order → List Order
put_order o [] = []
put_order o (x ∷ xs) = if o.order_id == x.order_id then o ∷ xs else x ∷ put_order o xs

-- A handler's write to the order of an id, if there is one.
abbrev pub update_order : ℕ → (Order → Order) → List Order → List Order
update_order order_id f orders = elim (get_order order_id orders) [
  | none ↦ orders
  | some o ↦ put_order (f o) orders
]
