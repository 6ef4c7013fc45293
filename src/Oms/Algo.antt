-- ===== src/Oms/Algo.antt =====
-- oms/execution_algos/base.py and the router's interface, as the OMS uses them.
use qf635project.Base.{Bool, Option}
use qf635project.Core.{
  Price, Quantity, Timestamp, Instrument, OrderLeg, OrderType, TimeInForce, FillEvent,
}

pub record ChildOrderSpec : Type 0 where
  pub quantity : Quantity
  pub order_type : OrderType
  pub time_in_force : TimeInForce
  pub price : Option Price

-- `ExecutionAlgo`; the OMS catches what `next_slice` may raise, which is `none` here. `cancel` is only
-- called on an algo that the OMS has let go of.
pub record ExecutionAlgo (Algo : Type 0) : Type 0 where
  pub next_slice : Timestamp → Algo → Option (Option ChildOrderSpec × Algo)
  pub on_fill : FillEvent → Algo → Algo
  pub is_done : Algo → Bool

-- `ExecutionRouter.route`: an algo for the leg, or none for a single order.
abbrev pub ExecutionRouter : Type 0 → Type 0
ExecutionRouter Algo = OrderLeg → Timestamp → Instrument → Option Price → Option Algo
