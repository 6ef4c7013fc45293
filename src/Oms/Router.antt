-- ===== src/Oms/Router.antt =====
-- oms/router.py: the default router. A notional and its limits are counted in the unit of a product, and
-- durations are in nanoseconds. That a limit is not positive or a TWAP cannot be made raises ConfigError.
pub mod Decides
use qf635project.Base.{ℕ, Bool, true, false, Option, none, some, not, if◌then◌else◌}
use qf635project.Base.Decimal.{ℤ, pos, ◌*ℤ◌, leb_ℤ}
use qf635project.Core.{
  Price, Quantity, Timestamp, Instrument, OrderLeg, ExecutionIntent, passive, normal, urgent,
}
use qf635project.Oms.Algo.{ExecutionRouter}
use qf635project.Oms.Twap.{TwapAlgo, create}

pub record RoutingContext : Type 0 where
  pub now_ns : Timestamp
  pub instrument : Instrument
  pub last_mark : Option Price

pub record DefaultExecutionRouter : Type 0 where
  pub slice_threshold : ℤ
  pub max_single : ℤ
  pub twap_slices : ℕ
  pub twap_ns : ℕ
  pub urgent_twap_ns : ℕ

-- The verdict on a leg: one order in place, or an algo; or ConfigError.
pub data RoutingDecision : Type 0 where
  single : RoutingDecision
  sliced : TwapAlgo → RoutingDecision
  config_error : RoutingDecision

abbrev reference : OrderLeg → RoutingContext → Option Price
reference leg ctx = elim leg.price [ none ↦ ctx.last_mark | some p ↦ some p ]

-- `_notional`
unfoldable pub notional_of : OrderLeg → RoutingContext → Option ℤ
notional_of leg ctx = elim (reference leg ctx) [
  | none ↦ none
  | some p ↦ if leb_ℤ p (pos 0) then none else some (p *ℤ leg.quantity)
]

-- `_make_twap`
unfoldable pub make_twap : DefaultExecutionRouter → OrderLeg → RoutingContext → ℕ → RoutingDecision
make_twap r leg ctx duration_ns =
    elim (create leg.quantity duration_ns r.twap_slices ctx.now_ns leg.order_type leg.time_in_force
      leg.price) [ none ↦ config_error | some a ↦ sliced a ]

abbrev pub slice_over : DefaultExecutionRouter → OrderLeg → RoutingContext → ℤ → ℕ → RoutingDecision
slice_over r leg ctx limit duration_ns = elim (notional_of leg ctx) [
  | none ↦ single
  | some n ↦ if leb_ℤ n limit then single else make_twap r leg ctx duration_ns
]

unfoldable pub route : DefaultExecutionRouter → OrderLeg → RoutingContext → RoutingDecision
route r leg ctx = elim leg.intent [
  | passive ↦ single
  | urgent ↦ slice_over r leg ctx r.max_single r.urgent_twap_ns
  | normal ↦ slice_over r leg ctx r.slice_threshold r.twap_ns
]
