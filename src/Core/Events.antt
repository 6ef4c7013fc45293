-- ===== src/Core/Events.antt =====
-- core/instruments.py and core/events.py: what strategies, risk, the OMS and the gateways exchange.
use qf635project.Base.{ℕ, Bool, Option, List}
use qf635project.Core.Types.{
  Price, Quantity, Timestamp, Side, OrderType, TimeInForce, ExecutionIntent, Severity, OrderStatus,
}

-- `instrument_id` stands for the text `exchange:symbol`.
pub record Instrument : Type 0 where
  pub instrument_id : ℕ
  pub tick_size : Price
  pub lot_size : Quantity
  pub min_notional : Option Price

pub record OrderLeg : Type 0 where
  pub leg_id : ℕ
  pub side : Side
  pub quantity : Quantity
  pub price : Option Price
  pub order_type : OrderType
  pub time_in_force : TimeInForce
  pub intent : ExecutionIntent

pub record SignalEvent : Type 0 where
  pub event_id : ℕ
  pub strategy_id : ℕ
  pub instrument : Instrument
  pub legs : List OrderLeg
  pub atomic : Bool

-- A rule's name, or whoever else names the verdict; `operator` is any text that an operator gives.
pub data RuleName : Type 0 where
  daily_loss_limit drawdown_circuit_breaker instrument_allowlist max_notional max_order_size
        max_position throttle vpin_circuit_breaker kill_switch min_notional :
      RuleName
  operator : ℕ → RuleName

pub record ApprovedLeg : Type 0 where
  pub leg_id : ℕ
  pub side : Side
  pub approved_quantity : Quantity

pub record RejectedLeg : Type 0 where
  pub leg_id : ℕ
  pub side : Side
  pub rule_name : RuleName
  pub severity : Severity

pub record RiskDecision : Type 0 where
  pub signal_event_id : ℕ
  pub strategy_id : ℕ
  pub approved : Bool
  pub severity : Severity
  pub rule_name : Option RuleName
  pub approved_legs : List ApprovedLeg
  pub rejected_legs : List RejectedLeg

pub record FillEvent : Type 0 where
  pub ts_event : Timestamp
  pub fill_id : ℕ
  pub order_id : ℕ
  pub strategy_id : ℕ
  pub instrument : Instrument
  pub side : Side
  pub fill_price : Price
  pub fill_quantity : Quantity
  pub fee : Price

pub record PositionUpdateEvent : Type 0 where
  pub strategy_id : ℕ
  pub instrument : Instrument
  pub quantity : Quantity
  pub average_entry_price : Price
  pub realized_pnl : Price
  pub unrealized_pnl : Price
  pub mark_price : Price

pub record WorkingExposure : Type 0 where
  pub strategy_id : ℕ
  pub instrument : Instrument
  pub working_buy : Quantity
  pub working_sell : Quantity
  pub open_order_count : ℕ

pub record OpenOrderDetail : Type 0 where
  pub order_id : ℕ
  pub strategy_id : ℕ
  pub instrument : Instrument
  pub side : Side
  pub quantity : Quantity
  pub leaves_quantity : Quantity
  pub price : Option Price
  pub status : OrderStatus
