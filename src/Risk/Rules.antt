-- ===== src/Risk/Rules.antt =====
-- risk/base.py and risk/rules/*.py: the rules with their parameters, what their constructors refuse,
-- and `evaluate`, which returns the state too since two of the reads of the state write to it.
-- Windows are in nanoseconds; float thresholds count thousandths.
pub mod Reads
pub mod Breakers
use qf635project.Base.{
  ℕ, ◌*◌, Bool, true, false, Option, none, some, List, [], ◌∷◌, ◌==◌, ◌&&◌, ltb, leb, any, not,
  if◌then◌else◌,
}
use qf635project.Base.Decimal.{ℤ, pos, pos_part, ◌+ℤ◌, ◌-ℤ◌, ◌*ℤ◌, div_ℤ, leb_ℤ, ltb_ℤ}
use qf635project.Core.{
  Price, Quantity, Timestamp, Side, buy, sell, same_side, Severity, info, warn, block, kill,
  OrderLeg, SignalEvent, RuleName,
}
use qf635project.Risk.State.{
  RiskState, Fraction, get_position, get_realized_pnl_today, get_drawdown_pct, get_vpin,
  get_vpin_breach_ticks, signals_in_window,
}

pub data Rule : Type 0 where
  daily_loss_limit : (max_loss : Price) → Rule
  drawdown_circuit_breaker : (warn_pct kill_pct : ℕ) → Rule
  instrument_allowlist : (allowed : List ℕ) → Rule
  max_notional : (cap : Price) → Rule
  max_order_size : (max_quantity : Quantity) → Rule
  max_position : (max_long max_short : Quantity) → Rule
  throttle : (max_signals window_ns : ℕ) → Rule
  vpin_circuit_breaker : (threshold sustained_ticks : ℕ) → Rule

abbrev pub name : Rule → RuleName
name (Rule.daily_loss_limit _) = RuleName.daily_loss_limit
name (Rule.drawdown_circuit_breaker _ _) = RuleName.drawdown_circuit_breaker
name (Rule.instrument_allowlist _) = RuleName.instrument_allowlist
name (Rule.max_notional _) = RuleName.max_notional
name (Rule.max_order_size _) = RuleName.max_order_size
name (Rule.max_position _ _) = RuleName.max_position
name (Rule.throttle _ _) = RuleName.throttle
name (Rule.vpin_circuit_breaker _ _) = RuleName.vpin_circuit_breaker

abbrev is_nil : List ℕ → Bool
is_nil [] = true
is_nil (_ ∷ _) = false

-- What the constructors accept; they raise ValueError otherwise.
unfoldable pub is_constructible : Rule → Bool
is_constructible (Rule.daily_loss_limit max_loss) = ltb_ℤ (pos 0) max_loss
is_constructible (Rule.drawdown_circuit_breaker warn_pct kill_pct) =
    ltb 0 warn_pct && leb warn_pct 1000 && leb warn_pct kill_pct && leb kill_pct 1000
is_constructible (Rule.instrument_allowlist allowed) = not (is_nil allowed)
is_constructible (Rule.max_notional cap) = ltb_ℤ (pos 0) cap
is_constructible (Rule.max_order_size max_quantity) = ltb_ℤ (pos 0) max_quantity
is_constructible (Rule.max_position max_long max_short) =
    leb_ℤ (pos 0) max_long && leb_ℤ (pos 0) max_short
is_constructible (Rule.throttle max_signals window_ns) = ltb 0 max_signals && ltb 0 window_ns
is_constructible (Rule.vpin_circuit_breaker threshold sustained_ticks) =
    leb threshold 1000 && ltb 0 sustained_ticks

pub record RuleResult : Type 0 where
  pub rule_name : RuleName
  pub approved : Bool
  pub severity : Severity
  pub approved_quantity : Option Quantity

-- `RuleResult.approve`
abbrev pub approve : Rule → Option Quantity → RuleResult
approve r clamp_to = record {
  rule_name = name r;
  approved = true;
  severity = info;
  approved_quantity = clamp_to;
}

-- `RuleResult.reject`
abbrev pub reject : Rule → Severity → RuleResult
reject r severity = record {
  rule_name = name r;
  approved = false;
  severity = severity;
  approved_quantity = none;
}

-- What `evaluate` returns, or that it raises.
pub data Evaluation : Type 0 where
  result : RuleResult → Evaluation
  raised : Evaluation

-- `pnl <= self._floor`, where the floor is `-max_loss`
abbrev loss_reached : Price → Price × RiskState → Evaluation × RiskState
loss_reached max_loss (pnl, s) =
    let r = Rule.daily_loss_limit max_loss in
    (if leb_ℤ pnl (pos 0 -ℤ max_loss) then result (reject r kill) else result (approve r none), s)

-- `dd >= pct`, for a fraction and thousandths.
abbrev pub reaches : Fraction → ℕ → Bool
reaches dd pct = leb (pct * dd.denominator) (1000 * dd.numerator)

abbrev drawdown_verdict : ℕ → ℕ → Option Fraction → RuleResult
drawdown_verdict warn_pct kill_pct none =
    approve (Rule.drawdown_circuit_breaker warn_pct kill_pct) none
drawdown_verdict warn_pct kill_pct (some dd) =
    let r = Rule.drawdown_circuit_breaker warn_pct kill_pct in
    if reaches dd kill_pct
    then reject r kill
    else if reaches dd warn_pct
    then reject r warn
    else approve r none

abbrev notional_verdict : Price → OrderLeg → Option Price → RuleResult
notional_verdict cap leg none = approve (Rule.max_notional cap) none
notional_verdict cap leg (some price) =
    let r = Rule.max_notional cap in
    let clamped_qty = div_ℤ cap (pos_part price) in
    if leb_ℤ price (pos 0)
    then approve r none
    else if leb_ℤ (price *ℤ leg.quantity) cap
    then approve r none
    else if leb_ℤ clamped_qty (pos 0)
    then reject r block
    else approve r (some clamped_qty)

-- The quantities of the legs on one side.
abbrev pub side_quantity : Side → List OrderLeg → Quantity
side_quantity side [] = pos 0
side_quantity side (o ∷ os) =
    if same_side o.side side then o.quantity +ℤ side_quantity side os else side_quantity side os

abbrev pub headroom : Quantity → Quantity → Side → Quantity → Quantity → Quantity
headroom max_long max_short buy current siblings = max_long -ℤ (current +ℤ siblings)
headroom max_long max_short sell current siblings = current -ℤ siblings +ℤ max_short

abbrev pub position_verdict : Quantity → Quantity → OrderLeg → Quantity → RuleResult
position_verdict max_long max_short leg room =
    let r = Rule.max_position max_long max_short in
    if leb_ℤ room (pos 0)
    then reject r block
    else if ltb_ℤ room leg.quantity
    then approve r (some room)
    else approve r none

abbrev throttle_verdict : ℕ → ℕ → ℕ × RiskState → Evaluation × RiskState
throttle_verdict max_signals window_ns (count, s) =
    let r = Rule.throttle max_signals window_ns in
    (if ltb max_signals count then result (reject r warn) else result (approve r none), s)

-- The last line of the VPIN rule passes the reason by position where `approve` takes it by keyword
-- only, so below the threshold the call raises TypeError.
abbrev vpin_verdict : ℕ → ℕ → Option ℕ → ℕ → Evaluation
vpin_verdict threshold sustained none ticks =
    result (approve (Rule.vpin_circuit_breaker threshold sustained) none)
vpin_verdict threshold sustained (some value) ticks =
    let r = Rule.vpin_circuit_breaker threshold sustained in
    if leb threshold value && leb sustained ticks
    then result (reject r kill)
    else if leb threshold value
    then result (reject r block)
    else raised

-- `siblings` are the signal's legs but for the one under evaluation.
unfoldable pub evaluate :
    Timestamp → SignalEvent → List OrderLeg → OrderLeg → Rule → RiskState → Evaluation × RiskState
evaluate now signal siblings leg (Rule.daily_loss_limit max_loss) s =
    loss_reached max_loss (get_realized_pnl_today now signal.strategy_id s)
evaluate now signal siblings leg (Rule.drawdown_circuit_breaker warn_pct kill_pct) s =
    (result (drawdown_verdict warn_pct kill_pct (get_drawdown_pct signal.strategy_id s)), s)
evaluate now signal siblings leg (Rule.instrument_allowlist allowed) s =
    let r = Rule.instrument_allowlist allowed in
    (
      if any (λ i. signal.instrument.instrument_id == i) allowed
          then result (approve r none)
          else result (reject r block),
      s,
    )
evaluate now signal siblings leg (Rule.max_notional cap) s =
    (result (notional_verdict cap leg leg.price), s)
evaluate now signal siblings leg (Rule.max_order_size max_quantity) s =
    let r = Rule.max_order_size max_quantity in
    (
      if leb_ℤ leg.quantity max_quantity
          then result (approve r none)
          else result (approve r (some max_quantity)),
      s,
    )
evaluate now signal siblings leg (Rule.max_position max_long max_short) s =
    let current = get_position s signal.strategy_id signal.instrument.instrument_id in
    (
      result (
          position_verdict max_long max_short leg
            (headroom max_long max_short leg.side current (side_quantity leg.side siblings))),
      s,
    )
evaluate now signal siblings leg (Rule.throttle max_signals window_ns) s =
    throttle_verdict max_signals window_ns (signals_in_window now signal.strategy_id window_ns s)
evaluate now signal siblings leg (Rule.vpin_circuit_breaker threshold sustained) s =
    let iid = signal.instrument.instrument_id in
    (vpin_verdict threshold sustained (get_vpin s iid) (get_vpin_breach_ticks s iid threshold), s)
