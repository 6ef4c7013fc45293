-- ===== src/Risk/Engine/Signal.antt =====
-- risk/engine.py: `_on_signal` from the verdict on, and the other handlers and the lifecycle.
pub mod Count
pub mod Published
pub mod Halt
pub mod Room
pub mod Exposure
use qf635project.Base.{
  ℕ, Bool, true, false, Option, none, some, List, [], ◌∷◌, ◌++◌, ◌&&◌, not, if◌then◌else◌,
}
use qf635project.Base.Dict.{number_eq, lookup_or}
use qf635project.Core.{
  Timestamp, Severity, info, kill, SignalEvent, RuleName, ApprovedLeg, RejectedLeg, RiskDecision,
  FillEvent, PositionUpdateEvent, WorkingExposure,
}
use qf635project.Risk.KillSwitch.{reset}
use qf635project.Risk.State
use qf635project.Risk.State.{record_signal}
use qf635project.Risk.Rules.{Rule}
use qf635project.Risk.Engine.{
  Output, decision, alert, RiskEngine, publish, engage_kill_switch, Pass, evaluate_legs,
}

abbrev pub is_empty {ℓ} : {A : Type ℓ} → List A → Bool
is_empty [] = true
is_empty (_ ∷ _) = false

abbrev first_rule : List RejectedLeg → Option RuleName
first_rule [] = none
first_rule (r ∷ _) = some r.rule_name

module _ (signal : SignalEvent) where
  abbrev pub decide :
      Bool → Severity → Option RuleName → List ApprovedLeg → List RejectedLeg → RiskDecision
  decide approved severity rule_name approved_legs rejected_legs = record {
    signal_event_id = signal.event_id;
    strategy_id = signal.strategy_id;
    approved = approved;
    severity = severity;
    rule_name = rule_name;
    approved_legs = approved_legs;
    rejected_legs = rejected_legs;
  }

  -- The decision while the kill switch is engaged.
  abbrev pub halted : Option RuleName → RiskDecision
  halted triggered_by = decide false kill triggered_by [] []

  -- The verdict on the signal: an atomic one needs every leg, any other at least one.
  unfoldable pub assemble : Pass → RiskDecision
  assemble p =
      if signal.atomic && not (is_empty p.rejected_legs)
      then decide false p.worst_severity (first_rule p.rejected_legs) [] p.rejected_legs
      else if is_empty p.approved_legs
      then decide false p.worst_severity (first_rule p.rejected_legs) [] p.rejected_legs
      else decide true info none p.approved_legs p.rejected_legs

-- The rules of a signal: the global ones first.
abbrev pub rules_of : SignalEvent → RiskEngine → List Rule
rules_of signal e = e.global_rules ++ lookup_or signal.strategy_id [] e.rules

abbrev pub empty_pass : RiskEngine → Pass
empty_pass e = record {
  engine = e;
  approved_legs = [];
  rejected_legs = [];
  worst_severity = info;
  kill_triggered = false;
  pending_alerts = [];
}

-- The signal is in the throttle's window before the rules run.
abbrev pub recorded : Timestamp → SignalEvent → RiskEngine → RiskEngine
recorded now signal e = record e { state = record_signal now signal.strategy_id e.state }

module _ (accepts : ℕ → Bool) where
  unfoldable pub publish_alerts : List (RuleName × Severity) → RiskEngine → RiskEngine
  publish_alerts [] e = e
  publish_alerts ((rule_name, severity) ∷ rest) e =
      publish_alerts rest (publish accepts (alert rule_name severity) e)

  abbrev pub conclude : SignalEvent → Pass → RiskEngine
  conclude signal p =
      publish_alerts p.pending_alerts (publish accepts (decision (assemble signal p)) p.engine)

  -- What the loop over the legs of a signal leaves.
  abbrev pub assess : Timestamp → SignalEvent → RiskEngine → Pass
  assess now signal e =
      evaluate_legs accepts now signal (rules_of signal e) [] signal.legs (empty_pass e)

  unfoldable pub on_signal : Timestamp → SignalEvent → RiskEngine → RiskEngine
  on_signal now signal e =
      if e.kill_switch.engaged
      then publish accepts (decision (halted signal e.kill_switch.triggered_by))
          (recorded now signal e)
      else conclude signal (assess now signal (recorded now signal e))

unfoldable pub on_fill : FillEvent → RiskEngine → RiskEngine
on_fill fill e = record e { state = State.apply_fill fill e.state }

unfoldable pub on_position_update : Timestamp → PositionUpdateEvent → RiskEngine → RiskEngine
on_position_update now update e = record e {
  state = State.apply_position_update now update e.state;
}

unfoldable pub on_open_orders : List WorkingExposure → RiskEngine → RiskEngine
on_open_orders es e = record e { state = State.apply_open_orders_snapshot es e.state }

unfoldable pub on_analytics : ℕ → Option ℕ → RiskEngine → RiskEngine
on_analytics instrument_id vpin e = record e {
  state = State.apply_analytics_snapshot instrument_id vpin e.state;
}

-- `start` and `stop`
unfoldable pub start : RiskEngine → RiskEngine
start e = record e { started = true }

unfoldable pub stop : RiskEngine → RiskEngine
stop e = record e { started = false }
