-- ===== src/Risk/Engine.antt =====
-- risk/engine.py: the evaluation of a signal leg by leg, the verdict, and what is published. Whether
-- the bus takes the n-th event that the engine publishes is `accepts n`; a refusal is the
-- BackpressureError that `_safe_publish` absorbs. Texts of reasons are left out.
pub mod Signal
pub mod Legs
pub mod Chain
use qf635project.Base.{
  ℕ, suc, ◌+◌, ◌*◌, Bool, true, false, Option, none, some, List, [], ◌∷◌, ◌++◌, ltb, ◌&&◌, not,
  if◌then◌else◌, find,
}
use qf635project.Base.Dict.{Dict, number_eq, lookup_or, insert}
use qf635project.Base.Decimal.{ℤ, pos, ◌*ℤ◌, ltb_ℤ}
use qf635project.Core.{
  Price, Quantity, Timestamp, Severity, info, warn, block, kill, OrderLeg, SignalEvent, RuleName,
  ApprovedLeg, RejectedLeg, RiskDecision,
}
use qf635project.Risk.KillSwitch.{KillSwitchState, released, engage}
use qf635project.Risk.State.{RiskState, record_signal}
use qf635project.Risk.Rules.{Rule, name, RuleResult, reject, Evaluation, result, raised, evaluate}

pub data Output : Type 0 where
  decision : RiskDecision → Output
  alert : RuleName → Severity → Output
  kill_switch_event : Option RuleName → Output

pub record RiskEngine : Type 0 where
  pub state : RiskState
  pub kill_switch : KillSwitchState
  pub rules : Dict ℕ (List Rule)
  pub global_rules : List Rule
  pub started : Bool
  pub dropped_events : ℕ
  pub attempts : ℕ
  pub published : List Output

-- `register_rules`; after start() it raises.
unfoldable pub register_rules : ℕ → List Rule → RiskEngine → Option RiskEngine
register_rules sid rules e =
    if e.started
    then none
    else some (record e { rules = insert sid (lookup_or sid [] e.rules ++ rules) e.rules })

-- `register_global_rules`
unfoldable pub register_global_rules : List Rule → RiskEngine → Option RiskEngine
register_global_rules rules e =
    if e.started then none else some (record e { global_rules = e.global_rules ++ rules })

-- A rule that raises rejects with the default severity.
abbrev pub fail_closed : Rule → Evaluation → RuleResult
fail_closed r (result v) = v
fail_closed r raised = reject r block

unfoldable pub run_rules :
    Timestamp
    → SignalEvent
    → List OrderLeg
    → OrderLeg
    → List Rule
    → RiskState
    → List RuleResult × RiskState
run_rules now signal siblings leg [] s = ([], s)
run_rules now signal siblings leg (r ∷ rs) s =
    let (v, s1) = evaluate now signal siblings leg r s in
    let (vs, s2) = run_rules now signal siblings leg rs s1 in (fail_closed r v ∷ vs, s2)

abbrev is_alert : Severity → Bool
is_alert info = false
is_alert _ = true

-- `severity.value > worst.value` compares the texts "BLOCK" < "INFO" < "KILL" < "WARN".
abbrev pub text_rank : Severity → ℕ
text_rank block = 0
text_rank info = 1
text_rank kill = 2
text_rank warn = 3

abbrev pub worse : Severity → List RuleResult → Severity
worse worst [] = worst
worse worst (r ∷ rs) =
    worse
      (if is_alert r.severity && ltb (text_rank worst) (text_rank r.severity)
        then r.severity
        else worst)
      rs

abbrev pub alerts_of : List RuleResult → List (RuleName × Severity)
alerts_of [] = []
alerts_of (r ∷ rs) =
    if is_alert r.severity then (r.rule_name, r.severity) ∷ alerts_of rs else alerts_of rs

abbrev pub clamp_by : Quantity → Option Quantity → Quantity
clamp_by qty none = qty
clamp_by qty (some q) = if ltb_ℤ q qty then q else qty

-- The tightest clamp.
unfoldable pub clamp : Quantity → List RuleResult → Quantity
clamp qty [] = qty
clamp qty (r ∷ rs) = clamp (clamp_by qty r.approved_quantity) rs

-- The backstop: the clamped notional is below the venue's minimum.
abbrev below_minimum : Option Price → Option Price → Quantity → Bool
below_minimum (some minimum) (some price) qty = ltb_ℤ (pos 0) price && ltb_ℤ (price *ℤ qty) minimum
below_minimum none _ qty = false
below_minimum (some minimum) none qty = false

pub data LegVerdict : Type 0 where
  approved : ApprovedLeg → LegVerdict
  rejected : RejectedLeg → LegVerdict

abbrev pub rejected_leg : OrderLeg → RuleName → Severity → LegVerdict
rejected_leg leg rule_name severity =
    rejected
      (record { leg_id = leg.leg_id; side = leg.side; rule_name = rule_name; severity = severity })

abbrev pub first_reject : List RuleResult → Option RuleResult
first_reject rs = find (λ r. not r.approved) rs

-- The verdict on one leg, from the results of its rules.
unfoldable pub leg_verdict : SignalEvent → OrderLeg → List RuleResult → LegVerdict
leg_verdict signal leg results = elim (first_reject results) [
  | some r ↦ rejected_leg leg r.rule_name r.severity
  | none ↦
      let qty = clamp leg.quantity results in
      if below_minimum signal.instrument.min_notional leg.price qty
      then rejected_leg leg RuleName.min_notional info
      else approved (record { leg_id = leg.leg_id; side = leg.side; approved_quantity = qty })
]

abbrev pub is_kill : Option RuleResult → Option RuleName
is_kill none = none
is_kill (some r) = elim r.severity [ kill ↦ some r.rule_name | _ ↦ none ]

-- What the loop over the legs has collected.
pub record Pass : Type 0 where
  pub engine : RiskEngine
  pub approved_legs : List ApprovedLeg
  pub rejected_legs : List RejectedLeg
  pub worst_severity : Severity
  pub kill_triggered : Bool
  pub pending_alerts : List (RuleName × Severity)

abbrev pub add_verdict : LegVerdict → Pass → Pass
add_verdict (approved a) p = record p { approved_legs = p.approved_legs ++ a ∷ [] }
add_verdict (rejected r) p = record p { rejected_legs = p.rejected_legs ++ r ∷ [] }

-- What the rules of one leg leave in the pass.
abbrev pub after_rules : List RuleResult → RiskState → Pass → Pass
after_rules results s p = record p {
  engine = record p.engine { state = s };
  worst_severity = worse p.worst_severity results;
  pending_alerts = p.pending_alerts ++ alerts_of results;
}

module _ (accepts : ℕ → Bool) where
  -- `_safe_publish`
  unfoldable pub publish : Output → RiskEngine → RiskEngine
  publish event e =
      if accepts e.attempts
      then record e { attempts = e.attempts + 1; published = e.published ++ event ∷ [] }
      else record e { attempts = e.attempts + 1; dropped_events = e.dropped_events + 1 }

  -- `_engage_kill_switch`
  unfoldable pub engage_kill_switch : Timestamp → RuleName → RiskEngine → RiskEngine
  engage_kill_switch now triggered_by e =
      let k = engage triggered_by now e.kill_switch in
      if e.kill_switch.engaged
      then record e { kill_switch = k }
      else publish (kill_switch_event k.triggered_by) (record e { kill_switch = k })

  abbrev pub maybe_engage : Timestamp → Option RuleName → Pass → Pass
  maybe_engage now none p = p
  maybe_engage now (some triggered_by) p = record p {
    engine = engage_kill_switch now triggered_by p.engine;
    kill_triggered = true;
  }

  -- One leg, before which no leg tripped the kill switch.
  unfoldable pub evaluate_leg :
      Timestamp → SignalEvent → List Rule → List OrderLeg → OrderLeg → Pass → Pass
  evaluate_leg now signal rules siblings leg p =
      let (results, s) = run_rules now signal siblings leg rules p.engine.state in
      add_verdict (leg_verdict signal leg results)
        (maybe_engage now (is_kill (first_reject results)) (after_rules results s p))

  -- Once a leg has tripped the kill switch, the later ones are rejected unseen.
  unfoldable pub consider :
      Timestamp → SignalEvent → List Rule → List OrderLeg → OrderLeg → Pass → Pass
  consider now signal rules siblings leg p =
      if p.kill_triggered
      then add_verdict (rejected_leg leg RuleName.kill_switch kill) p
      else evaluate_leg now signal rules siblings leg p

  -- The legs before the present one are kept for its siblings.
  unfoldable pub evaluate_legs :
      Timestamp → SignalEvent → List Rule → List OrderLeg → List OrderLeg → Pass → Pass
  evaluate_legs now signal rules before [] p = p
  evaluate_legs now signal rules before (leg ∷ legs) p =
      evaluate_legs now signal rules (before ++ leg ∷ []) legs
        (consider now signal rules (before ++ legs) leg p)
