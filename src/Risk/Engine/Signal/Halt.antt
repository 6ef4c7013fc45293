-- ===== src/Risk/Engine/Signal/Halt.antt =====
-- risk/engine.py: the kill switch before and after a signal, and that a signal is answered once.
use qf635project.Base.{
  ℕ, suc, ◌+◌, ◌≡◌, refl, ◌∙◌, sym, ap, Bool, true, false, Option, none, some, List, [], ◌∷◌, ◌++◌,
  if-elim, All, any, ◌||◌, arith,
}
use qf635project.Core.{
  Timestamp, OrderLeg, SignalEvent, RejectedLeg, RiskDecision, Severity, kill, RuleName,
}
use qf635project.Risk.KillSwitch.{KillSwitchState, engage}
use qf635project.Risk.Rules.{Rule, RuleResult}
use qf635project.Risk.Engine.{
  Output, decision, alert, kill_switch_event, RiskEngine, run_rules, is_kill, first_reject,
  leg_verdict, LegVerdict, approved, rejected, rejected_leg, publish, engage_kill_switch, Pass,
  after_rules, add_verdict, maybe_engage, evaluate_leg, consider, evaluate_legs,
}
use qf635project.Risk.Engine.Signal.{
  assemble, halted, empty_pass, recorded, assess, publish_alerts, conclude, on_signal, rules_of,
}
use qf635project.Risk.Engine.Signal.Published.{
  Adds, NoDecision, publish_alerts-Adds, evaluate_legs-Adds, conclude-Adds, Adds-trans,
}

abbrev is_kill_severity : Severity → Bool
is_kill_severity kill = true
is_kill_severity _ = false

-- A leg was rejected with severity KILL.
abbrev pub killed : List RejectedLeg → Bool
killed rs = any (λ r. is_kill_severity r.severity) rs

abbrev killed_by : LegVerdict → Bool
killed_by (approved _) = false
killed_by (rejected r) = is_kill_severity r.severity

abbrev is_some : Option RuleName → Bool
is_some none = false
is_some (some _) = true

-- The pass has tripped the switch exactly when it has rejected a leg with severity KILL.
abbrev Agrees : Pass → Type 0
Agrees p =
    (killed p.rejected_legs ≡ p.kill_triggered) × (p.kill_triggered ≡ p.engine.kill_switch.engaged)

killed-append :
    (rs : List RejectedLeg) (r : RejectedLeg)
    → killed (rs ++ r ∷ []) ≡ (killed rs || is_kill_severity r.severity)
killed-append [] r = ground arith
killed-append (x ∷ rs) r = ground (arith, killed-append rs r)

leg_verdict-kill :
    (signal : SignalEvent) (leg : OrderLeg) (results : List RuleResult)
    → killed_by (leg_verdict signal leg results) ≡ is_some (is_kill (first_reject results))
unfolding leg_verdict
leg_verdict-kill signal leg results = ground arith

module _ (accepts : ℕ → Bool) where
  publish-kill_switch :
      (o : Output) (e : RiskEngine) → (publish accepts o e).kill_switch ≡ e.kill_switch
  unfolding publish
  publish-kill_switch o e = ground arith

  publish_alerts-kill_switch :
      (alerts : List (RuleName × Severity)) (e : RiskEngine)
      → (publish_alerts accepts alerts e).kill_switch ≡ e.kill_switch
  unfolding publish_alerts
  publish_alerts-kill_switch [] e = refl
  publish_alerts-kill_switch ((n, v) ∷ rest) e =
      publish_alerts-kill_switch rest (publish accepts (alert n v) e)
      ∙ publish-kill_switch (alert n v) e

  engage-engaged :
      (now : Timestamp) (n : RuleName) (e : RiskEngine)
      → (engage_kill_switch accepts now n e).kill_switch.engaged ≡ true
  unfolding engage_kill_switch publish engage
  engage-engaged now n e = ground arith

  verdict-Agrees :
      (now : Timestamp) (v : LegVerdict) (o : Option RuleName) (p : Pass)
      → killed_by v ≡ is_some o
      → Agrees p
      → p.kill_triggered ≡ false
      → Agrees (add_verdict v (maybe_engage accepts now o p))
  verdict-Agrees now (approved a) none p h (k, e) f = (k, e)
  verdict-Agrees now (approved a) (some n) p h (k, e) f = cc
  verdict-Agrees now (rejected r) none p h (k, e) f =
      (ground (arith, killed-append p.rejected_legs r), e)
  verdict-Agrees now (rejected r) (some n) p h (k, e) f =
      (ground (arith, killed-append p.rejected_legs r), sym (engage-engaged now n p.engine))

  later_leg-killed :
      (leg : OrderLeg) (p : Pass)
      → killed (add_verdict (rejected_leg leg RuleName.kill_switch kill) p).rejected_legs ≡ true
  later_leg-killed leg p =
      let r : RejectedLeg = record {
        leg_id = leg.leg_id;
        side = leg.side;
        rule_name = RuleName.kill_switch;
        severity = kill;
      } in
      ground (arith, killed-append p.rejected_legs r)

  consider-Agrees :
      (now : Timestamp) (signal : SignalEvent) (rules : List Rule) (siblings : List OrderLeg)
      (leg : OrderLeg) (p : Pass)
      → Agrees p
      → Agrees (consider accepts now signal rules siblings leg p)
  unfolding consider evaluate_leg
  consider-Agrees now signal rules siblings leg p (k, e) =
      let r = rejected_leg leg RuleName.kill_switch kill in
      let (results, s) = run_rules now signal siblings leg rules p.engine.state in
      if-elim Agrees p.kill_triggered (add_verdict r p)
        (evaluate_leg accepts now signal rules siblings leg p)
        (λ t. (later_leg-killed leg p ∙ sym t, e))
        (λ f.
          verdict-Agrees now (leg_verdict signal leg results) (is_kill (first_reject results))
            (after_rules results s p) (leg_verdict-kill signal leg results) (k, e) f)

  evaluate_legs-Agrees :
      (now : Timestamp) (signal : SignalEvent) (rules : List Rule) (before legs : List OrderLeg)
      (p : Pass)
      → Agrees p
      → Agrees (evaluate_legs accepts now signal rules before legs p)
  unfolding evaluate_legs
  evaluate_legs-Agrees now signal rules before [] p h = h
  evaluate_legs-Agrees now signal rules before (leg ∷ legs) p h =
      evaluate_legs-Agrees now signal rules (before ++ leg ∷ []) legs
        (consider accepts now signal rules (before ++ legs) leg p)
        (consider-Agrees now signal rules (before ++ legs) leg p h)

  conclude-kill_switch :
      (signal : SignalEvent) (p : Pass)
      → (conclude accepts signal p).kill_switch ≡ p.engine.kill_switch
  conclude-kill_switch signal p =
      publish_alerts-kill_switch p.pending_alerts
        (publish accepts (decision (assemble signal p)) p.engine)
      ∙ publish-kill_switch (decision (assemble signal p)) p.engine

-- A decision that reports a leg rejected with severity KILL exactly when the switch is as given.
abbrev pub Reports : Bool → Output → Type 0
Reports engaged (decision d) = killed d.rejected_legs ≡ engaged
Reports engaged (alert _ _) = Unit
Reports engaged (kill_switch_event _) = Unit

assemble-rejected :
    (signal : SignalEvent) (p : Pass) → (assemble signal p).rejected_legs ≡ p.rejected_legs
unfolding assemble
assemble-rejected signal p = ground arith

-- A signal that finds the kill switch engaged leaves the switch as it is, its first reason included.
-- One that finds it released leaves it engaged exactly when the decision on it, if the bus takes it,
-- reports a leg rejected with severity KILL.
pub on_signal-halt :
    (accepts : ℕ → Bool) (now : Timestamp) (signal : SignalEvent) (e : RiskEngine)
    → let e' = on_signal accepts now signal e in
      (e.kill_switch.engaged ≡ true → e'.kill_switch ≡ e.kill_switch)
      × (e.kill_switch.engaged ≡ false → Adds (Reports e'.kill_switch.engaged) e e')
unfolding on_signal
on_signal-halt accepts now signal e =
    let start = recorded now signal e in
    let p = assess accepts now signal start in
    let rules = rules_of signal e in
    let P = Reports (conclude accepts signal p).kill_switch.engaged in
    if-elim
      (λ (x : RiskEngine).
        (e.kill_switch.engaged ≡ true → x.kill_switch ≡ e.kill_switch)
        × (e.kill_switch.engaged ≡ false → Adds (Reports x.kill_switch.engaged) e x))
      e.kill_switch.engaged
      (publish accepts (decision (halted signal e.kill_switch.triggered_by)) start)
      (conclude accepts signal p)
      (λ k. (
        (λ _.
            publish-kill_switch accepts (decision (halted signal e.kill_switch.triggered_by))
              start),
        (λ f. absurd (cc)),
      ))
      (λ k.
        let (same, agrees) =
          evaluate_legs-Agrees accepts now signal rules [] signal.legs (empty_pass start)
            (refl, sym k) in
        (
          (λ t. absurd (cc)),
          (λ _.
              Adds-trans accepts P e p.engine (conclude accepts signal p)
                (evaluate_legs-Adds accepts P (λ _. tt) now signal rules [] signal.legs
                  (empty_pass start))
                (conclude-Adds accepts P (λ _. tt) signal p
                  (ap killed (assemble-rejected signal p)
                    ∙ same
                    ∙ agrees
                    ∙ ap (λ (x : KillSwitchState). x.engaged)
                        (sym (conclude-kill_switch accepts signal p)))
                  (λ _ _. tt))),
        ))

abbrev is_decision : Output → ℕ
is_decision (decision _) = 1
is_decision (alert _ _) = 0
is_decision (kill_switch_event _) = 0

-- How many of the events are decisions.
abbrev pub decisions : List Output → ℕ
decisions [] = 0
decisions (o ∷ os) = is_decision o + decisions os

decisions-append : (xs ys : List Output) → decisions (xs ++ ys) ≡ decisions xs + decisions ys
decisions-append [] ys = omega arith
decisions-append (x ∷ xs) ys = omega (arith, decisions-append xs ys)

decisions_zero : (xs : List Output) → All NoDecision xs → decisions xs ≡ 0
decisions_zero [] h = refl
decisions_zero (decision d ∷ xs) h = absurd h.0
decisions_zero (alert n v ∷ xs) h = omega (arith, decisions_zero xs h.1)
decisions_zero (kill_switch_event o ∷ xs) h = omega (arith, decisions_zero xs h.1)

same_decisions :
    (e e' : RiskEngine) → Adds NoDecision e e' → decisions e'.published ≡ decisions e.published
same_decisions e e' (outs, same, h) =
    rw (same, decisions-append e.published outs, decisions_zero outs h) (omega arith)

publish-decisions :
    (accepts : ℕ → Bool) (d : RiskDecision) (e : RiskEngine)
    → accepts e.attempts ≡ true
    → decisions (publish accepts (decision d) e).published ≡ suc (decisions e.published)
unfolding publish
publish-decisions accepts d e h =
    rw h (omega (arith, decisions-append e.published (decision d ∷ [])))

-- If the bus takes every event, a signal is answered by exactly one decision.
pub on_signal-answers :
    (accepts : ℕ → Bool) (now : Timestamp) (signal : SignalEvent) (e : RiskEngine)
    → ((n : ℕ) → accepts n ≡ true)
    → decisions (on_signal accepts now signal e).published ≡ suc (decisions e.published)
unfolding on_signal
on_signal-answers accepts now signal e takes =
    let start = recorded now signal e in
    let p = assess accepts now signal start in
    let published : (d : RiskDecision) (f : RiskEngine)
        → decisions (publish accepts (decision d) f).published ≡ suc (decisions f.published) =
      λ d f. publish-decisions accepts d f (takes f.attempts) in
    if-elim (λ (x : RiskEngine). decisions x.published ≡ suc (decisions e.published))
      e.kill_switch.engaged
      (publish accepts (decision (halted signal e.kill_switch.triggered_by)) start)
      (conclude accepts signal p) (λ _. published (halted signal e.kill_switch.triggered_by) start)
      (λ _.
        same_decisions (publish accepts (decision (assemble signal p)) p.engine)
          (conclude accepts signal p)
          (publish_alerts-Adds accepts NoDecision p.pending_alerts
            (publish accepts (decision (assemble signal p)) p.engine) (λ _ _. tt))
        ∙ published (assemble signal p) p.engine
        ∙ ap suc (
            same_decisions e p.engine (
              evaluate_legs-Adds accepts NoDecision (λ _. tt) now signal (rules_of signal e) []
                signal.legs (empty_pass start))))
