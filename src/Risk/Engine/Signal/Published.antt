-- ===== src/Risk/Engine/Signal/Published.antt =====
-- risk/engine.py: what `_on_signal` publishes.
use qf635project.Base.{
  ℕ, ◌+◌, ◌≡◌, ◌≢◌, refl, ◌∙◌, sym, ap, Bool, true, false, Option, none, some, List, [], ◌∷◌, ◌++◌,
  Bool-cases, if-elim, inl, inr, All, All-append, append_nil, append_assoc, length, not, ◌&&◌,
  arith,
}
use qf635project.Core.{
  Timestamp, OrderLeg, SignalEvent, RejectedLeg, RiskDecision, Severity, kill, RuleName,
}
use qf635project.Risk.KillSwitch.{engage}
use qf635project.Risk.Rules.{Rule}
use qf635project.Risk.Engine.{
  Output, decision, alert, kill_switch_event, RiskEngine, run_rules, is_kill, first_reject,
  leg_verdict, LegVerdict, approved, rejected, rejected_leg, publish, engage_kill_switch, Pass,
  after_rules, add_verdict, maybe_engage, evaluate_leg, consider, evaluate_legs,
}
use qf635project.Risk.Engine.Signal.{
  assemble, halted, empty_pass, recorded, assess, publish_alerts, on_signal, is_empty, conclude,
  rules_of,
}
use qf635project.Risk.Engine.Signal.Count.{
  count_of, count_of-zero, approvals, rejections, legs_with, legs_seen, evaluate_legs-legs,
}

-- The second engine has published more than the first, and what is new satisfies `P`.
abbrev pub Adds : (Output → Type 0) → RiskEngine → RiskEngine → Type 0
Adds P e e' = (outs : List Output) × (e'.published ≡ e.published ++ outs) × All P outs

abbrev pub NoDecision : Output → Type 0
NoDecision (decision d) = ⊥
NoDecision (alert _ _) = Unit
NoDecision (kill_switch_event _) = Unit

module _ (accepts : ℕ → Bool) (P : Output → Type 0) where
  pub Adds-refl : (e : RiskEngine) → Adds P e e
  Adds-refl e = ([], sym (append_nil e.published), tt)

  pub Adds-trans : (d e f : RiskEngine) → Adds P d e → Adds P e f → Adds P d f
  Adds-trans d e f (xs, px, hx) (ys, py, hy) = (
    xs ++ ys,
    py ∙ ap (λ (l : List Output). l ++ ys) px ∙ append_assoc d.published xs ys,
    All-append P xs ys hx hy,
  )

  pub publish-Adds : (o : Output) (e : RiskEngine) → P o → Adds P e (publish accepts o e)
  unfolding publish
  publish-Adds o e h = elim (Bool-cases (accepts e.attempts)) [
    | inl y ↦ simp y (o ∷ [], refl, (h, tt))
    | inr n ↦ simp n (Adds-refl e)
  ]

  pub publish_alerts-Adds :
      (alerts : List (RuleName × Severity)) (e : RiskEngine)
      → ((n : RuleName) (v : Severity) → P (alert n v))
      → Adds P e (publish_alerts accepts alerts e)
  unfolding publish_alerts
  publish_alerts-Adds [] e h = Adds-refl e
  publish_alerts-Adds ((n, v) ∷ rest) e h =
      let e' = publish accepts (alert n v) e in
      Adds-trans e e' (publish_alerts accepts rest e') (publish-Adds (alert n v) e (h n v))
        (publish_alerts-Adds rest e' h)

  module _ (h : (o : Option RuleName) → P (kill_switch_event o)) where
    engage-Adds :
        (now : Timestamp) (n : RuleName) (e : RiskEngine)
        → Adds P e (engage_kill_switch accepts now n e)
    unfolding engage_kill_switch
    engage-Adds now n e = elim (Bool-cases e.kill_switch.engaged) [
      | inl y ↦ simp y (Adds-refl e)
      | inr f ↦ simp f (
          publish-Adds (kill_switch_event (engage n now e.kill_switch).triggered_by)
            (record e { kill_switch = engage n now e.kill_switch }) (h _))
    ]

    maybe_engage-Adds :
        (now : Timestamp) (o : Option RuleName) (p : Pass)
        → Adds P p.engine (maybe_engage accepts now o p).engine
    maybe_engage-Adds now none p = Adds-refl p.engine
    maybe_engage-Adds now (some n) p = engage-Adds now n p.engine

    add_verdict-engine : (v : LegVerdict) (p : Pass) → (add_verdict v p).engine ≡ p.engine
    add_verdict-engine (approved a) p = refl
    add_verdict-engine (rejected r) p = refl

    consider-Adds :
        (now : Timestamp) (signal : SignalEvent) (rules : List Rule) (siblings : List OrderLeg)
        (leg : OrderLeg) (p : Pass)
        → Adds P p.engine (consider accepts now signal rules siblings leg p).engine
    unfolding consider evaluate_leg
    consider-Adds now signal rules siblings leg p =
        let (results, s) = run_rules now signal siblings leg rules p.engine.state in
        let tripped = is_kill (first_reject results) in
        let more = maybe_engage-Adds now tripped (after_rules results s p) in
        if-elim (λ (q : Pass). Adds P p.engine q.engine) p.kill_triggered
          (add_verdict (rejected_leg leg RuleName.kill_switch kill) p)
          (evaluate_leg accepts now signal rules siblings leg p) (λ _. Adds-refl p.engine)
          (λ _.
            rw
              (add_verdict-engine (leg_verdict signal leg results)
                (maybe_engage accepts now tripped (after_rules results s p)))
              more)

    pub evaluate_legs-Adds :
        (now : Timestamp) (signal : SignalEvent) (rules : List Rule) (before legs : List OrderLeg)
        (p : Pass)
        → Adds P p.engine (evaluate_legs accepts now signal rules before legs p).engine
    unfolding evaluate_legs
    evaluate_legs-Adds now signal rules before [] p = Adds-refl p.engine
    evaluate_legs-Adds now signal rules before (leg ∷ legs) p =
        let p' = consider accepts now signal rules (before ++ legs) leg p in
        Adds-trans p.engine p'.engine
          (evaluate_legs accepts now signal rules (before ++ leg ∷ []) legs p').engine
          (consider-Adds now signal rules (before ++ legs) leg p)
          (evaluate_legs-Adds now signal rules (before ++ leg ∷ []) legs p')

    pub conclude-Adds :
        (signal : SignalEvent) (p : Pass)
        → P (decision (assemble signal p))
        → ((n : RuleName) (v : Severity) → P (alert n v))
        → Adds P p.engine (conclude accepts signal p)
    conclude-Adds signal p d a =
        let e = publish accepts (decision (assemble signal p)) p.engine in
        Adds-trans p.engine e (publish_alerts accepts p.pending_alerts e)
          (publish-Adds (decision (assemble signal p)) p.engine d)
          (publish_alerts-Adds p.pending_alerts e a)

-- What is to hold of a decision on the signal that the engine takes in the given state.
abbrev pub Sound : SignalEvent → RiskEngine → Output → Type 0
Sound signal e (alert _ _) = Unit
Sound signal e (kill_switch_event _) = Unit
Sound signal e (decision d) =
    (d.signal_event_id ≡ signal.event_id)
    × (d.approved ≡ false → d.approved_legs ≡ [])
    × (d.approved ≡ true
        → (e.kill_switch.engaged ≡ false)
          × (d.approved_legs ≢ [])
          × ((k : ℕ)
              → approvals k d.approved_legs + rejections k d.rejected_legs
                ≡ legs_with k signal.legs)
          × (signal.atomic ≡ true
              → (k : ℕ) → approvals k d.approved_legs ≡ legs_with k signal.legs))

all_approved :
    (a : Bool) (rs : List RejectedLeg) → (a && not (is_empty rs)) ≡ false → a ≡ true → length rs ≡ 0
all_approved a rs h e = ground arith

assemble-Sound :
    (signal : SignalEvent) (e : RiskEngine) (p : Pass)
    → e.kill_switch.engaged ≡ false
    → ((k : ℕ) → legs_seen k p ≡ legs_with k signal.legs)
    → Sound signal e (decision (assemble signal p))
unfolding assemble
assemble-Sound signal e p k n =
    let P : RiskDecision → Type 0 = λ d. Sound signal e (decision d) in
    if-elim P (signal.atomic && not (is_empty p.rejected_legs)) _ _
      (λ _. (refl, (λ _. refl), (λ h. cc)))
      (λ whole.
        if-elim P (is_empty p.approved_legs) _ _ (λ _. (refl, (λ _. refl), (λ h. cc)))
          (λ held. (
            refl,
            (λ h. cc),
            (λ _. (
              k,
              (λ h. cc),
              n,
              (λ a k. omega (
                arith,
                n k,
                count_of-zero (λ (r : RejectedLeg). r.leg_id) k p.rejected_legs
                    (all_approved signal.atomic p.rejected_legs whole a),
              )),
            )),
          )))

-- Whatever `on_signal` adds to the published events, a decision among it is on this signal; one that
-- rejects approves no leg; one that approves was taken with the kill switch released, approves a leg,
-- rejects or approves every leg id of the signal as often as the signal has legs of that id, and for an
-- atomic signal approves it as often.
pub on_signal-Sound :
    (accepts : ℕ → Bool) (now : Timestamp) (signal : SignalEvent) (e : RiskEngine)
    → Adds (Sound signal e) e (on_signal accepts now signal e)
unfolding on_signal count_of
on_signal-Sound accepts now signal e =
    let P = Sound signal e in
    let start = recorded now signal e in
    let p = assess accepts now signal start in
    if-elim (λ (x : RiskEngine). Adds P e x) e.kill_switch.engaged
      (publish accepts (decision (halted signal e.kill_switch.triggered_by)) start)
      (conclude accepts signal p)
      (λ _.
        publish-Adds accepts P (decision (halted signal e.kill_switch.triggered_by)) start
          (refl, (λ _. refl), (λ h. cc)))
      (λ k.
        Adds-trans accepts P e p.engine (conclude accepts signal p)
          (evaluate_legs-Adds accepts P (λ _. tt) now signal (rules_of signal e) [] signal.legs
            (empty_pass start))
          (conclude-Adds accepts P (λ _. tt) signal p
            (assemble-Sound signal e p k (λ j. omega (
              arith,
              evaluate_legs-legs accepts j now signal (rules_of signal e) [] signal.legs
                  (empty_pass start),
            )))
            (λ _ _. tt)))
