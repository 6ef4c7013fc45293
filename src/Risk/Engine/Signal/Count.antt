-- ===== src/Risk/Engine/Signal/Count.antt =====
-- risk/engine.py: the verdicts of the loop of `_on_signal`, leg id by leg id.
use qf635project.Base.{
  ℕ, ◌+◌, ◌≡◌, refl, ◌∙◌, ap, Bool, Option, none, some, List, [], ◌∷◌, ◌++◌, ◌==◌, length, if-elim,
  if◌then◌else◌, arith,
}
use qf635project.Base.Dict.{number_eq}
use qf635project.Core.{ApprovedLeg, RejectedLeg, Timestamp, OrderLeg, SignalEvent, kill, RuleName}
use qf635project.Risk.Rules.{Rule, RuleResult}
use qf635project.Risk.Engine.{
  run_rules, is_kill, first_reject, leg_verdict, LegVerdict, approved, rejected, rejected_leg, Pass,
  after_rules, add_verdict, maybe_engage, evaluate_leg, consider, evaluate_legs,
}

-- How many entries have the given leg id.
unfoldable pub count_of : {A : Type 0} → (A → ℕ) → ℕ → List A → ℕ
count_of id_of k [] = 0
count_of id_of k (x ∷ xs) = (if k == id_of x then 1 else 0) + count_of id_of k xs

abbrev pub approvals : ℕ → List ApprovedLeg → ℕ
approvals k = count_of (λ a. a.leg_id) k

abbrev pub rejections : ℕ → List RejectedLeg → ℕ
rejections k = count_of (λ r. r.leg_id) k

abbrev pub legs_with : ℕ → List OrderLeg → ℕ
legs_with k = count_of (λ l. l.leg_id) k

count_of-append :
    {A : Type 0} (id_of : A → ℕ) (k : ℕ) (xs ys : List A)
    → count_of id_of k (xs ++ ys) ≡ count_of id_of k xs + count_of id_of k ys
unfolding count_of
count_of-append id_of k [] ys = omega arith
count_of-append id_of k (x ∷ xs) ys = omega (arith, count_of-append id_of k xs ys)

pub count_of-zero :
    {A : Type 0} (id_of : A → ℕ) (k : ℕ) (xs : List A) → length xs ≡ 0 → count_of id_of k xs ≡ 0
unfolding count_of
count_of-zero id_of k [] h = refl
count_of-zero id_of k (x ∷ xs) h = absurd (omega (arith, h))

-- The legs of an id that have a verdict.
abbrev pub legs_seen : ℕ → Pass → ℕ
legs_seen k p = approvals k p.approved_legs + rejections k p.rejected_legs

abbrev verdict_id : LegVerdict → ℕ
verdict_id (approved a) = a.leg_id
verdict_id (rejected r) = r.leg_id

leg_verdict-id :
    (signal : SignalEvent) (leg : OrderLeg) (results : List RuleResult)
    → verdict_id (leg_verdict signal leg results) ≡ leg.leg_id
unfolding leg_verdict
leg_verdict-id signal leg results = ground arith

module _ (accepts : ℕ → Bool) (k : ℕ) where
  add_verdict-legs :
      (v : LegVerdict) (p : Pass) (j : ℕ)
      → verdict_id v ≡ j
      → legs_seen k (add_verdict v p) ≡ (if k == j then 1 else 0) + legs_seen k p
  unfolding count_of
  add_verdict-legs (approved a) p j h =
      rw (← h)
        (omega (arith, count_of-append (λ (x : ApprovedLeg). x.leg_id) k p.approved_legs (a ∷ [])))
  add_verdict-legs (rejected r) p j h =
      rw (← h)
        (omega (arith, count_of-append (λ (x : RejectedLeg). x.leg_id) k p.rejected_legs (r ∷ [])))

  maybe_engage-legs :
      (now : Timestamp) (o : Option RuleName) (p : Pass)
      → legs_seen k (maybe_engage accepts now o p) ≡ legs_seen k p
  maybe_engage-legs now none p = refl
  maybe_engage-legs now (some n) p = refl

  abbrev Sees : OrderLeg → Pass → Pass → Type 0
  Sees leg p q = legs_seen k q ≡ (if k == leg.leg_id then 1 else 0) + legs_seen k p

  evaluate_leg-legs :
      (now : Timestamp) (signal : SignalEvent) (rules : List Rule) (siblings : List OrderLeg)
      (leg : OrderLeg) (p : Pass)
      → Sees leg p (evaluate_leg accepts now signal rules siblings leg p)
  unfolding evaluate_leg
  evaluate_leg-legs now signal rules siblings leg p =
      let (results, s) = run_rules now signal siblings leg rules p.engine.state in
      add_verdict-legs (leg_verdict signal leg results)
        (maybe_engage accepts now (is_kill (first_reject results)) (after_rules results s p))
        leg.leg_id (leg_verdict-id signal leg results)
      ∙ ap (λ (n : ℕ). (if k == leg.leg_id then 1 else 0) + n)
          (maybe_engage-legs now (is_kill (first_reject results)) (after_rules results s p))

  consider-legs :
      (now : Timestamp) (signal : SignalEvent) (rules : List Rule) (siblings : List OrderLeg)
      (leg : OrderLeg) (p : Pass)
      → Sees leg p (consider accepts now signal rules siblings leg p)
  unfolding consider
  consider-legs now signal rules siblings leg p =
      if-elim (Sees leg p) p.kill_triggered
        (add_verdict (rejected_leg leg RuleName.kill_switch kill) p)
        (evaluate_leg accepts now signal rules siblings leg p)
        (λ _. add_verdict-legs (rejected_leg leg RuleName.kill_switch kill) p leg.leg_id refl)
        (λ _. evaluate_leg-legs now signal rules siblings leg p)

  -- Every leg id gets as many verdicts as it has legs.
  pub evaluate_legs-legs :
      (now : Timestamp) (signal : SignalEvent) (rules : List Rule) (before legs : List OrderLeg)
      (p : Pass)
      → legs_seen k (evaluate_legs accepts now signal rules before legs p)
        ≡ legs_seen k p + legs_with k legs
  unfolding evaluate_legs count_of
  evaluate_legs-legs now signal rules before [] p = omega arith
  evaluate_legs-legs now signal rules before (leg ∷ legs) p = omega (
    arith,
    evaluate_legs-legs now signal rules (before ++ leg ∷ []) legs
        (consider accepts now signal rules (before ++ legs) leg p),
    consider-legs now signal rules (before ++ legs) leg p,
  )
