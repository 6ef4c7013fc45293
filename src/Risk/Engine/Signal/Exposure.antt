-- ===== src/Risk/Engine/Signal/Exposure.antt =====
-- risk/engine.py with risk/rules/max_position.py: the aggregate of the approved legs.
use mathlib.Core.Path.{subst}
use qf635project.Base.{
  ℕ, ◌≡◌, refl, ◌∙◌, sym, ap, ◌⊎◌, inl, inr, Bool, List, [], ◌∷◌, ◌++◌, if-elim, All, arith,
  append_assoc, append_nil,
}
use qf635project.Base.Dict.{Dict, lookup_or, pair_eq}
use qf635project.Base.Decimal.{pos, ◌≤ℤ◌, int_laws}
use qf635project.Core.{
  Timestamp, Quantity, Side, OrderLeg, SignalEvent, ApprovedLeg, RuleName, kill,
}
use qf635project.Risk.State.{RiskState, record_signal, get_position}
use qf635project.Risk.Rules.{Rule, side_quantity, headroom}
use qf635project.Risk.Engine.{
  Output, decision, alert, kill_switch_event, RiskEngine, run_rules, is_kill, first_reject,
  leg_verdict, rejected_leg, publish, Pass, after_rules, add_verdict, maybe_engage, evaluate_leg,
  consider, evaluate_legs,
}
use qf635project.Risk.Engine.Legs.{approved_leg_lem}
use qf635project.Risk.Engine.Chain.{max_position_leg, run_rules-reads}
use qf635project.Risk.Engine.Signal.{
  assemble, halted, empty_pass, recorded, assess, conclude, on_signal, rules_of,
}
use qf635project.Risk.Engine.Signal.Published.{
  Adds, publish-Adds, evaluate_legs-Adds, conclude-Adds, Adds-trans,
}
use qf635project.Risk.Engine.Signal.Room.{
  approved_total, room, HasQuantity, Fits, maybe_engage-keeps, add_approved, add_verdict-keeps,
  Judged, verdict-Fits,
}

module _ (accepts : ℕ → Bool) (now : Timestamp) (signal : SignalEvent) (first later : List Rule)
    (max_long max_short : Quantity) (side : Side) where
  abbrev chain : List Rule
  chain = first ++ Rule.max_position max_long max_short ∷ later

  abbrev held : RiskState → Quantity
  held s = get_position s signal.strategy_id signal.instrument.instrument_id

  -- The loop's invariant, for the legs behind it and those ahead.
  abbrev Holds : RiskState → List OrderLeg → List OrderLeg → Pass → Type 0
  Holds s before legs p =
      (p.engine.state.positions ≡ s.positions)
      × Fits side (room max_long max_short side (held s)) (approved_total side p.approved_legs)
          (side_quantity side before) (side_quantity side legs)

  -- The rules judge a leg by the position that the signal found.
  leg_verdict-Judged :
      (s t : RiskState) (siblings : List OrderLeg) (leg : OrderLeg)
      → t.positions ≡ s.positions
      → Judged max_long max_short side
          (held s)
          leg
          siblings
          (leg_verdict signal leg (run_rules now signal siblings leg chain t).0)
  unfolding get_position
  leg_verdict-Judged s t siblings leg same a e =
      let (_, at_side, small, _) = approved_leg_lem now signal siblings leg chain t a e in
      let key : ℕ × ℕ = (signal.strategy_id, signal.instrument.instrument_id) in
      (
        at_side,
        small,
        subst
            (λ (d : Dict (ℕ × ℕ) Quantity).
              a.approved_quantity
              ≤ℤ headroom max_long max_short leg.side (lookup_or key (pos 0) d)
                  (side_quantity leg.side siblings))
            same (max_position_leg now signal siblings leg first later max_long max_short t a e),
      )

  consider-Holds :
      (s : RiskState) (before legs : List OrderLeg) (leg : OrderLeg) (p : Pass)
      → HasQuantity leg
      → Holds s before (leg ∷ legs) p
      → Holds s (before ++ leg ∷ []) legs (consider accepts now signal chain (before ++ legs) leg p)
  unfolding consider evaluate_leg
  consider-Holds s before legs leg p q (same, fits) =
      let (results, t) = run_rules now signal (before ++ legs) leg chain p.engine.state in
      let v = leg_verdict signal leg results in
      let tripped = is_kill (first_reject results) in
      let seen = after_rules results t p in
      let p' = maybe_engage accepts now tripped seen in
      let (more, engine) = add_verdict-keeps v p' in
      let (legs', state) = maybe_engage-keeps accepts now tripped seen in
      if-elim (Holds s (before ++ leg ∷ []) legs) p.kill_triggered
        (add_verdict (rejected_leg leg RuleName.kill_switch kill) p)
        (evaluate_leg accepts now signal chain (before ++ legs) leg p)
        (λ _. (
          same,
          verdict-Fits max_long max_short side (held s) (rejected_leg leg RuleName.kill_switch kill)
              before legs leg p.approved_legs q (λ a e. absurd (cc)) fits,
        ))
        (λ _. (
          ap (λ (e : RiskEngine). e.state.positions) engine
              ∙ ap (λ (x : RiskState). x.positions) state
              ∙ (run_rules-reads now signal (before ++ legs) leg chain p.engine.state).0
              ∙ same,
          subst
              (λ (xs : List ApprovedLeg).
                Fits side (room max_long max_short side (held s)) (approved_total side xs)
                  (side_quantity side (before ++ leg ∷ [])) (side_quantity side legs))
              (sym (more ∙ ap (add_approved v) legs'))
              (verdict-Fits max_long max_short side (held s) v before legs leg p.approved_legs q
                (leg_verdict-Judged s p.engine.state (before ++ legs) leg same) fits),
        ))

  evaluate_legs-Holds :
      (s : RiskState) (before legs : List OrderLeg) (p : Pass)
      → All HasQuantity legs
      → Holds s before legs p
      → Holds s (before ++ legs) [] (evaluate_legs accepts now signal chain before legs p)
  unfolding evaluate_legs
  evaluate_legs-Holds s before [] p q h = rw (append_nil before) h
  evaluate_legs-Holds s before (leg ∷ legs) p q h =
      subst
        (λ (bs : List OrderLeg).
          Holds s bs [] (evaluate_legs accepts now signal chain before (leg ∷ legs) p))
        (append_assoc before (leg ∷ []) legs)
        (evaluate_legs-Holds s (before ++ leg ∷ []) legs
          (consider accepts now signal chain (before ++ legs) leg p) q.1
          (consider-Holds s before legs leg p q.0 h))

-- A decision whose approved legs of a side sum to zero, or fit the given room.
abbrev pub Fitting : Side → Quantity → Output → Type 0
Fitting side limit (alert _ _) = Unit
Fitting side limit (kill_switch_event _) = Unit
Fitting side limit (decision d) =
    (approved_total side d.approved_legs ≡ pos 0) ⊎ (approved_total side d.approved_legs ≤ℤ limit)

assemble-approved :
    (signal : SignalEvent) (p : Pass)
    → ((assemble signal p).approved_legs ≡ [])
      ⊎ ((assemble signal p).approved_legs ≡ p.approved_legs)
unfolding assemble
assemble-approved signal p = ground arith

assemble-Fitting :
    (signal : SignalEvent) (p : Pass) (side : Side) (limit : Quantity)
    → (approved_total side p.approved_legs ≡ pos 0) ⊎ (approved_total side p.approved_legs ≤ℤ limit)
    → Fitting side limit (decision (assemble signal p))
assemble-Fitting signal p side limit fits = elim (assemble-approved signal p) [
  | inl none_left ↦ inl (ap (approved_total side) none_left)
  | inr same ↦ rw same fits
]

-- With a position limit among the rules of a signal whose legs have no negative quantities: the legs
-- of a side that the decision on the signal approves sum to zero, or they take the position that
-- the engine holds no further than the limit of that side, all filled.
pub on_signal-Fitting :
    (accepts : ℕ → Bool) (now : Timestamp) (signal : SignalEvent) (e : RiskEngine)
    (first later : List Rule) (max_long max_short : Quantity) (side : Side)
    → rules_of signal e ≡ first ++ Rule.max_position max_long max_short ∷ later
    → All HasQuantity signal.legs
    → Adds
        (Fitting side (
          room max_long max_short side
            (get_position e.state signal.strategy_id signal.instrument.instrument_id)))
        e
        (on_signal accepts now signal e)
unfolding on_signal get_position record_signal assemble
on_signal-Fitting accepts now signal e first later max_long max_short side rules q =
    let limit =
      room max_long max_short side
        (get_position e.state signal.strategy_id signal.instrument.instrument_id) in
    let P = Fitting side limit in
    let start = recorded now signal e in
    let p = assess accepts now signal start in
    let start-Holds : Holds accepts now signal first later max_long max_short side start.state []
        signal.legs (empty_pass start) =
      (refl, (omega int_laws, inl refl)) in
    let end =
      evaluate_legs-Holds accepts now signal first later max_long max_short side start.state []
        signal.legs (empty_pass start) q start-Holds in
    let (_, (_, fits)) =
      subst
        (λ (rs : List Rule).
          let q = evaluate_legs accepts now signal rs [] signal.legs (empty_pass start) in
          (q.engine.state.positions ≡ start.state.positions)
          × Fits side limit (approved_total side q.approved_legs) (side_quantity side signal.legs)
              (pos 0))
        (sym rules) end in
    let fits' : (approved_total side p.approved_legs ≡ pos 0)
        ⊎ (approved_total side p.approved_legs ≤ℤ limit) =
      elim fits [ inl z ↦ inl z | inr f ↦ inr (omega (int_laws, f)) ] in
    if-elim (λ (x : RiskEngine). Adds P e x) e.kill_switch.engaged
      (publish accepts (decision (halted signal e.kill_switch.triggered_by)) start)
      (conclude accepts signal p)
      (λ _.
        publish-Adds accepts P (decision (halted signal e.kill_switch.triggered_by)) start
          (inl refl))
      (λ k.
        Adds-trans accepts P e p.engine (conclude accepts signal p)
          (evaluate_legs-Adds accepts P (λ _. tt) now signal (rules_of signal e) [] signal.legs
            (empty_pass start))
          (conclude-Adds accepts P (λ _. tt) signal p (assemble-Fitting signal p side limit fits')
            (λ _ _. tt)))
