-- ===== src/Risk/Engine/Chain.antt =====
-- risk/engine.py: what a leg's approval says of one rule of its chain, wherever it stands.
use mathlib.Core.Path.{subst}
use qf635project.Base.{◌≡◌, ◌≢◌, ℕ, refl, ◌∙◌, ap, ◌<◌, true, some, List, [], ◌∷◌, ◌++◌, arith}
use qf635project.Base.Dict.{Dict, lookup, lookup_or, pair_eq, number_eq}
use qf635project.Base.Decimal.{pos, ◌≤ℤ◌}
use qf635project.Core.{Timestamp, Quantity, OrderLeg, SignalEvent, ApprovedLeg}
use qf635project.Risk.State.{RiskState, get_position, get_vpin}
use qf635project.Risk.Rules.{
  Rule, RuleResult, result, evaluate, position_verdict, headroom, side_quantity,
}
use qf635project.Risk.Rules.Reads.{evaluate-reads}
use qf635project.Risk.Engine.{approved, run_rules, leg_verdict}
use qf635project.Risk.Engine.Legs.{Within, Passed, approved_leg_lem}

result-inj : {v w : RuleResult} → result v ≡ result w → v ≡ w
result-inj h = cc

module _ (now : Timestamp) (signal : SignalEvent) (siblings : List OrderLeg) (leg : OrderLeg) where
  pub run_rules-reads :
      (rs : List Rule) (s : RiskState)
      → ((run_rules now signal siblings leg rs s).1.positions ≡ s.positions)
        × ((run_rules now signal siblings leg rs s).1.vpin ≡ s.vpin)
  unfolding run_rules
  run_rules-reads [] s = (refl, refl)
  run_rules-reads (r ∷ rs) s =
      let s' = (evaluate now signal siblings leg r s).1 in
      let (p, v) = evaluate-reads now signal siblings leg r s in
      let (p', v') = run_rules-reads rs s' in (p' ∙ p, v' ∙ v)

  -- A rule of a chain that was passed has approved the leg in a state with these positions and VPINs.
  abbrev pub Approves : Quantity → Rule → RiskState → Type 0
  Approves qty r s =
      (t : RiskState) × (t.positions ≡ s.positions)
      × (t.vpin ≡ s.vpin)
      × ((v : RuleResult) × ((evaluate now signal siblings leg r t).0 ≡ result v)
          × (v.approved ≡ true)
          × Within qty v.approved_quantity)

  pub Passed-Approves :
      (qty : Quantity) (before : List Rule) (r : Rule) (after : List Rule) (s : RiskState)
      → Passed now signal siblings leg qty (before ++ r ∷ after) s
      → Approves qty r s
  Passed-Approves qty [] r after s (here, _) = (s, refl, refl, here)
  Passed-Approves qty (b ∷ before) r after s (_, later) =
      let s' = (evaluate now signal siblings leg b s).1 in
      let (t, p, v, approval) = Passed-Approves qty before r after s' later in
      let (p', v') = evaluate-reads now signal siblings leg b s in (t, p ∙ p', v ∙ v', approval)

  -- While the instrument's VPIN is below the threshold of a VPIN breaker in the chain, no leg is
  -- approved.
  pub vpin_breaker_lem :
      (before after : List Rule) (threshold sustained vpin : ℕ) (s : RiskState)
      → get_vpin s signal.instrument.instrument_id ≡ some vpin
      → vpin < threshold
      → (a : ApprovedLeg)
      → leg_verdict signal leg
          (run_rules now signal siblings leg
            (before ++ Rule.vpin_circuit_breaker threshold sustained ∷ after)
            s).0
        ≢ approved a
  unfolding evaluate
  vpin_breaker_lem before after threshold sustained vpin s e small a h =
      let r = Rule.vpin_circuit_breaker threshold sustained in
      let (_, _, _, passed) =
        approved_leg_lem now signal siblings leg (before ++ r ∷ after) s a h in
      let (t, _, same, (v, returned, _, _)) =
        Passed-Approves a.approved_quantity before r after s passed in
      let e' : get_vpin t signal.instrument.instrument_id ≡ some vpin =
        ap (λ (d : Dict ℕ ℕ). lookup signal.instrument.instrument_id d) same ∙ e in
      ground (arith, e', small, returned)

  position_verdict-room :
      (max_long max_short room qty : Quantity) (v : RuleResult)
      → position_verdict max_long max_short leg room ≡ v
      → v.approved ≡ true
      → Within qty v.approved_quantity
      → qty ≤ℤ leg.quantity
      → qty ≤ℤ room
  position_verdict-room max_long max_short room qty v e a w l = ground (arith, e, a, w, l)

  -- An approved leg fits the room that a position limit in its chain leaves.
  pub max_position_leg :
      (before after : List Rule) (max_long max_short : Quantity) (s : RiskState) (a : ApprovedLeg)
      → leg_verdict signal leg
          (run_rules now signal siblings leg
            (before ++ Rule.max_position max_long max_short ∷ after)
            s).0
        ≡ approved a
      → a.approved_quantity
        ≤ℤ headroom max_long max_short leg.side
            (get_position s signal.strategy_id signal.instrument.instrument_id)
            (side_quantity leg.side siblings)
  unfolding evaluate get_position
  max_position_leg before after max_long max_short s a h =
      let r = Rule.max_position max_long max_short in
      let (_, _, small, passed) =
        approved_leg_lem now signal siblings leg (before ++ r ∷ after) s a h in
      let (t, same, _, (v, returned, approves, within)) =
        Passed-Approves a.approved_quantity before r after s passed in
      let key : ℕ × ℕ = (signal.strategy_id, signal.instrument.instrument_id) in
      let room : Quantity → Quantity =
        λ q. headroom max_long max_short leg.side q (side_quantity leg.side siblings) in
      let e : position_verdict max_long max_short leg
            (room (get_position t signal.strategy_id signal.instrument.instrument_id))
          ≡ v =
        result-inj returned in
      let same_room : room (get_position t signal.strategy_id signal.instrument.instrument_id)
          ≡ room (get_position s signal.strategy_id signal.instrument.instrument_id) =
        ap (λ (d : Dict (ℕ × ℕ) Quantity). room (lookup_or key (pos 0) d)) same in
      subst (λ (q : Quantity). a.approved_quantity ≤ℤ q) same_room
        (position_verdict-room max_long max_short
          (room (get_position t signal.strategy_id signal.instrument.instrument_id))
          a.approved_quantity v e approves within small)
