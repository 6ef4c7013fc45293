-- ===== src/Risk/Engine/Legs.antt =====
-- risk/engine.py: what the approval of a leg says of the rules that it passed.
use qf635project.Base.{◌≡◌, refl, true, Option, none, some, List, [], ◌∷◌, All, arith}
use qf635project.Base.Decimal.{◌≤ℤ◌, int_laws}
use qf635project.Core.{Quantity, Timestamp, OrderLeg, SignalEvent, ApprovedLeg}
use qf635project.Risk.State.{RiskState}
use qf635project.Risk.Rules.{Rule, RuleResult, Evaluation, result, raised, evaluate}
use qf635project.Risk.Engine.{
  fail_closed, run_rules, clamp_by, clamp, approved, first_reject, leg_verdict,
}

-- A quantity is no more than a clamp, if there is one.
abbrev pub Within : Quantity → Option Quantity → Type 0
Within qty none = Unit
Within qty (some q) = qty ≤ℤ q

-- A clamp takes no more than it is given, and no more than each result allows.
clamp_by-Within :
    (qty : Quantity) (o : Option Quantity) → (clamp_by qty o ≤ℤ qty) × Within (clamp_by qty o) o
clamp_by-Within qty none = (omega int_laws, tt)
clamp_by-Within qty (some q) = ground arith

Within-trans : (a b : Quantity) (o : Option Quantity) → a ≤ℤ b → Within b o → Within a o
Within-trans a b none h w = tt
Within-trans a b (some q) h w = ground arith

clamp-Within :
    (qty : Quantity) (rs : List RuleResult)
    → (clamp qty rs ≤ℤ qty) × All (λ r. Within (clamp qty rs) r.approved_quantity) rs
unfolding clamp
clamp-Within qty [] = (omega int_laws, tt)
clamp-Within qty (r ∷ rs) =
    let (less, each) = clamp-Within (clamp_by qty r.approved_quantity) rs in
    let (less', here) = clamp_by-Within qty r.approved_quantity in
    (
      ground arith,
      (
        Within-trans (clamp (clamp_by qty r.approved_quantity) rs)
            (clamp_by qty r.approved_quantity) r.approved_quantity less here,
        each,
      ),
    )

-- Every rule of the chain, run after those before it, returned an approval that allows `qty`.
abbrev pub Passed :
    Timestamp → SignalEvent → List OrderLeg → OrderLeg → Quantity → List Rule → RiskState → Type 0
Passed now signal siblings leg qty [] s = Unit
Passed now signal siblings leg qty (r ∷ rs) s =
    ((v : RuleResult) × ((evaluate now signal siblings leg r s).0 ≡ result v)
      × (v.approved ≡ true)
      × Within qty v.approved_quantity)
    × Passed now signal siblings leg qty rs (evaluate now signal siblings leg r s).1

fail_closed-approved :
    (r : Rule) (v : Evaluation) → (fail_closed r v).approved ≡ true → v ≡ result (fail_closed r v)
fail_closed-approved r (result v) h = refl
fail_closed-approved r raised h = cc

no_reject :
    (r : RuleResult) (rs : List RuleResult)
    → first_reject (r ∷ rs) ≡ none
    → (r.approved ≡ true) × (first_reject rs ≡ none)
no_reject r rs h = ground arith

run_rules-Passed :
    (now : Timestamp) (signal : SignalEvent) (siblings : List OrderLeg) (leg : OrderLeg)
    (qty : Quantity) (rs : List Rule) (s : RiskState)
    → first_reject (run_rules now signal siblings leg rs s).0 ≡ none
    → All (λ r. Within qty r.approved_quantity) (run_rules now signal siblings leg rs s).0
    → Passed now signal siblings leg qty rs s
unfolding run_rules
run_rules-Passed now signal siblings leg qty [] s h w = tt
run_rules-Passed now signal siblings leg qty (r ∷ rs) s h w =
    let v = (evaluate now signal siblings leg r s).0 in
    let s' = (evaluate now signal siblings leg r s).1 in
    let (approves, others) =
      no_reject (fail_closed r v) (run_rules now signal siblings leg rs s').0 h in
    (
      (fail_closed r v, fail_closed-approved r v approves, approves, w.0),
      run_rules-Passed now signal siblings leg qty rs s' others w.1,
    )

-- An approved leg keeps its identity, has the clamped quantity, and no result rejected it.
leg_verdict-approved :
    (signal : SignalEvent) (leg : OrderLeg) (results : List RuleResult) (a : ApprovedLeg)
    → leg_verdict signal leg results ≡ approved a
    → (first_reject results ≡ none)
      × (a.leg_id ≡ leg.leg_id)
      × (a.side ≡ leg.side)
      × (a.approved_quantity ≡ clamp leg.quantity results)
unfolding leg_verdict
leg_verdict-approved signal leg results a h = ground arith

-- A leg is approved only if every rule of its chain returned, none of them raising, and approved it;
-- the approved quantity is at most the requested one and at most every clamp that a rule asked for,
-- and the identity and the side are the leg's.
pub approved_leg_lem :
    (now : Timestamp) (signal : SignalEvent) (siblings : List OrderLeg) (leg : OrderLeg)
    (rs : List Rule) (s : RiskState) (a : ApprovedLeg)
    → leg_verdict signal leg (run_rules now signal siblings leg rs s).0 ≡ approved a
    → (a.leg_id ≡ leg.leg_id)
      × (a.side ≡ leg.side)
      × (a.approved_quantity ≤ℤ leg.quantity)
      × Passed now signal siblings leg a.approved_quantity rs s
approved_leg_lem now signal siblings leg rs s a h =
    let results = (run_rules now signal siblings leg rs s).0 in
    let (none_rejects, same_id, same_side, size) = leg_verdict-approved signal leg results a h in
    let (less, each) = clamp-Within leg.quantity results in
    (
      same_id,
      same_side,
      rw size less,
      run_rules-Passed now signal siblings leg a.approved_quantity rs s none_rejects (rw size each),
    )
