-- ===== src/Risk/Engine/Signal/Room.antt =====
-- risk/engine.py with risk/rules/max_position.py: the room of a side, leg by leg.
use mathlib.Core.Path.{subst}
use qf635project.Base.{
  ℕ, ◌≡◌, refl, ◌⊎◌, inl, inr, Bool, Option, none, some, List, [], ◌∷◌, ◌++◌, Bool-cases,
  if◌then◌else◌, arith,
}
use qf635project.Base.Dict.{pair_eq}
use qf635project.Base.Decimal.{ℤ, pos, ◌+ℤ◌, ◌-ℤ◌, ◌≤ℤ◌, int_laws, parts_of_eq}
use qf635project.Core.{
  Timestamp, Quantity, Side, buy, sell, same_side, same_side-≡, OrderLeg, ApprovedLeg, RuleName,
}
use qf635project.Risk.Rules.{side_quantity, headroom}
use qf635project.Risk.Engine.{
  LegVerdict, approved, rejected, publish, Pass, add_verdict, maybe_engage, engage_kill_switch,
}

-- What the approved legs of a side sum to.
abbrev pub approved_total : Side → List ApprovedLeg → Quantity
approved_total side [] = pos 0
approved_total side (a ∷ as') =
    if same_side a.side side
    then a.approved_quantity +ℤ approved_total side as'
    else approved_total side as'

-- The room that the limits leave to a side at a position.
abbrev pub room : Quantity → Quantity → Side → Quantity → Quantity
room max_long max_short buy current = max_long -ℤ current
room max_long max_short sell current = current +ℤ max_short

abbrev pub HasQuantity : OrderLeg → Type 0
HasQuantity leg = pos 0 ≤ℤ leg.quantity

approved_total-append :
    (side : Side) (xs : List ApprovedLeg) (a : ApprovedLeg)
    → approved_total side (xs ++ a ∷ [])
      ≡ approved_total side xs +ℤ (if same_side a.side side then a.approved_quantity else pos 0)
approved_total-append side [] a = grind int_laws
approved_total-append side (x ∷ xs) a = grind (int_laws, approved_total-append side xs a)

side_quantity-append :
    (side : Side) (xs ys : List OrderLeg)
    → side_quantity side (xs ++ ys) ≡ side_quantity side xs +ℤ side_quantity side ys
side_quantity-append side [] ys = omega int_laws
side_quantity-append side (x ∷ xs) ys = grind (int_laws, side_quantity-append side xs ys)

headroom-room :
    (max_long max_short : Quantity) (side : Side) (current others : Quantity)
    → headroom max_long max_short side current others
      ≡ room max_long max_short side current -ℤ others
headroom-room max_long max_short buy current others = omega int_laws
headroom-room max_long max_short sell current others = omega int_laws

-- Within the loop: the approved total is at most what was requested so far, and with the legs still
-- to come it fits the room, unless nothing is approved.
abbrev pub Fits : Side → Quantity → Quantity → Quantity → Quantity → Type 0
Fits side limit total before after =
    (total ≤ℤ before) × ((total ≡ pos 0) ⊎ (total +ℤ after ≤ℤ limit))

fits_more :
    (limit total before after q a : ℤ)
    → a ≤ℤ q
    → a ≤ℤ limit -ℤ (before +ℤ after)
    → total ≤ℤ before
    → (total +ℤ a ≤ℤ before +ℤ q) × ((total +ℤ a) +ℤ after ≤ℤ limit)
fits_more limit total before after q a p r l = (omega int_laws, omega int_laws)

pub maybe_engage-keeps :
    (accepts : ℕ → Bool) (now : Timestamp) (o : Option RuleName) (p : Pass)
    → ((maybe_engage accepts now o p).approved_legs ≡ p.approved_legs)
      × ((maybe_engage accepts now o p).engine.state ≡ p.engine.state)
unfolding engage_kill_switch publish
maybe_engage-keeps accepts now none p = (refl, refl)
maybe_engage-keeps accepts now (some n) p = (refl, ground arith)

-- The legs that a verdict adds.
abbrev pub add_approved : LegVerdict → List ApprovedLeg → List ApprovedLeg
add_approved (approved a) xs = xs ++ a ∷ []
add_approved (rejected r) xs = xs

pub add_verdict-keeps :
    (v : LegVerdict) (p : Pass)
    → ((add_verdict v p).approved_legs ≡ add_approved v p.approved_legs)
      × ((add_verdict v p).engine ≡ p.engine)
add_verdict-keeps (approved a) p = (refl, refl)
add_verdict-keeps (rejected r) p = (refl, refl)

module _ (max_long max_short : Quantity) (side : Side) (current : Quantity) where
  abbrev side_room : Quantity
  side_room = room max_long max_short side current

  -- The verdict is a rejection, or an approval within the leg's size and its headroom.
  abbrev pub Judged : OrderLeg → List OrderLeg → LegVerdict → Type 0
  Judged leg siblings v =
      (a : ApprovedLeg)
      → v ≡ approved a
      → (a.side ≡ leg.side)
        × (a.approved_quantity ≤ℤ leg.quantity)
        × (a.approved_quantity
            ≤ℤ headroom max_long max_short leg.side current (side_quantity leg.side siblings))

  pub verdict-Fits :
      (v : LegVerdict) (before legs : List OrderLeg) (leg : OrderLeg) (xs : List ApprovedLeg)
      → HasQuantity leg
      → Judged leg (before ++ legs) v
      → Fits side side_room
          (approved_total side xs)
          (side_quantity side before)
          (side_quantity side (leg ∷ legs))
      → Fits side side_room
          (approved_total side (add_approved v xs))
          (side_quantity side (before ++ leg ∷ []))
          (side_quantity side legs)
  verdict-Fits (rejected r) before legs leg xs p j f =
      grind (int_laws, side_quantity-append side before (leg ∷ []), f, p)
  verdict-Fits (approved a) before legs leg xs p j f =
      let (at_side, small, fits) = j a refl in
      elim (Bool-cases (same_side leg.side side)) [
        | inl e ↦
            let same : leg.side ≡ side = same_side-≡ leg.side side e in
            let fits' : a.approved_quantity
                ≤ℤ side_room -ℤ (side_quantity side before +ℤ side_quantity side legs) =
              omega (
                int_laws,
                parts_of_eq _ _ (
                    headroom-room max_long max_short side current
                      (side_quantity side (before ++ legs))),
                parts_of_eq _ _ (side_quantity-append side before legs),
                subst
                    (λ (x : Side).
                      a.approved_quantity
                      ≤ℤ headroom max_long max_short x current (side_quantity x (before ++ legs)))
                    same fits,
              ) in
            let (l, r) =
              fits_more side_room (approved_total side xs) (side_quantity side before)
                (side_quantity side legs) leg.quantity a.approved_quantity small fits' f.0 in
            (
              grind (
                int_laws,
                side_quantity-append side before (leg ∷ []),
                approved_total-append side xs a,
                l,
                e,
                at_side,
              ),
              inr (grind (int_laws, approved_total-append side xs a, r, e, at_side)),
            )
        | inr e ↦ grind (
          int_laws,
          side_quantity-append side before (leg ∷ []),
          f,
          p,
          e,
          at_side,
          approved_total-append side xs a,
        )
      ]
