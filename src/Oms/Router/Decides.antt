-- ===== src/Oms/Router/Decides.antt =====
-- oms/router.py with execution_algos/twap.py: whatever the router decides, the whole leg is sent.
use qf635project.Base.{
  ℕ, ◌≤◌, ◌<◌, ◌≡◌, refl, true, false, Option, none, some, List, ◌==◌, ◌||◌, length, All,
  if◌then◌else◌, if-elim, arith,
}
use qf635project.Base.Decimal.{ℤ, pos, ◌≤ℤ◌, leb_ℤ}
use qf635project.Core.{
  Quantity, Timestamp, OrderLeg, passive, normal, urgent, OrderType, TimeInForce, Price,
}
use qf635project.Oms.Twap.{TwapAlgo, create, is_done}
use qf635project.Oms.Twap.Schedule.{wake, Late, create-Late}
use qf635project.Oms.Router.{
  RoutingContext, DefaultExecutionRouter, RoutingDecision, single, sliced, config_error,
  notional_of, make_twap, slice_over, route,
}

-- A limit on the notional is kept, or there is no price to take it at.
abbrev pub IsSmall : Option ℤ → ℤ → Type 0
IsSmall none bound = Unit {0}
IsSmall (some notional) bound = notional ≤ℤ bound

-- Which legs may be sent as one order.
abbrev pub InOnePiece : DefaultExecutionRouter → OrderLeg → RoutingContext → Type 0
InOnePiece r leg ctx = elim leg.intent [
  | passive ↦ Unit {0}
  | normal ↦ IsSmall (notional_of leg ctx) r.slice_threshold
  | urgent ↦ IsSmall (notional_of leg ctx) r.max_single
]

-- One order, of a leg that may be sent as one; or an algo, for a leg that may not, that has sent exactly
-- the quantity of the leg when it was woken often enough after its slices were due.
abbrev pub SendsAll : ℕ → Type 0 → OrderLeg → RoutingDecision → Type 0
SendsAll num_slices whole leg single = whole
SendsAll num_slices whole leg (sliced a) =
    (whole → ⊥)
    × ((times : List Timestamp)
        → All (Late a) times
        → num_slices ≤ length times
        → ((wake times a).0 ≡ leg.quantity) × (is_done (wake times a).1 ≡ true))
SendsAll num_slices whole leg config_error = ⊥

create-some :
    (quantity : Quantity) (duration_ns num_slices : ℕ) (start_ns : Timestamp) (t : OrderType)
    (tif : TimeInForce) (price : Option Price)
    → leb_ℤ quantity (pos 0) ≡ false
    → 0 < duration_ns
    → 0 < num_slices
    → (a : TwapAlgo) × (create quantity duration_ns num_slices start_ns t tif price ≡ some a)
unfolding create
create-some quantity duration_ns num_slices start_ns t tif price positive d n =
    let valid : (num_slices == 0 || duration_ns == 0 || leb_ℤ quantity (pos 0)) ≡ false =
      ground (arith, positive, d, n) in
    rw valid (_, refl)

module _ (r : DefaultExecutionRouter) (leg : OrderLeg) (ctx : RoutingContext)
    (positive : leb_ℤ leg.quantity (pos 0) ≡ false) (n : 0 < r.twap_slices) where
  make_twap-SendsAll :
      (whole : Type 0) (duration_ns : ℕ)
      → (whole → ⊥)
      → 0 < duration_ns
      → SendsAll r.twap_slices whole leg (make_twap r leg ctx duration_ns)
  unfolding make_twap
  make_twap-SendsAll whole duration_ns large d =
      let (a, made) =
        create-some leg.quantity duration_ns r.twap_slices ctx.now_ns leg.order_type
          leg.time_in_force leg.price positive d n in
      rw (made, SendsAll)
        (
          large,
          (λ times late enough.
              create-Late leg.quantity duration_ns r.twap_slices ctx.now_ns leg.order_type
                leg.time_in_force leg.price a times made late enough),
        )

  slice_over-SendsAll :
      (bound : ℤ) (duration_ns : ℕ)
      → 0 < duration_ns
      → SendsAll r.twap_slices
          (IsSmall (notional_of leg ctx) bound)
          leg
          (slice_over r leg ctx bound duration_ns)
  slice_over-SendsAll bound duration_ns d = go (notional_of leg ctx)
    where
      go :
          (o : Option ℤ)
          → SendsAll r.twap_slices (IsSmall o bound) leg (elim o [
            | none ↦ single
            | some notional ↦
                if leb_ℤ notional bound then single else make_twap r leg ctx duration_ns
          ])
      go none = tt
      go (some notional) =
          if-elim (SendsAll r.twap_slices (notional ≤ℤ bound) leg) (leb_ℤ notional bound) single
            (make_twap r leg ctx duration_ns) (λ small. ground (arith, small))
            (λ large.
              make_twap-SendsAll (notional ≤ℤ bound) duration_ns
                (λ small. ground (arith, large, small)) d)

-- A router with a positive number of slices and positive durations raises no error on a leg of a
-- positive quantity. It places one order exactly for a passive leg, for a leg without a price to take
-- its notional at, and for a leg whose notional is within the threshold of its intent; for any other
-- it makes an algo that sends exactly the quantity of the leg and is done, once it is woken for each
-- slice when all are due.
pub route-SendsAll :
    (r : DefaultExecutionRouter) (leg : OrderLeg) (ctx : RoutingContext)
    → leb_ℤ leg.quantity (pos 0) ≡ false
    → 0 < r.twap_ns
    → 0 < r.urgent_twap_ns
    → 0 < r.twap_slices
    → SendsAll r.twap_slices (InOnePiece r leg ctx) leg (route r leg ctx)
unfolding route
route-SendsAll r leg ctx positive d u n =
    elim leg.intent
      as (λ i.
        SendsAll r.twap_slices
          (elim i [
            | passive ↦ Unit {0}
            | normal ↦ IsSmall (notional_of leg ctx) r.slice_threshold
            | urgent ↦ IsSmall (notional_of leg ctx) r.max_single
          ])
          leg
          (elim i [
            | passive ↦ single
            | urgent ↦ slice_over r leg ctx r.max_single r.urgent_twap_ns
            | normal ↦ slice_over r leg ctx r.slice_threshold r.twap_ns
          ])) [
            | passive ↦ tt
            | urgent ↦ slice_over-SendsAll r leg ctx positive n r.max_single r.urgent_twap_ns u
            | normal ↦ slice_over-SendsAll r leg ctx positive n r.slice_threshold r.twap_ns d
          ]
