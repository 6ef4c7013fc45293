-- ===== src/Oms/Twap/Schedule.antt =====
-- oms/execution_algos/twap.py: what the slices add up to.
use mathlib.Core.Path.{subst}
use qf635project.Base.{
  ℕ, zero, suc, ◌+◌, ◌-◌, ◌*◌, ◌≤◌, ◌<◌, ◌≡◌, refl, sym, ◌∙◌, ap, Bool, true, false, Option, none,
  some, List, [], ◌∷◌, ◌==◌, ◌||◌, ltb, leb, ◌⊎◌, inl, inr, if-elim, if◌then◌else◌, length, All,
  arith,
}
use qf635project.Base.Decimal.{
  ℤ, pos, ◌+ℤ◌, ◌-ℤ◌, ◌*ℤ◌, div_ℤ, leb_ℤ, int_laws, expand, units, parts_of_eq, *ℤ_zero,
}
use qf635project.Core.{Price, Quantity, Timestamp, OrderType, TimeInForce}
use qf635project.Oms.Algo.{ChildOrderSpec}
use qf635project.Oms.Twap.{TwapAlgo, create, next_qty, is_done, next_slice}

abbrev quantity_of : Option ChildOrderSpec → Quantity
quantity_of none = pos 0
quantity_of (some spec) = spec.quantity

-- What the slices sum to that are sent when the driver wakes at the given times, and the algo then.
unfoldable pub wake : List Timestamp → TwapAlgo → Quantity × TwapAlgo
wake [] a = (pos 0, a)
wake (now ∷ times) a =
    let (spec, a') = next_slice now a in
    let (total, b) = wake times a' in (quantity_of spec +ℤ total, b)

-- The quantities of so many slices, the last of them the remainder.
slices : Quantity → Quantity → ℕ → Quantity
slices slice last zero = pos 0
slices slice last (suc zero) = last
slices slice last (suc (suc k)) = slice +ℤ slices slice last (suc k)

slices-sum : (slice last : Quantity) (k : ℕ) → slices slice last (suc k) ≡ slice *ℤ pos k +ℤ last
unfolding slices
slices-sum slice last zero = rw (*ℤ_zero slice) (omega int_laws)
slices-sum slice last (suc k) =
    let one_more : pos (suc k) ≡ pos k +ℤ pos 1 = omega int_laws in
    rw one_more
      (ap (λ (t : ℤ). slice +ℤ t) (slices-sum slice last k) ∙ simp (units, expand) (omega int_laws))

abbrev left : TwapAlgo → Quantity
left a = slices a.slice_qty a.remainder (a.num_slices - a.slices_sent)

-- The next slice is the first of those left.
next_qty-left :
    (a : TwapAlgo) (m : ℕ)
    → a.num_slices ≡ suc m + a.slices_sent
    → slices a.slice_qty a.remainder (suc m) ≡ next_qty a +ℤ slices a.slice_qty a.remainder m
unfolding slices
next_qty-left a zero e =
    let last : (suc a.slices_sent == a.num_slices) ≡ true = ground (arith, e) in
    rw last (omega int_laws)
next_qty-left a (suc m) e =
    let more : (suc a.slices_sent == a.num_slices) ≡ false = ground (arith, e) in rw more refl

next_slice-left :
    (now : Timestamp) (a : TwapAlgo)
    → left a ≡ quantity_of (next_slice now a).0 +ℤ left (next_slice now a).1
unfolding next_slice
next_slice-left now a =
    let P : Option ChildOrderSpec × TwapAlgo → Type 0 = λ r. left a ≡ quantity_of r.0 +ℤ left r.1 in
    if-elim P (is_done a) _ _ (λ _. omega int_laws)
      (λ more.
        if-elim P (ltb now (a.start_ns + a.slices_sent * a.interval_ns)) _ _ (λ _. omega int_laws)
          (λ due.
            let m = a.num_slices - suc a.slices_sent in
            let e : a.num_slices ≡ suc m + a.slices_sent = ground (arith, more) in
            let e' : a.num_slices - a.slices_sent ≡ suc m = omega (arith, e) in
            ap (slices a.slice_qty a.remainder) e' ∙ next_qty-left a m e))

wake-left :
    (times : List Timestamp) (a : TwapAlgo) → left a ≡ (wake times a).0 +ℤ left (wake times a).1
unfolding wake
wake-left [] a = omega int_laws
wake-left (now ∷ times) a = omega (
  int_laws,
  parts_of_eq _ _ (next_slice-left now a),
  parts_of_eq _ _ (wake-left times (next_slice now a).1),
)

unless_none : (b : Bool) (r a : TwapAlgo) → (if b then none else some r) ≡ some a → r ≡ a
unless_none true r a e = cc
unless_none false r a e = cc

create-left :
    (quantity : Quantity) (duration_ns num_slices : ℕ) (start_ns : Timestamp) (t : OrderType)
    (tif : TimeInForce) (price : Option Price) (a : TwapAlgo)
    → create quantity duration_ns num_slices start_ns t tif price ≡ some a
    → left a ≡ quantity
unfolding create
create-left quantity duration_ns zero start_ns t tif price a e = cc
create-left quantity duration_ns (suc k) start_ns t tif price a e =
    let slice = div_ℤ quantity (suc k) in
    let last = quantity -ℤ slice *ℤ pos (suc k - 1) in
    let same = unless_none (suc k == 0 || duration_ns == 0 || leb_ℤ quantity (pos 0)) _ a e in
    let count : suc k - 1 ≡ k = omega arith in
    let all : suc k - 0 ≡ suc k = omega arith in
    subst (λ (b : TwapAlgo). left b ≡ quantity) same
      (ap (slices slice last) all ∙ slices-sum slice last k ∙ rw count (omega int_laws))

no_slices : (a : TwapAlgo) → leb a.num_slices a.slices_sent ≡ true → left a ≡ pos 0
unfolding slices
no_slices a h =
    let e : a.num_slices - a.slices_sent ≡ 0 = ground (arith, h) in
    ap (slices a.slice_qty a.remainder) e

-- Whenever the driver wakes: once an algo for a quantity has sent all of its slices, they sum to
-- exactly that quantity.
pub create-wake :
    (quantity : Quantity) (duration_ns num_slices : ℕ) (start_ns : Timestamp) (t : OrderType)
    (tif : TimeInForce) (price : Option Price) (a : TwapAlgo) (times : List Timestamp)
    → create quantity duration_ns num_slices start_ns t tif price ≡ some a
    → leb (wake times a).1.num_slices (wake times a).1.slices_sent ≡ true
    → (wake times a).0 ≡ quantity
create-wake quantity duration_ns num_slices start_ns t tif price a times e h = omega (
  int_laws,
  parts_of_eq _ _ (create-left quantity duration_ns num_slices start_ns t tif price a e),
  parts_of_eq _ _ (wake-left times a),
  parts_of_eq _ _ (no_slices (wake times a).1 h),
)

-- A time by which every slice is due.
abbrev pub Late : TwapAlgo → Timestamp → Type 0
Late a now = a.start_ns + a.num_slices * a.interval_ns ≤ now

not_due :
    (now start sent n i : ℕ) → sent < n → start + n * i ≤ now → ltb now (start + sent * i) ≡ false
not_due now start sent n i h l = grind arith

next_slice-Late :
    (now : Timestamp) (a : TwapAlgo)
    → a.cancelled ≡ false
    → Late a now
    → (((next_slice now a).1 ≡ a) × (a.num_slices ≤ a.slices_sent))
      ⊎ ((next_slice now a).1 ≡ record a { slices_sent = suc a.slices_sent })
unfolding next_slice
next_slice-Late now a c l =
    let P : Option ChildOrderSpec × TwapAlgo → Type 0 = λ r.
      ((r.1 ≡ a) × (a.num_slices ≤ a.slices_sent))
      ⊎ (r.1 ≡ record a { slices_sent = suc a.slices_sent }) in
    if-elim P (is_done a) _ _ (λ done. inl (refl, ground (arith, done, c)))
      (λ more.
        if-elim P (ltb now (a.start_ns + a.slices_sent * a.interval_ns)) _ _
          (λ early. absurd (
            let due =
              not_due now a.start_ns a.slices_sent a.num_slices a.interval_ns (ground (arith, more))
                l in
            cc))
          (λ _. inr refl))

wake-All :
    (times : List Timestamp) (a : TwapAlgo)
    → a.cancelled ≡ false
    → All (Late a) times
    → a.num_slices ≤ a.slices_sent + length times
    → leb (wake times a).1.num_slices (wake times a).1.slices_sent ≡ true
unfolding wake
wake-All [] a c l h = ground (arith, h)
wake-All (now ∷ times) a c l h =
    let Q : TwapAlgo → Type 0 =
      λ b. leb (wake times b).1.num_slices (wake times b).1.slices_sent ≡ true in
    elim (next_slice-Late now a c l.0) [
      | inl (same, done) ↦ subst Q (sym same) (wake-All times a c l.1 (omega (arith, done)))
      | inr sent ↦
          subst Q (sym sent)
            (wake-All times (record a { slices_sent = suc a.slices_sent }) c l.1 (omega (arith, h)))
    ]

create-fields :
    (quantity : Quantity) (duration_ns num_slices : ℕ) (start_ns : Timestamp) (t : OrderType)
    (tif : TimeInForce) (price : Option Price) (a : TwapAlgo)
    → create quantity duration_ns num_slices start_ns t tif price ≡ some a
    → (a.cancelled ≡ false) × (a.num_slices ≡ num_slices) × (a.slices_sent ≡ 0)
unfolding create
create-fields quantity duration_ns num_slices start_ns t tif price a e =
    let same = unless_none (num_slices == 0 || duration_ns == 0 || leb_ℤ quantity (pos 0)) _ a e in
    subst
      (λ (b : TwapAlgo). (b.cancelled ≡ false) × (b.num_slices ≡ num_slices) × (b.slices_sent ≡ 0))
      same (refl, refl, refl)

-- An algo for a quantity, woken at least once for each of its slices when all of them are due, is done,
-- and what it has sent is exactly the quantity.
pub create-Late :
    (quantity : Quantity) (duration_ns num_slices : ℕ) (start_ns : Timestamp) (t : OrderType)
    (tif : TimeInForce) (price : Option Price) (a : TwapAlgo) (times : List Timestamp)
    → create quantity duration_ns num_slices start_ns t tif price ≡ some a
    → All (Late a) times
    → num_slices ≤ length times
    → ((wake times a).0 ≡ quantity) × (is_done (wake times a).1 ≡ true)
create-Late quantity duration_ns num_slices start_ns t tif price a times e l n =
    let (running, count, fresh) =
      create-fields quantity duration_ns num_slices start_ns t tif price a e in
    let all = wake-All times a running l (omega (arith, count, n)) in
    (
      create-wake quantity duration_ns num_slices start_ns t tif price a times e all,
      ground (arith, all),
    )
