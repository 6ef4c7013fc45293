-- ===== src/Oms/Vwap/Shares.antt =====
-- oms/execution_algos/vwap.py: the slices sum to the quantity.
use qf635project.Base.{
  ℕ, zero, suc, ◌+◌, ◌*◌, ◌≡◌, refl, sym, ap, ◌∙◌, Bool, true, false, Option, none, some, List, [],
  ◌∷◌, ◌==◌, ◌||◌, ltb, leb, length, if-elim, if◌then◌else◌, arith,
}
use mathlib.Core.Path.{subst}
use qf635project.Base.Decimal.{
  ℤ, pos, ◌+ℤ◌, ◌*ℤ◌, div_ℤ, eq_ℤ, eq_ℤ→eq, leb_ℤ, int_laws, parts_of_eq,
}
use qf635project.Core.{Price, Quantity, Timestamp, OrderType, TimeInForce}
use qf635project.Oms.Algo.{ChildOrderSpec}
use qf635project.Oms.Vwap.{VwapAlgo, total_weight, shares, create, drop, advance, next_slice}

abbrev sum : List Quantity → Quantity
sum [] = pos 0
sum (q ∷ qs) = q +ℤ sum qs

-- The shares and what was sent before them make up the quantity.
shares-sum :
    (quantity : Quantity) (total : ℕ) (sent : Quantity) (w : ℕ) (ws : List ℕ)
    → sent +ℤ sum (shares quantity total sent (w ∷ ws)) ≡ quantity
unfolding shares
shares-sum quantity total sent w [] = omega int_laws
shares-sum quantity total sent w (x ∷ ws) =
    let q = div_ℤ (quantity *ℤ pos w) total in
    omega (int_laws, parts_of_eq _ _ (shares-sum quantity total (sent +ℤ q) x ws))

abbrev quantity_of : Option ChildOrderSpec → Quantity
quantity_of none = pos 0
quantity_of (some spec) = spec.quantity

abbrev left : VwapAlgo → Quantity
left a = sum (drop a.buckets_sent a.bucket_qtys)

drop-suc :
    (n : ℕ) (xs : List Quantity) (q : Quantity) (qs : List Quantity)
    → drop n xs ≡ q ∷ qs
    → drop (suc n) xs ≡ qs
drop-suc zero [] q qs h = cc
drop-suc zero (x ∷ xs) q qs h = cc
drop-suc (suc n) [] q qs h = cc
drop-suc (suc n) (x ∷ xs) q qs h = drop-suc n xs q qs h

advance-left :
    (now : Timestamp) (qs : List Quantity) (a : VwapAlgo)
    → drop a.buckets_sent a.bucket_qtys ≡ qs
    → quantity_of (advance now qs a).0 +ℤ left (advance now qs a).1 ≡ left a
unfolding advance
advance-left now [] a h = omega int_laws
advance-left now (q ∷ qs) a h =
    let a' : VwapAlgo = record a { buckets_sent = suc a.buckets_sent } in
    let whole : left a ≡ q +ℤ sum qs = ap sum h in
    let later : left a' ≡ sum qs = ap sum (drop-suc a.buckets_sent a.bucket_qtys q qs h) in
    let after : quantity_of (advance now qs a').0 +ℤ left (advance now qs a').1 ≡ left a' =
      advance-left now qs a' (drop-suc a.buckets_sent a.bucket_qtys q qs h) in
    let Fits : Option ChildOrderSpec × VwapAlgo → Type 0 =
      λ r. quantity_of r.0 +ℤ left r.1 ≡ left a in
    if-elim Fits (ltb now (a.start_ns + a.buckets_sent * a.bucket_interval_ns)) (none, a) _
      (λ _. omega int_laws)
      (λ _.
        if-elim Fits (eq_ℤ q (pos 0)) (advance now qs a') _
          (λ empty.
            let zero_q : q ≡ pos 0 = eq_ℤ→eq q (pos 0) empty in
            let same : sum qs ≡ q +ℤ sum qs = omega (int_laws, parts_of_eq _ _ zero_q) in
            after ∙ later ∙ same ∙ sym whole)
          (λ _. ap (λ (t : ℤ). q +ℤ t) later ∙ sym whole))

next_slice-left :
    (now : Timestamp) (a : VwapAlgo)
    → quantity_of (next_slice now a).0 +ℤ left (next_slice now a).1 ≡ left a
unfolding next_slice
next_slice-left now a =
    let Fits : Option ChildOrderSpec × VwapAlgo → Type 0 =
      λ r. quantity_of r.0 +ℤ left r.1 ≡ left a in
    if-elim Fits a.cancelled (none, a) _ (λ _. omega int_laws)
      (λ _. advance-left now (drop a.buckets_sent a.bucket_qtys) a refl)

-- What the slices sum to that are sent when the driver wakes at the given times, and the algo then.
unfoldable pub wake : List Timestamp → VwapAlgo → Quantity × VwapAlgo
wake [] a = (pos 0, a)
wake (now ∷ times) a =
    let (spec, a') = next_slice now a in
    let (total, b) = wake times a' in (quantity_of spec +ℤ total, b)

wake-left :
    (times : List Timestamp) (a : VwapAlgo) → (wake times a).0 +ℤ left (wake times a).1 ≡ left a
unfolding wake
wake-left [] a = omega int_laws
wake-left (now ∷ times) a = omega (
  int_laws,
  parts_of_eq _ _ (wake-left times (next_slice now a).1),
  parts_of_eq _ _ (next_slice-left now a),
)

unless_none :
    (b : Bool) (r a : VwapAlgo) → (if b then none else some r) ≡ some a → (b ≡ false) × (r ≡ a)
unless_none true r a e = cc
unless_none false r a e = (refl, cc)

create-left :
    (quantity : Quantity) (duration_ns : ℕ) (profile : List ℕ) (start_ns : Timestamp)
    (t : OrderType) (tif : TimeInForce) (price : Option Price) (a : VwapAlgo)
    → create quantity duration_ns profile start_ns t tif price ≡ some a
    → left a ≡ quantity
unfolding create
create-left quantity duration_ns [] start_ns t tif price a e =
    let (valid, same) =
      unless_none (leb_ℤ quantity (pos 0) || duration_ns == 0 || total_weight [] == 0) _ a e in
    absurd (ground (arith, valid))
create-left quantity duration_ns (w ∷ ws) start_ns t tif price a e =
    let total = total_weight (w ∷ ws) in
    let (valid, same) =
      unless_none (leb_ℤ quantity (pos 0) || duration_ns == 0 || total == 0) _ a e in
    let whole = shares-sum quantity total (pos 0) w ws in
    subst (λ (b : VwapAlgo). left b ≡ quantity) same (omega (int_laws, parts_of_eq _ _ whole))

drop-length : (n : ℕ) (xs : List Quantity) → leb (length xs) n ≡ true → drop n xs ≡ []
drop-length zero [] h = refl
drop-length zero (x ∷ xs) h = absurd (ground (arith, h))
drop-length (suc n) [] h = refl
drop-length (suc n) (x ∷ xs) h = drop-length n xs (ground (arith, h))

-- Whenever the driver wakes: once an algo for a quantity has sent all of its buckets, they sum to
-- exactly that quantity, whatever the profile and the rounding of its shares.
pub create-wake_buckets :
    (quantity : Quantity) (duration_ns : ℕ) (profile : List ℕ) (start_ns : Timestamp)
    (t : OrderType) (tif : TimeInForce) (price : Option Price) (a : VwapAlgo)
    (times : List Timestamp)
    → create quantity duration_ns profile start_ns t tif price ≡ some a
    → leb (length (wake times a).1.bucket_qtys) (wake times a).1.buckets_sent ≡ true
    → (wake times a).0 ≡ quantity
create-wake_buckets quantity duration_ns profile start_ns t tif price a times e h =
    let b = (wake times a).1 in
    let none_left : left b ≡ pos 0 = ap sum (drop-length b.buckets_sent b.bucket_qtys h) in
    omega (
      int_laws,
      parts_of_eq _ _ (wake-left times a),
      parts_of_eq _ _ (create-left quantity duration_ns profile start_ns t tif price a e),
      parts_of_eq _ _ none_left,
    )
