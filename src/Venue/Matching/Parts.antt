-- ===== src/Venue/Matching/Parts.antt =====
-- order_gateways/simulation.py: the pieces of a split fill add up.
use qf635project.Base.{
  ℕ, zero, suc, ◌⊎◌, ◌+◌, ◌-◌, ◌≤◌, ◌≡◌, refl, true, false, List, [], ◌∷◌, Bool-cases, inl, inr,
  leb, ◌==◌, arith,
}
use qf635project.Base.Decimal.{
  ℤ, pos, negsuc, pos_part, neg_part, ◌+ℤ◌, ◌-ℤ◌, ◌≤ℤ◌, ◌<ℤ◌, ltb_ℤ, int_laws, parts_of_eq,
}
use qf635project.Base.Decimal.Share.{share_within}
use qf635project.Core.{Quantity}
use qf635project.Venue.Matching.{
  Rng, Config, RestingOrder, split_fill, Part, request_parts, resting_parts,
}

-- What `random` documents: `uniform(lo, hi)` lies between its bounds; and the scale is not zero.
pub record IsUniform (rng : Rng) : Type 0 where
  pub positive : 1 ≤ rng.scale
  pub within : (n lo hi : ℕ) → lo ≤ hi → (lo ≤ rng.uniform n lo hi) × (rng.uniform n lo hi ≤ hi)

-- Two pieces of a quantity, neither negative.
abbrev pub Splits : Quantity → Quantity → Quantity → Type 0
Splits qty first second = (pos 0 ≤ℤ first) × (pos 0 ≤ℤ second) × (first +ℤ second ≡ qty)

rest-Splits : (q : ℕ) (x : ℤ) → neg_part x ≡ 0 → pos_part x ≤ q → Splits (pos q) x (pos q -ℤ x)
rest-Splits q x h k = (omega int_laws, omega int_laws, omega int_laws)

whole-Splits : (q : ℕ) → Splits (pos q) (pos q) (pos 0)
whole-Splits q = (omega int_laws, omega int_laws, omega int_laws)

abbrev Halves : Quantity → Quantity × Quantity × ℕ → Type 0
Halves qty (first, second, n) = Splits qty first second

pub split_fill-Splits :
    (c : Config) (rng : Rng) (n : ℕ) (qty : Quantity)
    → IsUniform rng
    → pos 0 ≤ℤ qty
    → Splits qty (split_fill c rng n qty).0 (split_fill c rng n qty).1
unfolding split_fill
split_fill-Splits c rng n (negsuc q) u h = absurd (omega (arith, h))
split_fill-Splits c rng n (pos q) u h =
    let lo = c.partial_fill_min_fraction in
    elim (Bool-cases (c.partial_fill_probability == 0)) [
      | inl never ↦ rw never (whole-Splits q)
      | inr maybe ↦ elim (Bool-cases (leb c.partial_fill_probability (rng.random n))) [
        | inl missed ↦ rw (maybe, missed) (whole-Splits q)
        | inr drawn ↦ elim (Bool-cases (leb rng.scale (lo + lo))) [
          | inl narrow ↦ rw (maybe, drawn, narrow) (whole-Splits q)
          | inr wide ↦
              let order : lo ≤ rng.scale - lo = ground (arith, wide) in
              let (below, above) = u.within (suc n) lo (rng.scale - lo) order in
              let (least, most) =
                share_within q (rng.uniform (suc n) lo (rng.scale - lo)) rng.scale u.positive
                  (omega arith) in
              rw (maybe, drawn, wide) (rest-Splits q _ least most)
        ]
      ]
    ]

-- Fills from `filled` to `total`: each is positive, reports the total so far and the rest, and the
-- last leaves nothing.
abbrev pub Adds : Quantity → Quantity → List Part → Type 0
Adds filled total [] = filled ≡ total
Adds filled total (p ∷ ps) =
    (pos 0 <ℤ p.quantity)
    × (p.cumulative ≡ filled +ℤ p.quantity)
    × (p.leaves ≡ total -ℤ p.cumulative)
    × Adds p.cumulative total ps

-- A test that a piece is positive, of one that is not negative.
positive_or_zero :
    (x : ℤ)
    → pos 0 ≤ℤ x
    → ((ltb_ℤ (pos 0) x ≡ true) × (pos 0 <ℤ x)) ⊎ ((ltb_ℤ (pos 0) x ≡ false) × (x ≡ pos 0))
positive_or_zero (pos zero) h = inr (refl, refl)
positive_or_zero (pos (suc n)) h = inl (ground arith, omega arith)
positive_or_zero (negsuc n) h = absurd (omega (arith, h))

pub request_parts-Adds :
    (qty first second : Quantity)
    → Splits qty first second
    → Adds (pos 0) qty (request_parts qty first second)
unfolding request_parts
request_parts-Adds qty first second (h, k, e) =
    let sum = parts_of_eq _ _ e in
    elim (positive_or_zero first h) [
      | inl (t, p) ↦ elim (positive_or_zero second k) [
        | inl (t', p') ↦
            rw (t, t')
              (p, omega int_laws, omega int_laws, (p', omega int_laws, omega int_laws, refl))
        | inr (t', z) ↦
            let z' = parts_of_eq _ _ z in
            rw (t, t') (p, omega int_laws, omega int_laws, omega int_laws)
      ]
      | inr (t, z) ↦
          let z'' = parts_of_eq _ _ z in
          elim (positive_or_zero second k) [
            | inl (t', p') ↦ rw (t, t') (p', omega int_laws, omega int_laws, refl)
            | inr (t', z) ↦ let z' = parts_of_eq _ _ z in rw (t, t') (omega int_laws)
          ]
    ]

pub resting_parts-Adds :
    (o : RestingOrder) (first second : Quantity)
    → Splits o.leaves first second
    → Adds (o.quantity -ℤ o.leaves) o.quantity (resting_parts o first second).0
      × ((resting_parts o first second).1.leaves ≡ pos 0)
unfolding resting_parts
resting_parts-Adds o first second (h, k, e) =
    let sum = parts_of_eq _ _ e in
    elim (positive_or_zero first h) [
      | inl (t, p) ↦ elim (positive_or_zero second k) [
        | inl (t', p') ↦
            rw (t, t')
              (
                (
                  p,
                  omega int_laws,
                  omega int_laws,
                  (p', omega int_laws, omega int_laws, omega int_laws),
                ),
                omega int_laws,
              )
        | inr (t', z) ↦
            let z' = parts_of_eq _ _ z in
            rw (t, t') ((p, omega int_laws, omega int_laws, omega int_laws), omega int_laws)
      ]
      | inr (t, z) ↦
          let z'' = parts_of_eq _ _ z in
          elim (positive_or_zero second k) [
            | inl (t', p') ↦
                rw (t, t') ((p', omega int_laws, omega int_laws, omega int_laws), omega int_laws)
            | inr (t', z) ↦
                let z' = parts_of_eq _ _ z in rw (t, t') (omega int_laws, omega int_laws)
          ]
    ]
