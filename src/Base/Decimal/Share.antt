-- ===== src/Base/Decimal/Share.antt =====
-- A share of a whole: what a product with a fraction, rounded, lies between.
use Prim.Native.Nat.{ℕ, suc, ◌+◌, ◌*◌, ◌≤◌, ◌<◌}
use mathlib.Core.Path.{◌≡◌}
use native.Mathlib.Omega.{arith}
use native.Mathlib.Decide.{dec_lt}
use qf635project.Base.Decimal.{
  pos, pos_part, neg_part, ◌*ℤ◌, div_ℤ, half_even, half_even_near, div_ℤ-pos, *ℤ_parts, eq_of_parts,
}

no_more : (e n b q : ℕ) → 1 ≤ b → 2 * (e * b) ≤ 2 * n + b → n ≤ q * b → e ≤ q
no_more e n b q h near k = absurd_above (dec_lt q e)
  where
    absurd_above : Dec (q < e) → e ≤ q
    absurd_above (no le) = omega (arith, le)
    absurd_above (yes lt) =
        let step : suc q * b ≤ e * b = grind arith in
        let flat : suc q * b ≡ q * b + b = grind arith in absurd (omega arith)

half_even-le : (n b q : ℕ) → 1 ≤ b → n ≤ q * b → half_even n b ≤ q
half_even-le n b q h k = no_more (half_even n b) n b q h (half_even_near n b h).0 k

product : (q u : ℕ) → pos q *ℤ pos u ≡ pos (q * u)
product q u = omega (arith, eq_of_parts, *ℤ_parts (pos q) (pos u))

-- Of `q`, the share of `u` parts in `s`, rounded, is between nothing and `q`.
pub share_within :
    (q u s : ℕ)
    → 1 ≤ s
    → u ≤ s
    → (neg_part (div_ℤ (pos q *ℤ pos u) s) ≡ 0) × (pos_part (div_ℤ (pos q *ℤ pos u) s) ≤ q)
share_within q u s h k =
    let (p, n) = div_ℤ-pos (q * u) s in
    rw (product q u) (n, rw p (half_even-le (q * u) s q h (grind arith)))
