-- ===== src/Base/Decimal.antt =====
-- `decimal.Decimal` amounts as integers that count the smallest increment in use (core/types.py:
-- `Price`, `Quantity`, `Notional`). The product of a price and a quantity counts the product of
-- their increments, so sums, differences, products and comparisons are exact. A quotient is
-- rounded half to even at its last place, the rounding of Python's default decimal context.
pub mod Share
use Prim.Native.Nat.{ℕ, suc, ◌+◌, ◌-◌, ◌*◌, ◌/◌, ◌%◌, ◌≤◌}
use mathlib.Core.Path.{◌≡◌, refl, ap}
use mathlib.Core.Logic.{◌⊎◌, inl, inr}
use mathlib.Core.Bool.{Bool, true}
use native.Mathlib.Omega.{arith}
use qf635project.Base.Tests.{ltb, leb, ◌==◌, if◌then◌else◌}

-- `negsuc n` is -(n + 1).
pub data ℤ : Type 0 where
  pos : ℕ → ℤ
  negsuc : ℕ → ℤ

abbrev pub pos_part : ℤ → ℕ
pos_part (pos n) = n
pos_part (negsuc n) = 0

abbrev pub neg_part : ℤ → ℕ
neg_part (pos n) = 0
neg_part (negsuc n) = suc n

-- a - b, as an integer.
abbrev pub sub_ℕ : ℕ → ℕ → ℤ
sub_ℕ a b = if leb b a then pos (a - b) else negsuc (b - a - 1)

infixl 65 ◌+ℤ◌ ◌-ℤ◌
infixl 70 ◌*ℤ◌
infix 50 ◌≤ℤ◌ ◌<ℤ◌
unfoldable pub ◌+ℤ◌ : ℤ → ℤ → ℤ
a +ℤ b = sub_ℕ (pos_part a + pos_part b) (neg_part a + neg_part b)

unfoldable pub ◌-ℤ◌ : ℤ → ℤ → ℤ
a -ℤ b = sub_ℕ (pos_part a + neg_part b) (neg_part a + pos_part b)

unfoldable pub ◌*ℤ◌ : ℤ → ℤ → ℤ
a *ℤ b =
    sub_ℕ (pos_part a * pos_part b + neg_part a * neg_part b)
      (pos_part a * neg_part b + neg_part a * pos_part b)

abbrev pub ◌≤ℤ◌ : ℤ → ℤ → Type 0
a ≤ℤ b = pos_part a + neg_part b ≤ pos_part b + neg_part a

abbrev pub ◌<ℤ◌ : ℤ → ℤ → Type 0
a <ℤ b = suc (pos_part a + neg_part b) ≤ pos_part b + neg_part a

abbrev pub ltb_ℤ : ℤ → ℤ → Bool
ltb_ℤ a b = ltb (pos_part a + neg_part b) (pos_part b + neg_part a)

abbrev pub leb_ℤ : ℤ → ℤ → Bool
leb_ℤ a b = leb (pos_part a + neg_part b) (pos_part b + neg_part a)

abbrev pub eq_ℤ : ℤ → ℤ → Bool
eq_ℤ a b = (pos_part a + neg_part b) == (pos_part b + neg_part a)

-- Python's `min`, `max` and `abs`.
abbrev pub min_ℤ : ℤ → ℤ → ℤ
min_ℤ a b = if ltb_ℤ b a then b else a

abbrev pub max_ℤ : ℤ → ℤ → ℤ
max_ℤ a b = if ltb_ℤ a b then b else a

unfoldable pub abs_ℤ : ℤ → ℤ
abs_ℤ a = pos (pos_part a + neg_part a)

-- The quotient of two naturals, rounded half to even.
abbrev half_even : ℕ → ℕ → ℕ
half_even a b =
    let q = a / b in
    let r = 2 * (a % b) in
    if ltb r b then q else if ltb b r then q + 1 else if q % 2 == 0 then q else q + 1

-- `a / b`, for a divisor that the code has checked to be positive.
unfoldable pub div_ℤ : ℤ → ℕ → ℤ
div_ℤ a b = sub_ℕ (half_even (pos_part a) b) (half_even (neg_part a) b)

-- One lemma for each operation lets `omega` work with the operations shut, at any depth.
pub +ℤ_parts :
    (a b : ℤ)
    → pos_part (a +ℤ b) + neg_part a + neg_part b ≡ neg_part (a +ℤ b) + pos_part a + pos_part b
unfolding ◌+ℤ◌
+ℤ_parts a b = ground arith

pub -ℤ_parts :
    (a b : ℤ)
    → pos_part (a -ℤ b) + neg_part a + pos_part b ≡ neg_part (a -ℤ b) + pos_part a + neg_part b
unfolding ◌-ℤ◌
-ℤ_parts a b = ground arith

pub *ℤ_parts :
    (a b : ℤ)
    → pos_part (a *ℤ b) + (pos_part a * neg_part b + neg_part a * pos_part b)
      ≡ neg_part (a *ℤ b) + (pos_part a * pos_part b + neg_part a * neg_part b)
unfolding ◌*ℤ◌
*ℤ_parts a b = ground arith

pub eq_of_parts : (a b : ℤ) → pos_part a + neg_part b ≡ pos_part b + neg_part a → a ≡ b
eq_of_parts a b h = ground arith

-- What an equation of integers says of their parts.
pub parts_of_eq : (a b : ℤ) → a ≡ b → pos_part a + neg_part b ≡ pos_part b + neg_part a
parts_of_eq a b e = rw e

pub ruleset int_laws = (arith, +ℤ_parts, -ℤ_parts, eq_of_parts)

pub *ℤ_comm : (a b : ℤ) → a *ℤ b ≡ b *ℤ a
*ℤ_comm a b = omega (arith, eq_of_parts, *ℤ_parts a b, *ℤ_parts b a)

pub *ℤ_one : (a : ℤ) → a *ℤ pos 1 ≡ a
*ℤ_one a = omega (arith, eq_of_parts, *ℤ_parts a (pos 1))

pub *ℤ_zero : (a : ℤ) → a *ℤ pos 0 ≡ pos 0
*ℤ_zero a = omega (arith, eq_of_parts, *ℤ_parts a (pos 0))

pub zero-*ℤ : (a : ℤ) → pos 0 *ℤ a ≡ pos 0
zero-*ℤ a = omega (arith, eq_of_parts, *ℤ_parts (pos 0) a)

pub *ℤ_neg_one : (a : ℤ) → a *ℤ negsuc 0 ≡ pos 0 -ℤ a
*ℤ_neg_one a = omega (int_laws, *ℤ_parts a (negsuc 0))

-- A product with a sum or a difference on its left.
pub *ℤ_add_left : (a b c : ℤ) → (a +ℤ b) *ℤ c ≡ a *ℤ c +ℤ b *ℤ c
*ℤ_add_left a b c = omega (
  int_laws,
  *ℤ_parts (a +ℤ b) c,
  *ℤ_parts a c,
  *ℤ_parts b c,
  ap (λ (t : ℕ). t * pos_part c) (+ℤ_parts a b),
  ap (λ (t : ℕ). t * neg_part c) (+ℤ_parts a b),
)

pub *ℤ_sub_left : (a b c : ℤ) → (a -ℤ b) *ℤ c ≡ a *ℤ c -ℤ b *ℤ c
*ℤ_sub_left a b c = omega (
  int_laws,
  *ℤ_parts (a -ℤ b) c,
  *ℤ_parts a c,
  *ℤ_parts b c,
  ap (λ (t : ℕ). t * pos_part c) (-ℤ_parts a b),
  ap (λ (t : ℕ). t * neg_part c) (-ℤ_parts a b),
)

pub *ℤ_add_right : (a b c : ℤ) → a *ℤ (b +ℤ c) ≡ a *ℤ b +ℤ a *ℤ c
*ℤ_add_right a b c = omega (
  int_laws,
  *ℤ_parts a (b +ℤ c),
  *ℤ_parts a b,
  *ℤ_parts a c,
  ap (λ (t : ℕ). pos_part a * t) (+ℤ_parts b c),
  ap (λ (t : ℕ). neg_part a * t) (+ℤ_parts b c),
)

pub *ℤ_sub_right : (a b c : ℤ) → a *ℤ (b -ℤ c) ≡ a *ℤ b -ℤ a *ℤ c
*ℤ_sub_right a b c = omega (
  int_laws,
  *ℤ_parts a (b -ℤ c),
  *ℤ_parts a b,
  *ℤ_parts a c,
  ap (λ (t : ℕ). pos_part a * t) (-ℤ_parts b c),
  ap (λ (t : ℕ). neg_part a * t) (-ℤ_parts b c),
)

-- The rounding error of a quotient is at most half its last place.
half_even_near :
    (a b : ℕ)
    → 1 ≤ b
    → (2 * (half_even a b * b) ≤ 2 * a + b) × (2 * a ≤ 2 * (half_even a b * b) + b)
half_even_near a b h = grind arith

pub *ℤ_assoc : (a b c : ℤ) → a *ℤ b *ℤ c ≡ a *ℤ (b *ℤ c)
*ℤ_assoc a b c = omega (
  arith,
  eq_of_parts,
  *ℤ_parts (a *ℤ b) c,
  *ℤ_parts a (b *ℤ c),
  ap (λ (t : ℕ). t * pos_part c) (*ℤ_parts a b),
  ap (λ (t : ℕ). t * neg_part c) (*ℤ_parts a b),
  ap (λ (t : ℕ). pos_part a * t) (*ℤ_parts b c),
  ap (λ (t : ℕ). neg_part a * t) (*ℤ_parts b c),
)

-- Expands a polynomial into a sum of products that nest to the right.
pub ruleset expand =
    (*ℤ_zero, zero-*ℤ, *ℤ_add_left, *ℤ_sub_left, *ℤ_add_right, *ℤ_sub_right, *ℤ_assoc)

pub eq_ℤ→eq : (a b : ℤ) → eq_ℤ a b ≡ true → a ≡ b
eq_ℤ→eq a b h = ground arith

-- The opposite of a product is the product with the opposite.
pub one-*ℤ : (a : ℤ) → pos 1 *ℤ a ≡ a
one-*ℤ a = omega (arith, eq_of_parts, *ℤ_parts (pos 1) a)

pub neg_one-*ℤ : (a : ℤ) → negsuc 0 *ℤ a ≡ pos 0 -ℤ a
neg_one-*ℤ a = omega (int_laws, *ℤ_parts (negsuc 0) a)

-- Factors that are one or minus one.
pub ruleset units = (*ℤ_one, one-*ℤ, *ℤ_neg_one, neg_one-*ℤ)

half_even-zero : (b : ℕ) → half_even 0 b ≡ 0
half_even-zero b = grind arith

div_ℤ-pos :
    (n b : ℕ) → (pos_part (div_ℤ (pos n) b) ≡ half_even n b) × (neg_part (div_ℤ (pos n) b) ≡ 0)
unfolding div_ℤ
div_ℤ-pos n b = rw (half_even-zero b) (ground arith)

div_ℤ-negsuc :
    (n b : ℕ)
    → (pos_part (div_ℤ (negsuc n) b) ≡ 0) × (neg_part (div_ℤ (negsuc n) b) ≡ half_even (suc n) b)
unfolding div_ℤ
div_ℤ-negsuc n b = rw (half_even-zero b) (ground arith)

-- What a quotient leaves is at most half of the divisor.
module _ (a : ℤ) (b p n : ℕ) (hp : pos_part (div_ℤ a b) ≡ p) (hn : neg_part (div_ℤ a b) ≡ n) where
  abbrev rest : ℤ
  rest = a -ℤ div_ℤ a b *ℤ pos b

  rest_parts : pos_part rest + neg_part a + p * b ≡ neg_part rest + pos_part a + n * b
  rest_parts = omega (
    arith,
    -ℤ_parts a (div_ℤ a b *ℤ pos b),
    *ℤ_parts (div_ℤ a b) (pos b),
    ap (λ (t : ℕ). t * b) hp,
    ap (λ (t : ℕ). t * b) hn,
  )

-- One part of an integer is zero.
one_part : (e : ℤ) → (pos_part e ≡ 0) ⊎ (neg_part e ≡ 0)
one_part (pos n) = inr refl
one_part (negsuc n) = inl refl

pub div_ℤ_near :
    (a : ℤ) (b : ℕ) → 1 ≤ b → let e = a -ℤ div_ℤ a b *ℤ pos b in 2 * (pos_part e + neg_part e) ≤ b
div_ℤ_near (pos n) b h =
    let (hp, hn) = div_ℤ-pos n b in
    let (lo, hi) = half_even_near n b h in
    omega (
      arith,
      rest_parts (pos n) b (half_even n b) 0 hp hn,
      one_part (pos n -ℤ div_ℤ (pos n) b *ℤ pos b),
    )
div_ℤ_near (negsuc n) b h =
    let (hp, hn) = div_ℤ-negsuc n b in
    let (lo, hi) = half_even_near (suc n) b h in
    omega (
      arith,
      rest_parts (negsuc n) b 0 (half_even (suc n) b) hp hn,
      one_part (negsuc n -ℤ div_ℤ (negsuc n) b *ℤ pos b),
    )

pub pos-abs : (a : ℤ) → pos (pos_part (abs_ℤ a)) ≡ abs_ℤ a
unfolding abs_ℤ
pos-abs a = refl

pub abs_parts : (a : ℤ) → (neg_part (abs_ℤ a) ≡ 0) × (pos_part (abs_ℤ a) ≡ pos_part a + neg_part a)
unfolding abs_ℤ
abs_parts a = (refl, refl)
