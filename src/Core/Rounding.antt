-- ===== src/Core/Rounding.antt =====
-- core/instruments.py: the rounding of prices and quantities to an instrument's grid.
use qf635project.Base.{
  ℕ, suc, ◌+◌, ◌-◌, ◌*◌, ◌/◌, ◌%◌, ◌≤◌, ◌<◌, ◌≡◌, Bool, true, ◌&&◌, ◌==◌, arith,
}
use qf635project.Base.Decimal.{ℤ, pos, negsuc, pos_part, neg_part, sub_ℕ, ltb_ℤ, eq_of_parts}
use qf635project.Core.Types.{Price, Quantity}
use qf635project.Core.Events.{Instrument}

-- `(x // step) * step`, for a positive step: `//` of decimals rounds towards zero.
unfoldable pub snap : ℤ → ℤ → ℤ
snap step x =
    sub_ℕ (pos_part x / pos_part step * pos_part step) (neg_part x / pos_part step * pos_part step)

-- `x % step == 0`
abbrev pub on_grid : ℤ → ℤ → Bool
on_grid step x = (pos_part x + neg_part x) % pos_part step == 0

abbrev pub round_price : Instrument → Price → Price
round_price i price = snap i.tick_size price

abbrev pub round_quantity : Instrument → Quantity → Quantity
round_quantity i qty = snap i.lot_size qty

abbrev pub is_valid_price : Instrument → Price → Bool
is_valid_price i price = ltb_ℤ (pos 0) price && on_grid i.tick_size price

abbrev pub is_valid_quantity : Instrument → Quantity → Bool
is_valid_quantity i qty = ltb_ℤ (pos 0) qty && on_grid i.lot_size qty

grid_multiple : (q n : ℕ) → 0 < n → (q / n * n) % n ≡ 0
grid_multiple q n h = grind arith

grid_floor : (q n : ℕ) → 0 < n → (q / n * n ≤ q) × (q < q / n * n + n)
grid_floor q n h = grind arith

grid_exact : (q n : ℕ) → 0 < n → q % n ≡ 0 → q / n * n ≡ q
grid_exact q n h e = grind arith

grid_zero : (n : ℕ) → 0 < n → 0 / n * n ≡ 0
grid_zero n h = grind arith

sub_ℕ_parts : (a b : ℕ) → (pos_part (sub_ℕ a b) ≡ a - b) × (neg_part (sub_ℕ a b) ≡ b - a)
sub_ℕ_parts a b = ground arith

-- The parts of a rounded value.
snap_parts :
    (n : ℕ) (x : ℤ)
    → 0 < n
    → (pos_part (snap (pos n) x) ≡ pos_part x / n * n)
      × (neg_part (snap (pos n) x) ≡ neg_part x / n * n)
unfolding snap
snap_parts n (pos q) h = omega (arith, sub_ℕ_parts (q / n * n) (0 / n * n), grid_zero n h)
snap_parts n (negsuc q) h = omega (arith, sub_ℕ_parts (0 / n * n) (suc q / n * n), grid_zero n h)

test_zero : (r : ℕ) → r ≡ 0 → (r == 0) ≡ true
test_zero r e = ground arith

zero_test : (r : ℕ) → (r == 0) ≡ true → r ≡ 0
zero_test r e = ground arith

on_grid-snap :
    (n : ℕ) (x : ℤ) → 0 < n → (pos_part (snap (pos n) x) + neg_part (snap (pos n) x)) % n ≡ 0
on_grid-snap n (pos q) h =
    let e : pos_part (snap (pos n) (pos q)) + neg_part (snap (pos n) (pos q)) ≡ q / n * n =
      omega (arith, snap_parts n (pos q) h, grid_zero n h) in
    rw e (grid_multiple q n h)
on_grid-snap n (negsuc q) h =
    let e : pos_part (snap (pos n) (negsuc q)) + neg_part (snap (pos n) (negsuc q))
        ≡ suc q / n * n =
      omega (arith, snap_parts n (negsuc q) h, grid_zero n h) in
    rw e (grid_multiple (suc q) n h)

snap_exact : (n : ℕ) (x : ℤ) → 0 < n → on_grid (pos n) x ≡ true → snap (pos n) x ≡ x
snap_exact n (pos q) h e =
    eq_of_parts _ _
      (omega (arith, snap_parts n (pos q) h, grid_zero n h, grid_exact q n h (exact q e)))
  where
    exact : (q : ℕ) → ((q + 0) % n == 0) ≡ true → q % n ≡ 0
    exact q e = let p : q + 0 ≡ q = omega arith in zero_test _ (rw p at e)
snap_exact n (negsuc q) h e =
    eq_of_parts _ _
      (omega (arith, snap_parts n (negsuc q) h, grid_zero n h, grid_exact (suc q) n h (exact q e)))
  where
    exact : (q : ℕ) → ((0 + suc q) % n == 0) ≡ true → suc q % n ≡ 0
    exact q e = let p : 0 + suc q ≡ suc q = omega arith in zero_test _ (rw p at e)

-- Rounding to a positive step gives a value on the grid, towards zero and by less than a step, and
-- leaves a value that is on the grid.
pub snap_lem :
    (n : ℕ) (x : ℤ)
    → 0 < n
    → (on_grid (pos n) (snap (pos n) x) ≡ true)
      × (pos_part (snap (pos n) x) ≤ pos_part x)
      × (pos_part x < pos_part (snap (pos n) x) + n)
      × (neg_part (snap (pos n) x) ≤ neg_part x)
      × (neg_part x < neg_part (snap (pos n) x) + n)
      × (on_grid (pos n) x ≡ true → snap (pos n) x ≡ x)
snap_lem n x h =
    let (p, q) = snap_parts n x h in
    let (a, b) = grid_floor (pos_part x) n h in
    let (c, d) = grid_floor (neg_part x) n h in
    (
      test_zero _ (on_grid-snap n x h),
      omega arith,
      omega arith,
      omega arith,
      omega arith,
      snap_exact n x h,
    )
