-- ===== src/Position/Wavg/Equity.antt =====
-- What a fill does to the quantity and to the equity of a weighted-average book, on every branch.
use mathlib.Core.Path.{subst}
use qf635project.Base.{
  ◌+◌, ◌*◌, ◌≤◌, ◌≡◌, refl, ◌∙◌, ap, sym, true, false, Bool-cases, inl, inr, if◌then◌else◌, arith,
}
use qf635project.Base.Decimal.{
  ℤ, pos, pos_part, neg_part, ◌+ℤ◌, ◌-ℤ◌, ◌*ℤ◌, ◌<ℤ◌, abs_ℤ, div_ℤ, eq_ℤ, int_laws, parts_of_eq,
  expand, units, div_ℤ_near, pos-abs, abs_parts, leb_ℤ, eq_ℤ→eq, *ℤ_zero, *ℤ_comm, *ℤ_one,
  *ℤ_neg_one, one-*ℤ, neg_one-*ℤ,
}
use qf635project.Core.{Price, Side, buy, sell, sign, FillEvent}
use qf635project.Position.Wavg.{
  WavgBook, unrealized_pnl, open_flat, extend, reduce, flip, apply_fill, total_cost, position_sign,
  same, is_positive,
}

abbrev pub equity : WavgBook → Price → Price
equity b mark = b.realized_pnl +ℤ unrealized_pnl b mark

abbrev pub gain : FillEvent → Price → Price
gain fill mark = sign fill.side *ℤ (mark -ℤ fill.fill_price) *ℤ fill.fill_quantity -ℤ fill.fee

-- The test for a flat book saves a product with zero.
unrealized_pnl-product :
    (b : WavgBook) (mark : Price) → unrealized_pnl b mark ≡ (mark -ℤ b.avg_cost) *ℤ b.quantity
unfolding unrealized_pnl
unrealized_pnl-product b mark = elim (Bool-cases (eq_ℤ b.quantity (pos 0))) [
  | inl z ↦
      rw z
        (sym (ap (λ (t : ℤ). (mark -ℤ b.avg_cost) *ℤ t) (eq_ℤ→eq b.quantity (pos 0) z) ∙ *ℤ_zero _))
  | inr more ↦ rw more
]

abbrev other : Side → Side
other buy = sell
other sell = buy

sign-other : (s : Side) → sign (other s) ≡ pos 0 -ℤ sign s
unfolding ◌-ℤ◌
sign-other buy = refl
sign-other sell = refl

-- The algebra of the four cases, side by side.
open_value :
    (rz fee mark fp fq s : ℤ)
    → rz -ℤ fee +ℤ (mark -ℤ fp) *ℤ (fq *ℤ s) ≡ rz +ℤ (s *ℤ (mark -ℤ fp) *ℤ fq -ℤ fee)
open_value rz fee mark fp fq s =
    rw (*ℤ_comm fq s, *ℤ_comm s (mark -ℤ fp)) (simp expand (omega int_laws))

reduce_value :
    (rz fee mark fp fq q avg : ℤ) (held s : Side)
    → sign held ≡ pos 0 -ℤ sign s
    → rz -ℤ fee +ℤ sign held *ℤ (fp -ℤ avg) *ℤ fq +ℤ (mark -ℤ avg) *ℤ (q +ℤ fq *ℤ sign s)
      ≡ rz +ℤ (mark -ℤ avg) *ℤ q +ℤ (sign s *ℤ (mark -ℤ fp) *ℤ fq -ℤ fee)
reduce_value rz fee mark fp fq q avg held buy e = rw e (simp (units, expand) (omega int_laws))
reduce_value rz fee mark fp fq q avg held sell e = rw e (simp (units, expand) (omega int_laws))

flip_value :
    (rz fee mark fp fq q avg : ℤ) (held s : Side)
    → sign held ≡ pos 0 -ℤ sign s
    → rz -ℤ fee +ℤ sign held *ℤ (fp -ℤ avg) *ℤ q +ℤ (mark -ℤ fp) *ℤ (sign s *ℤ (fq -ℤ q))
      ≡ rz +ℤ (mark -ℤ avg) *ℤ (sign held *ℤ q) +ℤ (sign s *ℤ (mark -ℤ fp) *ℤ fq -ℤ fee)
flip_value rz fee mark fp fq q avg held buy e = rw e (simp (units, expand) (omega int_laws))
flip_value rz fee mark fp fq q avg held sell e = rw e (simp (units, expand) (omega int_laws))

flip_quantity :
    (fq k q : ℤ) (s : Side) → q ≡ sign (other s) *ℤ k → sign s *ℤ (fq -ℤ k) ≡ q +ℤ sign s *ℤ fq
flip_quantity fq k q buy e = rw e (simp units (omega int_laws))
flip_quantity fq k q sell e = rw e (simp units (omega int_laws))

-- `left` is what the rounded average leaves of the cost.
extend_value :
    (rz fee mark fp fq q avg avg' : ℤ) (s : Side)
    → rz -ℤ fee +ℤ (mark -ℤ avg') *ℤ (sign s *ℤ q +ℤ fq *ℤ sign s)
      ≡ rz
        +ℤ (mark -ℤ avg) *ℤ (sign s *ℤ q)
        +ℤ (sign s *ℤ (mark -ℤ fp) *ℤ fq -ℤ fee)
        +ℤ sign s *ℤ (avg *ℤ q +ℤ fp *ℤ fq -ℤ avg' *ℤ (q +ℤ fq))
extend_value rz fee mark fp fq q avg avg' buy = simp (units, expand) (omega int_laws)
extend_value rz fee mark fp fq q avg avg' sell = simp (units, expand) (omega int_laws)

-- What the two tests say of the holding.
same_holding :
    (q fq : ℤ) (s : Side)
    → pos 0 <ℤ fq
    → eq_ℤ q (pos 0) ≡ false
    → same (is_positive q) (is_positive (fq *ℤ sign s)) ≡ true
    → (q ≡ sign s *ℤ abs_ℤ q) × (abs_ℤ (q +ℤ fq *ℤ sign s) ≡ abs_ℤ q +ℤ fq)
unfolding abs_ℤ ◌+ℤ◌ ◌-ℤ◌
same_holding q fq buy p z h =
    let h' = simp *ℤ_one at h in
    (rw (one-*ℤ (abs_ℤ q)) (ground arith), rw (*ℤ_one fq) (ground arith))
same_holding q fq sell p z h =
    let h' = simp *ℤ_neg_one at h in
    (rw (neg_one-*ℤ (abs_ℤ q)) (ground arith), rw (*ℤ_neg_one fq) (ground arith))

other_holding :
    (q fq : ℤ) (s : Side)
    → pos 0 <ℤ fq
    → eq_ℤ q (pos 0) ≡ false
    → same (is_positive q) (is_positive (fq *ℤ sign s)) ≡ false
    → (q ≡ sign (other s) *ℤ abs_ℤ q) × (position_sign q ≡ sign (other s))
unfolding abs_ℤ ◌-ℤ◌
other_holding q fq buy p z h =
    let h' = simp *ℤ_one at h in (rw (neg_one-*ℤ (abs_ℤ q)) (ground arith), ground arith)
other_holding q fq sell p z h =
    let h' = simp *ℤ_neg_one at h in (rw (one-*ℤ (abs_ℤ q)) (ground arith), ground arith)

-- The average is reset when the book goes flat, where it does not count.
reset_value :
    (mark avg q : ℤ) → (mark -ℤ (if eq_ℤ q (pos 0) then pos 0 else avg)) *ℤ q ≡ (mark -ℤ avg) *ℤ q
reset_value mark avg q = elim (Bool-cases (eq_ℤ q (pos 0))) [
  | inl z ↦
      let e = eq_ℤ→eq q (pos 0) z in
      rw z (
        ap (λ (t : ℤ). (mark -ℤ pos 0) *ℤ t) e
        ∙ *ℤ_zero _
        ∙ sym (ap (λ (t : ℤ). (mark -ℤ avg) *ℤ t) e ∙ *ℤ_zero _))
  | inr more ↦ rw more
]

size-sign :
    (s : Side) (e : ℤ) → pos_part (sign s *ℤ e) + neg_part (sign s *ℤ e) ≡ pos_part e + neg_part e
unfolding ◌-ℤ◌
size-sign buy e = rw (one-*ℤ e)
size-sign sell e = rw (neg_one-*ℤ e) (ground arith)

-- The quantity moves by the signed fill, and the equity at every mark by what the fill is worth there
-- less its fee, up to a rounding error that is the same at every mark and at most half the new size.
abbrev pub NearlyAccounts : WavgBook → FillEvent → WavgBook → Type 0
NearlyAccounts b fill b' =
    (err : ℤ) × ((mark : Price) → equity b' mark ≡ equity b mark +ℤ gain fill mark +ℤ err)
    × (2 * (pos_part err + neg_part err) ≤ pos_part (abs_ℤ b'.quantity))
    × (b'.quantity ≡ b.quantity +ℤ sign fill.side *ℤ fill.fill_quantity)

module _ (b : WavgBook) (fill : FillEvent) (p : pos 0 <ℤ fill.fill_quantity) where
  -- A branch with no rounding.
  exact :
      (b' : WavgBook)
      → ((mark : Price)
          → b'.realized_pnl +ℤ (mark -ℤ b'.avg_cost) *ℤ b'.quantity
            ≡ b.realized_pnl +ℤ (mark -ℤ b.avg_cost) *ℤ b.quantity +ℤ gain fill mark)
      → b'.quantity ≡ b.quantity +ℤ sign fill.side *ℤ fill.fill_quantity
      → NearlyAccounts b fill b'
  exact b' worth moved = (
    pos 0,
    (λ mark.
        rw (unrealized_pnl-product b' mark, unrealized_pnl-product b mark)
          (omega (int_laws, parts_of_eq _ _ (worth mark)))),
    omega arith,
    moved,
  )

  open_flat-NearlyAccounts : b.quantity ≡ pos 0 → NearlyAccounts b fill (open_flat b fill)
  unfolding open_flat
  open_flat-NearlyAccounts z =
      exact (open_flat b fill)
        (λ mark.
          rw (z, *ℤ_zero (mark -ℤ b.avg_cost))
            (open_value b.realized_pnl fill.fee mark fill.fill_price fill.fill_quantity
                (sign fill.side)
              ∙ omega int_laws))
        (rw (z, *ℤ_comm fill.fill_quantity (sign fill.side)) (omega int_laws))

  reduce-NearlyAccounts :
      position_sign b.quantity ≡ sign (other fill.side) → NearlyAccounts b fill (reduce b fill)
  unfolding reduce
  reduce-NearlyAccounts held =
      exact (reduce b fill)
        (λ mark.
          rw
            (reset_value mark b.avg_cost (b.quantity +ℤ fill.fill_quantity *ℤ sign fill.side), held)
            (reduce_value b.realized_pnl fill.fee mark fill.fill_price fill.fill_quantity b.quantity
              b.avg_cost (other fill.side) fill.side (sign-other fill.side)))
        (rw (*ℤ_comm fill.fill_quantity (sign fill.side)) refl)

  flip-NearlyAccounts :
      b.quantity ≡ sign (other fill.side) *ℤ abs_ℤ b.quantity
      → position_sign b.quantity ≡ sign (other fill.side)
      → NearlyAccounts b fill (flip b fill)
  unfolding flip
  flip-NearlyAccounts size held =
      exact (flip b fill)
        (λ mark. rw held (
          flip_value b.realized_pnl fill.fee mark fill.fill_price fill.fill_quantity
            (abs_ℤ b.quantity) b.avg_cost (other fill.side) fill.side (sign-other fill.side)
          ∙ ap (λ (t : ℤ). b.realized_pnl +ℤ (mark -ℤ b.avg_cost) *ℤ t +ℤ gain fill mark)
              (sym size)))
        (flip_quantity fill.fill_quantity (abs_ℤ b.quantity) b.quantity fill.side size)

  extend-NearlyAccounts :
      b.quantity ≡ sign fill.side *ℤ abs_ℤ b.quantity
      → abs_ℤ (b.quantity +ℤ fill.fill_quantity *ℤ sign fill.side)
        ≡ abs_ℤ b.quantity +ℤ fill.fill_quantity
      → NearlyAccounts b fill (extend b fill)
  unfolding extend
  extend-NearlyAccounts size grown =
      let new = b.quantity +ℤ fill.fill_quantity *ℤ sign fill.side in
      let n = pos_part (abs_ℤ new) in
      let avg = div_ℤ (total_cost b fill) n in
      let left = total_cost b fill -ℤ avg *ℤ (abs_ℤ b.quantity +ℤ fill.fill_quantity) in
      let some_held : 1 ≤ n =
        omega (int_laws, parts_of_eq _ _ grown, abs_parts new, abs_parts b.quantity) in
      let near =
        subst
          (λ (t : ℤ). let e = total_cost b fill -ℤ avg *ℤ t in 2 * (pos_part e + neg_part e) ≤ n)
          (pos-abs new ∙ grown) (div_ℤ_near (total_cost b fill) n some_held) in
      (
        sign fill.side *ℤ left,
        (λ mark.
            rw (unrealized_pnl-product (extend b fill) mark, unrealized_pnl-product b mark)
              (rw (← size) at (
                extend_value b.realized_pnl fill.fee mark fill.fill_price fill.fill_quantity
                  (abs_ℤ b.quantity) b.avg_cost avg fill.side))),
        omega (arith, size-sign fill.side left, near),
        rw (*ℤ_comm fill.fill_quantity (sign fill.side)) refl,
      )

-- For a fill of a positive quantity, on every branch: the signed quantity moves by the signed fill, and
-- the equity at every mark by what the fill is worth there less its fee, up to an error that does not
-- depend on the mark and is at most half of the new size.
pub apply_fill-NearlyAccounts :
    (b : WavgBook) (fill : FillEvent)
    → pos 0 <ℤ fill.fill_quantity
    → NearlyAccounts b fill (apply_fill b fill)
unfolding apply_fill
apply_fill-NearlyAccounts b fill p =
    let signed = fill.fill_quantity *ℤ sign fill.side in
    elim (Bool-cases (eq_ℤ b.quantity (pos 0))) [
      | inl z ↦ rw z (open_flat-NearlyAccounts b fill p (eq_ℤ→eq b.quantity (pos 0) z))
      | inr z ↦ elim (Bool-cases (same (is_positive b.quantity) (is_positive signed))) [
        | inl e ↦
            let (size, grown) = same_holding b.quantity fill.fill_quantity fill.side p z e in
            rw (z, e) (extend-NearlyAccounts b fill p size grown)
        | inr e ↦
            let (size, held) = other_holding b.quantity fill.fill_quantity fill.side p z e in
            elim (Bool-cases (leb_ℤ (abs_ℤ signed) (abs_ℤ b.quantity))) [
              | inl fits ↦ rw (z, e, fits) (reduce-NearlyAccounts b fill p held)
              | inr over ↦ rw (z, e, over) (flip-NearlyAccounts b fill p size held)
            ]
      ]
    ]
