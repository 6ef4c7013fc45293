-- ===== src/Position/Wavg.antt =====
-- position/accounting/wavg.py: the weighted-average-cost book.
pub mod Equity
use qf635project.Base.{ℕ, ◌+◌, Bool, true, false, if◌then◌else◌}
use qf635project.Base.Decimal.{
  ℤ, pos, negsuc, pos_part, neg_part, ◌+ℤ◌, ◌-ℤ◌, ◌*ℤ◌, div_ℤ, abs_ℤ, ltb_ℤ, leb_ℤ, eq_ℤ,
}
use qf635project.Core.{Price, Quantity, sign, FillEvent}

pub record WavgBook : Type 0 where
  pub quantity : Quantity
  pub avg_cost : Price
  pub realized_pnl : Price

abbrev pub empty : WavgBook
empty = record { quantity = pos 0; avg_cost = pos 0; realized_pnl = pos 0 }

unfoldable pub unrealized_pnl : WavgBook → Price → Price
unrealized_pnl b mark =
    if eq_ℤ b.quantity (pos 0) then pos 0 else (mark -ℤ b.avg_cost) *ℤ b.quantity

abbrev pub is_positive : ℤ → Bool
is_positive a = ltb_ℤ (pos 0) a

-- `(a > 0) == (b > 0)`
abbrev same : Bool → Bool → Bool
same true true = true
same false false = true
same true false = false
same false true = false

-- `position_sign`
abbrev pub position_sign : Quantity → ℤ
position_sign q = if is_positive q then pos 1 else negsuc 0

-- The cases of `apply_fill`, after the fee.
module _ (b : WavgBook) (fill : FillEvent) where
  abbrev signed_fill : Quantity
  signed_fill = fill.fill_quantity *ℤ sign fill.side

  abbrev new_qty : Quantity
  new_qty = b.quantity +ℤ signed_fill

  abbrev realized : Price
  realized = b.realized_pnl -ℤ fill.fee

  abbrev pub total_cost : ℤ
  total_cost = b.avg_cost *ℤ abs_ℤ b.quantity +ℤ fill.fill_price *ℤ fill.fill_quantity

  unfoldable pub open_flat : WavgBook
  open_flat = record { quantity = signed_fill; avg_cost = fill.fill_price; realized_pnl = realized }

  unfoldable pub extend : WavgBook
  extend = record {
    quantity = new_qty;
    avg_cost = div_ℤ total_cost (pos_part (abs_ℤ new_qty));
    realized_pnl = realized;
  }

  unfoldable pub reduce : WavgBook
  reduce = record {
    quantity = new_qty;
    avg_cost = if eq_ℤ new_qty (pos 0) then pos 0 else b.avg_cost;
    realized_pnl =
        realized
        +ℤ position_sign b.quantity *ℤ (fill.fill_price -ℤ b.avg_cost) *ℤ fill.fill_quantity;
  }

  unfoldable pub flip : WavgBook
  flip = record {
    quantity = sign fill.side *ℤ (fill.fill_quantity -ℤ abs_ℤ b.quantity);
    avg_cost = fill.fill_price;
    realized_pnl =
        realized +ℤ position_sign b.quantity *ℤ (fill.fill_price -ℤ b.avg_cost) *ℤ abs_ℤ b.quantity;
  }

  unfoldable pub apply_fill : WavgBook
  apply_fill =
      if eq_ℤ b.quantity (pos 0)
      then open_flat
      else if same (is_positive b.quantity) (is_positive signed_fill)
      then extend
      else if leb_ℤ (abs_ℤ signed_fill) (abs_ℤ b.quantity)
      then reduce
      else flip
