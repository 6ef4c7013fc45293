-- ===== src/Position/LotBook.antt =====
-- position/lots.py and position/accounting/lot_book.py: the FIFO and LIFO books. The lots stand in
-- the order of the deque, oldest first; the method says which end a reducing fill consumes.
pub mod Deque
pub mod CloseLoop
pub mod Equity
use qf635project.Base.{
  ℕ, suc, zero, Bool, true, false, Option, none, some, List, [], ◌∷◌, ◌++◌, ◌&&◌, if◌then◌else◌,
  length,
}
use qf635project.Base.Decimal.{
  ℤ, pos, negsuc, pos_part, ◌+ℤ◌, ◌-ℤ◌, ◌*ℤ◌, div_ℤ, ltb_ℤ, eq_ℤ, min_ℤ,
}
use qf635project.Core.{Price, Quantity, Side, buy, sell, sign, FillEvent}

pub record Lot : Type 0 where
  pub quantity : Quantity
  pub price : Price

-- `FIFOBook` and `LIFOBook`.
pub data Method : Type 0 where
  fifo lifo : Method

-- `_side_sign`, which is only ever 0 or the sign of a side.
pub data Holding : Type 0 where
  flat : Holding
  holds : Side → Holding

abbrev pub side_sign : Holding → ℤ
side_sign flat = pos 0
side_sign (holds s) = sign s

pub record LotBook : Type 0 where
  pub lots : List Lot
  pub holding : Holding
  pub realized_pnl : Price

abbrev pub empty : LotBook
empty = record { lots = []; holding = flat; realized_pnl = pos 0 }

-- The last lot and those before it.
take_last : Lot → List Lot → Lot × List Lot
take_last l [] = (l, [])
take_last l (k ∷ ks) = let (last, before) = take_last k ks in (last, l ∷ before)

-- `_peek_lot`, with what `_pop_lot` leaves.
unfoldable pub peek_lot : Method → List Lot → Option (Lot × List Lot)
unfolding take_last
peek_lot m [] = none
peek_lot fifo (l ∷ ls) = some (l, ls)
peek_lot lifo (l ∷ ls) = some (take_last l ls)

-- The peeked lot, changed in place.
unfoldable pub put_lot : Method → Lot → List Lot → List Lot
put_lot fifo l ls = l ∷ ls
put_lot lifo l ls = ls ++ l ∷ []

abbrev pub sum_lots : (Lot → ℤ) → List Lot → ℤ
sum_lots f [] = pos 0
sum_lots f (l ∷ ls) = f l +ℤ sum_lots f ls

unfoldable pub quantity : LotBook → Quantity
quantity b = side_sign b.holding *ℤ sum_lots (λ l. l.quantity) b.lots

unfoldable pub average_entry_price : LotBook → Price
average_entry_price b = elim b.lots [
  | [] ↦ pos 0
  | _ ∷ _ ↦
      div_ℤ (sum_lots (λ l. l.quantity *ℤ l.price) b.lots)
        (pos_part (sum_lots (λ l. l.quantity) b.lots))
]

-- `unrealized_pnl`: each lot at the mark, signed by the side.
unfoldable pub unrealized_pnl : LotBook → Price → Price
unrealized_pnl b mark = elim b.holding [
  | flat ↦ pos 0
  | holds s ↦ sign s *ℤ sum_lots (λ l. (mark -ℤ l.price) *ℤ l.quantity) b.lots
]

-- What the closing loop changes.
pub record Closing : Type 0 where
  pub remaining : Quantity
  pub realized : Price
  pub open_lots : List Lot

-- One round on the peeked lot.
abbrev close_lot : Method → ℤ → Price → Closing → Lot → List Lot → Closing
close_lot m side fill_price c lot others =
    let close_qty = min_ℤ lot.quantity c.remaining in
    let left = lot.quantity -ℤ close_qty in
    record {
      remaining = c.remaining -ℤ close_qty;
      realized = c.realized +ℤ side *ℤ (fill_price -ℤ lot.price) *ℤ close_qty;
      open_lots =
          if eq_ℤ left (pos 0) then others else put_lot m (record lot { quantity = left }) others;
    }

-- `while remaining > 0 and self._lots`, on fuel.
unfoldable pub close_lots : ℕ → Method → ℤ → Price → Closing → Closing
unfolding peek_lot put_lot
close_lots zero m side fill_price c = c
close_lots (suc fuel) m side fill_price c = elim (ltb_ℤ (pos 0) c.remaining) [
  | false ↦ c
  | true ↦ elim (peek_lot m c.open_lots) [
    | none ↦ c
    | some (lot, others) ↦
        close_lots fuel m side fill_price (close_lot m side fill_price c lot others)
  ]
]

abbrev open_lot : Quantity → FillEvent → Lot
open_lot remaining fill = record { quantity = remaining; price = fill.fill_price }

-- After the loop: flat when no lot is left, flipped when the fill has more to give.
abbrev after_closing : Side → FillEvent → Closing → LotBook
after_closing held fill c = elim c.open_lots [
  | _ ∷ _ ↦ record { lots = c.open_lots; holding = holds held; realized_pnl = c.realized }
  | [] ↦
      if ltb_ℤ (pos 0) c.remaining
      then record {
        lots = open_lot c.remaining fill ∷ [];
        holding = holds fill.side;
        realized_pnl = c.realized;
      }
      else record { lots = []; holding = flat; realized_pnl = c.realized }
]

abbrev extend : LotBook → FillEvent → LotBook
extend b fill = record {
  lots = b.lots ++ open_lot fill.fill_quantity fill ∷ [];
  holding = holds fill.side;
  realized_pnl = b.realized_pnl -ℤ fill.fee;
}

-- Closes with one round more than there are lots; that is enough.
unfoldable pub reduce : Method → LotBook → Side → FillEvent → LotBook
unfolding close_lots
reduce m b held fill = after_closing held fill (
    close_lots (suc (length b.lots)) m (sign held) fill.fill_price (record {
      remaining = fill.fill_quantity;
      realized = b.realized_pnl -ℤ fill.fee;
      open_lots = b.lots;
    }))

abbrev dispatch : Method → LotBook → FillEvent → Holding → Side → LotBook
dispatch m b fill flat s = extend b fill
dispatch m b fill (holds buy) buy = extend b fill
dispatch m b fill (holds sell) sell = extend b fill
dispatch m b fill (holds buy) sell = reduce m b buy fill
dispatch m b fill (holds sell) buy = reduce m b sell fill

unfoldable pub apply_fill : Method → LotBook → FillEvent → LotBook
unfolding reduce
apply_fill m b fill = dispatch m b fill b.holding fill.side
