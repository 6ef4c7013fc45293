-- ===== src/Position/LotBook/Equity.antt =====
-- What a fill does to the quantity and to the equity of a FIFO or LIFO book, on every branch.
use qf635project.Base.{
  suc, ◌≡◌, refl, ◌∙◌, ap, sym, Bool-cases, List, [], ◌∷◌, ◌⊎◌, inl, inr, length, All, arith,
}
use qf635project.Base.Decimal.{
  ℤ, pos, ◌+ℤ◌, ◌-ℤ◌, ◌*ℤ◌, ◌≤ℤ◌, ltb_ℤ, int_laws, parts_of_eq, expand, zero-*ℤ, *ℤ_zero,
}
use qf635project.Core.{Price, Side, buy, sell, sign, FillEvent}
use qf635project.Position.LotBook.{
  Lot, Method, fifo, lifo, Holding, flat, holds, side_sign, LotBook, empty, sum_lots, quantity,
  unrealized_pnl, Closing, dispatch, open_lot, close_lots, after_closing, extend, reduce,
  apply_fill,
}
use qf635project.Position.LotBook.Deque.{sum_lots-append}
use qf635project.Position.LotBook.CloseLoop.{
  IsDone, close_lots-IsDone, settled, close_lots-settled, unclosed, close_lots-unclosed,
}

-- A book without a side has no lots.
abbrev pub IsValid : LotBook → Type 0
IsValid b = b.holding ≡ flat → b.lots ≡ []

-- Realized and unrealized PnL together.
abbrev pub equity : LotBook → Price → Price
equity b mark = b.realized_pnl +ℤ unrealized_pnl b mark

-- What the fill is worth at the mark, less its fee.
abbrev pub gain : FillEvent → Price → Price
gain fill mark = sign fill.side *ℤ (mark -ℤ fill.fill_price) *ℤ fill.fill_quantity -ℤ fill.fee

abbrev marked : Price → Lot → ℤ
marked mark = λ l. (mark -ℤ l.price) *ℤ l.quantity

unrealized_pnl-signed :
    (b : LotBook) (mark : Price)
    → unrealized_pnl b mark ≡ side_sign b.holding *ℤ sum_lots (marked mark) b.lots
unfolding unrealized_pnl
unrealized_pnl-signed b mark = go b.holding
  where
    go :
        (h : Holding)
        → (elim h [ flat ↦ pos 0 | holds s ↦ sign s *ℤ sum_lots (marked mark) b.lots ])
          ≡ side_sign h *ℤ sum_lots (marked mark) b.lots
    go flat = sym (zero-*ℤ _)
    go (holds s) = refl

-- The two statements that a fill has to meet.
abbrev Accounts : LotBook → FillEvent → LotBook → Type 0
Accounts b fill b' =
    ((mark : Price) → equity b' mark ≡ equity b mark +ℤ gain fill mark)
    × (quantity b' ≡ quantity b +ℤ sign fill.side *ℤ fill.fill_quantity)
    × IsValid b'

extend-Accounts :
    (b : LotBook) (fill : FillEvent)
    → ((b.holding ≡ flat) × (b.lots ≡ [])) ⊎ (b.holding ≡ holds fill.side)
    → Accounts b fill (extend b fill)
unfolding quantity
extend-Accounts b fill (inl (f, e)) = (
  (λ mark.
      rw (unrealized_pnl-signed b mark, unrealized_pnl-signed (extend b fill) mark, f, e)
        (simp expand (omega int_laws))),
  rw (f, e) (simp expand (omega int_laws)),
  (λ h. cc),
)
extend-Accounts b fill (inr e) = (
  (λ mark.
      rw
        (
          unrealized_pnl-signed b mark,
          unrealized_pnl-signed (extend b fill) mark,
          sum_lots-append (marked mark) b.lots,
          e,
        )
        (simp expand (omega int_laws))),
  rw (sum_lots-append (λ l. l.quantity) b.lots, e) (simp expand (omega int_laws)),
  (λ h. cc),
)

-- The algebra of a closing: `s` and `h` are the signs of the fill and of the holding.
closing_value :
    (s h rc sc sb fp mark rem rb fee fq : ℤ)
    → h ≡ pos 0 -ℤ s
    → rc +ℤ h *ℤ sc +ℤ h *ℤ (fp -ℤ mark) *ℤ rem ≡ rb -ℤ fee +ℤ h *ℤ sb +ℤ h *ℤ (fp -ℤ mark) *ℤ fq
    → rc +ℤ h *ℤ sc +ℤ s *ℤ ((mark -ℤ fp) *ℤ rem)
      ≡ rb +ℤ h *ℤ sb +ℤ (s *ℤ (mark -ℤ fp) *ℤ fq -ℤ fee)
closing_value s h rc sc sb fp mark rem rb fee fq opposite e =
    let e' = simp (opposite, expand) at e in
    simp (opposite, expand) (omega (int_laws, parts_of_eq _ _ e'))

closing_quantity :
    (s h qc qb rem fq : ℤ)
    → h ≡ pos 0 -ℤ s
    → qc -ℤ rem ≡ qb -ℤ fq
    → h *ℤ qc +ℤ s *ℤ rem ≡ h *ℤ qb +ℤ s *ℤ fq
closing_quantity s h qc qb rem fq opposite e =
    let e' = simp expand at (ap (λ (t : ℤ). s *ℤ t) e) in
    simp (opposite, expand) (omega (int_laws, parts_of_eq _ _ e'))

abbrev keeps : List Lot → Holding → Price → LotBook
keeps lots holding realized_pnl = record {
  lots = lots;
  holding = holding;
  realized_pnl = realized_pnl;
}

-- A closing that is done and conserves value and quantity makes a book that accounts for the fill.
module _ (b : LotBook) (held : Side) (fill : FillEvent) (c : Closing)
    (side : b.holding ≡ holds held) (opposite : sign held ≡ pos 0 -ℤ sign fill.side) where
  after_closing-Accounts :
      IsDone c
      → pos 0 ≤ℤ c.remaining
      → ((mark : Price)
          → settled (sign held) fill.fill_price mark c
            ≡ b.realized_pnl
              -ℤ fill.fee
              +ℤ sign held *ℤ sum_lots (marked mark) b.lots
              +ℤ sign held *ℤ (fill.fill_price -ℤ mark) *ℤ fill.fill_quantity)
      → unclosed c ≡ sum_lots (λ l. l.quantity) b.lots -ℤ fill.fill_quantity
      → Accounts b fill (after_closing held fill c)
  unfolding quantity
  after_closing-Accounts done p value left = go c.open_lots refl
    where
      value' :
          (mark : Price)
          → c.realized
              +ℤ sign held *ℤ sum_lots (marked mark) c.open_lots
              +ℤ sign fill.side *ℤ ((mark -ℤ fill.fill_price) *ℤ c.remaining)
            ≡ b.realized_pnl +ℤ sign held *ℤ sum_lots (marked mark) b.lots +ℤ gain fill mark
      value' mark =
          closing_value (sign fill.side) (sign held) c.realized (sum_lots (marked mark) c.open_lots)
            (sum_lots (marked mark) b.lots) fill.fill_price mark c.remaining b.realized_pnl fill.fee
            fill.fill_quantity opposite (value mark)

      quantity' :
          sign held *ℤ sum_lots (λ l. l.quantity) c.open_lots +ℤ sign fill.side *ℤ c.remaining
          ≡ sign held *ℤ sum_lots (λ l. l.quantity) b.lots +ℤ sign fill.side *ℤ fill.fill_quantity
      quantity' =
          closing_quantity (sign fill.side) (sign held) (sum_lots (λ l. l.quantity) c.open_lots)
            (sum_lots (λ l. l.quantity) b.lots) c.remaining fill.fill_quantity opposite left

      rest_is_zero :
          (c.remaining ≡ pos 0) → Accounts b fill (keeps c.open_lots (holds held) c.realized)
      rest_is_zero z = (
        (λ mark.
            let v = simp (z, *ℤ_zero) at (value' mark) in
            rw
              (
                unrealized_pnl-signed (keeps c.open_lots (holds held) c.realized) mark,
                unrealized_pnl-signed b mark,
                side,
              )
              (omega (int_laws, parts_of_eq _ _ v))),
        (let v = simp (z, *ℤ_zero) at quantity' in rw side (omega (int_laws, parts_of_eq _ _ v))),
        (λ h. cc),
      )

      go : (ls : List Lot) → c.open_lots ≡ ls → Accounts b fill (after_closing held fill c)
      go [] e = elim (Bool-cases (ltb_ℤ (pos 0) c.remaining)) [
        | inl more ↦
            let flipped = keeps (open_lot c.remaining fill ∷ []) (holds fill.side) c.realized in
            let same : after_closing held fill c ≡ flipped = rw (e, more) in
            rw same (
              (λ mark.
                  let v = simp (e, *ℤ_zero) at (value' mark) in
                  rw (unrealized_pnl-signed flipped mark, unrealized_pnl-signed b mark, side)
                    (simp expand (omega (int_laws, parts_of_eq _ _ (simp expand at v))))),
              (let v = simp (e, *ℤ_zero) at quantity' in
                  rw side (simp expand (omega (int_laws, parts_of_eq _ _ v)))),
              (λ h. cc),
            )
        | inr over ↦
            let closed = keeps [] flat c.realized in
            let same : after_closing held fill c ≡ closed = rw (e, over) in
            let z : c.remaining ≡ pos 0 = ground arith in
            rw same (
              (λ mark.
                  let v = simp (e, z, *ℤ_zero) at (value' mark) in
                  rw (unrealized_pnl-signed closed mark, unrealized_pnl-signed b mark, side)
                    (simp expand (omega (int_laws, parts_of_eq _ _ (simp expand at v))))),
              (let v = simp (e, z, *ℤ_zero) at quantity' in
                  rw side (simp expand (omega (int_laws, parts_of_eq _ _ v)))),
              (λ h. refl),
            )
      ]
      go (l ∷ ls) e = elim done [
        | inl z ↦
            let same : after_closing held fill c ≡ keeps c.open_lots (holds held) c.realized =
              rw e in
            rw same (rest_is_zero z)
        | inr none_left ↦ cc
      ]

reduce-Accounts :
    (m : Method) (b : LotBook) (held : Side) (fill : FillEvent)
    → b.holding ≡ holds held
    → sign held ≡ pos 0 -ℤ sign fill.side
    → pos 0 ≤ℤ fill.fill_quantity
    → Accounts b fill (reduce m b held fill)
unfolding reduce
reduce-Accounts m b held fill side opposite p =
    let c0 : Closing = record {
      remaining = fill.fill_quantity;
      realized = b.realized_pnl -ℤ fill.fee;
      open_lots = b.lots;
    } in
    let fuel = suc (length b.lots) in
    let (done, left) = close_lots-IsDone m (sign held) fill.fill_price fuel c0 (omega arith) p in
    after_closing-Accounts b held fill (close_lots fuel m (sign held) fill.fill_price c0) side
      opposite done left (λ mark. close_lots-settled m (sign held) fill.fill_price mark fuel c0)
      (close_lots-unclosed m (sign held) fill.fill_price fuel c0)

-- On every branch, whichever end of the deque is consumed: a fill of no negative quantity moves the
-- signed quantity by the signed fill, and the equity at every mark by what the fill is worth there
-- less its fee; a book that has no lots when flat stays so.
pub apply_fill-Accounts :
    (m : Method) (b : LotBook) (fill : FillEvent)
    → IsValid b
    → pos 0 ≤ℤ fill.fill_quantity
    → ((mark : Price) → equity (apply_fill m b fill) mark ≡ equity b mark +ℤ gain fill mark)
      × (quantity (apply_fill m b fill) ≡ quantity b +ℤ sign fill.side *ℤ fill.fill_quantity)
      × IsValid (apply_fill m b fill)
unfolding apply_fill ◌-ℤ◌
apply_fill-Accounts m b fill valid p = go b.holding fill.side refl refl
  where
    go :
        (h : Holding) (s : Side)
        → b.holding ≡ h
        → fill.side ≡ s
        → Accounts b fill (dispatch m b fill h s)
    go flat s eh es = extend-Accounts b fill (inl (eh, valid eh))
    go (holds buy) buy eh es = extend-Accounts b fill (inr (cc))
    go (holds sell) sell eh es = extend-Accounts b fill (inr (cc))
    go (holds buy) sell eh es = reduce-Accounts m b buy fill eh (rw es refl) p
    go (holds sell) buy eh es = reduce-Accounts m b sell fill eh (rw es refl) p

abbrev pub apply_fills : Method → LotBook → List FillEvent → LotBook
apply_fills m b [] = b
apply_fills m b (f ∷ fs) = apply_fills m (apply_fill m b f) fs

abbrev pub HasQuantity : FillEvent → Type 0
HasQuantity fill = pos 0 ≤ℤ fill.fill_quantity

abbrev pub total_gain : Price → List FillEvent → Price
total_gain mark [] = pos 0
total_gain mark (f ∷ fs) = gain f mark +ℤ total_gain mark fs

apply_fills-equity :
    (m : Method) (b : LotBook) (mark : Price) (fs : List FillEvent)
    → IsValid b
    → All HasQuantity fs
    → equity (apply_fills m b fs) mark ≡ equity b mark +ℤ total_gain mark fs
apply_fills-equity m b mark [] valid h = omega int_laws
apply_fills-equity m b mark (f ∷ fs) valid h =
    let (worth, _, valid') = apply_fill-Accounts m b f valid h.0 in
    apply_fills-equity m (apply_fill m b f) mark fs valid' h.1
    ∙ omega (int_laws, parts_of_eq _ _ (worth mark))

-- From an empty book, after any fills of no negative quantity, the equity at every mark is the sum of
-- what the fills are worth there less their fees; so the FIFO and the LIFO book agree on it.
pub methods_agree :
    (mark : Price) (fs : List FillEvent)
    → All HasQuantity fs
    → (equity (apply_fills fifo empty fs) mark ≡ total_gain mark fs)
      × (equity (apply_fills lifo empty fs) mark ≡ total_gain mark fs)
unfolding unrealized_pnl
methods_agree mark fs h =
    let start : (equity empty mark +ℤ total_gain mark fs) ≡ total_gain mark fs = omega int_laws in
    (
      apply_fills-equity fifo empty mark fs (λ _. refl) h ∙ start,
      apply_fills-equity lifo empty mark fs (λ _. refl) h ∙ start,
    )
