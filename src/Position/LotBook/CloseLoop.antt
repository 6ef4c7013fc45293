-- ===== src/Position/LotBook/CloseLoop.antt =====
-- The closing loop: it ends by its own test, and closing moves value from the open lots to the
-- realized PnL at the fill price.
use qf635project.Base.{
  ℕ, zero, suc, ◌≤◌, ◌≡◌, refl, some, List, [], false, length, ◌∙◌, ap, ◌⊎◌, inl, inr, Option-cases,
  Bool-cases, arith,
}
use qf635project.Base.Decimal.{
  ℤ, pos, ◌+ℤ◌, ◌-ℤ◌, ◌*ℤ◌, ◌≤ℤ◌, ltb_ℤ, eq_ℤ, min_ℤ, int_laws, expand, *ℤ_zero, eq_ℤ→eq,
}
use qf635project.Core.{Price, Quantity}
use qf635project.Position.LotBook.{Lot, Method, Closing, close_lot, close_lots, peek_lot, sum_lots}
use qf635project.Position.LotBook.Deque.{peek_lot-sum, put_lot-sum, peek_lot-none}

-- The loop's own test fails: nothing remains, or no lot is open.
abbrev pub IsDone : Closing → Type 0
IsDone c = (c.remaining ≡ pos 0) ⊎ (c.open_lots ≡ [])

-- Realized PnL, the open lots at the mark, and the part of the fill not closed yet.
abbrev pub settled : ℤ → Price → Price → Closing → ℤ
settled side fill_price mark c =
    c.realized
    +ℤ side *ℤ sum_lots (λ l. (mark -ℤ l.price) *ℤ l.quantity) c.open_lots
    +ℤ side *ℤ (fill_price -ℤ mark) *ℤ c.remaining

abbrev pub unclosed : Closing → Quantity
unclosed c = sum_lots (λ l. l.quantity) c.open_lots -ℤ c.remaining

module _ (m : Method) (side : ℤ) (fill_price : Price) where
  -- A round never takes more than remains, and takes a lot away unless it closes the rest.
  close_lot-progress :
      (c : Closing) (lot : Lot) (others : List Lot)
      → pos 0 ≤ℤ c.remaining
      → let c' = close_lot m side fill_price c lot others in
        (pos 0 ≤ℤ c'.remaining) × ((c'.open_lots ≡ others) ⊎ (c'.remaining ≡ pos 0))
  close_lot-progress c lot others h = grind int_laws

  close_lots-zero : (c : Closing) → close_lots zero m side fill_price c ≡ c
  unfolding close_lots
  close_lots-zero c = refl

  -- One unfolding of the loop: it stops, or it goes on from the peeked lot.
  data Round (fuel : ℕ) (c : Closing) : Type 0 where
    stops :
        (ltb_ℤ (pos 0) c.remaining ≡ false) ⊎ (c.open_lots ≡ [])
        → close_lots (suc fuel) m side fill_price c ≡ c
        → Round fuel c
    goes_on :
        (lot : Lot) (others : List Lot)
        → peek_lot m c.open_lots ≡ some (lot, others)
        → close_lots (suc fuel) m side fill_price c
          ≡ close_lots fuel m side fill_price (close_lot m side fill_price c lot others)
        → Round fuel c

  round : (fuel : ℕ) (c : Closing) → Round fuel c
  unfolding close_lots
  round fuel c = elim (Bool-cases (ltb_ℤ (pos 0) c.remaining)) [
    | inl more ↦ elim (Option-cases (peek_lot m c.open_lots)) [
      | inl nothing ↦
          stops (inr (peek_lot-none m c.open_lots nothing)) (rw (more, nothing, close_lots))
      | inr ((lot, others), e) ↦ goes_on lot others e (rw (more, e, close_lots))
    ]
    | inr over ↦ stops (inl over) (rw (over, close_lots))
  ]

  stopped :
      (c : Closing)
      → (ltb_ℤ (pos 0) c.remaining ≡ false) ⊎ (c.open_lots ≡ [])
      → pos 0 ≤ℤ c.remaining
      → IsDone c
  stopped c (inl over) p = inl (ground arith)
  stopped c (inr nothing) p = inr nothing

  close_lots-stop :
      (fuel : ℕ) (c : Closing) → c.remaining ≡ pos 0 → close_lots fuel m side fill_price c ≡ c
  unfolding close_lots
  close_lots-stop zero c e = refl
  close_lots-stop (suc fuel) c e =
      let over : ltb_ℤ (pos 0) c.remaining ≡ false = ground arith in rw (over, close_lots)

  -- The loop ends by its own test when it has a round for each lot and one more.
  pub close_lots-IsDone :
      (fuel : ℕ) (c : Closing)
      → suc (length c.open_lots) ≤ fuel
      → pos 0 ≤ℤ c.remaining
      → IsDone (close_lots fuel m side fill_price c)
        × (pos 0 ≤ℤ (close_lots fuel m side fill_price c).remaining)
  close_lots-IsDone zero c h p = absurd (omega arith)
  close_lots-IsDone (suc fuel) c h p = elim (round fuel c) [
    | stops why same ↦ rw same (stopped c why p, p)
    | goes_on lot others e same ↦
        let c' = close_lot m side fill_price c lot others in
        let (p', moved) = close_lot-progress c lot others p in
        let shorter = (peek_lot-sum (λ l. l.quantity) m c.open_lots lot others e).1 in
        rw same (elim moved [
          | inl left ↦ close_lots-IsDone fuel c' (rw left (omega arith)) p'
          | inr closed ↦ rw (close_lots-stop fuel c' closed) (inl closed, p')
        ])
  ]

  -- A kept lot counts with what is left of it.
  kept-sum :
      (f : Lot → ℤ) (c : Closing) (lot : Lot) (others : List Lot)
      → f (record lot { quantity = pos 0 }) ≡ pos 0
      → let c' = close_lot m side fill_price c lot others in
        sum_lots f c'.open_lots
        ≡ f (record lot { quantity = lot.quantity -ℤ min_ℤ lot.quantity c.remaining })
          +ℤ sum_lots f others
  kept-sum f c lot others z =
      let left = lot.quantity -ℤ min_ℤ lot.quantity c.remaining in
      elim (Bool-cases (eq_ℤ left (pos 0))) [
        | inl gone ↦ rw (gone, eq_ℤ→eq left (pos 0) gone, z) (omega int_laws)
        | inr kept ↦ rw kept (put_lot-sum f m (record lot { quantity = left }) others).0
      ]

  close_lot-settled :
      (mark : Price) (c : Closing) (lot : Lot) (others : List Lot)
      → peek_lot m c.open_lots ≡ some (lot, others)
      → settled side fill_price mark (close_lot m side fill_price c lot others)
        ≡ settled side fill_price mark c
  close_lot-settled mark c lot others e =
      rw
        (
          kept-sum (λ l. (mark -ℤ l.price) *ℤ l.quantity) c lot others (*ℤ_zero _),
          (peek_lot-sum (λ l. (mark -ℤ l.price) *ℤ l.quantity) m c.open_lots lot others e).0,
        )
        (simp expand (omega int_laws))

  -- The loop moves value, and neither makes nor loses any.
  pub close_lots-settled :
      (mark : Price) (fuel : ℕ) (c : Closing)
      → settled side fill_price mark (close_lots fuel m side fill_price c)
        ≡ settled side fill_price mark c
  close_lots-settled mark zero c = ap (settled side fill_price mark) (close_lots-zero c)
  close_lots-settled mark (suc fuel) c = elim (round fuel c) [
    | stops why same ↦ rw same
    | goes_on lot others e same ↦ rw same (
        close_lots-settled mark fuel (close_lot m side fill_price c lot others)
        ∙ close_lot-settled mark c lot others e)
  ]

  -- The quantity closed is the quantity that the fill has used up.
  pub close_lots-unclosed :
      (fuel : ℕ) (c : Closing) → unclosed (close_lots fuel m side fill_price c) ≡ unclosed c
  close_lots-unclosed zero c = ap unclosed (close_lots-zero c)
  close_lots-unclosed (suc fuel) c = elim (round fuel c) [
    | stops why same ↦ rw same
    | goes_on lot others e same ↦ rw same (
        close_lots-unclosed fuel (close_lot m side fill_price c lot others)
        ∙ rw
            (
              kept-sum (λ l. l.quantity) c lot others refl,
              (peek_lot-sum (λ l. l.quantity) m c.open_lots lot others e).0,
            )
            (omega int_laws))
  ]
