-- ===== src/Binance/Reconciler/Totals.antt =====
-- order_gateways/binance/reconciler.py: the grouping by asset loses no position.
use qf635project.Base.{ℕ, ◌≡◌, List, [], ◌∷◌, ◌==◌, Bool-cases, inl, inr}
use qf635project.Base.Dict.{Dict, number_eq, lookup_or, insert}
use qf635project.Base.Decimal.{pos, ◌+ℤ◌, int_laws, parts_of_eq}
use qf635project.Core.{Quantity, Instrument}
use qf635project.Position.Book.{AccountingBook}
use qf635project.Binance.Reconciler.{position_in, ours_by_asset}

abbrev total : Dict ℕ Quantity → Quantity
total [] = pos 0
total ((asset, q) ∷ d) = q +ℤ total d

abbrev tracked_total : Dict (ℕ × ℕ) AccountingBook → List Instrument → Quantity
tracked_total books [] = pos 0
tracked_total books (inst ∷ insts) =
    position_in inst.instrument_id books +ℤ tracked_total books insts

total-insert :
    (asset : ℕ) (v : Quantity) (d : Dict ℕ Quantity)
    → total (insert asset v d) +ℤ lookup_or asset (pos 0) d ≡ total d +ℤ v
total-insert asset v [] = omega int_laws
total-insert asset v ((j, r) ∷ d) = elim (Bool-cases (asset == j)) [
  | inl same ↦ rw (same, lookup_or) (omega int_laws)
  | inr other ↦ rw (other, lookup_or) (omega (int_laws, parts_of_eq _ _ (total-insert asset v d)))
]

-- The positions by asset sum to the positions of the instruments that are tracked.
pub total-ours_by_asset :
    (base_of : Instrument → ℕ) (books : Dict (ℕ × ℕ) AccountingBook) (insts : List Instrument)
    (d : Dict ℕ Quantity)
    → total (ours_by_asset base_of books insts d) ≡ total d +ℤ tracked_total books insts
unfolding ours_by_asset
total-ours_by_asset base_of books [] d = omega int_laws
total-ours_by_asset base_of books (inst ∷ insts) d =
    let asset = base_of inst in
    let q = position_in inst.instrument_id books in
    let d' = insert asset (lookup_or asset (pos 0) d +ℤ q) d in
    omega (
      int_laws,
      parts_of_eq _ _ (total-ours_by_asset base_of books insts d'),
      parts_of_eq _ _ (total-insert asset (lookup_or asset (pos 0) d +ℤ q) d),
    )
