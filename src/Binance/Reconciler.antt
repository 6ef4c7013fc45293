-- ===== src/Binance/Reconciler.antt =====
-- order_gateways/binance/reconciler.py: one comparison of the venue's balances with the positions. What is
-- published is the report, if the bus takes it; `base_of` is an instrument's base currency.
pub mod Totals
use qf635project.Base.{
  ℕ, Bool, true, false, Option, none, some, List, [], ◌∷◌, ◌++◌, ◌==◌, if◌then◌else◌,
}
use qf635project.Base.Dict.{Dict, number_eq, lookup_or, insert}
use qf635project.Base.Decimal.{ℤ, pos, ◌+ℤ◌, ◌-ℤ◌, abs_ℤ, ltb_ℤ}
use qf635project.Core.{Quantity, Instrument}
use qf635project.Position.Book
use qf635project.Position.Book.{AccountingBook}
use qf635project.Binance.UserData.{AccountBalance}

-- The reply for the account: rows with free and locked balances, or with a wallet balance.
pub data Account : Type 0 where
  spot : List AccountBalance → Account
  futures : List (ℕ × Quantity) → Account

pub record MismatchAlert : Type 0 where
  pub asset : ℕ
  pub venue_balance : Quantity
  pub internal_position : Quantity
  pub diff : Quantity

pub record Report : Type 0 where
  pub snapshot : List AccountBalance
  pub comparisons : List (ℕ × Quantity × Quantity)
  pub alerts : List MismatchAlert

abbrev pub rows_of : Account → List AccountBalance
rows_of (spot rows) = rows
rows_of (futures []) = []
rows_of (futures ((asset, wallet) ∷ rows)) =
    record { asset = asset; free = wallet; locked = pos 0 } ∷ rows_of (futures rows)

-- The rows with anything in them.
unfoldable pub held : List AccountBalance → List AccountBalance
held [] = []
held (b ∷ rows) = if ltb_ℤ (pos 0) (b.free +ℤ b.locked) then b ∷ held rows else held rows

abbrev pub balances_of : List AccountBalance → Dict ℕ Quantity → Dict ℕ Quantity
balances_of [] d = d
balances_of (b ∷ rows) d = balances_of rows (insert b.asset (b.free +ℤ b.locked) d)

-- The quantity of an instrument over the books of all strategies.
unfoldable pub position_in : ℕ → Dict (ℕ × ℕ) AccountingBook → Quantity
position_in iid [] = pos 0
position_in iid (((sid, j), book) ∷ books) =
    let rest = position_in iid books in if j == iid then Book.quantity book +ℤ rest else rest

module _ (base_of : Instrument → ℕ) (books : Dict (ℕ × ℕ) AccountingBook) where
  -- The positions of the instruments that are tracked, by asset.
  unfoldable pub ours_by_asset : List Instrument → Dict ℕ Quantity → Dict ℕ Quantity
  ours_by_asset [] d = d
  ours_by_asset (inst ∷ insts) d =
      let asset = base_of inst in
      ours_by_asset insts
        (insert asset (lookup_or asset (pos 0) d +ℤ position_in inst.instrument_id books) d)

  -- The loop over the assets.
  unfoldable pub compare :
      Quantity
      → Dict ℕ Quantity
      → Dict ℕ Quantity
      → List (ℕ × Quantity × Quantity) × List MismatchAlert
  compare threshold venue_balances [] = ([], [])
  compare threshold venue_balances ((asset, ours) ∷ rest) =
      let venue = lookup_or asset (pos 0) venue_balances in
      let (comparisons, alerts) = compare threshold venue_balances rest in
      let alert : MismatchAlert = record {
        asset = asset;
        venue_balance = venue;
        internal_position = ours;
        diff = venue -ℤ ours;
      } in
      (
        (asset, venue, ours) ∷ comparisons,
        if ltb_ℤ threshold (abs_ℤ (venue -ℤ ours)) then alert ∷ alerts else alerts,
      )

  -- `reconcile_once`
  unfoldable pub reconcile_once : Quantity → List Instrument → Account → Report
  reconcile_once threshold tracked account =
      let snapshot = held (rows_of account) in
      let (comparisons, alerts) =
        compare threshold (balances_of snapshot []) (ours_by_asset tracked []) in
      record { snapshot = snapshot; comparisons = comparisons; alerts = alerts }
