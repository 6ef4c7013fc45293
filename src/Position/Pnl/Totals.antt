-- ===== src/Position/Pnl/Totals.antt =====
-- position/pnl.py: what the totals of a portfolio are.
use qf635project.Base.{◌≡◌, refl, List, [], ◌∷◌}
use qf635project.Base.Decimal.{ℤ, pos, ◌+ℤ◌, ◌-ℤ◌, ◌≤ℤ◌, abs_ℤ, int_laws, abs_parts, parts_of_eq}
use qf635project.Core.{Price}
use qf635project.Position.Book
use qf635project.Position.Book.{AccountingBook}
use qf635project.Position.Pnl.{Sums, no_sums, notional, add_books, aggregate_portfolio}

abbrev pub Holdings : Type 0
Holdings = List (AccountingBook × Price)

-- The sum of a quantity over the books.
abbrev pub total : (AccountingBook → Price → ℤ) → Holdings → ℤ
total f [] = pos 0
total f ((book, mark) ∷ rest) = f book mark +ℤ total f rest

abbrev pub exposure : AccountingBook → Price → ℤ
exposure book mark = abs_ℤ (notional book mark)

abbrev pub realized : AccountingBook → Price → ℤ
realized book mark = Book.realized_pnl book

-- The running sums after the loop.
abbrev AreTotals : Holdings → Sums → Sums → Type 0
AreTotals bs s t =
    (t.realized ≡ s.realized +ℤ total realized bs)
    × (t.unrealized ≡ s.unrealized +ℤ total Book.unrealized_pnl bs)
    × (t.gross ≡ s.gross +ℤ total exposure bs)
    × (t.net ≡ s.net +ℤ total notional bs)

shift : (s x t u : ℤ) → u ≡ s +ℤ x +ℤ t → u ≡ s +ℤ (x +ℤ t)
shift s x t u e = omega (int_laws, parts_of_eq u (s +ℤ x +ℤ t) e)

plus_zero : (a : ℤ) → a ≡ a +ℤ pos 0
plus_zero a = omega int_laws

add_books-AreTotals : (bs : Holdings) (s : Sums) → AreTotals bs s (add_books bs s)
unfolding add_books
add_books-AreTotals [] s =
    (plus_zero s.realized, plus_zero s.unrealized, plus_zero s.gross, plus_zero s.net)
add_books-AreTotals ((book, mark) ∷ rest) s =
    let (r, u, g, n) = add_books-AreTotals rest (record {
      realized = s.realized +ℤ Book.realized_pnl book;
      unrealized = s.unrealized +ℤ Book.unrealized_pnl book mark;
      gross = s.gross +ℤ abs_ℤ (notional book mark);
      net = s.net +ℤ notional book mark;
    }) in
    (shift _ _ _ _ r, shift _ _ _ _ u, shift _ _ _ _ g, shift _ _ _ _ n)

zero_plus : (a t : ℤ) → t ≡ pos 0 +ℤ a → t ≡ a
zero_plus a t e = omega (int_laws, parts_of_eq t (pos 0 +ℤ a) e)

net-le-gross :
    (bs : Holdings)
    → (total notional bs ≤ℤ total exposure bs) × (pos 0 -ℤ total exposure bs ≤ℤ total notional bs)
net-le-gross [] = (omega int_laws, omega int_laws)
net-le-gross ((book, mark) ∷ rest) =
    let (up, down) = net-le-gross rest in
    let (zero, parts) = abs_parts (notional book mark) in (omega int_laws, omega int_laws)

total_add :
    (bs : Holdings)
    → total realized bs +ℤ total Book.unrealized_pnl bs
      ≡ total (λ book mark. realized book mark +ℤ Book.unrealized_pnl book mark) bs
total_add [] = omega int_laws
total_add ((book, mark) ∷ rest) = let e = parts_of_eq _ _ (total_add rest) in omega (int_laws, e)

-- The totals of a portfolio are the sums over its books: of the realized PnL, of the unrealized PnL at
-- the marks, of the absolute notional and of the signed notional. The total PnL is realized plus
-- unrealized PnL, and the net exposure stays within the gross exposure on both sides.
pub aggregate_portfolio_lem :
    (bs : Holdings)
    → let a = aggregate_portfolio bs in
      (a.realized_pnl ≡ total realized bs)
      × (a.unrealized_pnl ≡ total Book.unrealized_pnl bs)
      × (a.total_pnl ≡ total (λ book mark. realized book mark +ℤ Book.unrealized_pnl book mark) bs)
      × (a.gross_exposure ≡ total exposure bs)
      × (a.net_exposure ≡ total notional bs)
      × (a.net_exposure ≤ℤ a.gross_exposure)
      × (pos 0 -ℤ a.gross_exposure ≤ℤ a.net_exposure)
unfolding aggregate_portfolio
aggregate_portfolio_lem bs =
    let (r, u, g, n) = add_books-AreTotals bs no_sums in
    let (up, down) = net-le-gross bs in
    rw (zero_plus _ _ r, zero_plus _ _ u, zero_plus _ _ g, zero_plus _ _ n)
      (refl, refl, total_add bs, refl, refl, up, down)
