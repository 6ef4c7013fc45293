-- ===== src/Position/Engine/History.antt =====
-- position/engine.py: the books are what the fills make of them.
use qf635project.Base.{
  ℕ, ◌≡◌, refl, ◌∙◌, sym, ap, Bool, Option, none, some, List, [], ◌∷◌, Bool-cases, Option-cases,
  inl, inr, if◌then◌else◌,
}
use qf635project.Base.Dict.{
  number_eq, pair_eq, pair_beq, pair_beq_iff, Dict, lookup, lookup_or, lookup-insert,
}
use qf635project.Core.{FillEvent}
use qf635project.Position.Book
use qf635project.Position.Book.{AccountingBook, AccountingMethod, make_book}
use qf635project.Position.Engine.{
  Tick, PositionEngine, PositionEvent, opened, key_of, safe_publish, on_fill, on_market_data,
  mark_books, mark_to_market_all, publish_portfolio_snapshot, mark_book, is_open,
}

-- What reaches a position engine.
pub data Input : Type 0 where
  filled : FillEvent → Input
  ticked : Tick → Input
  mark_all : Input
  report : Option ℕ → Input

unfoldable pub handle : (ℕ → Bool) → Input → PositionEngine → PositionEngine
handle accepts (filled fill) e = on_fill accepts fill e
handle accepts (ticked t) e = on_market_data t e
handle accepts mark_all e = mark_to_market_all accepts e
handle accepts (report sid) e = publish_portfolio_snapshot accepts sid e

unfoldable pub run : (ℕ → Bool) → List Input → PositionEngine → PositionEngine
run accepts [] e = e
run accepts (i ∷ is) e = run accepts is (handle accepts i e)

-- The specification: a book sees the fills of its key, in order, and is there once there is one.
abbrev pub after_fill : AccountingMethod → FillEvent → Option AccountingBook → AccountingBook
after_fill method fill none = Book.apply_fill fill (make_book method)
after_fill method fill (some book) = Book.apply_fill fill book

abbrev pub see : AccountingMethod → ℕ × ℕ → Input → Option AccountingBook → Option AccountingBook
see method key (filled fill) o =
    if pair_beq key (key_of fill) then some (after_fill method fill o) else o
see method key (ticked t) o = o
see method key mark_all o = o
see method key (report sid) o = o

unfoldable pub history :
    AccountingMethod → ℕ × ℕ → List Input → Option AccountingBook → Option AccountingBook
history method key [] o = o
history method key (i ∷ is) o = history method key is (see method key i o)

-- Publishing leaves the books and the method.
abbrev SameBooks : PositionEngine → PositionEngine → Type 0
SameBooks d e = (d.books ≡ e.books) × (d.method ≡ e.method)

safe_publish-SameBooks :
    (accepts : ℕ → Bool) (ev : PositionEvent) (e : PositionEngine)
    → SameBooks (safe_publish accepts ev e) e
unfolding safe_publish
safe_publish-SameBooks accepts ev e = elim (Bool-cases (accepts e.attempts)) [
  | inl ok ↦ rw ok (refl, refl)
  | inr full ↦ rw full (refl, refl)
]

mark_book-SameBooks :
    (accepts : ℕ → Bool) (entry : (ℕ × ℕ) × AccountingBook) (e : PositionEngine)
    → SameBooks (mark_book accepts entry e) e
mark_book-SameBooks accepts (key, book) e = elim (Bool-cases (is_open book)) [
  | inr flat ↦ rw flat (refl, refl)
  | inl held ↦ elim (Option-cases (lookup key e.instruments)) [
    | inl missing ↦ rw (held, missing) (refl, refl)
    | inr (instrument, at) ↦ elim (Option-cases (lookup instrument.instrument_id e.marks)) [
      | inl unmarked ↦ rw (held, at, unmarked) (refl, refl)
      | inr (mark, seen) ↦ rw (held, at, seen) (safe_publish-SameBooks accepts _ e)
    ]
  ]
]

mark_books-SameBooks :
    (accepts : ℕ → Bool) (entries : Dict (ℕ × ℕ) AccountingBook) (e : PositionEngine)
    → SameBooks (mark_books accepts entries e) e
unfolding mark_books
mark_books-SameBooks accepts [] e = (refl, refl)
mark_books-SameBooks accepts (entry ∷ rest) e =
    let (b, m) = mark_book-SameBooks accepts entry e in
    let (b', m') = mark_books-SameBooks accepts rest (mark_book accepts entry e) in (b' ∙ b, m' ∙ m)

see-lookup :
    (method : AccountingMethod) (fill : FillEvent) (o : Option AccountingBook)
    → Book.apply_fill fill (elim o [ none ↦ make_book method | some w ↦ w ])
      ≡ after_fill method fill o
see-lookup method fill none = refl
see-lookup method fill (some book) = refl

book_after :
    (key : ℕ × ℕ) (fill : FillEvent) (e : PositionEngine)
    → (if pair_beq key (key_of fill)
        then some (Book.apply_fill fill (lookup_or (key_of fill) (make_book e.method) e.books))
        else lookup key e.books)
      ≡ see e.method key (filled fill) (lookup key e.books)
book_after key fill e = elim (Bool-cases (pair_beq key (key_of fill))) [
  | inr other ↦ rw other
  | inl same ↦
      let at = (pair_beq_iff key (key_of fill)).0 same in
      rw same (
        ap some (
          see-lookup e.method fill (lookup (key_of fill) e.books)
          ∙ ap (λ k. after_fill e.method fill (lookup k e.books)) (sym at)))
]

-- One input changes the book of a key as the specification says.
handle-see :
    (accepts : ℕ → Bool) (key : ℕ × ℕ) (i : Input) (e : PositionEngine)
    → (lookup key (handle accepts i e).books ≡ see e.method key i (lookup key e.books))
      × ((handle accepts i e).method ≡ e.method)
unfolding handle on_fill on_market_data mark_to_market_all publish_portfolio_snapshot
handle-see accepts key (filled fill) e =
    let (b, m) = safe_publish-SameBooks accepts _ _ in
    (ap (lookup key) b ∙ lookup-insert key (key_of fill) _ e.books ∙ book_after key fill e, m)
handle-see accepts key (ticked t) e = (refl, refl)
handle-see accepts key mark_all e =
    let (b, m) = mark_books-SameBooks accepts e.books e in (ap (lookup key) b, m)
handle-see accepts key (report sid) e =
    let (b, m) = safe_publish-SameBooks accepts _ e in (ap (lookup key) b, m)

run-history :
    (accepts : ℕ → Bool) (key : ℕ × ℕ) (is : List Input) (e : PositionEngine)
    → lookup key (run accepts is e).books ≡ history e.method key is (lookup key e.books)
unfolding run history
run-history accepts key [] e = refl
run-history accepts key (i ∷ is) e =
    let (b, m) = handle-see accepts key i e in
    run-history accepts key is (handle accepts i e)
    ∙ ap (λ method. history method key is (lookup key (handle accepts i e).books)) m
    ∙ ap (history e.method key is) b

-- After any inputs of an engine that starts with no books, the book of a strategy and an instrument
-- is the one that its own fills make, in their order, of an empty book of the engine's method; it
-- exists exactly if there was such a fill. Ticks, marks and reports leave the books.
pub run-history-opened :
    (accepts : ℕ → Bool) (method : AccountingMethod) (key : ℕ × ℕ) (is : List Input)
    → lookup key (run accepts is (opened method)).books ≡ history method key is none
run-history-opened accepts method key is = run-history accepts key is (opened method)
