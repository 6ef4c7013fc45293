-- ===== src/Backtest/Schedule/Sorted.antt =====
-- backtest/order_gateway.py: the heap's order, and what a drain takes.
use qf635project.Base.{
  ◌≤◌, ◌<◌, ◌≡◌, refl, ap, true, false, none, some, List, [], ◌∷◌, ◌++◌, All, All-map, map, leb,
  ◌⊎◌, Bool-cases, inl, inr, if-elim, arith,
}
use qf635project.Core.{Timestamp}
use qf635project.Venue.Simulation.{Published}
use qf635project.Backtest.Schedule.{Scheduled, before, push, drain, next_due_ns}

-- Every entry is due no later than those behind it, and among those of one time comes first by number.
abbrev pub IsSorted : List Scheduled → Type 0
IsSorted [] = Unit {0}
IsSorted (x ∷ xs) = All (λ y. before x y ≡ true) xs × IsSorted xs

before_trans : (a b c : Scheduled) → before a b ≡ true → before b c ≡ true → before a c ≡ true
before_trans a b c h k = ground arith

before_total :
    (a b : Scheduled) → a.seq < b.seq ⊎ b.seq < a.seq → before a b ≡ false → before b a ≡ true
before_total a b h k = ground arith

pub before-due : (a b : Scheduled) → before a b ≡ true → a.due_ns ≤ b.due_ns
before-due a b h = ground arith

pub push-All :
    (P : Scheduled → Type 0) (s : Scheduled) (xs : List Scheduled)
    → P s
    → All P xs
    → All P (push s xs)
unfolding push
push-All P s [] p a = (p, tt)
push-All P s (x ∷ xs) p a =
    if-elim (All P) (before s x) (s ∷ x ∷ xs) (x ∷ push s xs) (λ _. (p, a))
      (λ _. (a.0, push-All P s xs p a.1))

pub push-IsSorted :
    (s : Scheduled) (xs : List Scheduled)
    → All (λ x. x.seq < s.seq) xs
    → IsSorted xs
    → IsSorted (push s xs)
unfolding push
push-IsSorted s [] n v = (tt, tt)
push-IsSorted s (x ∷ xs) n v = elim (Bool-cases (before s x)) [
  | inl first ↦ rw first (
    (
      first,
      All-map (λ y. before x y ≡ true) (λ y. before s y ≡ true) (λ y. before_trans s x y first) xs
          v.0,
    ),
    (v.0, v.1),
  )
  | inr later ↦ rw later (
    push-All (λ y. before x y ≡ true) s xs (before_total s x (inr n.0) later) v.0,
    push-IsSorted s xs n.1 v.1,
  )
]

-- The events of the entries.
abbrev pub events : List Scheduled → List Published
events xs = map (λ x. x.event) xs

-- A drain publishes the events that are due, in the order of the heap, and keeps those that are not.
pub drain_lem :
    (now : Timestamp) (xs : List Scheduled)
    → IsSorted xs
    → (taken : List Scheduled) × (xs ≡ taken ++ (drain now xs).1)
      × ((drain now xs).0 ≡ events taken)
      × All (λ x. x.due_ns ≤ now) taken
      × All (λ x. now < x.due_ns) (drain now xs).1
unfolding drain
drain_lem now [] v = ([], refl, refl, tt, tt)
drain_lem now (x ∷ xs) v = elim (Bool-cases (leb x.due_ns now)) [
  | inl due ↦
      let (taken, whole, out, past, future) = drain_lem now xs v.1 in
      rw due (
        x ∷ taken,
        ap (λ (l : List Scheduled). x ∷ l) whole,
        ap (λ (l : List Published). x.event ∷ l) out,
        (ground (arith, due), past),
        future,
      )
  | inr early ↦
      let late : now < x.due_ns = ground (arith, early) in
      rw early (
        [],
        refl,
        refl,
        tt,
        (
          late,
          All-map (λ y. before x y ≡ true) (λ y. now < y.due_ns)
              (λ y b. omega (arith, late, before-due x y b)) xs v.0,
        ),
      )
]

pub next_due_cases :
    (xs : List Scheduled)
    → ((next_due_ns xs ≡ none) × (xs ≡ []))
      ⊎ ((x : Scheduled) × (ys : List Scheduled) × (next_due_ns xs ≡ some x.due_ns) × (xs ≡ x ∷ ys))
next_due_cases [] = inl (refl, refl)
next_due_cases (x ∷ xs) = inr (x, xs, refl, refl)
