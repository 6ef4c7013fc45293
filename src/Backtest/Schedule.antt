-- ===== src/Backtest/Schedule.antt =====
-- backtest/order_gateway.py: the heap of scheduled events. Its entries are ordered by their time and
-- number, and no two have the same number, so a heap takes them out as the ordered list does.
pub mod Sorted
use qf635project.Base.{
  ℕ, Bool, true, false, Option, none, some, List, [], ◌∷◌, ◌==◌, ◌&&◌, ◌||◌, ltb, leb,
  if◌then◌else◌,
}
use qf635project.Core.{Timestamp}
use qf635project.Venue.Simulation.{Published}

pub record Scheduled : Type 0 where
  pub due_ns : Timestamp
  pub seq : ℕ
  pub event : Published

-- `<` of two entries.
abbrev pub before : Scheduled → Scheduled → Bool
before a b = ltb a.due_ns b.due_ns || (a.due_ns == b.due_ns && ltb a.seq b.seq)

-- `heapq.heappush`
unfoldable pub push : Scheduled → List Scheduled → List Scheduled
push s [] = s ∷ []
push s (x ∷ xs) = if before s x then s ∷ x ∷ xs else x ∷ push s xs

-- The loop of `drain_due`: the events published, and what stays scheduled.
unfoldable pub drain : Timestamp → List Scheduled → List Published × List Scheduled
drain now [] = ([], [])
drain now (x ∷ xs) =
    let (out, rest) = drain now xs in
    if leb x.due_ns now then (x.event ∷ out, rest) else ([], x ∷ xs)

abbrev pub next_due_ns : List Scheduled → Option Timestamp
next_due_ns [] = none
next_due_ns (x ∷ xs) = some x.due_ns
