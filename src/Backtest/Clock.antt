-- ===== src/Backtest/Clock.antt =====
-- core/clock.py: the clock that the replay sets. A method that raises ValueError returns none.
use qf635project.Base.{ℕ, ◌+◌, ◌-◌, Option, none, some, ltb, if◌then◌else◌}
use qf635project.Core.{Timestamp}

pub record SimulatedClock : Type 0 where
  pub now_ns : Timestamp
  pub monotonic_ns : ℕ

abbrev pub clock_at : Timestamp → SimulatedClock
clock_at start = record { now_ns = start; monotonic_ns = 0 }

unfoldable pub set_time : Timestamp → SimulatedClock → Option SimulatedClock
set_time ns c =
    if ltb ns c.now_ns
    then none
    else some (record { now_ns = ns; monotonic_ns = c.monotonic_ns + (ns - c.now_ns) })

-- A negative delta, which raises, is none of ℕ.
abbrev pub advance : ℕ → SimulatedClock → SimulatedClock
advance delta c = record { now_ns = c.now_ns + delta; monotonic_ns = c.monotonic_ns + delta }
