-- ===== src/Feed/Engine.antt =====
-- feed_handler/engine.py: the life of a connection. A session ends as the connector says; times are in
-- nanoseconds, and a frame that the normalizer cannot read is passed over.
pub mod Breaks
use qf635project.Base.{
  ℕ, zero, suc, ◌+◌, ◌-◌, ◌*◌, ◌/◌, Bool, true, false, Option, none, some, List, [], ◌∷◌, ◌++◌, ltb,
  if◌then◌else◌,
}
use qf635project.Core.{Timestamp}

pub record FeedHandlerConfig : Type 0 where
  pub stale_threshold_ns : ℕ
  pub max_reconnect_attempts : ℕ
  pub backoff_initial_ns : ℕ
  pub backoff_max_ns : ℕ

-- How one turn of the loop in `run` ends: `connect` raises FeedDisconnectedError, or the stream does
-- after a connection, or it ends; or another exception stops the handler, or it is being stopped.
pub data SessionEnd : Type 0 where
  unconnected : SessionEnd
  lost : SessionEnd
  ended : SessionEnd
  crashed : SessionEnd
  stopping : SessionEnd

-- What `run` does between its turns.
pub data Action : Type 0 where
  sleep : ℕ → Action
  circuit_breaker_alert : Action
  crash : Action

abbrev power_of_two : ℕ → ℕ
power_of_two zero = 1
power_of_two (suc n) = 2 * power_of_two n

-- `_backoff_for`
unfoldable pub backoff_for : FeedHandlerConfig → ℕ → ℕ
backoff_for c attempt =
    let delay = c.backoff_initial_ns * power_of_two (attempt - 1) in
    if ltb c.backoff_max_ns delay then c.backoff_max_ns else delay

-- The loop of `run`, with the failures in a row before it.
unfoldable pub run : FeedHandlerConfig → List SessionEnd → ℕ → List Action
run c [] attempt = []
run c (unconnected ∷ ends) attempt =
    let rest = run c ends (suc attempt) in
    if ltb c.max_reconnect_attempts (suc attempt)
    then circuit_breaker_alert ∷ []
    else sleep (backoff_for c (suc attempt)) ∷ rest
run c (lost ∷ ends) attempt =
    let rest = run c ends 1 in
    if ltb c.max_reconnect_attempts 1
    then circuit_breaker_alert ∷ []
    else sleep (backoff_for c 1) ∷ rest
run c (ended ∷ ends) attempt = run c ends 0
run c (crashed ∷ ends) attempt = crash ∷ []
run c (stopping ∷ ends) attempt = []

-- `_heartbeat_watchdog`, one turn: whether it raises the alert, and the time of the last message then.
unfoldable pub watch : FeedHandlerConfig → ℕ → Option ℕ → Bool × Option ℕ
watch c now none = (false, none)
watch c now (some last) =
    if ltb c.stale_threshold_ns (now - last) then (true, none) else (false, some last)

-- `_consume_loop` on a frame: what the normalizer makes of it, or none if it raises.
unfoldable pub consume : {Event : Type 0} → List (Option (List Event)) → List Event
consume [] = []
consume (none ∷ frames) = consume frames
consume (some events ∷ frames) = events ++ consume frames
