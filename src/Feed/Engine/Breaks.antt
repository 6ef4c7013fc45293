-- ===== src/Feed/Engine/Breaks.antt =====
-- feed_handler/engine.py: the circuit breaker.
use qf635project.Base.{
  ℕ, zero, suc, ◌+◌, ◌≤◌, ◌≡◌, refl, ap, true, false, List, [], ◌∷◌, ◌++◌, ltb, All, if-elim, arith,
}
use qf635project.Feed.Engine.{
  FeedHandlerConfig, SessionEnd, unconnected, lost, ended, crashed, stopping, Action, sleep,
  circuit_breaker_alert, crash, backoff_for, run,
}

-- Of an action: it is no wait, or one of at most the maximum.
abbrev pub IsShort : FeedHandlerConfig → Action → Type 0
IsShort c (sleep delay) = delay ≤ c.backoff_max_ns
IsShort c circuit_breaker_alert = Unit {0}
IsShort c crash = Unit {0}

backoff_for_bound : (c : FeedHandlerConfig) (attempt : ℕ) → backoff_for c attempt ≤ c.backoff_max_ns
unfolding backoff_for
backoff_for_bound c attempt = ground arith

-- Whatever becomes of the sessions, no wait is longer than the maximum.
pub run-IsShort :
    (c : FeedHandlerConfig) (ends : List SessionEnd) (attempt : ℕ)
    → All (IsShort c) (run c ends attempt)
unfolding run
run-IsShort c [] attempt = tt
run-IsShort c (unconnected ∷ ends) attempt =
    if-elim (All (IsShort c)) (ltb c.max_reconnect_attempts (suc attempt))
      (circuit_breaker_alert ∷ []) _ (λ _. (tt, tt))
      (λ _. (backoff_for_bound c (suc attempt), run-IsShort c ends (suc attempt)))
run-IsShort c (lost ∷ ends) attempt =
    if-elim (All (IsShort c)) (ltb c.max_reconnect_attempts 1) (circuit_breaker_alert ∷ []) _
      (λ _. (tt, tt)) (λ _. (backoff_for_bound c 1, run-IsShort c ends 1))
run-IsShort c (ended ∷ ends) attempt = run-IsShort c ends 0
run-IsShort c (crashed ∷ ends) attempt = (tt, tt)
run-IsShort c (stopping ∷ ends) attempt = tt

abbrev failures : ℕ → List SessionEnd
failures zero = []
failures (suc n) = unconnected ∷ failures n

-- The waits between failures, the first of them the k-th in a row.
abbrev waits : FeedHandlerConfig → ℕ → ℕ → List Action
waits c k zero = circuit_breaker_alert ∷ []
waits c k (suc n) = sleep (backoff_for c k) ∷ waits c (suc k) n

-- A connection that fails is tried again as often as is allowed, and then the breaker fires.
pub run-failures :
    (c : FeedHandlerConfig) (n attempt : ℕ) (more : List SessionEnd)
    → c.max_reconnect_attempts ≡ n + attempt
    → run c (failures n ++ unconnected ∷ more) attempt ≡ waits c (suc attempt) n
unfolding run
run-failures c zero attempt more h =
    let over : ltb c.max_reconnect_attempts (suc attempt) ≡ true = ground (arith, h) in rw over refl
run-failures c (suc n) attempt more h =
    let within : ltb c.max_reconnect_attempts (suc attempt) ≡ false = ground (arith, h) in
    rw within (
      ap (λ (l : List Action). sleep (backoff_for c (suc attempt)) ∷ l)
        (run-failures c n (suc attempt) more (omega (arith, h))))
