-- ===== src/Binance/RateLimiter.antt =====
-- order_gateways/rate_limiter.py: the token bucket. Tokens are counted in a unit in which the refill of a
-- nanosecond is whole, without rounding. A method that raises ValueError returns none.
pub mod Rate
use qf635project.Base.{
  ℕ, ◌+◌, ◌-◌, ◌*◌, Bool, true, false, Option, none, some, ◌==◌, ◌||◌, ltb, leb, if◌then◌else◌,
}

pub record RateLimiter : Type 0 where
  pub capacity : ℕ
  pub refill_per_ns : ℕ
  pub tokens : ℕ
  pub last_ns : ℕ

abbrev pub at_most : ℕ → ℕ → ℕ
at_most capacity n = if ltb capacity n then capacity else n

-- `__init__`
unfoldable pub create : ℕ → ℕ → Option ℕ → ℕ → Option RateLimiter
create capacity refill_per_ns initial_tokens now =
    if capacity == 0 || refill_per_ns == 0
    then none
    else some (record {
      capacity = capacity;
      refill_per_ns = refill_per_ns;
      tokens = elim initial_tokens [ none ↦ capacity | some n ↦ at_most capacity n ];
      last_ns = now;
    })

-- `_refill`, at the time `now` of the monotonic clock.
unfoldable pub refill : ℕ → RateLimiter → RateLimiter
refill now r = if leb now r.last_ns then r else record r {
  tokens = at_most r.capacity (r.tokens + (now - r.last_ns) * r.refill_per_ns);
  last_ns = now;
}

abbrev pub take : ℕ → RateLimiter → Bool × RateLimiter
take cost r =
    if leb cost r.tokens then (true, record r { tokens = r.tokens - cost }) else (false, r)

unfoldable pub try_acquire : ℕ → ℕ → RateLimiter → Option (Bool × RateLimiter)
try_acquire now cost r = if cost == 0 then none else some (take cost (refill now r))

-- A turn of the loop in `acquire`, which holds the lock; it raises where the cost can never be met.
unfoldable pub acquire : ℕ → ℕ → RateLimiter → Option (Bool × RateLimiter)
acquire now cost r =
    if cost == 0 || ltb r.capacity cost then none else some (take cost (refill now r))
