-- ===== src/Binance/RateLimiter/Rate.antt =====
-- order_gateways/rate_limiter.py: the limit that the bucket keeps.
use qf635project.Base.{
  ℕ, ◌+◌, ◌-◌, ◌*◌, ◌≤◌, ◌≡◌, refl, sym, ◌∙◌, Bool, Option, none, some, List, [], ◌∷◌, ◌==◌, ◌||◌,
  leb, ltb, Bool-cases, ◌⊎◌, inl, inr, if-elim, if◌then◌else◌, arith,
}
use mathlib.Core.Path.{subst}
use qf635project.Binance.RateLimiter.{RateLimiter, refill, take, try_acquire, acquire}

-- A call of `try_acquire`, or a turn of the loop of `acquire`, with its time and its cost.
pub data Call : Type 0 where
  tried : (now cost : ℕ) → Call
  awaited : (now cost : ℕ) → Call

abbrev pub cost_of : Call → ℕ
cost_of (tried now cost) = cost
cost_of (awaited now cost) = cost

abbrev pub answer_to : Call → RateLimiter → Option (Bool × RateLimiter)
answer_to (tried now cost) r = try_acquire now cost r
answer_to (awaited now cost) r = acquire now cost r

-- What the calls are granted in all, and the bucket then; a call that raises is passed over.
unfoldable pub grants : List Call → RateLimiter → ℕ × RateLimiter
grants [] r = (0, r)
grants (c ∷ calls) r = elim (answer_to c r) [
  | none ↦ grants calls r
  | some (taken, r') ↦
      let (total, end) = grants calls r' in ((if taken then cost_of c else 0) + total, end)
]

-- A bucket that is not over its capacity, and a later one, when `granted` was taken in between.
abbrev Within : RateLimiter → ℕ → RateLimiter → Type 0
Within r granted r' =
    (r'.capacity ≡ r.capacity)
    × (r'.refill_per_ns ≡ r.refill_per_ns)
    × (r.last_ns ≤ r'.last_ns)
    × (r'.tokens ≤ r'.capacity)
    × (granted + r'.tokens ≤ r.tokens + (r'.last_ns - r.last_ns) * r.refill_per_ns)

Within-refl : (r : RateLimiter) → r.tokens ≤ r.capacity → Within r 0 r
Within-refl r h = (refl, refl, omega arith, h, omega arith)

refill-Within : (now : ℕ) (r : RateLimiter) → r.tokens ≤ r.capacity → Within r 0 (refill now r)
unfolding refill
refill-Within now r h = elim (Bool-cases (leb now r.last_ns)) [
  | inl early ↦ rw early (Within-refl r h)
  | inr later ↦ rw later (refl, refl, ground (arith, later), ground arith, ground arith)
]

take-Within :
    (cost : ℕ) (r : RateLimiter)
    → r.tokens ≤ r.capacity
    → Within r (if (take cost r).0 then cost else 0) (take cost r).1
take-Within cost r h = elim (Bool-cases (leb cost r.tokens)) [
  | inl enough ↦ rw enough (refl, refl, omega arith, omega (arith, h), ground (arith, enough))
  | inr short ↦ rw short (Within-refl r h)
]

elapsed : (a b c n : ℕ) → a ≤ b → b ≤ c → (b - a) * n + (c - b) * n ≡ (c - a) * n
elapsed a b c n h k =
    let whole : c - a ≡ (b - a) + (c - b) = omega (arith, h, k) in rw whole (grind arith)

Within-trans : (p q r : RateLimiter) (m n : ℕ) → Within p m q → Within q n r → Within p (m + n) r
Within-trans p q r m n (a, b, c, d, e) (a', b', c', d', e') = (
  a' ∙ a,
  b' ∙ b,
  omega (arith, c, c'),
  d',
  omega (
    arith,
    e,
    e',
    subst (λ x. (r.last_ns - q.last_ns) * x ≡ (r.last_ns - q.last_ns) * p.refill_per_ns) (sym b)
        refl,
    elapsed p.last_ns q.last_ns r.last_ns p.refill_per_ns c c',
  ),
)

-- A call raises, or takes from the bucket that is refilled at its time.
answer_to-cases :
    (c : Call) (r : RateLimiter)
    → (answer_to c r ≡ none)
      ⊎ ((now : ℕ) × (answer_to c r ≡ some (take (cost_of c) (refill now r))))
unfolding try_acquire acquire
answer_to-cases (tried now cost) r =
    if-elim
      (λ (o : Option (Bool × RateLimiter)).
        (o ≡ none) ⊎ ((at : ℕ) × (o ≡ some (take cost (refill at r)))))
      (cost == 0) none _ (λ _. inl refl) (λ _. inr (now, refl))
answer_to-cases (awaited now cost) r =
    if-elim
      (λ (o : Option (Bool × RateLimiter)).
        (o ≡ none) ⊎ ((at : ℕ) × (o ≡ some (take cost (refill at r)))))
      (cost == 0 || ltb r.capacity cost) none _ (λ _. inl refl) (λ _. inr (now, refl))

grants-Within :
    (calls : List Call) (r : RateLimiter)
    → r.tokens ≤ r.capacity
    → Within r (grants calls r).0 (grants calls r).1
unfolding grants
grants-Within [] r h = Within-refl r h
grants-Within (c ∷ calls) r h = elim (answer_to-cases c r) [
  | inl refused ↦ rw (refused, grants) (grants-Within calls r h)
  | inr (now, answered) ↦
      let s = refill now r in
      let t = (take (cost_of c) s).1 in
      let first = refill-Within now r h in
      let second = take-Within (cost_of c) s first.3 in
      let rest = Within-trans s t (grants calls t).1 _ _ second (grants-Within calls t second.3) in
      let whole = Within-trans r s (grants calls t).1 0 _ first rest in
      rw (answered, grants) (whole.0, whole.1, whole.2, whole.3, omega (arith, whole.4))
]

-- Whenever `try_acquire` is called or `acquire` takes a turn, in any order and for whatever cost, a bucket
-- grants in all no more than the tokens that it had and what was refilled since, and never holds more
-- than its capacity.
pub grants-bound :
    (calls : List Call) (r : RateLimiter)
    → r.tokens ≤ r.capacity
    → ((grants calls r).0 ≤ r.tokens + ((grants calls r).1.last_ns - r.last_ns) * r.refill_per_ns)
      × ((grants calls r).1.tokens ≤ r.capacity)
grants-bound calls r h =
    let (same, rate, later, full, total) = grants-Within calls r h in
    (omega (arith, total), omega (arith, full, same))
