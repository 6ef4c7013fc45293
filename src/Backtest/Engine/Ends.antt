-- ===== src/Backtest/Engine/Ends.antt =====
-- backtest/engine.py: the drain after the last event of the data.
use qf635project.Base.{
  ℕ, zero, suc, ◌≤◌, ◌<◌, ◌≡◌, refl, ◌∙◌, sym, ap, true, false, some, List, [], ◌∷◌, ltb,
  Bool-cases, inl, inr, if-elim, if◌then◌else◌, arith, length, leb, ◌++◌, append_nil, append_assoc,
}
use mathlib.Core.Path.{subst}
use qf635project.Core.{Timestamp}
use qf635project.Venue.Simulation.{Published}
use qf635project.Backtest.Clock.{set_time}
use qf635project.Backtest.Schedule
use qf635project.Backtest.Schedule.{Scheduled, next_due_ns}
use qf635project.Backtest.Schedule.Sorted.{next_due_cases, events}
use qf635project.Backtest.Gateway.{Gateway, drain_due}
use qf635project.Backtest.Engine.{
  Env, Replay, Result, done, clock_backwards, backpressure, out_of_fuel, ◌>>=◌, now_of, deliver,
  settle, set_clock, publish_all, drain, drain_and_settle, drain_remaining,
}

-- `m` is done, and with what satisfies `P`.
abbrev pub Returns : {A : Type 0} → (A → Type 0) → Result A → Type 0
Returns P (done a) = P a
Returns P clock_backwards = ⊥
Returns P backpressure = ⊥
Returns P out_of_fuel = ⊥

Returns-bind :
    {A B : Type 0} (P : A → Type 0) (Q : B → Type 0) (m : Result A) (f : A → Result B)
    → Returns P m
    → ((a : A) → P a → Returns Q (f a))
    → Returns Q (m >>= f)
Returns-bind P Q (done a) f h k = k a h
Returns-bind P Q clock_backwards f h k = absurd h
Returns-bind P Q backpressure f h k = absurd h
Returns-bind P Q out_of_fuel f h k = absurd h

length-drain :
    (now : Timestamp) (xs : List Scheduled) → length (Schedule.drain now xs).1 ≤ length xs
unfolding Schedule.drain
length-drain now [] = omega arith
length-drain now (x ∷ xs) =
    if-elim (λ (p : List Published × List Scheduled). length p.1 ≤ suc (length xs))
      (leb x.due_ns now) _ _ (λ _. omega (arith, length-drain now xs)) (λ _. omega arith)

-- A drain at the time of the head takes at least that.
length-drain_head :
    (now : Timestamp) (x : Scheduled) (xs : List Scheduled)
    → x.due_ns ≤ now
    → length (Schedule.drain now (x ∷ xs)).1 ≤ length xs
unfolding Schedule.drain
length-drain_head now x xs h =
    let due : leb x.due_ns now ≡ true = ground (arith, h) in rw due (length-drain now xs)

-- What a drain takes and what it leaves are the events of the schedule, in its order.
drain-events :
    (now : Timestamp) (xs : List Scheduled)
    → (Schedule.drain now xs).0 ++ events (Schedule.drain now xs).1 ≡ events xs
unfolding Schedule.drain
drain-events now [] = refl
drain-events now (x ∷ xs) =
    if-elim (λ (p : List Published × List Scheduled). p.0 ++ events p.1 ≡ x.event ∷ events xs)
      (leb x.due_ns now) _ _ (λ _. ap (λ (l : List Published). x.event ∷ l) (drain-events now xs))
      (λ _. refl)

module _ {World : Type 0} (env : Env World) where
  -- The bus takes everything and `log` tells what it has taken, nobody acts on what is published, and a
  -- round of yields publishes nothing of these events.
  pub record Quiet (log : World → List Published) : Type 0 where
    pub takes :
        (ev : Published) (w : World)
        → (w' : World) × (env.take ev w ≡ some w') × (log w' ≡ log w ++ ev ∷ [])
    pub idle :
        (now : Timestamp) (w : World)
        → ((env.settle now w).0 ≡ []) × (log (env.settle now w).1 ≡ log w)

  module _ (log : World → List Published) (quiet : Quiet log) where
    abbrev log_of : Replay World → List Published
    log_of r = log r.world

    publish_all-Returns :
        (evs : List Published) (r : Replay World)
        → Returns
            (λ r'. (r'.clock ≡ r.clock) × (r'.gateway ≡ r.gateway) × (log_of r' ≡ log_of r ++ evs))
            (publish_all env evs r)
    unfolding publish_all
    publish_all-Returns [] r = (refl, refl, sym (append_nil (log_of r)))
    publish_all-Returns (ev ∷ evs) r =
        let (w, taken, logged) = quiet.takes ev r.world in
        let whole : log w ++ evs ≡ log_of r ++ ev ∷ evs =
          ap (λ (l : List Published). l ++ evs) logged ∙ append_assoc (log_of r) (ev ∷ []) evs in
        rw (taken, Returns)
          (subst
            (λ (l : List Published).
              Returns (λ r'. (r'.clock ≡ r.clock) × (r'.gateway ≡ r.gateway) × (log_of r' ≡ l))
                (publish_all env evs (record r { world = w })))
            whole (publish_all-Returns evs (record r { world = w })))

    settle-idle :
        (r : Replay World)
        → ((settle env r).gateway ≡ r.gateway) × (log_of (settle env r) ≡ log_of r)
    unfolding settle deliver
    settle-idle r =
        let (nothing, same) = quiet.idle (now_of env r) r.world in (rw nothing refl, same)

    -- Of a replay, what is logged and then what is scheduled.
    abbrev told : Replay World → List Published
    told r = log_of r ++ events r.gateway.schedule

    -- A drain that leaves a schedule shorter than `n`, and has logged what it took off.
    abbrev Drained : ℕ → List Published → Replay World → Type 0
    Drained n total s = (length s.gateway.schedule < n) × (told s ≡ total)

    drain_and_settle-Returns :
        (n : ℕ) (r : Replay World)
        → length (drain_due (now_of env r) r.gateway).1.schedule < n
        → Returns (Drained n (told r)) (drain_and_settle env r)
    unfolding drain drain_due
    drain_and_settle-Returns n r h =
        let now = now_of env r in
        let out : List Published = (drain_due now r.gateway).0 in
        let g : Gateway = (drain_due now r.gateway).1 in
        let kept : Replay World → Type 0 =
          λ s. (s.clock ≡ r.clock) × (s.gateway ≡ g) × (log_of s ≡ log_of r ++ out) in
        Returns-bind (λ p. kept p.1) (Drained n (told r)) (drain env r) _
          (Returns-bind kept (λ p. kept p.1) (publish_all env out (record r { gateway = g })) _
            (publish_all-Returns out (record r { gateway = g })) (λ s k. k))
          (λ p (_, same, logged).
            let (still, quietly) = settle-idle p.1 in
            let at : (settle env p.1).gateway ≡ g = still ∙ same in
            (
              subst (λ (g' : Gateway). length g'.schedule < n) (sym at) h,
              ap (λ (g' : Gateway). log_of (settle env p.1) ++ events g'.schedule) at
                  ∙ ap (λ (l : List Published). l ++ events g.schedule) (quietly ∙ logged)
                  ∙ append_assoc (log_of r) out (events g.schedule)
                  ∙ ap (λ (l : List Published). log_of r ++ l)
                      (drain-events now r.gateway.schedule),
            ))

    -- The clock may be set to the time of the head, and is if it is not there yet.
    catch_up-Returns :
        (due : Timestamp) (r : Replay World)
        → Returns
            (λ s. (due ≤ now_of env s) × (s.gateway ≡ r.gateway) × (log_of s ≡ log_of r))
            (if ltb (now_of env r) due then set_clock env due r else done r)
    unfolding set_time
    catch_up-Returns due r = elim (Bool-cases (ltb (now_of env r) due)) [
      | inl later ↦
          let ahead : ltb due (now_of env r) ≡ false = ground (arith, later) in
          rw (later, ahead, Returns) (omega arith, refl, refl)
      | inr reached ↦ rw (reached, Returns) (ground (arith, reached), refl, refl)
    ]

    -- Once the data is over, if the bus takes every event and nobody acts on any, the drain ends with
    -- an empty schedule, with as much fuel as the schedule is long and one more, and it has published
    -- the events of the whole schedule, each once and in the order of the schedule, and no other.
    pub drain_remaining-Returns :
        (fuel : ℕ) (r : Replay World)
        → length r.gateway.schedule < fuel
        → Returns
            (λ s.
              (s.gateway.schedule ≡ []) × (log s.world ≡ log r.world ++ events r.gateway.schedule))
            (drain_remaining env fuel r)
    unfolding drain_remaining drain_due
    drain_remaining-Returns zero r h = absurd (omega (arith, h))
    drain_remaining-Returns (suc fuel) r h = elim (next_due_cases r.gateway.schedule) [
      | inl (nothing, empty) ↦
          rw (nothing, Returns)
            (empty, sym (ap (λ l. log_of r ++ events l) empty ∙ append_nil (log_of r)))
      | inr (x, ys, next, whole) ↦
          rw (next, Returns)
            (Returns-bind
              (λ s. (x.due_ns ≤ now_of env s) × (s.gateway ≡ r.gateway) × (log_of s ≡ log_of r)) _ _
              _ (catch_up-Returns x.due_ns r)
              (λ s (reached, same, quietly).
                let shape : s.gateway.schedule ≡ x ∷ ys =
                  ap (λ (g : Gateway). g.schedule) same ∙ whole in
                let less : length ys < fuel = omega (arith, h, ap (length {A = Scheduled}) whole) in
                let kept : told s ≡ told r =
                  ap (λ (l : List Published). l ++ events s.gateway.schedule) quietly
                  ∙ ap (λ (g : Gateway). log_of r ++ events g.schedule) same in
                Returns-bind (Drained fuel (told s)) _ (drain_and_settle env s) _
                  (drain_and_settle-Returns fuel s (
                    subst (λ l. length (Schedule.drain (now_of env s) l).1 < fuel) (sym shape)
                      (omega (arith, less, length-drain_head (now_of env s) x ys reached))))
                  (λ t (short, all).
                    subst
                      (λ (l : List Published).
                        Returns (λ u. (u.gateway.schedule ≡ []) × (log_of u ≡ l))
                          (drain_remaining env fuel t))
                      (all ∙ kept) (drain_remaining-Returns fuel t short))))
    ]
