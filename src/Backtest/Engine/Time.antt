-- ===== src/Backtest/Engine/Time.antt =====
-- backtest/engine.py with core/clock.py and backtest/order_gateway.py: simulated time only moves on.
use qf635project.Base.{
  ℕ, zero, suc, ◌+◌, ◌≤◌, ◌<◌, ◌≡◌, refl, ◌∙◌, sym, ap, true, false, List, [], ◌∷◌, ◌++◌, All,
  All-map, ltb, Bool-cases, Option-cases, inl, inr, if-elim, if◌then◌else◌, arith,
}
use mathlib.Core.Path.{subst}
use qf635project.Core.{Timestamp}
use qf635project.Venue.Simulation.{Published}
use qf635project.Backtest.Clock.{SimulatedClock, set_time}
use qf635project.Backtest.Schedule
use qf635project.Backtest.Schedule.{Scheduled, next_due_ns, before}
use qf635project.Backtest.Schedule.Sorted.{next_due_cases, IsSorted, before-due, drain_lem}
use qf635project.Backtest.Gateway.{Gateway, drain_due}
use qf635project.Backtest.Gateway.Keeps.{OnTime, on_order_event-OnTime, on_market_data-OnTime}
use qf635project.Backtest.Engine.{
  Delivery, order, data_of, DataEvent, Env, Replay, Result, done, clock_backwards, backpressure,
  out_of_fuel, ◌>>=◌, now_of, deliver, settle, set_clock, publish_all, drain, drain_and_settle,
  drain_up_to, drain_ready, drain_remaining, mark_and_report, maybe_snapshot, publish_data,
  replay_event, replay_loop, run,
}

-- The clock did not raise, and what is done satisfies `P`.
abbrev pub Ensures : {A : Type 0} → (A → Type 0) → Result A → Type 0
Ensures P (done a) = P a
Ensures P clock_backwards = ⊥
Ensures P backpressure = Unit {0}
Ensures P out_of_fuel = Unit {0}

pub Ensures-bind :
    {A B : Type 0} (P : A → Type 0) (Q : B → Type 0) (m : Result A) (f : A → Result B)
    → Ensures P m
    → ((a : A) → P a → Ensures Q (f a))
    → Ensures Q (m >>= f)
Ensures-bind P Q (done a) f h k = k a h
Ensures-bind P Q clock_backwards f h k = absurd h
Ensures-bind P Q backpressure f h k = tt
Ensures-bind P Q out_of_fuel f h k = tt

pub Ensures-map :
    {A : Type 0} (P Q : A → Type 0) (m : Result A)
    → Ensures P m
    → ((a : A) → P a → Q a)
    → Ensures Q m
Ensures-map P Q (done a) h k = k a h
Ensures-map P Q clock_backwards h k = absurd h
Ensures-map P Q backpressure h k = tt
Ensures-map P Q out_of_fuel h k = tt

All-suffix : (P : Scheduled → Type 0) (xs ys : List Scheduled) → All P (xs ++ ys) → All P ys
All-suffix P [] ys h = h
All-suffix P (x ∷ xs) ys h = All-suffix P xs ys h.1

IsSorted-suffix : (xs ys : List Scheduled) → IsSorted (xs ++ ys) → IsSorted ys
IsSorted-suffix [] ys h = h
IsSorted-suffix (x ∷ xs) ys h = IsSorted-suffix xs ys h.1

-- In a sorted schedule nothing is due before its head.
head_first :
    (x : Scheduled) (ys : List Scheduled)
    → IsSorted (x ∷ ys)
    → All (λ y. x.due_ns ≤ y.due_ns) (x ∷ ys)
head_first x ys v = (
  omega arith,
  All-map (λ y. before x y ≡ true) (λ y. x.due_ns ≤ y.due_ns) (λ y b. before-due x y b) ys v.0,
)

module _ {World : Type 0} (env : Env World) where
  -- The schedule is on time for the clock.
  abbrev pub InTime : Replay World → Type 0
  InTime r = OnTime (now_of env r) r.gateway

  deliver-OnTime :
      (now : Timestamp) (ds : List Delivery) (g : Gateway)
      → OnTime now g
      → OnTime now (deliver env now ds g)
  unfolding deliver
  deliver-OnTime now [] g v = v
  deliver-OnTime now (order ev ∷ ds) g v =
      deliver-OnTime now ds _ (on_order_event-OnTime env.config env.rng now ev g v)
  deliver-OnTime now (data_of d ∷ ds) g v =
      deliver-OnTime now ds _ (on_market_data-OnTime env.config env.rng now d g v)

  -- A replay at the time of another, and in time if that is.
  abbrev Keeps : Replay World → Replay World → Type 0
  Keeps r r' = (now_of env r' ≡ now_of env r) × InTime r'

  pub settle-Keeps : (r : Replay World) → InTime r → Keeps r (settle env r)
  unfolding settle
  settle-Keeps r v = (refl, deliver-OnTime (now_of env r) _ r.gateway v)

  publish_all-Ensures :
      (evs : List Published) (r : Replay World)
      → Ensures (λ r'. (r'.clock ≡ r.clock) × (r'.gateway ≡ r.gateway)) (publish_all env evs r)
  unfolding publish_all
  publish_all-Ensures [] r = (refl, refl)
  publish_all-Ensures (ev ∷ evs) r = elim (Option-cases (env.take ev r.world)) [
    | inl full ↦ rw (full, Ensures) tt
    | inr (w, taken) ↦ rw (taken, Ensures) (publish_all-Ensures evs (record r { world = w }))
  ]

  drain_due-OnTime : (now : Timestamp) (g : Gateway) → OnTime now g → OnTime now (drain_due now g).1
  unfolding drain_due
  drain_due-OnTime now g v =
      let (taken, whole, out, past, future) = drain_lem now g.schedule v.sorted in
      let rest = (Schedule.drain now g.schedule).1 in
      record {
        sorted = IsSorted-suffix taken rest (subst IsSorted whole v.sorted);
        numbered = All-suffix _ taken rest (subst (All (λ x. x.seq < g.seq)) whole v.numbered);
        ahead = All-suffix _ taken rest (subst (All (λ x. now ≤ x.due_ns)) whole v.ahead);
      }

  drain-Ensures : (r : Replay World) → InTime r → Ensures (λ p. Keeps r p.1) (drain env r)
  unfolding drain
  drain-Ensures r v =
      let (out, g) = drain_due (now_of env r) r.gateway in
      Ensures-bind
        (λ r'. (r'.clock ≡ r.clock) × (r'.gateway ≡ (drain_due (now_of env r) r.gateway).1))
        (λ p. Keeps r p.1)
        (publish_all env (drain_due (now_of env r) r.gateway).0
          (record r { gateway = (drain_due (now_of env r) r.gateway).1 }))
        _
        (publish_all-Ensures (drain_due (now_of env r) r.gateway).0
          (record r { gateway = (drain_due (now_of env r) r.gateway).1 }))
        (λ r' (same, kept). (
          ap (λ (c : SimulatedClock). c.now_ns) same,
          subst (λ (c : SimulatedClock). OnTime c.now_ns r'.gateway) (sym same)
              (subst (OnTime (now_of env r)) (sym kept)
                (drain_due-OnTime (now_of env r) r.gateway v)),
        ))

  drain_and_settle-Ensures :
      (r : Replay World) → InTime r → Ensures (Keeps r) (drain_and_settle env r)
  unfolding settle
  drain_and_settle-Ensures r v =
      Ensures-bind (λ p. Keeps r p.1) (Keeps r) (drain env r) (λ p. done (settle env p.1))
        (drain-Ensures r v) (λ p (same, w). (same, (settle-Keeps p.1 w).1))

  -- A replay that may be moved to the time `target`.
  abbrev Ready : Timestamp → Replay World → Type 0
  Ready target r =
      (now_of env r ≤ target) × InTime r × All (λ x. target ≤ x.due_ns) r.gateway.schedule

  set_clock-Ensures :
      (target : Timestamp) (r : Replay World)
      → Ready target r
      → Ensures (λ s. (now_of env s ≡ target) × InTime s) (set_clock env target r)
  unfolding set_time
  set_clock-Ensures target r v =
      let reached : ltb target (now_of env r) ≡ false = ground (arith, v.0) in
      rw (reached, Ensures)
        (refl, record { sorted = v.1.sorted; numbered = v.1.numbered; ahead = v.2 })

  -- The clock may be moved to the time of the head of the schedule.
  head-Ready :
      (r : Replay World) (x : Scheduled) (ys : List Scheduled)
      → r.gateway.schedule ≡ x ∷ ys
      → InTime r
      → Ready x.due_ns r
  head-Ready r x ys whole v = (
    (subst (All (λ y. now_of env r ≤ y.due_ns)) whole v.ahead).0,
    v,
    subst (All (λ y. x.due_ns ≤ y.due_ns)) (sym whole)
        (head_first x ys (subst IsSorted whole v.sorted)),
  )

  drain_up_to-Ensures :
      (fuel : ℕ) (target : Timestamp) (r : Replay World)
      → now_of env r ≤ target
      → InTime r
      → Ensures (Ready target) (drain_up_to env fuel target r)
  unfolding drain_up_to
  drain_up_to-Ensures zero target r h v = tt
  drain_up_to-Ensures (suc fuel) target r h v = elim (next_due_cases r.gateway.schedule) [
    | inl (nothing, empty) ↦
        rw (nothing, Ensures) (h, v, subst (All (λ x. target ≤ x.due_ns)) (sym empty) tt)
    | inr (x, ys, next, whole) ↦
        let ready : Ready x.due_ns r = head-Ready r x ys whole v in
        rw (next, Ensures)
          (elim (Bool-cases (ltb target x.due_ns)) [
            | inl later ↦
                rw (later, Ensures)
                  (
                    h,
                    v,
                    All-map (λ y. x.due_ns ≤ y.due_ns) (λ y. target ≤ y.due_ns)
                        (λ y k. ground (arith, later, k)) r.gateway.schedule ready.2,
                  )
            | inr due ↦
                rw (due, Ensures)
                  (Ensures-bind _ (Ready target) (set_clock env x.due_ns r) _
                    (set_clock-Ensures x.due_ns r ready)
                    (λ s (at, w).
                      Ensures-bind (Keeps s) (Ready target) (drain_and_settle env s) _
                        (drain_and_settle-Ensures s w)
                        (λ t (same, u).
                          drain_up_to-Ensures fuel target t (ground (arith, same, at, due)) u)))
          ])
  ]

  drain_ready-Ensures :
      (fuel : ℕ) (r : Replay World) → InTime r → Ensures (Keeps r) (drain_ready env fuel r)
  unfolding drain_ready
  drain_ready-Ensures zero r v = tt
  drain_ready-Ensures (suc fuel) r v =
      Ensures-bind (λ p. Keeps r p.1) (Keeps r) (drain env r) _ (drain-Ensures r v)
        (λ p (same, w).
          elim p.0
            as (λ out.
              Ensures (Keeps r)
                (elim out [ [] ↦ done p.1 | _ ∷ _ ↦ drain_ready env fuel (settle env p.1) ])) [
                  | [] ↦ (same, w)
                  | _ ∷ _ ↦
                      let (kept, u) = settle-Keeps p.1 w in
                      Ensures-map (Keeps (settle env p.1)) (Keeps r)
                        (drain_ready env fuel (settle env p.1))
                        (drain_ready-Ensures fuel (settle env p.1) u)
                        (λ t (last, x). (last ∙ kept ∙ same, x))
                ])

  mark_and_report-Keeps : (r : Replay World) → InTime r → Keeps r (mark_and_report env r)
  unfolding mark_and_report
  mark_and_report-Keeps r v =
      let (same, w) = settle-Keeps (record r { world = env.mark (now_of env r) r.world }) v in
      let s = settle env (record r { world = env.mark (now_of env r) r.world }) in
      let (kept, u) = settle-Keeps (record s { world = env.report (now_of env s) s.world }) w in
      (kept ∙ same, u)

  maybe_snapshot-Keeps : (r : Replay World) → InTime r → Keeps r (maybe_snapshot env r)
  unfolding maybe_snapshot
  maybe_snapshot-Keeps r v =
      if-elim (Keeps r) (ltb (now_of env r) (r.last_snapshot_ns + env.snapshot_interval_ns)) _ _
        (λ _. (refl, v))
        (λ _. mark_and_report-Keeps (record r { last_snapshot_ns = now_of env r }) v)

  publish_data-Ensures :
      (ev : DataEvent) (r : Replay World) → InTime r → Ensures (Keeps r) (publish_data env ev r)
  publish_data-Ensures ev r v =
      if-elim (Ensures (Keeps r)) ev.has_topic _ _
        (λ _. elim (Option-cases (env.take_data ev r.world)) [
          | inl full ↦ rw (full, Ensures) tt
          | inr (w, taken) ↦ rw (taken, Ensures) (settle-Keeps (record r { world = w }) v)
        ])
        (λ _. (refl, v))

  -- A replay that has got to the time `now`.
  abbrev At : Timestamp → Replay World → Type 0
  At now r = (now_of env r ≡ now) × InTime r

  replay_event-Ensures :
      (fuel : ℕ) (ev : DataEvent) (r : Replay World)
      → now_of env r ≤ ev.ts_event
      → InTime r
      → Ensures (At ev.ts_event) (replay_event env fuel ev r)
  unfolding replay_event
  replay_event-Ensures fuel ev r h v =
      let at_time : Replay World → Type 0 = At ev.ts_event in
      Ensures-bind (Ready ev.ts_event) at_time (drain_up_to env fuel ev.ts_event r) _
        (drain_up_to-Ensures fuel ev.ts_event r h v)
        (λ s ready.
          Ensures-bind at_time at_time (set_clock env ev.ts_event s) _
            (set_clock-Ensures ev.ts_event s ready)
            (λ t (at, w).
              Ensures-bind (Keeps t) at_time (publish_data env ev t) _ (publish_data-Ensures ev t w)
                (λ u (same, x).
                  Ensures-bind (Keeps u) at_time (drain_ready env fuel u) _
                    (drain_ready-Ensures fuel u x)
                    (λ y (kept, z).
                      let (last, end) = maybe_snapshot-Keeps y z in
                      (last ∙ kept ∙ same ∙ at, end)))))

  -- The data is in the order of its time, and no event is from before `now`.
  abbrev pub Chronological : Timestamp → List DataEvent → Type 0
  Chronological now [] = Unit {0}
  Chronological now (ev ∷ evs) = (now ≤ ev.ts_event) × Chronological ev.ts_event evs

  replay_loop-Ensures :
      (fuel : ℕ) (evs : List DataEvent) (r : Replay World)
      → Chronological (now_of env r) evs
      → InTime r
      → Ensures InTime (replay_loop env fuel evs r)
  unfolding replay_loop
  replay_loop-Ensures fuel [] r c v = v
  replay_loop-Ensures fuel (ev ∷ evs) r c v =
      Ensures-bind (At ev.ts_event) InTime (replay_event env fuel ev r) _
        (replay_event-Ensures fuel ev r c.0 v)
        (λ s (at, w).
          replay_loop-Ensures fuel evs s (subst (λ now. Chronological now evs) (sym at) c.1) w)

  catch_up-Ensures :
      (r : Replay World) (x : Scheduled) (ys : List Scheduled)
      → r.gateway.schedule ≡ x ∷ ys
      → InTime r
      → Ensures InTime (if ltb (now_of env r) x.due_ns then set_clock env x.due_ns r else done r)
  catch_up-Ensures r x ys whole v =
      if-elim (Ensures InTime) (ltb (now_of env r) x.due_ns) _ _
        (λ _.
          Ensures-map (At x.due_ns) InTime (set_clock env x.due_ns r)
            (set_clock-Ensures x.due_ns r (head-Ready r x ys whole v)) (λ s h. h.1))
        (λ _. v)

  drain_remaining-Ensures :
      (fuel : ℕ) (r : Replay World) → InTime r → Ensures InTime (drain_remaining env fuel r)
  unfolding drain_remaining
  drain_remaining-Ensures zero r v = tt
  drain_remaining-Ensures (suc fuel) r v = elim (next_due_cases r.gateway.schedule) [
    | inl (nothing, empty) ↦ rw (nothing, Ensures) v
    | inr (x, ys, next, whole) ↦
        rw (next, Ensures)
          (Ensures-bind InTime InTime
            (if ltb (now_of env r) x.due_ns then set_clock env x.due_ns r else done r) _
            (catch_up-Ensures r x ys whole v)
            (λ s w.
              Ensures-bind (Keeps s) InTime (drain_and_settle env s) _
                (drain_and_settle-Ensures s w) (λ t u. drain_remaining-Ensures fuel t u.1)))
  ]

  -- A run over data in the order of its time, whatever the subscribers do, never sets the clock back,
  -- and if it gets to its end, its schedule is in order and holds nothing that is overdue.
  pub run-InTime :
      (fuel : ℕ) (evs : List DataEvent) (r : Replay World)
      → Chronological (now_of env r) evs
      → InTime r
      → Ensures InTime (run env fuel evs r)
  unfolding run
  run-InTime fuel evs r c v =
      Ensures-bind InTime InTime (replay_loop env fuel evs r) _ (replay_loop-Ensures fuel evs r c v)
        (λ s w.
          Ensures-bind InTime InTime (drain_remaining env fuel s) _
            (drain_remaining-Ensures fuel s w) (λ t u. (mark_and_report-Keeps t u).1))
