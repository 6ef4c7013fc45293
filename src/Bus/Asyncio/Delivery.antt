-- ===== src/Bus/Asyncio/Delivery.antt =====
-- event_bus/asyncio_bus.py: every handler gets the events of its topic, each once and in their order.
use qf635project.Base.{
  ℕ, ◌≡◌, refl, sym, ◌∙◌, true, false, List, [], ◌∷◌, ◌++◌, ◌||◌, ◌==◌, map, All, Bool-cases, inl,
  inr, if-elim, if◌then◌else◌, arith,
}
use mathlib.Core.Path.{subst}
use qf635project.Base.Dict.{
  Dict, number_eq, ==_iff, lookup_or, insert, lookup_or-insert, lookup_or-map_values,
}
use qf635project.Bus.Asyncio
use qf635project.Bus.Asyncio.{
  Task, Subscription, AsyncioBus, Outcome, returned, bus_stopped, backpressure, opened,
  subscriptions, is_full, enqueue, put_all, launch, is_consuming, signal, take_next, consume,
  cancel, modify, modify_at,
}
use qf635project.Bus.Asyncio.Served.{
  Gets, Served, Gets-refl, Served-refl, Served-trans, Drains, all-Drains, put_all-Served,
  signal-Gets, consume-Gets, modify-Served, subscribed-Served, launch-Served,
}

-- A call of the bus before `stop` forgets the subscriptions, or a step of a task; the steps are those of the k-th subscription of a topic.
pub data Input (Event : Type 0) : Type 0 where
  publish : ℕ → Event → Input Event
  subscribe : ℕ → Input Event
  start : Input Event
  stop : Input Event
  signalled : (topic k : ℕ) → Input Event
  consumed : (topic k : ℕ) → Input Event
  cancelled : (topic k : ℕ) → Input Event

bus_stopped_differs : bus_stopped ≡ returned → ⊥
bus_stopped_differs h = cc

module _ {Event : Type 0} where
  abbrev pub step : Input Event → AsyncioBus Event → AsyncioBus Event × Outcome
  step (publish topic event) b = Asyncio.publish topic event b
  step (subscribe topic) b = Asyncio.subscribe topic b
  step start b = (Asyncio.start b, returned)
  step stop b = (Asyncio.begin_stop b, returned)
  step (signalled topic k) b = (modify_at topic k (signal b.queue_size) b, returned)
  step (consumed topic k) b = (modify_at topic k consume b, returned)
  step (cancelled topic k) b = (modify_at topic k cancel b, returned)

  abbrev pub run : List (Input Event) → AsyncioBus Event → AsyncioBus Event
  run [] b = b
  run (i ∷ is) b = run is (step i b).0

  -- No call raises.
  abbrev pub Taken : List (Input Event) → AsyncioBus Event → Type 0
  Taken [] b = Unit {0}
  Taken (i ∷ is) b = ((step i b).1 ≡ returned) × Taken is (step i b).0

  abbrev pub event_on : ℕ → Input Event → List Event
  event_on topic (publish t event) = if topic == t then event ∷ [] else []
  event_on topic (subscribe _) = []
  event_on topic start = []
  event_on topic stop = []
  event_on topic (signalled _ _) = []
  event_on topic (consumed _ _) = []
  event_on topic (cancelled _ _) = []

  abbrev pub published_on : ℕ → List (Input Event) → List Event
  published_on topic [] = []
  published_on topic (i ∷ is) = event_on topic i ++ published_on topic is

  -- Every topic's subscriptions have been served what `events` says, from one bus to a later one.
  abbrev pub Serves : (ℕ → List Event) → AsyncioBus Event → AsyncioBus Event → Type 0
  Serves events b b' =
      (b'.queue_size ≡ b.queue_size)
      × ((topic : ℕ)
          → Served b.queue_size (events topic) (subscriptions topic b) (subscriptions topic b'))

  Serves-refl : (b : AsyncioBus Event) → Serves (λ topic. []) b b
  Serves-refl b = (refl, λ topic. Served-refl b.queue_size (subscriptions topic b))

  -- What holds of the list of every topic holds after one of them is written.
  insert-each :
      (P : ℕ → List (Subscription Event) → Type 0) (t : ℕ) (ss : List (Subscription Event))
      (d : Dict ℕ (List (Subscription Event)))
      → P t ss
      → ((topic : ℕ) → (topic == t) ≡ false → P topic (lookup_or topic [] d))
      → (topic : ℕ) → P topic (lookup_or topic [] (insert t ss d))
  insert-each P t ss d new old topic =
      subst (P topic) (sym (lookup_or-insert topic t [] ss d)) (elim (Bool-cases (topic == t)) [
        | inl same ↦ rw same (subst (λ k. P k ss) (sym ((==_iff topic t).0 same)) new)
        | inr other ↦ rw other (old topic other)
      ])

  -- One topic's list is written, with nothing more for the others.
  insert-Served :
      (t : ℕ) (ss : List (Subscription Event)) (b : AsyncioBus Event)
      → Served b.queue_size [] (subscriptions t b) ss
      → (topic : ℕ)
      → Served b.queue_size []
          (subscriptions topic b)
          (lookup_or topic [] (insert t ss b.subscribers))
  insert-Served t ss b h =
      insert-each (λ topic. Served b.queue_size [] (subscriptions topic b)) t ss b.subscribers h
        (λ topic _. Served-refl b.queue_size (subscriptions topic b))

  modify_at-Serves :
      (t k : ℕ) (f : Subscription Event → Subscription Event) (b : AsyncioBus Event)
      → ((s : Subscription Event) → Gets b.queue_size [] s (f s))
      → Serves (λ topic. []) b (modify_at t k f b)
  unfolding modify_at
  modify_at-Serves t k f b h = (
    refl,
    insert-Served t (modify k f (subscriptions t b)) b
        (modify-Served b.queue_size k f (subscriptions t b) h),
  )

  publish-Serves :
      (t : ℕ) (event : Event) (b : AsyncioBus Event)
      → (Asyncio.publish t event b).1 ≡ returned
      → Serves (λ topic. event_on topic (publish t event)) b (Asyncio.publish t event b).0
  unfolding Asyncio.publish
  publish-Serves t event b h = elim (Bool-cases b.stopped) [
    | inl down ↦
        let refused : (Asyncio.publish t event b).1 ≡ bus_stopped = rw down refl in
        absurd (bus_stopped_differs (sym refused ∙ h))
    | inr up ↦
        let put : List (Subscription Event) × Outcome =
          put_all b.queue_size event (subscriptions t b) in
        let same : (Asyncio.publish t event b).1 ≡ put.1 = rw up refl in
        let self : (t == t) ≡ true = ground arith in
        rw up (
          refl,
          insert-each
              (λ topic.
                Served b.queue_size (event_on topic (publish t event)) (subscriptions topic b))
              t put.0 b.subscribers
              (rw self (put_all-Served b.queue_size event (subscriptions t b) (sym same ∙ h)))
              (λ topic other. rw other (Served-refl b.queue_size (subscriptions topic b))),
        )
  ]

  subscribe-Serves :
      (t : ℕ) (b : AsyncioBus Event) → Serves (λ topic. []) b (Asyncio.subscribe t b).0
  unfolding Asyncio.subscribe
  subscribe-Serves t b = elim (Bool-cases b.stopped) [
    | inl down ↦ rw down (Serves-refl b)
    | inr up ↦ rw up (
      refl,
      insert-Served t _ b (subscribed-Served b.queue_size _ (subscriptions t b) (omega arith)),
    )
  ]

  start-Serves : (b : AsyncioBus Event) → Serves (λ topic. []) b (Asyncio.start b)
  unfolding Asyncio.start
  start-Serves b =
      if-elim (Serves (λ topic. []) b) (b.running || b.stopped) b _ (λ _. Serves-refl b)
        (λ _. (
          refl,
          λ topic.
              subst (Served b.queue_size [] (subscriptions topic b))
                (sym (lookup_or-map_values (map launch) topic [] b.subscribers refl))
                (launch-Served b.queue_size (subscriptions topic b)),
        ))

  stop-Serves : (b : AsyncioBus Event) → Serves (λ topic. []) b (Asyncio.begin_stop b)
  unfolding Asyncio.begin_stop
  stop-Serves b =
      if-elim (Serves (λ topic. []) b) b.stopped b _ (λ _. Serves-refl b) (λ _. Serves-refl b)

  step-Serves :
      (i : Input Event) (b : AsyncioBus Event)
      → (step i b).1 ≡ returned
      → Serves (λ topic. event_on topic i) b (step i b).0
  step-Serves (publish t event) b h = publish-Serves t event b h
  step-Serves (subscribe t) b h = subscribe-Serves t b
  step-Serves start b h = start-Serves b
  step-Serves stop b h = stop-Serves b
  step-Serves (signalled t k) b h =
      modify_at-Serves t k (signal b.queue_size) b (signal-Gets b.queue_size)
  step-Serves (consumed t k) b h = modify_at-Serves t k consume b (consume-Gets b.queue_size)
  step-Serves (cancelled t k) b h = modify_at-Serves t k cancel b (Gets-refl b.queue_size)

  run_calls-Serves :
      (is : List (Input Event)) (b : AsyncioBus Event)
      → Taken is b
      → Serves (λ topic. published_on topic is) b (run is b)
  run_calls-Serves [] b h = Serves-refl b
  run_calls-Serves (i ∷ is) b h =
      let (size, now) = step-Serves i b h.0 in
      let (same, later) = run_calls-Serves is (step i b).0 h.1 in
      (
        same ∙ size,
        λ topic.
            Served-trans b.queue_size (event_on topic i) (published_on topic is)
              (subscriptions topic b) (subscriptions topic (step i b).0)
              (subscriptions topic (run is (step i b).0)) (now topic)
              (subst
                (λ n.
                  Served n (published_on topic is) (subscriptions topic (step i b).0)
                    (subscriptions topic (run is (step i b).0)))
                size (later topic)),
      )

  -- In a run of the bus in which no call raises, however its tasks are interleaved, every subscription
  -- that was there at the start has in the end been called with, and then still has in its queue, what it
  -- had at the start and then exactly the events that were published on its topic, each once and in
  -- their order, and no queue that was within the size gets longer. Every subscription whose consumer
  -- runs then calls its handler, in as many turns as its queue has entries, with what the queue holds
  -- ahead of the sentinel of a shutdown, and with all of it where there is no sentinel.
  pub run-Serves :
      (is : List (Input Event)) (b : AsyncioBus Event)
      → Taken is b
      → Serves (λ topic. published_on topic is) b (run is b)
        × ((topic : ℕ) → All Drains (subscriptions topic (run is b)))
  run-Serves is b h =
      (run_calls-Serves is b h, (λ topic. all-Drains (subscriptions topic (run is b))))
