-- ===== src/Bus/Asyncio.antt =====
-- event_bus/asyncio_bus.py: a queue and a consumer task for every subscription. A topic is a number. A
-- handler is known by the events that it was called with; that it raises changes nothing, since the
-- consumer goes on. The tasks are interleaved as the inputs say.
pub mod Served
pub mod Delivery
use qf635project.Base.{
  ℕ, zero, suc, Bool, true, false, Option, none, some, List, [], ◌∷◌, ◌++◌, ◌&&◌, ◌||◌, not, leb,
  length, map, if◌then◌else◌,
}
use qf635project.Base.Dict.{Dict, number_eq, lookup_or, insert, map_values}

-- The consumer task of a subscription.
pub data Task : Type 0 where
  absent : Task
  consuming : Task
  finished : Task

-- An entry of the queue is an event, or none for `_SHUTDOWN`; `signalled` is the place of the loop in
-- `stop`, which has put the sentinel.
pub record Subscription (Event : Type 0) : Type 0 where
  pub queue : List (Option Event)
  pub task : Task
  pub handled : List Event
  pub signalled : Bool

pub record AsyncioBus (Event : Type 0) : Type 0 where
  pub queue_size : ℕ
  pub subscribers : Dict ℕ (List (Subscription Event))
  pub running : Bool
  pub stopped : Bool

-- What a call ends with: it returns, or raises EventBusError or BackpressureError.
pub data Outcome : Type 0 where
  returned : Outcome
  bus_stopped : Outcome
  backpressure : Outcome

abbrev pub started : Task → Task
started absent = consuming
started consuming = consuming
started finished = finished

abbrev pub is_consuming : Task → Bool
is_consuming absent = false
is_consuming consuming = true
is_consuming finished = false

module _ {Event : Type 0} where
  abbrev pub opened : ℕ → AsyncioBus Event
  opened queue_size = record {
    queue_size = queue_size;
    subscribers = [];
    running = false;
    stopped = false;
  }

  abbrev pub subscriptions : ℕ → AsyncioBus Event → List (Subscription Event)
  subscriptions topic b = lookup_or topic [] b.subscribers

  abbrev pub is_full : ℕ → Subscription Event → Bool
  is_full queue_size s = leb queue_size (length s.queue)

  abbrev pub enqueue : Option Event → Subscription Event → Subscription Event
  enqueue entry s = record s { queue = s.queue ++ (entry ∷ []) }

  -- The loop of `publish`: it stops at the first queue that is full.
  unfoldable pub put_all :
      ℕ → Event → List (Subscription Event) → List (Subscription Event) × Outcome
  put_all queue_size event [] = ([], returned)
  put_all queue_size event (s ∷ ss) =
      let (rest, outcome) = put_all queue_size event ss in
      if is_full queue_size s
      then (s ∷ ss, backpressure)
      else (enqueue (some event) s ∷ rest, outcome)

  unfoldable pub publish : ℕ → Event → AsyncioBus Event → AsyncioBus Event × Outcome
  publish topic event b =
      if b.stopped
      then (b, bus_stopped)
      else let (ss, outcome) = put_all b.queue_size event (subscriptions topic b) in
        (record b { subscribers = insert topic ss b.subscribers }, outcome)

  -- A subscription after the start has its consumer at once.
  unfoldable pub subscribe : ℕ → AsyncioBus Event → AsyncioBus Event × Outcome
  subscribe topic b =
      if b.stopped
      then (b, bus_stopped)
      else let s : Subscription Event = record {
        queue = [];
        task = if b.running then consuming else absent;
        handled = [];
        signalled = false;
      } in
        (
          record b { subscribers = insert topic (subscriptions topic b ++ (s ∷ [])) b.subscribers },
          returned,
        )

  unfoldable pub subscribe_many : List ℕ → AsyncioBus Event → AsyncioBus Event × Outcome
  subscribe_many [] b = (b, returned)
  subscribe_many (topic ∷ topics) b =
      let (b', outcome) = subscribe topic b in
      elim outcome [
        | returned ↦ subscribe_many topics b'
        | bus_stopped ↦ (b', bus_stopped)
        | backpressure ↦ (b', backpressure)
      ]

  abbrev pub launch : Subscription Event → Subscription Event
  launch s = record s { task = started s.task }

  unfoldable pub start : AsyncioBus Event → AsyncioBus Event
  start b =
      if b.running || b.stopped
      then b
      else record b { running = true; subscribers = map_values (map launch) b.subscribers }

  -- `stop` up to its first wait.
  unfoldable pub begin_stop : AsyncioBus Event → AsyncioBus Event
  begin_stop b = if b.stopped then b else record b { stopped = true; running = false }

  -- `await sub.queue.put(_SHUTDOWN)`, which waits while the queue is full.
  unfoldable pub signal : ℕ → Subscription Event → Subscription Event
  signal queue_size s =
      if is_consuming s.task && not s.signalled && not (is_full queue_size s)
      then record (enqueue none s) { signalled = true }
      else s

  abbrev pub take_next : List (Option Event) → Subscription Event → Subscription Event
  take_next [] s = s
  take_next (none ∷ queue) s = record s { queue = queue; task = finished }
  take_next (some event ∷ queue) s = record s { queue = queue; handled = s.handled ++ (event ∷ []) }

  -- A turn of `_consume`, when the task runs and its queue has an entry.
  unfoldable pub consume : Subscription Event → Subscription Event
  consume s = if is_consuming s.task then take_next s.queue s else s

  -- `task.cancel()`, for the tasks that are not done in time.
  abbrev pub cancel : Subscription Event → Subscription Event
  cancel s = record s { task = finished }

  -- The end of `stop`.
  abbrev pub clear : AsyncioBus Event → AsyncioBus Event
  clear b = record b { subscribers = [] }

  abbrev pub queue_depth : ℕ → AsyncioBus Event → List ℕ
  queue_depth topic b = map (λ s. length s.queue) (subscriptions topic b)

  abbrev pub subscriber_count : ℕ → AsyncioBus Event → ℕ
  subscriber_count topic b = length (subscriptions topic b)

  unfoldable pub modify :
      ℕ
      → (Subscription Event → Subscription Event)
      → List (Subscription Event)
      → List (Subscription Event)
  modify k f [] = []
  modify zero f (s ∷ ss) = f s ∷ ss
  modify (suc k) f (s ∷ ss) = s ∷ modify k f ss

  -- A step of one subscription's task.
  unfoldable pub modify_at :
      ℕ → ℕ → (Subscription Event → Subscription Event) → AsyncioBus Event → AsyncioBus Event
  modify_at topic k f b = record b {
    subscribers = insert topic (modify k f (subscriptions topic b)) b.subscribers;
  }
