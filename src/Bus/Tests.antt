-- ===== src/Bus/Tests.antt =====
-- event_bus/asyncio_bus.py at concrete inputs: two handlers of the topic 1, with room for two events.
use qf635project.Bus.Asyncio.Served.{Drains}
use qf635project.Base.{All, ℕ, ◌≡◌, refl, some, false, List, [], ◌∷◌}
use qf635project.Bus.Asyncio.{Subscription, AsyncioBus, Outcome, backpressure, consuming, absent}
use qf635project.Bus.Asyncio
use qf635project.Bus.Asyncio.Delivery.{
  Input, publish, subscribe, start, stop, signalled, consumed, run, published_on, Serves,
  run-Serves,
}

abbrev idle : Subscription ℕ
idle = record { queue = []; task = absent; handled = []; signalled = false }

abbrev bus : AsyncioBus ℕ
bus = record {
  queue_size = 2;
  subscribers = (1, idle ∷ idle ∷ []) ∷ [];
  running = false;
  stopped = false;
}

abbrev session : List (Input ℕ)
session =
    publish 1 40
    ∷ start
    ∷ publish 1 41
    ∷ consumed 1 0
    ∷ consumed 1 1
    ∷ subscribe 2
    ∷ publish 2 50
    ∷ publish 1 42
    ∷ stop
    ∷ consumed 1 0
    ∷ signalled 1 0
    ∷ consumed 1 0
    ∷ consumed 1 0
    ∷ []

run-Serves_example :
    Serves (λ topic. published_on topic session) bus (run session bus)
    × ((topic : ℕ) → All Drains (Asyncio.subscriptions topic (run session bus)))
unfolding Asyncio.publish Asyncio.put_all Asyncio.subscribe Asyncio.start Asyncio.begin_stop
    Asyncio.signal Asyncio.consume Asyncio.modify Asyncio.modify_at
run-Serves_example = run-Serves session bus (
  refl,
  (
    refl,
    (refl, (refl, (refl, (refl, (refl, (refl, (refl, (refl, (refl, (refl, (refl, tt))))))))))),
  ),
)

-- A queue that is full stops the publication: the handlers before it have the event, those after not.
abbrev uneven : AsyncioBus ℕ
uneven = record bus {
  subscribers = (1, idle ∷ record idle { queue = some 1 ∷ some 2 ∷ [] } ∷ idle ∷ []) ∷ [];
}

partly_delivered : (Asyncio.publish 1 3 uneven).1 ≡ backpressure
unfolding Asyncio.publish Asyncio.put_all
partly_delivered = refl

depths : Asyncio.queue_depth 1 (Asyncio.publish 1 3 uneven).0 ≡ 1 ∷ 2 ∷ 0 ∷ []
unfolding Asyncio.publish Asyncio.put_all
depths = refl
