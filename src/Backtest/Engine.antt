-- ===== src/Backtest/Engine.antt =====
-- backtest/engine.py: the replay of a data source. What subscribes to the bus, the gateway left out, is
-- a world of its own: it takes what is published, or refuses it (BackpressureError), and while the
-- engine yields it hands the gateway order events and market data.
pub mod Time
pub mod Ends
use qf635project.Base.{
  ℕ, zero, suc, ◌+◌, ◌-◌, Bool, true, false, Option, none, some, List, [], ◌∷◌, ltb, if◌then◌else◌,
}
use qf635project.Core.{Timestamp}
use qf635project.Venue.Matching.{Rng, Config}
use qf635project.Venue.Simulation.{Published, MarketData, OrderEvent}
use qf635project.Backtest.Clock.{SimulatedClock, set_time}
use qf635project.Backtest.Schedule.{next_due_ns}
use qf635project.Backtest.Gateway
use qf635project.Backtest.Gateway.{Gateway, drain_due, on_order_event, on_market_data}

-- What the gateway's two handlers receive.
pub data Delivery : Type 0 where
  order : OrderEvent → Delivery
  data_of : MarketData → Delivery

-- An event of the data source; only some kinds have a topic.
pub record DataEvent : Type 0 where
  pub ts_event : Timestamp
  pub has_topic : Bool
  pub body : MarketData

-- `take` and `take_data` are `bus.publish`; `settle` is a round of yields, `mark` and `report` are
-- those methods of the position engine.
pub record Env (World : Type 0) : Type 0 where
  pub config : Config
  pub rng : Rng
  pub take : Published → World → Option World
  pub take_data : DataEvent → World → Option World
  pub settle : Timestamp → World → List Delivery × World
  pub mark : Timestamp → World → World
  pub report : Timestamp → World → World
  pub snapshot_interval_ns : ℕ

pub record Replay (World : Type 0) : Type 0 where
  pub clock : SimulatedClock
  pub gateway : Gateway
  pub world : World
  pub last_snapshot_ns : Timestamp

-- How a run ends: `set_time` raised, the bus refused an event, or a loop ran out of fuel.
pub data Result (A : Type 0) : Type 0 where
  done : A → Result A
  clock_backwards : Result A
  backpressure : Result A
  out_of_fuel : Result A

infixl 5 ◌>>=◌
abbrev pub ◌>>=◌ : {A B : Type 0} → Result A → (A → Result B) → Result B
done a >>= f = f a
clock_backwards >>= f = clock_backwards
backpressure >>= f = backpressure
out_of_fuel >>= f = out_of_fuel

module _ {World : Type 0} (env : Env World) where
  abbrev pub now_of : Replay World → Timestamp
  now_of r = r.clock.now_ns

  unfoldable pub deliver : Timestamp → List Delivery → Gateway → Gateway
  deliver now [] g = g
  deliver now (order ev ∷ ds) g = deliver now ds (on_order_event env.config env.rng now ev g)
  deliver now (data_of d ∷ ds) g = deliver now ds (on_market_data env.config env.rng now d g)

  -- `_settle`
  unfoldable pub settle : Replay World → Replay World
  settle r =
      let (ds, w) = env.settle (now_of r) r.world in
      record r { gateway = deliver (now_of r) ds r.gateway; world = w }

  abbrev pub set_clock : Timestamp → Replay World → Result (Replay World)
  set_clock ns r = elim (set_time ns r.clock) [
    | none ↦ clock_backwards
    | some clock ↦ done (record r { clock = clock })
  ]

  unfoldable pub publish_all : List Published → Replay World → Result (Replay World)
  publish_all [] r = done r
  publish_all (ev ∷ evs) r = elim (env.take ev r.world) [
    | none ↦ backpressure
    | some w ↦ publish_all evs (record r { world = w })
  ]

  -- `drain_due` of the gateway, with the publication of what it takes; the count is the list's.
  unfoldable pub drain : Replay World → Result (List Published × Replay World)
  drain r =
      let (out, g) = drain_due (now_of r) r.gateway in
      publish_all out (record r { gateway = g }) >>= λ r'. done (out, r')

  abbrev pub drain_and_settle : Replay World → Result (Replay World)
  drain_and_settle r = drain r >>= λ p. done (settle p.1)

  -- `_drain_up_to`
  unfoldable pub drain_up_to : ℕ → Timestamp → Replay World → Result (Replay World)
  drain_up_to zero target r = out_of_fuel
  drain_up_to (suc fuel) target r = elim (next_due_ns r.gateway.schedule) [
    | none ↦ done r
    | some due ↦ elim (ltb target due) [
      | true ↦ done r
      | false ↦ set_clock due r >>= λ s. drain_and_settle s >>= λ t. drain_up_to fuel target t
    ]
  ]

  -- `while await self._order_gateway.drain_due() > 0: await self._settle()`
  unfoldable pub drain_ready : ℕ → Replay World → Result (Replay World)
  drain_ready zero r = out_of_fuel
  drain_ready (suc fuel) r =
      drain r >>= λ p. elim p.0 [ [] ↦ done p.1 | _ ∷ _ ↦ drain_ready fuel (settle p.1) ]

  -- `_drain_remaining`
  unfoldable pub drain_remaining : ℕ → Replay World → Result (Replay World)
  drain_remaining zero r = out_of_fuel
  drain_remaining (suc fuel) r = elim (next_due_ns r.gateway.schedule) [
    | none ↦ done r
    | some due ↦ (if ltb (now_of r) due then set_clock due r else done r) >>= λ s.
        drain_and_settle s >>= λ t. drain_remaining fuel t
  ]

  -- `mark_to_market_all` and `publish_portfolio_snapshot`, each followed by a settle.
  unfoldable pub mark_and_report : Replay World → Replay World
  mark_and_report r =
      let s = settle (record r { world = env.mark (now_of r) r.world }) in
      settle (record s { world = env.report (now_of s) s.world })

  -- `_maybe_snapshot`
  unfoldable pub maybe_snapshot : Replay World → Replay World
  maybe_snapshot r =
      if ltb (now_of r) (r.last_snapshot_ns + env.snapshot_interval_ns)
      then r
      else mark_and_report (record r { last_snapshot_ns = now_of r })

  abbrev pub publish_data : DataEvent → Replay World → Result (Replay World)
  publish_data ev r =
      if ev.has_topic
      then (elim (env.take_data ev r.world) [
        | none ↦ backpressure
        | some w ↦ done (settle (record r { world = w }))
      ])
      else done r

  -- One turn of `_replay_loop`.
  unfoldable pub replay_event : ℕ → DataEvent → Replay World → Result (Replay World)
  replay_event fuel ev r = drain_up_to fuel ev.ts_event r >>= λ s. set_clock ev.ts_event s >>= λ t.
      publish_data ev t >>= λ u. drain_ready fuel u >>= λ v. done (maybe_snapshot v)

  -- `_replay_loop`
  unfoldable pub replay_loop : ℕ → List DataEvent → Replay World → Result (Replay World)
  replay_loop fuel [] r = done r
  replay_loop fuel (ev ∷ evs) r = replay_event fuel ev r >>= λ s. replay_loop fuel evs s

  -- `run`, up to the report.
  unfoldable pub run : ℕ → List DataEvent → Replay World → Result (Replay World)
  run fuel evs r =
      replay_loop fuel evs r >>= λ s. drain_remaining fuel s >>= λ t. done (mark_and_report t)
