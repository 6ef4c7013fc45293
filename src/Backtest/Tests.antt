-- ===== src/Backtest/Tests.antt =====
-- backtest/engine.py at concrete inputs: the subscribers are a list of deliveries that they still make
-- and a log of what was published.
use qf635project.Base.{◌≤◌, ◌<◌, ◌≡◌, refl, true, none, some, List, [], ◌∷◌, ◌++◌, All, arith}
use qf635project.Base.Decimal.{pos}
use qf635project.Core.{Instrument, buy, limit, gtc, pending_new}
use qf635project.Oms.Order.{Order}
use qf635project.Oms.Response.{order_cancelled}
use qf635project.Venue.Matching.{Rng, Config}
use qf635project.Venue.Simulation.{Published, answer, request, tick, trade}
use qf635project.Backtest.Clock.{clock_at}
use qf635project.Backtest.Schedule.{Scheduled, drain}
use qf635project.Backtest.Schedule.Sorted.{events, drain_lem}
use qf635project.Backtest.Gateway.{opened}
use qf635project.Backtest.Engine.{
  Delivery, order, data_of, DataEvent, Env, Replay, run, drain_remaining,
}
use qf635project.Backtest.Engine.Time.{Ensures, InTime, run-InTime}
use qf635project.Backtest.Engine.Ends.{Returns, Quiet, drain_remaining-Returns}

record Desk : Type 0 where
  pending : List Delivery
  log : List Published

abbrev rng : Rng
rng = record { scale = 10; random = λ n. 0; uniform = λ n lo hi. lo }

abbrev venue : Config
venue = record {
  is_ours = λ i. true;
  maker_bps = pos 1000;
  taker_bps = pos 5000;
  submit_ack_ns = 5;
  cancel_ack_ns = 5;
  fill_ns = 10;
  partial_fill_probability = 0;
  partial_fill_min_fraction = 1;
  slippage_ticks = pos 1;
  reject_probability = 0;
}

-- Every event is taken, and market data reaches the gateway when the engine next yields.
abbrev desk : Env Desk
desk = record {
  config = venue;
  rng = rng;
  take = λ ev w. some (record w { log = w.log ++ ev ∷ [] });
  take_data = λ ev w. some (record w { pending = w.pending ++ (data_of ev.body ∷ []) });
  settle = λ now w. (w.pending, record w { pending = [] });
  mark = λ now w. w;
  report = λ now w. w;
  snapshot_interval_ns = 100;
}

-- Subscribers that do not act.
abbrev audience : Env Desk
audience = record desk { settle = λ now w. ([], w) }

audience-Quiet : Quiet audience (λ w. w.log)
audience-Quiet = record {
  takes = λ ev w. (record w { log = w.log ++ ev ∷ [] }, refl, refl);
  idle = λ now w. (refl, refl);
}

abbrev btc : Instrument
btc = record { instrument_id = 1; tick_size = pos 5; lot_size = pos 1; min_notional = none }

abbrev bid : Order
bid = record {
  order_id = 1;
  client_order_id = [];
  strategy_id = 7;
  instrument = btc;
  side = buy;
  order_type = limit;
  quantity = pos 10;
  price = some (pos 105);
  time_in_force = gtc;
  created_at_ns = 1;
  status = pending_new;
  exchange_order_id = none;
  cumulative_filled = pos 0;
  average_fill_price = pos 0;
  last_update_ns = 0;
  parent_leg_id = none;
  applied_fills = [];
  pending_amend = none;
}

abbrev recording : List DataEvent
recording =
    record { ts_event = 10; has_topic = true; body = tick btc (pos 100) (pos 110) }
    ∷ record { ts_event = 12; has_topic = true; body = trade btc (pos 100) }
    ∷ record { ts_event = 400; has_topic = true; body = tick btc (pos 90) (pos 100) }
    ∷ []

abbrev start : Replay Desk
start = record {
  clock = clock_at 1;
  gateway = opened;
  world = record { pending = order (request bid) ∷ []; log = [] };
  last_snapshot_ns = 0;
}

run-InTime_example : Ensures (InTime desk) (run desk 9 recording start)
run-InTime_example =
    run-InTime desk 9 recording start (omega arith, (omega arith, (omega arith, tt)))
      (record { sorted = tt; numbered = tt; ahead = tt })

abbrev two_due : List Scheduled
two_due =
    record { due_ns = 405; seq = 3; event = answer (order_cancelled 1 406) }
    ∷ record { due_ns = 420; seq = 4; event = answer (order_cancelled 2 421) }
    ∷ []

drain_remaining-Returns_example :
    Returns
      (λ (s : Replay Desk).
        (s.gateway.schedule ≡ []) × (s.world.log ≡ start.world.log ++ events two_due))
      (drain_remaining audience 3 (record start { gateway = record opened { schedule = two_due } }))
drain_remaining-Returns_example =
    drain_remaining-Returns audience (λ w. w.log) audience-Quiet 3
      (record start { gateway = record opened { schedule = two_due } }) (omega arith)

drained :
    (taken : List Scheduled) × (two_due ≡ taken ++ (drain 410 two_due).1)
    × ((drain 410 two_due).0 ≡ events taken)
    × All (λ x. x.due_ns ≤ 410) taken
    × All (λ x. 410 < x.due_ns) (drain 410 two_due).1
drained = drain_lem 410 two_due ((refl, tt), (tt, tt))
