-- ===== src/Risk/Tests.antt =====
-- A strategy that is long 3 quotes both sides under a size and a position limit.
use qf635project.Base.{ℕ, ◌≡◌, ◌≢◌, refl, Bool, true, false, none, some, List, [], ◌∷◌, arith}
use qf635project.Base.Dict.{number_eq}
use qf635project.Base.Decimal.{pos, ◌≤ℤ◌, ◌+ℤ◌, ◌-ℤ◌, ◌*ℤ◌}
use qf635project.Core.{
  Instrument, OrderLeg, SignalEvent, Side, buy, sell, limit, gtc, normal, ApprovedLeg,
  PositionUpdateEvent,
}
use qf635project.Risk.KillSwitch.{released}
use qf635project.Risk.State.{RiskState, opened, get_position, apply_position_update}
use qf635project.Risk.Rules.{Rule, is_constructible, approve, evaluate, result}
use qf635project.Risk.Rules.Breakers.{at_start, position_update, drawdown_breaker_lem}
use qf635project.Risk.Engine.{RiskEngine, run_rules, leg_verdict, clamp, approved}
use qf635project.Risk.Engine.Legs.{Passed, approved_leg_lem}
use qf635project.Risk.Engine.Chain.{vpin_breaker_lem}
use qf635project.Risk.Engine.Signal.{on_signal}
use qf635project.Risk.Engine.Signal.Published.{Adds, Sound, on_signal-Sound}
use qf635project.Risk.Engine.Signal.Halt.{Reports, decisions, on_signal-halt, on_signal-answers}
use qf635project.Risk.Engine.Signal.Exposure.{Fitting, on_signal-Fitting}

abbrev accept_all : ℕ → Bool
accept_all n = true

abbrev btc : Instrument
btc = record {
  instrument_id = 7;
  tick_size = pos 1;
  lot_size = pos 1;
  min_notional = some (pos 20);
}

abbrev leg_of : ℕ → Side → ℕ → OrderLeg
leg_of id side size = record {
  leg_id = id;
  side = side;
  quantity = pos size;
  price = some (pos 10);
  order_type = limit;
  time_in_force = gtc;
  intent = normal;
}

abbrev bid : OrderLeg
bid = leg_of 1 buy 4

abbrev ask : OrderLeg
ask = leg_of 2 sell 20

abbrev quote_legs : List OrderLeg
quote_legs = bid ∷ ask ∷ []

abbrev quotes : SignalEvent
quotes = record {
  event_id = 40;
  strategy_id = 1;
  instrument = btc;
  legs = quote_legs;
  atomic = false;
}

abbrev size_limit : Rule
size_limit = Rule.max_order_size (pos 10)

abbrev state : RiskState
state = record (opened 1000) { positions = ((1, 7), pos 3) ∷ []; vpin = (7, 250) ∷ [] }

abbrev engine : RiskEngine
engine = record {
  state = state;
  kill_switch = released;
  rules = [];
  global_rules = size_limit ∷ Rule.max_position (pos 5) (pos 5) ∷ [];
  started = true;
  dropped_events = 0;
  attempts = 0;
  published = [];
}

on_signal-Fitting_example : Adds (Fitting buy (pos 2)) engine (on_signal accept_all 9 quotes engine)
unfolding ◌-ℤ◌ get_position
on_signal-Fitting_example =
    on_signal-Fitting accept_all 9 quotes engine (size_limit ∷ []) [] (pos 5) (pos 5) buy refl
      (omega arith, (omega arith, tt))

on_signal-Sound_example : Adds (Sound quotes engine) engine (on_signal accept_all 9 quotes engine)
on_signal-Sound_example = on_signal-Sound accept_all 9 quotes engine

on_signal-halt_example :
    let e' = on_signal accept_all 9 quotes engine in
    (engine.kill_switch.engaged ≡ true → e'.kill_switch ≡ engine.kill_switch)
    × (engine.kill_switch.engaged ≡ false → Adds (Reports e'.kill_switch.engaged) engine e')
on_signal-halt_example = on_signal-halt accept_all 9 quotes engine

on_signal-answers_example : decisions (on_signal accept_all 9 quotes engine).published ≡ 1
on_signal-answers_example = on_signal-answers accept_all 9 quotes engine (λ n. refl)

abbrev clamped_ask : ApprovedLeg
clamped_ask = record { leg_id = 2; side = sell; approved_quantity = pos 8 }

-- The two limits clamp the sale of 20 to 10 and to 8.
approved_leg_lem_example :
    (clamped_ask.leg_id ≡ 2)
    × (clamped_ask.side ≡ sell)
    × (clamped_ask.approved_quantity ≤ℤ pos 20)
    × Passed 9 quotes (bid ∷ []) ask (pos 8) engine.global_rules state
unfolding leg_verdict run_rules evaluate ◌+ℤ◌ ◌-ℤ◌ get_position ◌*ℤ◌ clamp
approved_leg_lem_example =
    approved_leg_lem 9 quotes (bid ∷ []) ask engine.global_rules state clamped_ask refl

vpin_breaker_lem_example :
    leg_verdict quotes bid
      (run_rules 9 quotes [] bid (size_limit ∷ Rule.vpin_circuit_breaker 700 2 ∷ []) state).0
    ≢ approved (record { leg_id = 1; side = buy; approved_quantity = pos 4 })
vpin_breaker_lem_example =
    vpin_breaker_lem 9 quotes [] bid (size_limit ∷ []) [] 700 2 250 state refl (omega arith)
      (record { leg_id = 1; side = buy; approved_quantity = pos 4 })

abbrev marked : ℕ → ℕ → PositionUpdateEvent
marked realized unrealized = record {
  strategy_id = 1;
  instrument = btc;
  quantity = pos 3;
  average_entry_price = pos 10;
  realized_pnl = pos realized;
  unrealized_pnl = pos unrealized;
  mark_price = pos 10;
}

abbrev after_loss : RiskState
after_loss =
    apply_position_update 20 (marked 100 0)
      (apply_position_update 10 (marked 100 900) (opened 1000))

-- The equity fell from 1000 to 100.
drawdown_breaker_lem_example :
    let r = Rule.drawdown_circuit_breaker 50 100 in
    evaluate 21 quotes [] bid r after_loss ≡ (result (approve r none), after_loss)
unfolding is_constructible
drawdown_breaker_lem_example =
    drawdown_breaker_lem 50 100 21 quotes [] bid
      (position_update 20 (marked 100 0) (position_update 10 (marked 100 900) at_start)) refl
