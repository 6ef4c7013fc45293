-- ===== src/Oms/AdoptionTests.antt =====
-- oms/engine.py at a concrete restart: an order that the strategy 5 placed is reported by the venue.
use qf635project.Base.{ℕ, ◌+◌, ◌%◌, ◌≡◌, refl, true, false, none, some, List, [], ◌∷◌, ◌++◌, arith}
use qf635project.Base.Decimal.{pos}
use qf635project.Core.{Instrument, SignalEvent, buy, limit, gtc}
use qf635project.Oms.Order.{Order}
use qf635project.Oms.Algo.{ChildOrderSpec, ExecutionAlgo}
use qf635project.Oms.Store.{get_order}
use qf635project.Oms.Engine.{Env, Oms, ids}
use qf635project.Oms.Adoption.{
  external_strategy_id, VenueOrder, rpartition, is_hex_text, strategy_id_from_client_order_id,
  adopt_order,
}
use qf635project.Oms.Adoption.Restart.{IsMinting, adopt_order-new_order}

abbrev silent : ExecutionAlgo ℕ
silent = record { next_slice = λ now a. none; on_fill = λ fill a. a; is_done = λ a. true }

abbrev zeros : List ℕ
zeros = 48 ∷ 48 ∷ 48 ∷ 48 ∷ 48 ∷ 48 ∷ 48 ∷ 48 ∷ 48 ∷ 48 ∷ 48 ∷ []

-- A strategy is named by a dash and a letter.
abbrev env : Env ℕ
env = record {
  accepts = λ n. true;
  algo = silent;
  route = λ leg now i mark. none;
  strategy_text = λ s. 45 ∷ s ∷ [];
  hex_of = λ k. zeros ++ (48 + k % 10) ∷ [];
}

abbrev number_of : List ℕ → ℕ
number_of [] = 0
number_of (c ∷ []) = 0
number_of (c ∷ s ∷ cs) = s

digit : (k : ℕ) → is_hex_text (env.hex_of k) ≡ true
digit k = ground arith

minting : IsMinting env number_of
minting = record {
  named = λ sid. refl;
  nonempty = λ sid. (45, sid ∷ [], refl);
  long = λ k. refl;
  digits = λ k. digit k;
}

abbrev eth : Instrument
eth = record { instrument_id = 3; tick_size = pos 1; lot_size = pos 1; min_notional = none }

abbrev empty : Oms ℕ
empty = record {
  orders = [];
  coid_to_order_id = [];
  signal_cache = [];
  algos = [];
  algo_ctx = [];
  latest_mark = [];
  stp_enabled = true;
  self_trade_prevented = 0;
  signal_ttl_ns = 300;
  pending_amend_timeout_ns = 50;
  last_amend_sweep_ns = 0;
  started = true;
  dropped_events = 0;
  attempts = 0;
  published = [];
  next_order_id = 3;
}

abbrev signal : SignalEvent
signal = record { event_id = 9; strategy_id = 5; instrument = eth; legs = []; atomic = false }

abbrev spec : ChildOrderSpec
spec = record { quantity = pos 8; order_type = limit; time_in_force = gtc; price = some (pos 99) }

abbrev reported : VenueOrder
reported = record {
  instrument = eth;
  client_order_id = 45 ∷ 5 ∷ 45 ∷ zeros ++ 51 ∷ [];
  side = buy;
  order_type = limit;
  quantity = pos 8;
  cumulative_filled = pos 2;
  price = some (pos 99);
  time_in_force = gtc;
  exchange_order_id = some 70;
  created_at_ns = none;
}

abbrev reported_again : VenueOrder
reported_again = record reported { cumulative_filled = pos 3 }

adopt_order-new_order_example :
    ((o : Order) × (get_order
          (adopt_order env number_of 50 reported empty).0
          (adopt_order env number_of 50 reported empty).1.orders
        ≡ some o)
      × (o.strategy_id ≡ 5)
      × (o.quantity ≡ pos 8)
      × (o.cumulative_filled ≡ pos 2))
    × ((adopt_order env number_of 60 reported_again
          (adopt_order env number_of 50 reported empty).1).0
        ≡ (adopt_order env number_of 50 reported empty).0)
    × (ids
          (adopt_order env number_of 60 reported_again
            (adopt_order env number_of 50 reported empty).1).1.orders
        ≡ ids (adopt_order env number_of 50 reported empty).1.orders)
adopt_order-new_order_example =
    adopt_order-new_order env number_of minting 10 50 60 signal buy spec none empty empty reported
      reported_again refl refl refl refl

-- A text that was not minted here, `5-12`, is no strategy's.
foreign : strategy_id_from_client_order_id (53 ∷ 45 ∷ 49 ∷ 50 ∷ []) ≡ external_strategy_id
unfolding strategy_id_from_client_order_id rpartition
foreign = refl
