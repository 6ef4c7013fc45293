-- ===== src/Venue/Tests.antt =====
-- order_gateways/simulation.py at concrete inputs: the fills of every order are split in two at 3/10.
use qf635project.Base.{
  ℕ, suc, ◌+◌, ◌≤◌, ◌<◌, ◌≡◌, refl, true, Option, none, some, List, [], ◌∷◌, ◌++◌, ◌==◌,
  if◌then◌else◌, ltb, arith,
}
use qf635project.Base.Decimal.{ℤ, pos, negsuc}
use qf635project.Core.{Instrument, buy, OrderType, market, limit, post_only, gtc, pending_new}
use qf635project.Core.Rounding.{on_grid, snap, snap_lem}
use qf635project.Base.Decimal.{pos_part, neg_part}
use qf635project.Oms.Order.{Order}
use qf635project.Venue.Matching.{Rng, Config}
use qf635project.Venue.Matching.Parts.{IsUniform}
use qf635project.Venue.Simulation.{
  Gateway, Published, opened, request, amend, tick, trade, handle_order_request,
}
use qf635project.Venue.Simulation.Book.{Input, order, data_of, run, IsWhole, run-IsWhole}
use qf635project.Venue.Simulation.PostOnly.{Answers, post_only-Answers}
use qf635project.Venue.Lifecycle.{IsFilled, receive_all, request-IsFilled}

abbrev rng : Rng
rng = record {
  scale = 10;
  random = λ n. 0;
  uniform = λ n lo hi. if ltb hi 3 then lo else if ltb 3 lo then lo else 3;
}

uniform : IsUniform rng
uniform = record { positive = omega arith; within = λ n lo hi h. ground arith }

abbrev venue : Config
venue = record {
  is_ours = λ i. true;
  maker_bps = pos 1000;
  taker_bps = pos 5000;
  submit_ack_ns = 5;
  cancel_ack_ns = 5;
  fill_ns = 10;
  partial_fill_probability = 1;
  partial_fill_min_fraction = 1;
  slippage_ticks = pos 1;
  reject_probability = 0;
}

abbrev btc : Instrument
btc = record { instrument_id = 1; tick_size = pos 5; lot_size = pos 1; min_notional = none }

abbrev order_of : OrderType → ℕ → Option ℤ → Order
order_of type id price = record {
  order_id = id;
  client_order_id = [];
  strategy_id = 7;
  instrument = btc;
  side = buy;
  order_type = type;
  quantity = pos 10;
  price = price;
  time_in_force = gtc;
  created_at_ns = 1;
  status = pending_new;
  exchange_order_id = none;
  cumulative_filled = pos 0;
  average_fill_price = pos 0;
  last_update_ns = 0;
  parent_leg_id = none;
  applied_fills = [];
  pending_amend = none;
}

abbrev quoted : Gateway
quoted = record opened { tops = (1, record { bid = some (pos 100); ask = some (pos 110) }) ∷ [] }

request-IsFilled_example :
    (evs : List Published) × ((handle_order_request venue rng 3
        (order_of market 1 none)
        quoted).published
      ≡ [] ++ evs)
    × IsFilled (pos 10) (receive_all 3 evs (order_of market 1 none))
unfolding qf635project.Venue.Matching.fill_price snap qf635project.Base.Decimal.◌+ℤ◌
    qf635project.Base.Decimal.◌*ℤ◌
request-IsFilled_example =
    request-IsFilled venue rng 3 (order_of market 1 none) quoted (pos 115)
      (record { ours = refl; no_rejects = refl; at_once = refl; priced = refl }) uniform
      (record { fresh = refl; unfilled = refl; unseen = tt; positive = omega arith })

post_only-Answers_example :
    let req = order_of post_only 2 (some (pos 120)) in
    Answers 2 quoted (handle_order_request venue rng 3 req quoted)
post_only-Answers_example =
    post_only-Answers venue rng 3 (order_of post_only 2 (some (pos 120))) refl quoted refl

abbrev session : List Input
session =
    data_of 1 (tick btc (pos 100) (pos 110))
    ∷ order 2 (request (order_of limit 1 (some (pos 100))))
    ∷ order 3 (request (order_of limit 2 (some (pos 95))))
    ∷ order 4 (amend (record { order_id = 2; new_price = none; new_quantity = some (pos 4) }))
    ∷ data_of 5 (trade btc (pos 98))
    ∷ []

run-IsWhole_example : IsWhole (run venue rng session opened)
run-IsWhole_example =
    run-IsWhole venue rng uniform session opened (omega arith, (omega arith, (omega arith, tt))) tt

snapped_down :
    (on_grid (pos 5) (snap (pos 5) (negsuc 11)) ≡ true)
    × (pos_part (snap (pos 5) (negsuc 11)) ≤ 0)
    × (0 < pos_part (snap (pos 5) (negsuc 11)) + 5)
    × (neg_part (snap (pos 5) (negsuc 11)) ≤ 12)
    × (12 < neg_part (snap (pos 5) (negsuc 11)) + 5)
    × (on_grid (pos 5) (negsuc 11) ≡ true → snap (pos 5) (negsuc 11) ≡ negsuc 11)
snapped_down = snap_lem 5 (negsuc 11) (omega arith)
