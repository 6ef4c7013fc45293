-- ===== src/Binance/Tests.antt =====
-- order_gateways/binance at concrete inputs: a venue that is the list of the client order ids that rest
-- on it, and lets no order be amended.
use qf635project.Base.{
  ℕ, ◌+◌, ◌-◌, ◌*◌, ◌≤◌, ◌≡◌, refl, Bool, true, false, none, some, List, [], ◌∷◌, any, keep, not,
  arith,
}
use qf635project.Base.Dict.{text_eq, text_beq}
use qf635project.Base.Decimal.{pos}
use qf635project.Core.{Instrument, sell}
use qf635project.Oms.Response.{order_cancelled}
use qf635project.Binance.Errors.{order_error}
use qf635project.Binance.Gateway.{
  Env, Request, place, remove, modify, remove_by_id, Reply, accepted, raised, AmendRequest, amend,
  opened, on_order_event, handle_amend, handle_amend_spot, handle_amend_futures,
  cancel_then_terminalize, safe_publish,
}
use qf635project.Binance.RateLimiter.{RateLimiter, refill, try_acquire, acquire}
use qf635project.Binance.RateLimiter.Rate.{Call, tried, awaited, grants, grants-bound}

abbrev resting : List ℕ → List (List ℕ) → Bool
resting coid w = any (text_beq coid) w

abbrev reply : Reply
reply = accepted (record { order_id = 70; terminal = false; price = none; orig_qty = none })

-- Every amend is one too many, and what is to be removed is removed.
abbrev send : Request → List (List ℕ) → Reply × List (List ℕ)
send (place params) w = (reply, params.new_client_order_id ∷ w)
send (remove symbol coid) w = (reply, keep (λ c. not (text_beq coid c)) w)
send (modify symbol side coid price quantity) w = (raised (order_error 5026 false), w)
send (remove_by_id symbol k) w = (reply, w)

abbrev exchange : Env (List (List ℕ))
exchange = record {
  accepts = λ n. true;
  is_ours = λ i. true;
  futures = true;
  send = send;
  open_orders = λ symbol w. (some [], w);
}

abbrev btc : Instrument
btc = record { instrument_id = 1; tick_size = pos 5; lot_size = pos 1; min_notional = none }

abbrev reprice : AmendRequest
reprice = record {
  order_id = 3;
  client_order_id = 5 ∷ 45 ∷ 3 ∷ [];
  instrument = btc;
  side = sell;
  new_price = some (pos 105);
  new_quantity = none;
}

abbrev venue : List (List ℕ)
venue = (5 ∷ 45 ∷ 3 ∷ []) ∷ (6 ∷ 45 ∷ 9 ∷ []) ∷ []

-- The amend takes the order off the venue, and the cancellation is published.
amended : on_order_event exchange 50 (amend reprice) opened venue ≡ (
  record opened {
    order_sides = (5 ∷ 45 ∷ 3 ∷ [], sell) ∷ [];
    attempts = 1;
    published = order_cancelled 3 50 ∷ [];
  },
  (6 ∷ 45 ∷ 9 ∷ []) ∷ [],
)
unfolding on_order_event handle_amend handle_amend_futures cancel_then_terminalize safe_publish
amended = refl

-- On the spot venue every error of the DELETE counts as gone, here one of a bad symbol: the order rests,
-- and is reported as cancelled.
abbrev refusing : Env (List (List ℕ))
refusing = record exchange { futures = false; send = λ r w. (raised (order_error 1121 false), w) }

reported_cancelled :
    (handle_amend refusing 50 reprice opened venue).0.published ≡ order_cancelled 3 50 ∷ []
unfolding handle_amend handle_amend_spot safe_publish
reported_cancelled = refl

still_resting : resting (5 ∷ 45 ∷ 3 ∷ []) (handle_amend refusing 50 reprice opened venue).1 ≡ true
unfolding handle_amend handle_amend_spot safe_publish
still_resting = refl

abbrev bucket : RateLimiter
bucket = record { capacity = 10; refill_per_ns = 2; tokens = 5; last_ns = 100 }

abbrev calls : List Call
calls =
    tried 101 4 ∷ awaited 101 4 ∷ tried 102 9 ∷ awaited 103 0 ∷ awaited 120 10 ∷ tried 119 1 ∷ []

grants-bound_example :
    ((grants calls bucket).0 ≤ 5 + ((grants calls bucket).1.last_ns - 100) * 2)
    × ((grants calls bucket).1.tokens ≤ 10)
grants-bound_example = grants-bound calls bucket (omega arith)

-- The second call finds 3 tokens and the last one none, so that 14 are granted.
granted : (grants calls bucket).0 ≡ 14
unfolding grants try_acquire acquire refill
granted = refl
