-- ===== src/Oms/RouterTests.antt =====
-- oms/router.py and the algorithms at concrete inputs.
use qf635project.Base.{◌≡◌, refl, false, none, some, [], ◌∷◌, arith}
use qf635project.Base.Decimal.{pos, negsuc, ◌*ℤ◌, ◌-ℤ◌, ◌+ℤ◌, div_ℤ}
use qf635project.Core.{Instrument, OrderLeg, buy, limit, gtc, market, normal}
use qf635project.Oms.Router.{RoutingContext, DefaultExecutionRouter, single, route, notional_of}
use qf635project.Oms.Router.Decides.{InOnePiece, SendsAll, route-SendsAll}
use qf635project.Oms.Vwap.{VwapAlgo, next_slice, shares, advance}
use qf635project.Oms.Vwap.Shares.{wake}

abbrev btc : Instrument
btc = record { instrument_id = 1; tick_size = pos 5; lot_size = pos 1; min_notional = none }

abbrev router : DefaultExecutionRouter
router = record {
  slice_threshold = pos 500;
  max_single = pos 1000;
  twap_slices = 3;
  twap_ns = 60;
  urgent_twap_ns = 6;
}

abbrev leg : OrderLeg
leg = record {
  leg_id = 1;
  side = buy;
  quantity = pos 8;
  price = some (pos 100);
  order_type = limit;
  time_in_force = gtc;
  intent = normal;
}

abbrev context : RoutingContext
context = record { now_ns = 100; instrument = btc; last_mark = none }

route-SendsAll_example : SendsAll 3 (InOnePiece router leg context) leg (route router leg context)
route-SendsAll_example =
    route-SendsAll router leg context refl (omega arith) (omega arith) (omega arith)

-- The leg is above the threshold and is sliced; at a lower price it is placed as it is.
small : route router (record leg { price = some (pos 60) }) context ≡ single
unfolding route notional_of ◌*ℤ◌
small = refl

-- A share that is rounded up leaves less than nothing for a last bucket without weight.
negative_bucket :
    shares (pos 5) 3 (pos 0) (1 ∷ 1 ∷ 1 ∷ 0 ∷ []) ≡ pos 2 ∷ pos 2 ∷ pos 2 ∷ negsuc 0 ∷ []
unfolding shares ◌*ℤ◌ ◌-ℤ◌ ◌+ℤ◌ div_ℤ
negative_bucket = refl

abbrev profiled : VwapAlgo
profiled = record {
  bucket_qtys = pos 2 ∷ pos 0 ∷ pos 3 ∷ [];
  bucket_interval_ns = 10;
  start_ns = 100;
  buckets_sent = 0;
  order_type = market;
  time_in_force = gtc;
  price = none;
  cancelled = false;
}

-- The empty bucket is passed over when it is due, and the next is sent only when that is due too.
profile_sent : (wake (100 ∷ 105 ∷ 110 ∷ 120 ∷ []) profiled).0 ≡ pos 5
unfolding wake next_slice advance ◌+ℤ◌
profile_sent = refl
