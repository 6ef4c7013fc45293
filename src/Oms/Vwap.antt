-- ===== src/Oms/Vwap.antt =====
-- oms/execution_algos/vwap.py. Durations are in nanoseconds and weights in a unit that makes them whole;
-- a share of the quantity is rounded once, where the source rounds the weight and then the product.
pub mod Shares
use qf635project.Base.{
  ℕ, zero, suc, ◌+◌, ◌*◌, ◌/◌, Bool, true, false, Option, none, some, List, [], ◌∷◌, ◌==◌, ◌||◌,
  ltb, leb, length, if◌then◌else◌,
}
use qf635project.Base.Decimal.{ℤ, pos, ◌+ℤ◌, ◌-ℤ◌, ◌*ℤ◌, div_ℤ, eq_ℤ, leb_ℤ}
use qf635project.Core.{Price, Quantity, Timestamp, OrderType, TimeInForce}
use qf635project.Oms.Algo.{ChildOrderSpec, ExecutionAlgo}

pub record VwapAlgo : Type 0 where
  pub bucket_qtys : List Quantity
  pub bucket_interval_ns : ℕ
  pub start_ns : Timestamp
  pub buckets_sent : ℕ
  pub order_type : OrderType
  pub time_in_force : TimeInForce
  pub price : Option Price
  pub cancelled : Bool

abbrev pub total_weight : List ℕ → ℕ
total_weight [] = 0
total_weight (w ∷ ws) = w + total_weight ws

-- A bucket's share by its weight, and what is left in the last one.
unfoldable pub shares : Quantity → ℕ → Quantity → List ℕ → List Quantity
shares quantity total sent [] = []
shares quantity total sent (w ∷ []) = (quantity -ℤ sent) ∷ []
shares quantity total sent (w ∷ x ∷ ws) =
    let q = div_ℤ (quantity *ℤ pos w) total in q ∷ shares quantity total (sent +ℤ q) (x ∷ ws)

-- `__init__`, which raises ConfigError on what is not positive.
unfoldable pub create :
    Quantity → ℕ → List ℕ → Timestamp → OrderType → TimeInForce → Option Price → Option VwapAlgo
create quantity duration_ns profile start_ns order_type time_in_force price =
    if leb_ℤ quantity (pos 0) || duration_ns == 0 || total_weight profile == 0
    then none
    else some (record {
      bucket_qtys = shares quantity (total_weight profile) (pos 0) profile;
      bucket_interval_ns = duration_ns / length profile;
      start_ns = start_ns;
      buckets_sent = 0;
      order_type = order_type;
      time_in_force = time_in_force;
      price = price;
      cancelled = false;
    })

abbrev pub drop : ℕ → List Quantity → List Quantity
drop zero qs = qs
drop (suc n) [] = []
drop (suc n) (q ∷ qs) = drop n qs

abbrev slice_of : VwapAlgo → Quantity → ChildOrderSpec
slice_of a q = record {
  quantity = q;
  order_type = a.order_type;
  time_in_force = a.time_in_force;
  price = a.price;
}

-- `next_slice` on the buckets that are left; one of no quantity is passed over.
unfoldable pub advance : Timestamp → List Quantity → VwapAlgo → Option ChildOrderSpec × VwapAlgo
advance now [] a = (none, a)
advance now (q ∷ qs) a =
    let a' = record a { buckets_sent = suc a.buckets_sent } in
    let rest = advance now qs a' in
    if ltb now (a.start_ns + a.buckets_sent * a.bucket_interval_ns)
    then (none, a)
    else if eq_ℤ q (pos 0)
    then rest
    else (some (slice_of a q), a')

unfoldable pub next_slice : Timestamp → VwapAlgo → Option ChildOrderSpec × VwapAlgo
next_slice now a =
    if a.cancelled then (none, a) else advance now (drop a.buckets_sent a.bucket_qtys) a

abbrev pub is_done : VwapAlgo → Bool
is_done a = a.cancelled || leb (length a.bucket_qtys) a.buckets_sent

abbrev pub cancel : VwapAlgo → VwapAlgo
cancel a = record a { cancelled = true }

-- The algo as the OMS drives it.
abbrev pub vwap : ExecutionAlgo VwapAlgo
vwap = record {
  next_slice = λ now a. some (next_slice now a);
  on_fill = λ fill a. a;
  is_done = is_done;
}
