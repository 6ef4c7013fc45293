-- ===== src/Oms/Twap.antt =====
-- oms/execution_algos/twap.py. Durations are in nanoseconds.
pub mod Schedule
use qf635project.Base.{
  ℕ, suc, ◌+◌, ◌-◌, ◌*◌, ◌/◌, Bool, true, false, Option, none, some, ◌==◌, ◌||◌, ltb, leb,
  if◌then◌else◌,
}
use qf635project.Base.Decimal.{ℤ, pos, ◌-ℤ◌, ◌*ℤ◌, div_ℤ, leb_ℤ}
use qf635project.Core.{Price, Quantity, Timestamp, OrderType, TimeInForce}
use qf635project.Oms.Algo.{ChildOrderSpec, ExecutionAlgo}

pub record TwapAlgo : Type 0 where
  pub quantity : Quantity
  pub num_slices : ℕ
  pub interval_ns : ℕ
  pub slice_qty : Quantity
  pub remainder : Quantity
  pub order_type : OrderType
  pub time_in_force : TimeInForce
  pub price : Option Price
  pub slices_sent : ℕ
  pub start_ns : Timestamp
  pub cancelled : Bool

-- `__init__`, which raises ConfigError on what is not positive.
unfoldable pub create :
    Quantity → ℕ → ℕ → Timestamp → OrderType → TimeInForce → Option Price → Option TwapAlgo
create quantity duration_ns num_slices start_ns order_type time_in_force price =
    let slice_qty = div_ℤ quantity num_slices in
    if num_slices == 0 || duration_ns == 0 || leb_ℤ quantity (pos 0)
    then none
    else some (record {
      quantity = quantity;
      num_slices = num_slices;
      interval_ns = duration_ns / num_slices;
      slice_qty = slice_qty;
      remainder = quantity -ℤ slice_qty *ℤ pos (num_slices - 1);
      order_type = order_type;
      time_in_force = time_in_force;
      price = price;
      slices_sent = 0;
      start_ns = start_ns;
      cancelled = false;
    })

-- Even slices, and the remainder with the last.
abbrev pub next_qty : TwapAlgo → Quantity
next_qty a = if suc a.slices_sent == a.num_slices then a.remainder else a.slice_qty

abbrev slice_of : TwapAlgo → ChildOrderSpec
slice_of a = record {
  quantity = next_qty a;
  order_type = a.order_type;
  time_in_force = a.time_in_force;
  price = a.price;
}

abbrev pub is_done : TwapAlgo → Bool
is_done a = a.cancelled || leb a.num_slices a.slices_sent

unfoldable pub next_slice : Timestamp → TwapAlgo → Option ChildOrderSpec × TwapAlgo
next_slice now a =
    if is_done a
    then (none, a)
    else if ltb now (a.start_ns + a.slices_sent * a.interval_ns)
    then (none, a)
    else (some (slice_of a), record a { slices_sent = suc a.slices_sent })

abbrev pub cancel : TwapAlgo → TwapAlgo
cancel a = record a { cancelled = true }

-- The algo as the OMS drives it.
abbrev pub twap : ExecutionAlgo TwapAlgo
twap = record {
  next_slice = λ now a. some (next_slice now a);
  on_fill = λ fill a. a;
  is_done = is_done;
}
