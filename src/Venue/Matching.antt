-- ===== src/Venue/Matching.antt =====
-- order_gateways/sim_config.py, and what order_gateways/simulation.py and backtest/order_gateway.py
-- share: crossing, prices, fees and the split of a fill. Probabilities and fractions count parts of
-- `scale`; a fee rate counts thousandths of a basis point.
pub mod Parts
use qf635project.Base.{
  ◌-◌, ℕ, suc, ◌+◌, Bool, true, false, Option, none, some, List, [], ◌∷◌, ◌++◌, ◌==◌, ◌&&◌, ◌||◌,
  ltb, leb, if◌then◌else◌,
}
use qf635project.Base.Decimal.{ℤ, pos, ◌+ℤ◌, ◌-ℤ◌, ◌*ℤ◌, div_ℤ, ltb_ℤ, leb_ℤ, eq_ℤ}
use qf635project.Core.{
  Price, Quantity, Timestamp, Instrument, Side, buy, sell, OrderType, market, ioc, fok, post_only,
  limit, stop, stop_limit, FillEvent,
}
use qf635project.Core.Rounding.{round_price}
use qf635project.Oms.Order.{Order}

-- The generator of random numbers: its n-th draw of `random()`, and of `uniform(lo, hi)`.
pub record Rng : Type 0 where
  pub scale : ℕ
  pub random : ℕ → ℕ
  pub uniform : ℕ → ℕ → ℕ → ℕ

-- `is_ours` says of an instrument that it trades on this venue.
pub record Config : Type 0 where
  pub is_ours : Instrument → Bool
  pub maker_bps : ℤ
  pub taker_bps : ℤ
  pub submit_ack_ns : ℕ
  pub cancel_ack_ns : ℕ
  pub fill_ns : ℕ
  pub partial_fill_probability : ℕ
  pub partial_fill_min_fraction : ℕ
  pub slippage_ticks : ℤ
  pub reject_probability : ℕ

-- `FeeModel.fee_for`
abbrev pub fee_for : Config → ℤ → Bool → Price
fee_for c notional is_maker =
    div_ℤ (notional *ℤ (if is_maker then c.maker_bps else c.taker_bps)) 10000000

pub record TopOfBook : Type 0 where
  pub bid : Option Price
  pub ask : Option Price

pub record RestingOrder : Type 0 where
  pub order_id : ℕ
  pub exchange_order_id : ℕ
  pub strategy_id : ℕ
  pub instrument : Instrument
  pub side : Side
  pub quantity : Quantity
  pub price : Price
  pub leaves : Quantity

-- `_would_cross`
abbrev pub crosses_top : Side → Price → TopOfBook → Bool
crosses_top buy price top = elim top.ask [ none ↦ false | some ask ↦ leb_ℤ ask price ]
crosses_top sell price top = elim top.bid [ none ↦ false | some bid ↦ leb_ℤ price bid ]

unfoldable pub would_cross : Order → Option TopOfBook → Bool
would_cross req none = false
would_cross req (some top) = elim req.price [
  | none ↦ false
  | some price ↦ crosses_top req.side price top
]

-- A trade that goes through the price of a resting order.
abbrev pub crosses_trade : Side → Price → Price → Bool
crosses_trade buy price trade_price = leb_ℤ trade_price price
crosses_trade sell price trade_price = leb_ℤ price trade_price

-- `req.order_type in (MARKET, IOC, FOK)`
abbrev pub fills_at_once : OrderType → Bool
fills_at_once market = true
fills_at_once ioc = true
fills_at_once fok = true
fills_at_once limit = false
fills_at_once stop = false
fills_at_once stop_limit = false
fills_at_once post_only = false

abbrev pub is_post_only : OrderType → Bool
is_post_only post_only = true
is_post_only limit = false
is_post_only market = false
is_post_only ioc = false
is_post_only fok = false
is_post_only stop = false
is_post_only stop_limit = false

-- The price of an immediate fill, before rounding: the opposite side of the book and the slippage, or
-- the order's own price where the book is not known. None, where there is neither.
abbrev pub slipped : Config → Order → Price → Price → Price
slipped c req bid ask =
    let slippage = req.instrument.tick_size *ℤ c.slippage_ticks in
    elim req.side [ buy ↦ ask +ℤ slippage | sell ↦ bid -ℤ slippage ]

abbrev pub touch : Option TopOfBook → Option (Price × Price)
touch none = none
touch (some top) = elim top.bid [
  | none ↦ none
  | some bid ↦ elim top.ask [ none ↦ none | some ask ↦ some (bid, ask) ]
]

unfoldable pub fill_price : Config → Order → Option TopOfBook → Option Price
fill_price c req top = elim (touch top) [
  | none ↦ elim req.price [ none ↦ none | some price ↦ some (round_price req.instrument price) ]
  | some (bid, ask) ↦ some (round_price req.instrument (slipped c req bid ask))
]

-- `_split_fill`: the two quantities, and the draws made. A draw is made only if fills may be partial.
unfoldable pub split_fill : Config → Rng → ℕ → Quantity → Quantity × Quantity × ℕ
split_fill c rng n qty =
    let max_frac = rng.scale in
    let lo = c.partial_fill_min_fraction in
    let first = div_ℤ (qty *ℤ pos (rng.uniform (suc n) lo (max_frac - lo))) rng.scale in
    if c.partial_fill_probability == 0
    then (qty, pos 0, n)
    else if leb c.partial_fill_probability (rng.random n)
    then (qty, pos 0, suc n)
    else if leb max_frac (lo + lo)
    then (qty, pos 0, suc n)
    else (first, qty -ℤ first, suc (suc n))

-- One published fill: its quantity, and the filled total and rest that it reports.
pub record Part : Type 0 where
  pub quantity : Quantity
  pub cumulative : Quantity
  pub leaves : Quantity

abbrev pub part_if : Bool → Part → List Part
part_if true p = p ∷ []
part_if false p = []

-- `_emit_fills`: the fills of a request of `quantity` in two pieces, those that are positive.
unfoldable pub request_parts : Quantity → Quantity → Quantity → List Part
request_parts quantity first second =
    part_if (ltb_ℤ (pos 0) first)
      (record { quantity = first; cumulative = first; leaves = quantity -ℤ first })
    ++ part_if (ltb_ℤ (pos 0) second)
        (record { quantity = second; cumulative = quantity; leaves = pos 0 })

-- `_emit_fills_for_resting`: the fills, and what is left of the order.
abbrev pub take_if : Quantity → Quantity → Quantity
take_if q leaves = if ltb_ℤ (pos 0) q then leaves -ℤ q else leaves

unfoldable pub resting_parts : RestingOrder → Quantity → Quantity → List Part × RestingOrder
resting_parts o first second =
    let prior_filled = o.quantity -ℤ o.leaves in
    let left = take_if first o.leaves in
    (
      part_if (ltb_ℤ (pos 0) first)
            (record { quantity = first; cumulative = prior_filled +ℤ first; leaves = left })
          ++ part_if (ltb_ℤ (pos 0) second) (record {
            quantity = second;
            cumulative = prior_filled +ℤ first +ℤ second;
            leaves = left -ℤ second;
          }),
      record o { leaves = take_if second left },
    )

-- `_publish_fill`, the event of one part. Its id is the n-th that is drawn.
pub record VenueFill : Type 0 where
  pub event : FillEvent
  pub cumulative_quantity : Quantity
  pub leaves_quantity : Quantity
  pub is_maker : Bool

abbrev pub fill_of :
    Config → Timestamp → ℕ → ℕ → ℕ → Instrument → Side → Price → Bool → Part → VenueFill
fill_of c ts fill_id order_id strategy_id instrument side price is_maker p = record {
  event = record {
    ts_event = ts;
    fill_id = fill_id;
    order_id = order_id;
    strategy_id = strategy_id;
    instrument = instrument;
    side = side;
    fill_price = price;
    fill_quantity = p.quantity;
    fee = fee_for c (price *ℤ p.quantity) is_maker;
  };
  cumulative_quantity = p.cumulative;
  leaves_quantity = p.leaves;
  is_maker = is_maker;
}
