-- ===== src/Binance/Gateway.antt =====
-- order_gateways/binance/order_gateway.py: the gateway to Binance. The exchange behind the REST client is
-- a world that answers a request with a reply; a symbol is the instrument's number. `now` is the time of
-- a handler, and the requests of the OMS set no stop price.
pub mod Honest
use qf635project.Base.{
  ℕ, suc, ◌+◌, Bool, true, false, Option, none, some, List, [], ◌∷◌, ◌++◌, ◌==◌, ◌||◌, not,
  if◌then◌else◌,
}
use qf635project.Base.Dict.{Dict, number_eq, text_eq, lookup, insert}
use qf635project.Base.Decimal.{pos, eq_ℤ}
use qf635project.Core.{Price, Quantity, Timestamp, Instrument, Side, TimeInForce}
use qf635project.Oms.Order.{Order}
use qf635project.Oms.Response.{
  VenueEvent, order_acknowledged, order_rejected, cancel_rejected, amend_rejected, order_cancelled,
  order_amended,
}
use qf635project.Binance.Translation.{
  BinanceType, market_order, limit_order, limit_maker, stop_loss, stop_loss_limit,
  order_type_to_binance, tif_to_binance,
}
use qf635project.Binance.Errors.{
  Error, order_error, rate_limited, auth_error, gateway_error, amend_noop, amend_modify_limit,
}

pub record OrderParams : Type 0 where
  pub symbol : ℕ
  pub side : Side
  pub type : BinanceType
  pub quantity : Quantity
  pub new_client_order_id : List ℕ
  pub time_in_force : Option TimeInForce
  pub price : Option Price

-- The requests on one order: POST, DELETE by the client order id, PUT, and DELETE by the venue's id.
pub data Request : Type 0 where
  place : OrderParams → Request
  remove : (symbol : ℕ) (client_order_id : List ℕ) → Request
  modify :
      (symbol : ℕ) (side : Side) (client_order_id : List ℕ) (price : Option Price)
      (quantity : Option Quantity)
      → Request
  remove_by_id : (symbol exchange_order_id : ℕ) → Request

-- Of the body of a response what the gateway reads; the venue always sends the order's id. `terminal`
-- says that the status is CANCELED, EXPIRED or REJECTED, and a price or quantity is none where it is
-- missing or its text is one of those that count as missing.
pub record Response : Type 0 where
  pub order_id : ℕ
  pub terminal : Bool
  pub price : Option Price
  pub orig_qty : Option Quantity

pub data Reply : Type 0 where
  accepted : Response → Reply
  raised : Error → Reply

-- What the gateway is given: whether the bus takes its n-th event, the venue, and the open orders that
-- the venue lists, or none if that raises.
pub record Env (Venue : Type 0) : Type 0 where
  pub accepts : ℕ → Bool
  pub is_ours : Instrument → Bool
  pub futures : Bool
  pub send : Request → Venue → Reply × Venue
  pub open_orders : ℕ → Venue → Option (List ℕ) × Venue

pub record CancelRequest : Type 0 where
  pub order_id : ℕ
  pub client_order_id : List ℕ
  pub instrument : Instrument

pub record AmendRequest : Type 0 where
  pub order_id : ℕ
  pub client_order_id : List ℕ
  pub instrument : Instrument
  pub side : Side
  pub new_price : Option Price
  pub new_quantity : Option Quantity

pub data OrderEvent : Type 0 where
  new : Order → OrderEvent
  cancel : CancelRequest → OrderEvent
  amend : AmendRequest → OrderEvent

pub record BinanceOrderGateway : Type 0 where
  pub exchange_ids : Dict ℕ ℕ
  pub client_to_internal : Dict (List ℕ) ℕ
  pub order_sides : Dict (List ℕ) Side
  pub started : Bool
  pub dropped_events : ℕ
  pub attempts : ℕ
  pub published : List VenueEvent

abbrev pub opened : BinanceOrderGateway
opened = record {
  exchange_ids = [];
  client_to_internal = [];
  order_sides = [];
  started = false;
  dropped_events = 0;
  attempts = 0;
  published = [];
}

abbrev pub start : BinanceOrderGateway → BinanceOrderGateway
start g = record g { started = true }

abbrev pub stop : BinanceOrderGateway → BinanceOrderGateway
stop g = record g { started = false }

abbrev omits_tif : BinanceType → Bool
omits_tif market_order = true
omits_tif limit_maker = true
omits_tif limit_order = false
omits_tif stop_loss = false
omits_tif stop_loss_limit = false

abbrev takes_price : BinanceType → Bool
takes_price market_order = false
takes_price limit_maker = true
takes_price limit_order = true
takes_price stop_loss = true
takes_price stop_loss_limit = true

abbrev pub params_of : Order → BinanceType → Option TimeInForce → OrderParams
params_of req type tif = record {
  symbol = req.instrument.instrument_id;
  side = req.side;
  type = type;
  quantity = req.quantity;
  new_client_order_id = req.client_order_id;
  time_in_force = tif;
  price = if takes_price type then req.price else none;
}

-- `_build_order_params`, which raises OrderError for a time in force that Binance has not.
unfoldable pub build_order_params : Bool → Order → Option OrderParams
build_order_params futures req =
    let (type, tif) = order_type_to_binance req.order_type req.time_in_force futures in
    if omits_tif type
    then some (params_of req type none)
    else (elim (tif_to_binance tif) [ none ↦ none | some t ↦ some (params_of req type (some t)) ])

-- The codes of an order that is not there any more.
abbrev pub is_gone : ℕ → Bool
is_gone code = code == 2011 || code == 2013

module _ {Venue : Type 0} (env : Env Venue) (now : Timestamp) where
  -- `_safe_publish`
  unfoldable pub safe_publish : VenueEvent → BinanceOrderGateway → BinanceOrderGateway
  safe_publish event g =
      if env.accepts g.attempts
      then record g { attempts = suc g.attempts; published = g.published ++ event ∷ [] }
      else record g { attempts = suc g.attempts; dropped_events = suc g.dropped_events }

  -- The ids are noted before the acknowledgement is published.
  abbrev pub note_accepted : Order → ℕ → BinanceOrderGateway → BinanceOrderGateway
  note_accepted req exchange_order_id g = record g {
    exchange_ids = insert req.order_id exchange_order_id g.exchange_ids;
    client_to_internal = insert req.client_order_id req.order_id g.client_to_internal;
    order_sides = insert req.client_order_id req.side g.order_sides;
  }

  abbrev pub after_place : Order → BinanceOrderGateway → Reply × Venue → BinanceOrderGateway × Venue
  after_place req g (accepted resp, w) = (
    safe_publish (order_acknowledged req.order_id now resp.order_id)
        (note_accepted req resp.order_id g),
    w,
  )
  after_place req g (raised e, w) = (safe_publish (order_rejected req.order_id now) g, w)

  -- `_handle_new`: every error of the venue rejects the order.
  unfoldable pub handle_new : Order → BinanceOrderGateway → Venue → BinanceOrderGateway × Venue
  handle_new req g w =
      if not (env.is_ours req.instrument)
      then (g, w)
      else (elim (build_order_params env.futures req) [
        | none ↦ (safe_publish (order_rejected req.order_id now) g, w)
        | some params ↦ after_place req g (env.send (place params) w)
      ])

  -- The user-data stream tells of a cancel that was accepted.
  abbrev pub after_cancel :
      CancelRequest → BinanceOrderGateway → Reply × Venue → BinanceOrderGateway × Venue
  after_cancel req g (accepted resp, w) = (g, w)
  after_cancel req g (raised (order_error code logical), w) = (
    safe_publish
        (if is_gone code
          then order_cancelled req.order_id now
          else cancel_rejected req.order_id now)
        g,
    w,
  )
  after_cancel req g (raised rate_limited, w) =
      (safe_publish (cancel_rejected req.order_id now) g, w)
  after_cancel req g (raised auth_error, w) = (safe_publish (cancel_rejected req.order_id now) g, w)
  after_cancel req g (raised gateway_error, w) =
      (safe_publish (cancel_rejected req.order_id now) g, w)

  -- `_handle_cancel`
  unfoldable pub handle_cancel :
      CancelRequest → BinanceOrderGateway → Venue → BinanceOrderGateway × Venue
  handle_cancel req g w =
      if not (env.is_ours req.instrument)
      then (g, w)
      else after_cancel req g (env.send (remove req.instrument.instrument_id req.client_order_id) w)

  abbrev pub after_removal :
      AmendRequest → BinanceOrderGateway → Reply × Venue → BinanceOrderGateway × Venue
  after_removal req g (accepted resp, w) = (safe_publish (order_cancelled req.order_id now) g, w)
  after_removal req g (raised (order_error code logical), w) = (
    safe_publish
        (if is_gone code then order_cancelled req.order_id now else amend_rejected req.order_id) g,
    w,
  )
  after_removal req g (raised rate_limited, w) = (safe_publish (amend_rejected req.order_id) g, w)
  after_removal req g (raised auth_error, w) = (safe_publish (amend_rejected req.order_id) g, w)
  after_removal req g (raised gateway_error, w) = (safe_publish (amend_rejected req.order_id) g, w)

  -- `_cancel_then_terminalize`
  unfoldable pub cancel_then_terminalize :
      AmendRequest → BinanceOrderGateway → Venue → BinanceOrderGateway × Venue
  cancel_then_terminalize req g w =
      after_removal req g (env.send (remove req.instrument.instrument_id req.client_order_id) w)

  -- What the venue says, or else what was asked for.
  abbrev pub applied : Option Price → Option Price → Option Price
  applied none asked = asked
  applied (some p) asked = some p

  abbrev pub after_modify :
      AmendRequest → BinanceOrderGateway → Reply × Venue → BinanceOrderGateway × Venue
  after_modify req g (accepted resp, w) = (
    safe_publish
        (if resp.terminal
          then order_cancelled req.order_id now
          else order_amended req.order_id now (applied resp.price req.new_price)
              (applied resp.orig_qty req.new_quantity) (some resp.order_id))
        g,
    w,
  )
  after_modify req g (raised (order_error code logical), w) =
      if code == amend_noop
      then (g, w)
      else if code == 2013
      then (safe_publish (order_cancelled req.order_id now) g, w)
      else if code == amend_modify_limit
      then cancel_then_terminalize req g w
      else (safe_publish (amend_rejected req.order_id) g, w)
  after_modify req g (raised rate_limited, w) = (safe_publish (amend_rejected req.order_id) g, w)
  after_modify req g (raised auth_error, w) = (safe_publish (amend_rejected req.order_id) g, w)
  after_modify req g (raised gateway_error, w) = (safe_publish (amend_rejected req.order_id) g, w)

  -- The side that is noted, or the request's, which is noted then.
  abbrev pub side_for : AmendRequest → BinanceOrderGateway → Side × BinanceOrderGateway
  side_for req g = elim (lookup req.client_order_id g.order_sides) [
    | some side ↦ (side, g)
    | none ↦
        (req.side, record g { order_sides = insert req.client_order_id req.side g.order_sides })
  ]

  -- `_handle_amend_futures`
  unfoldable pub handle_amend_futures :
      AmendRequest → BinanceOrderGateway → Venue → BinanceOrderGateway × Venue
  handle_amend_futures req g w =
      let (side, g') = side_for req g in
      after_modify req g' (
        env.send
          (modify req.instrument.instrument_id side req.client_order_id req.new_price
            req.new_quantity)
          w)

  abbrev pub after_replace :
      AmendRequest → BinanceOrderGateway → Reply × Venue → BinanceOrderGateway × Venue
  after_replace req g (accepted resp, w) = (safe_publish (order_cancelled req.order_id now) g, w)
  after_replace req g (raised (order_error code logical), w) =
      (safe_publish (order_cancelled req.order_id now) g, w)
  after_replace req g (raised rate_limited, w) = (safe_publish (amend_rejected req.order_id) g, w)
  after_replace req g (raised auth_error, w) = (safe_publish (amend_rejected req.order_id) g, w)
  after_replace req g (raised gateway_error, w) = (safe_publish (amend_rejected req.order_id) g, w)

  -- `_handle_amend_spot`
  unfoldable pub handle_amend_spot :
      AmendRequest → BinanceOrderGateway → Venue → BinanceOrderGateway × Venue
  handle_amend_spot req g w =
      after_replace req g (env.send (remove req.instrument.instrument_id req.client_order_id) w)

  -- `_handle_amend`
  unfoldable pub handle_amend :
      AmendRequest → BinanceOrderGateway → Venue → BinanceOrderGateway × Venue
  handle_amend req g w =
      if not (env.is_ours req.instrument)
      then (g, w)
      else if env.futures
      then handle_amend_futures req g w
      else handle_amend_spot req g w

  -- `_on_order_event`
  unfoldable pub on_order_event :
      OrderEvent → BinanceOrderGateway → Venue → BinanceOrderGateway × Venue
  on_order_event (new req) g w = handle_new req g w
  on_order_event (cancel req) g w = handle_cancel req g w
  on_order_event (amend req) g w = handle_amend req g w

module _ {Venue : Type 0} (env : Env Venue) where
  abbrev is_accepted : Reply → ℕ
  is_accepted (accepted _) = 1
  is_accepted (raised _) = 0

  -- The orders that are listed for a symbol, each with a DELETE; the count is of those accepted.
  unfoldable pub cancel_listed : ℕ → List ℕ → Venue → ℕ × Venue
  cancel_listed symbol [] w = (0, w)
  cancel_listed symbol (k ∷ ks) w =
      let (reply, w') = env.send (remove_by_id symbol k) w in
      let (total, end) = cancel_listed symbol ks w' in (is_accepted reply + total, end)

  -- `cancel_stale_orders`, over the symbols that are tracked.
  unfoldable pub cancel_stale_orders : List ℕ → Venue → ℕ × Venue
  cancel_stale_orders [] w = (0, w)
  cancel_stale_orders (symbol ∷ symbols) w =
      let (listed, w') = env.open_orders symbol w in
      let (count, v) = cancel_listed symbol (elim listed [ none ↦ [] | some ks ↦ ks ]) w' in
      let (total, end) = cancel_stale_orders symbols v in (count + total, end)
