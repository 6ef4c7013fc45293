-- ===== src/Venue/Simulation.antt =====
-- order_gateways/simulation.py: the gateway that simulates a venue in the process. A handler runs to
-- its end before the next one starts, and `now` is its clock; with no latency configured this is so,
-- since then no handler waits. Fill ids and exchange order ids are drawn from one counter.
pub mod Fills
pub mod Book
pub mod PostOnly
use qf635project.Base.{
  map, ℕ, suc, ◌+◌, Bool, true, false, Option, none, some, List, [], ◌∷◌, ◌++◌, ◌==◌, ◌&&◌, ◌||◌,
  not, ltb, if◌then◌else◌,
}
use qf635project.Base.Dict.{Dict, number_eq, lookup, insert, erase}
use qf635project.Base.Decimal.{ℤ, pos, ◌-ℤ◌, ltb_ℤ, eq_ℤ, max_ℤ}
use qf635project.Core.{Price, Quantity, Timestamp, Instrument, Side}
use qf635project.Oms.Order.{Order}
use qf635project.Oms.Response
use qf635project.Oms.Response.{
  VenueEvent, order_acknowledged, order_rejected, order_cancelled, order_amended,
}
use qf635project.Venue.Matching.{
  Rng, Config, TopOfBook, RestingOrder, would_cross, crosses_trade, fills_at_once, is_post_only,
  fill_price, split_fill, Part, request_parts, resting_parts, VenueFill, fill_of,
}

-- What the gateway puts on the bus.
pub data Published : Type 0 where
  answer : VenueEvent → Published
  fill : VenueFill → Published

pub record Gateway : Type 0 where
  pub tops : Dict ℕ TopOfBook
  pub resting : Dict ℕ RestingOrder
  pub started : Bool
  pub draws : ℕ
  pub next_id : ℕ
  pub published : List Published

abbrev pub opened : Gateway
opened = record { tops = []; resting = []; started = false; draws = 0; next_id = 0; published = [] }

abbrev pub start : Gateway → Gateway
start g = record g { started = true }

abbrev pub stop : Gateway → Gateway
stop g = record g { started = false }

abbrev pub publish : VenueEvent → Gateway → Gateway
publish ev g = record g { published = g.published ++ answer ev ∷ [] }

-- A `TickEvent` or a `TradeEvent`.
pub data MarketData : Type 0 where
  tick : Instrument → (bid ask : Price) → MarketData
  trade : Instrument → Price → MarketData

pub record AmendRequest : Type 0 where
  pub order_id : ℕ
  pub new_price : Option Price
  pub new_quantity : Option Quantity

pub data OrderEvent : Type 0 where
  request : Order → OrderEvent
  cancel : ℕ → OrderEvent
  amend : AmendRequest → OrderEvent

abbrev pub top_of : Order → Gateway → Option TopOfBook
top_of req g = lookup req.instrument.instrument_id g.tops

abbrev pub rest_of : Order → ℕ → RestingOrder
rest_of req exchange_order_id = record {
  order_id = req.order_id;
  exchange_order_id = exchange_order_id;
  strategy_id = req.strategy_id;
  instrument = req.instrument;
  side = req.side;
  quantity = req.quantity;
  price = elim req.price [ none ↦ pos 0 | some price ↦ price ];
  leaves = req.quantity;
}

module _ (c : Config) (rng : Rng) (now : Timestamp) where
  -- The fills of the parts of one order, in turn.
  unfoldable pub publish_fills :
      ℕ → ℕ → Instrument → Side → Price → Bool → List Part → Gateway → Gateway
  publish_fills order_id sid instrument side price is_maker [] g = g
  publish_fills order_id sid instrument side price is_maker (p ∷ ps) g =
      publish_fills order_id sid instrument side price is_maker ps (record g {
        next_id = suc g.next_id;
        published =
            g.published
            ++ fill (fill_of c now g.next_id order_id sid instrument side price is_maker p) ∷ [];
      })

  -- `_emit_fills`
  unfoldable pub emit_fills : Order → Price → Gateway → Gateway
  emit_fills req price g =
      let (first, second, draws) = split_fill c rng g.draws req.quantity in
      publish_fills req.order_id req.strategy_id req.instrument req.side price false
        (request_parts req.quantity first second) (record g { draws = draws })

  -- `_fill_market`
  unfoldable pub fill_market : Order → Gateway → Gateway
  fill_market req g = elim (fill_price c req (top_of req g)) [
    | none ↦ publish (order_rejected req.order_id now) g
    | some price ↦ emit_fills req price g
  ]

  abbrev pub acknowledge : Order → Gateway → Gateway
  acknowledge req g =
      publish (order_acknowledged req.order_id now g.next_id) (record g { next_id = suc g.next_id })

  -- After the checks that may reject: the acknowledgement, then a fill or a place in the book.
  unfoldable pub accept : Order → Gateway → Gateway
  accept req g =
      if fills_at_once req.order_type || would_cross req (top_of req g)
      then fill_market req (acknowledge req g)
      else record (acknowledge req g) {
        resting = insert req.order_id (rest_of req g.next_id) g.resting;
      }

  -- The draw for a rejection, made only if there may be one.
  abbrev pub draw_reject : Gateway → Bool × Gateway
  draw_reject g =
      if c.reject_probability == 0
      then (false, g)
      else (ltb (rng.random g.draws) c.reject_probability, record g { draws = suc g.draws })

  abbrev pub after_draw : Order → Bool × Gateway → Gateway
  after_draw req (true, g) = publish (order_rejected req.order_id now) g
  after_draw req (false, g) =
      if is_post_only req.order_type && would_cross req (top_of req g)
      then publish (order_rejected req.order_id now) g
      else accept req g

  -- `_handle_order_request`
  unfoldable pub handle_order_request : Order → Gateway → Gateway
  handle_order_request req g =
      if c.is_ours req.instrument then after_draw req (draw_reject g) else g

  -- `_handle_cancel_request`
  unfoldable pub handle_cancel_request : ℕ → Gateway → Gateway
  handle_cancel_request order_id g = elim (lookup order_id g.resting) [
    | none ↦ publish (order_rejected order_id now) g
    | some _ ↦
        publish (order_cancelled order_id now) (record g { resting = erase order_id g.resting })
  ]

  -- The changes of an amend: a new quantity keeps what is filled of the old one.
  abbrev pub amended : AmendRequest → RestingOrder → RestingOrder
  amended req o =
      let price : Price = elim req.new_price [ none ↦ o.price | some p ↦ p ] in
      let quantity : Quantity = elim req.new_quantity [ none ↦ o.quantity | some q ↦ q ] in
      let leaves : Quantity = elim req.new_quantity [
        | none ↦ o.leaves
        | some q ↦ max_ℤ (pos 0) (q -ℤ (o.quantity -ℤ o.leaves))
      ] in
      record o { price = price; quantity = quantity; leaves = leaves }

  -- `_handle_amend_request`
  unfoldable pub handle_amend_request : AmendRequest → Gateway → Gateway
  handle_amend_request req g = elim (lookup req.order_id g.resting) [
    | none ↦ publish (order_rejected req.order_id now) g
    | some o ↦
        publish (order_amended req.order_id now req.new_price req.new_quantity none)
          (record g { resting = insert req.order_id (amended req o) g.resting })
  ]

  -- `_on_order_event`
  unfoldable pub on_order_event : OrderEvent → Gateway → Gateway
  on_order_event (request req) g = handle_order_request req g
  on_order_event (cancel order_id) g = handle_cancel_request order_id g
  on_order_event (amend req) g = handle_amend_request req g

  -- A crossed order: its fills, then it leaves the book when nothing is left of it.
  abbrev pub after_match : RestingOrder → Gateway → Gateway
  after_match o g =
      if eq_ℤ o.leaves (pos 0)
      then record g { resting = erase o.order_id g.resting }
      else record g { resting = insert o.order_id o g.resting }

  unfoldable pub match_order : RestingOrder → Gateway → Gateway
  match_order o g =
      let (first, second, draws) = split_fill c rng g.draws o.leaves in
      let (parts, o') = resting_parts o first second in
      after_match o' (
        publish_fills o.order_id o.strategy_id o.instrument o.side o.price true parts
          (record g { draws = draws }))

  abbrev pub is_hit : Instrument → Price → RestingOrder → Bool
  is_hit instrument price o =
      o.instrument.instrument_id == instrument.instrument_id && crosses_trade o.side o.price price

  -- The keys that were in the book when the trade came; an order may be gone by its turn.
  unfoldable pub match_keys : Instrument → Price → List ℕ → Gateway → Gateway
  match_keys instrument price [] g = g
  match_keys instrument price (k ∷ ks) g =
      match_keys instrument price ks (elim (lookup k g.resting) [
        | none ↦ g
        | some o ↦ if is_hit instrument price o then match_order o g else g
      ])

  -- `_on_market_data`; a trade is matched by `_match_resting_against_trade`.
  unfoldable pub on_market_data : MarketData → Gateway → Gateway
  unfolding match_keys
  on_market_data (tick instrument bid ask) g = record g {
    tops = insert instrument.instrument_id (record { bid = some bid; ask = some ask }) g.tops;
  }
  on_market_data (trade instrument price) g =
      match_keys instrument price (map (λ entry. entry.0) g.resting) g
