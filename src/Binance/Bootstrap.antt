-- ===== src/Binance/Bootstrap.antt =====
-- order_gateways/binance/state_bootstrap.py: the adoption of what the venue holds, and the resync that
-- ends orders that are gone. What the venue lists is a world that replies with rows, or with none where
-- the request raises. A price is none where its text counts as missing.
pub mod Moves
pub mod Candidates
pub mod Confirmed
use qf635project.Base.{
  ℕ, suc, ◌+◌, ◌*◌, Bool, true, false, Option, none, some, List, [], ◌∷◌, ◌++◌, ◌==◌, ◌&&◌, ◌||◌,
  not, leb, any, if◌then◌else◌,
}
use qf635project.Base.Dict.{Dict, number_eq, text_eq, text_beq, lookup, lookup_or, insert, erase}
use qf635project.Base.Decimal.{ℤ, pos, eq_ℤ}
use qf635project.Core.{
  Price, Quantity, Timestamp, Instrument, Side, OrderType, market, limit, stop, stop_limit,
  post_only, TimeInForce, gtc, ioc, fok, gtx, OrderStatus, filled, cancelled, rejected, expired,
  pending_new, pending_amend, pending_cancel,
}
use qf635project.Oms.StateMachine.{eq_status}
use qf635project.Oms.Order.{Order}
use qf635project.Oms.Engine
use qf635project.Oms.Engine.{Oms}
use qf635project.Oms.Exposure.{open_orders}
use qf635project.Oms.Adoption.{VenueOrder, adopt_order}
use qf635project.Oms.Handlers.{terminalize_from_venue}

-- The texts of a type, of a time in force and of a status, in capitals.
pub data WireType : Type 0 where
  market_type limit_type limit_maker_type stop_type stop_loss_type stop_limit_type
        stop_loss_limit_type :
      WireType
  other_type : WireType

pub data WireTif : Type 0 where
  gtc_text ioc_text fok_text gtx_text other_tif : WireTif

pub data VenueStatus : Type 0 where
  filled_status canceled_status cancelled_status expired_status expired_in_match_status
        rejected_status :
      VenueStatus
  live_status : VenueStatus

-- `_VENUE_TERMINAL_STATUS.get`
abbrev pub terminal_status : VenueStatus → Option OrderStatus
terminal_status filled_status = some filled
terminal_status canceled_status = some cancelled
terminal_status cancelled_status = some cancelled
terminal_status expired_status = some expired
terminal_status expired_in_match_status = some expired
terminal_status rejected_status = some rejected
terminal_status live_status = none

abbrev tif_of : WireTif → TimeInForce
tif_of gtc_text = gtc
tif_of ioc_text = ioc
tif_of fok_text = fok
tif_of gtx_text = gtx
tif_of other_tif = gtc

abbrev is_gtx : WireTif → Bool
is_gtx gtc_text = false
is_gtx ioc_text = false
is_gtx fok_text = false
is_gtx gtx_text = true
is_gtx other_tif = false

-- `_order_type_from_binance`
unfoldable pub order_type_from_binance : WireType → WireTif → OrderType × TimeInForce
order_type_from_binance market_type tif = (market, tif_of tif)
order_type_from_binance limit_maker_type tif = (post_only, tif_of tif)
order_type_from_binance limit_type tif = (if is_gtx tif then post_only else limit, tif_of tif)
order_type_from_binance stop_type tif = (stop, tif_of tif)
order_type_from_binance stop_loss_type tif = (stop, tif_of tif)
order_type_from_binance stop_loss_limit_type tif = (stop_limit, tif_of tif)
order_type_from_binance stop_limit_type tif = (stop_limit, tif_of tif)
order_type_from_binance other_type tif = (limit, tif_of tif)

-- A row of /openOrders; a side that is neither BUY nor SELL raises.
pub record OpenRow : Type 0 where
  pub client_order_id : List ℕ
  pub side : Option Side
  pub type : WireType
  pub tif : WireTif
  pub orig_qty : Quantity
  pub executed_qty : Quantity
  pub price : Option Price
  pub order_id : ℕ
  pub time_ms : ℕ

-- A row of /allOrders, with the executed quantity if its text is a number.
pub record StatusRow : Type 0 where
  pub client_order_id : List ℕ
  pub status : VenueStatus
  pub executed_qty : Option Quantity

pub record PositionRow : Type 0 where
  pub symbol : ℕ
  pub amount : Quantity
  pub entry_price : Price
  pub mark_price : Price
  pub unrealized_profit : Price

pub record VenuePosition : Type 0 where
  pub instrument : Instrument
  pub net_quantity : Quantity
  pub entry_price : Price
  pub mark_price : Price
  pub unrealized_pnl : Price

pub record Env (Venue : Type 0) : Type 0 where
  pub open_rows : ℕ → Venue → Option (List OpenRow) × Venue
  pub all_rows : ℕ → Venue → Option (List StatusRow) × Venue
  pub position_rows : Venue → Option (List PositionRow) × Venue
  pub by_wire : ℕ → Option Instrument
  pub futures : Bool
  pub tracked : List Instrument

-- The bootstrapper with the OMS it calls and the venue it asks.
pub record Resync (Algo Venue : Type 0) : Type 0 where
  pub oms : Oms Algo
  pub venue : Venue
  pub consecutive_gone : Dict (List ℕ) ℕ
  pub published : List (List VenuePosition)

-- What a pass has seen on the venue: the client order ids, and the instruments that it could list.
pub record Seen : Type 0 where
  pub coids : List (List ℕ)
  pub fetched : List ℕ

-- What the loop over the open orders collects.
pub record Pass : Type 0 where
  pub gone : Dict (List ℕ) ℕ
  pub live : List (List ℕ)
  pub by_instrument : Dict ℕ (List Order)

abbrev pub gone_threshold : ℕ
gone_threshold = 2

abbrev pub has_text : List ℕ → List (List ℕ) → Bool
has_text coid coids = any (text_beq coid) coids

abbrev pub in_flight : OrderStatus → Bool
in_flight s = eq_status s pending_new || eq_status s pending_amend || eq_status s pending_cancel

-- One open order of the loop in `_terminalize_gone_orders`.
unfoldable pub note_order : Seen → Order → Pass → Pass
note_order seen o p =
    let n = suc (lookup_or o.client_order_id 0 p.gone) in
    let iid = o.instrument.instrument_id in
    let counted : Pass = record p { gone = insert o.client_order_id n p.gone } in
    if not (any (λ k. iid == k) seen.fetched)
    then p
    else if in_flight o.status || has_text o.client_order_id seen.coids
    then record p { live = o.client_order_id ∷ p.live }
    else if leb gone_threshold n
    then record counted {
      by_instrument = insert iid (lookup_or iid [] p.by_instrument ++ o ∷ []) p.by_instrument;
    }
    else counted

unfoldable pub note_orders : Seen → List Order → Pass → Pass
note_orders seen [] p = p
note_orders seen (o ∷ os) p = note_orders seen os (note_order seen o p)

-- The counts that are dropped: of what is live, and of what is open no more.
unfoldable pub prune : List (List ℕ) → List (List ℕ) → Dict (List ℕ) ℕ → Dict (List ℕ) ℕ
prune live open_coids [] = []
prune live open_coids ((coid, n) ∷ gone) =
    let rest = prune live open_coids gone in
    if has_text coid live || not (has_text coid open_coids) then rest else (coid, n) ∷ rest

abbrev pub coids_of : List Order → List (List ℕ)
coids_of [] = []
coids_of (o ∷ os) = o.client_order_id ∷ coids_of os

-- `{clientOrderId: row}`: of two rows with one id the later one stays.
abbrev pub by_coid : List StatusRow → Dict (List ℕ) StatusRow → Dict (List ℕ) StatusRow
by_coid [] d = d
by_coid (row ∷ rows) d = by_coid rows (insert row.client_order_id row d)

module _ {Algo Venue : Type 0} (oms_env : Engine.Env Algo) (number_of : List ℕ → ℕ)
    (env : Env Venue) (now : Timestamp) where
  -- The order that a row of the venue tells of.
  abbrev pub venue_order : Instrument → OpenRow → Side → VenueOrder
  venue_order inst row side =
      let (type, tif) = order_type_from_binance row.type row.tif in
      record {
        instrument = inst;
        client_order_id = row.client_order_id;
        side = side;
        order_type = type;
        quantity = row.orig_qty;
        cumulative_filled = row.executed_qty;
        price = row.price;
        time_in_force = tif;
        exchange_order_id = some row.order_id;
        created_at_ns = some (row.time_ms * 1000000);
      }

  abbrev pub adopt_row : Instrument → OpenRow → Oms Algo → Oms Algo
  adopt_row inst row e = elim row.side [
    | none ↦ e
    | some side ↦ (adopt_order oms_env number_of now (venue_order inst row side) e).1
  ]

  abbrev pub is_nameless : List ℕ → Bool
  is_nameless [] = true
  is_nameless (_ ∷ _) = false

  -- The rows of one instrument; one without a client order id is passed over.
  unfoldable pub adopt_rows : Instrument → List OpenRow → Seen → Oms Algo → Seen × Oms Algo
  adopt_rows inst [] seen e = (seen, e)
  adopt_rows inst (row ∷ rows) seen e =
      if is_nameless row.client_order_id
      then adopt_rows inst rows seen e
      else adopt_rows inst rows (record seen { coids = row.client_order_id ∷ seen.coids })
          (adopt_row inst row e)

  -- `_adopt_open_orders`
  unfoldable pub adopt_open_orders :
      List Instrument → Seen → Resync Algo Venue → Seen × Resync Algo Venue
  adopt_open_orders [] seen s = (seen, s)
  adopt_open_orders (inst ∷ insts) seen s =
      let (listed, w) = env.open_rows inst.instrument_id s.venue in
      elim listed [
        | none ↦ adopt_open_orders insts seen (record s { venue = w })
        | some rows ↦
            let (seen', e) =
              adopt_rows inst rows (record seen { fetched = inst.instrument_id ∷ seen.fetched })
                s.oms in
            adopt_open_orders insts seen' (record s { oms = e; venue = w })
      ]

  -- A row of a net position, the entry price for a mark of zero; a flat one is left out.
  abbrev pub position_of : Instrument → PositionRow → VenuePosition
  position_of inst row = record {
    instrument = inst;
    net_quantity = row.amount;
    entry_price = row.entry_price;
    mark_price = if eq_ℤ row.mark_price (pos 0) then row.entry_price else row.mark_price;
    unrealized_pnl = row.unrealized_profit;
  }

  unfoldable pub positions_of : List PositionRow → List VenuePosition
  positions_of [] = []
  positions_of (row ∷ rows) =
      let rest = positions_of rows in
      elim (env.by_wire row.symbol) [
        | none ↦ rest
        | some inst ↦ if eq_ℤ row.amount (pos 0) then rest else position_of inst row ∷ rest
      ]

  -- `_publish_venue_positions`
  unfoldable pub publish_venue_positions : Resync Algo Venue → Resync Algo Venue
  publish_venue_positions s =
      if not env.futures
      then s
      else let (listed, w) = env.position_rows s.venue in
        elim listed [
          | none ↦ record s { venue = w }
          | some rows ↦ record s { venue = w; published = s.published ++ positions_of rows ∷ [] }
        ]

  -- An order of which the venue tells a status, or else none.
  abbrev pub resolve_order : Dict (List ℕ) StatusRow → Order → Resync Algo Venue → Resync Algo Venue
  resolve_order rows o s = elim (lookup o.client_order_id rows) [
    | none ↦ s
    | some row ↦ elim (terminal_status row.status) [
      | none ↦ record s { consecutive_gone = erase o.client_order_id s.consecutive_gone }
      | some status ↦ record s {
        oms = terminalize_from_venue oms_env now o.order_id status row.executed_qty s.oms;
        consecutive_gone = erase o.client_order_id s.consecutive_gone;
      }
    ]
  ]

  unfoldable pub resolve_orders :
      Dict (List ℕ) StatusRow → List Order → Resync Algo Venue → Resync Algo Venue
  resolve_orders rows [] s = s
  resolve_orders rows (o ∷ os) s = resolve_orders rows os (resolve_order rows o s)

  -- `_resolve_gone_orders`, on the orders of one instrument.
  unfoldable pub resolve_gone_orders : ℕ → List Order → Resync Algo Venue → Resync Algo Venue
  resolve_gone_orders iid orders s =
      let (listed, w) = env.all_rows iid s.venue in
      elim listed [
        | none ↦ record s { venue = w }
        | some rows ↦ resolve_orders (by_coid rows []) orders (record s { venue = w })
      ]

  unfoldable pub resolve_all : Dict ℕ (List Order) → Resync Algo Venue → Resync Algo Venue
  resolve_all [] s = s
  resolve_all ((iid, orders) ∷ gone) s = resolve_all gone (resolve_gone_orders iid orders s)

  -- `_terminalize_gone_orders`
  unfoldable pub terminalize_gone_orders : Seen → Resync Algo Venue → Resync Algo Venue
  terminalize_gone_orders seen s =
      let opened = open_orders s.oms.orders in
      let p =
        note_orders seen opened
          (record { gone = s.consecutive_gone; live = []; by_instrument = [] }) in
      resolve_all p.by_instrument
        (record s { consecutive_gone = prune p.live (coids_of opened) p.gone })

  -- `bootstrap`
  unfoldable pub bootstrap : Resync Algo Venue → Resync Algo Venue
  bootstrap s =
      publish_venue_positions
        (adopt_open_orders env.tracked (record { coids = []; fetched = [] }) s).1

  -- `_resync_once`
  unfoldable pub resync_once : Resync Algo Venue → Resync Algo Venue
  resync_once s =
      let (seen, s') = adopt_open_orders env.tracked (record { coids = []; fetched = [] }) s in
      publish_venue_positions (terminalize_gone_orders seen s')
