-- ===== src/Binance/UserData.antt =====
-- order_gateways/binance/user_data.py: the stream of execution reports and account updates. A frame is
-- what its text parses to; the n-th fill id that is drawn is n.
use qf635project.Base.{
  ℕ, suc, ◌*◌, Bool, Option, none, some, List, [], ◌∷◌, ◌++◌, ltb, if◌then◌else◌,
}
use qf635project.Base.Dict.{Dict, text_eq, lookup, insert}
use qf635project.Base.Decimal.{pos}
use qf635project.Core.{Price, Quantity, Timestamp, Instrument, buy, sell, FillEvent}
use qf635project.Oms.Response.{VenueEvent, order_cancelled, order_rejected}

-- The execution types, `x` of a report.
pub data ExecutionType : Type 0 where
  trade canceled expired rejected new replaced other : ExecutionType

-- Of a report: `T` or else `E` in milliseconds, and whether the side reads BUY.
pub record ExecutionReport : Type 0 where
  pub execution_type : ExecutionType
  pub symbol : ℕ
  pub client_order_id : List ℕ
  pub time_ms : ℕ
  pub is_buy : Bool
  pub last_qty : Quantity
  pub last_price : Price
  pub fee : Price

pub record AccountBalance : Type 0 where
  pub asset : ℕ
  pub free : Quantity
  pub locked : Quantity

-- A row of a spot position, or of a futures update with its wallet balance; the event time may be missing.
pub data Frame : Type 0 where
  not_json : Frame
  execution_report : ExecutionReport → Frame
  account_position : List AccountBalance → Option ℕ → Frame
  order_trade_update : ExecutionReport → Frame
  account_update : List (ℕ × Quantity) → Option ℕ → Frame
  trade_lite : Frame
  listen_key_expired : Frame
  unknown : Frame

pub data Published : Type 0 where
  answer : VenueEvent → Published
  fill : FillEvent → Published
  account : Timestamp → List AccountBalance → Published

pub record UserDataStream : Type 0 where
  pub client_to_order_id : Dict (List ℕ) ℕ
  pub next_fill_id : ℕ
  pub attempts : ℕ
  pub published : List Published

-- How a frame ends: it is handled, or raises FeedDisconnectedError or what the bus raises.
pub data Outcome : Type 0 where
  handled : UserDataStream → Outcome
  disconnected : UserDataStream → Outcome
  backpressure : UserDataStream → Outcome

abbrev pub stream_of : Outcome → UserDataStream
stream_of (handled s) = s
stream_of (disconnected s) = s
stream_of (backpressure s) = s

-- What the stream is given: the bus, the instruments by symbol, and the strategy of a client order id,
-- or the number of `unknown`.
pub record Env : Type 0 where
  pub accepts : ℕ → Bool
  pub by_wire : ℕ → Option Instrument
  pub strategy_id_lookup : List ℕ → Option ℕ
  pub unknown_strategy : ℕ

abbrev pub opened : UserDataStream
opened = record { client_to_order_id = []; next_fill_id = 0; attempts = 0; published = [] }

-- `_on_order_event`, on a request or an acknowledgement.
unfoldable pub on_order_event : List ℕ → ℕ → UserDataStream → UserDataStream
on_order_event client_order_id order_id s = record s {
  client_to_order_id = insert client_order_id order_id s.client_to_order_id;
}

module _ (env : Env) where
  unfoldable pub publish : Published → UserDataStream → Outcome
  publish event s =
      if env.accepts s.attempts
      then handled (record s { attempts = suc s.attempts; published = s.published ++ event ∷ [] })
      else backpressure (record s { attempts = suc s.attempts })

  abbrev pub strategy_of : List ℕ → ℕ
  strategy_of client_order_id = elim (env.strategy_id_lookup client_order_id) [
    | none ↦ env.unknown_strategy
    | some sid ↦ sid
  ]

  abbrev pub ts_of : ExecutionReport → Timestamp
  ts_of msg = msg.time_ms * 1000000

  -- The fill of a TRADE report, under a new id.
  abbrev pub fill_of : ExecutionReport → Instrument → ℕ → UserDataStream → FillEvent
  fill_of msg instrument order_id s = record {
    ts_event = ts_of msg;
    fill_id = s.next_fill_id;
    order_id = order_id;
    strategy_id = strategy_of msg.client_order_id;
    instrument = instrument;
    side = if msg.is_buy then buy else sell;
    fill_price = msg.last_price;
    fill_quantity = msg.last_qty;
    fee = msg.fee;
  }

  -- `_publish_fill`
  unfoldable pub publish_fill : ExecutionReport → Instrument → ℕ → UserDataStream → Outcome
  publish_fill msg instrument order_id s =
      publish (fill (fill_of msg instrument order_id s))
        (record s { next_fill_id = suc s.next_fill_id })

  -- The branches on the execution type.
  unfoldable pub report :
      ExecutionType → ExecutionReport → Instrument → ℕ → UserDataStream → Outcome
  report trade msg instrument order_id s = publish_fill msg instrument order_id s
  report canceled msg instrument order_id s =
      publish (answer (order_cancelled order_id (ts_of msg))) s
  report expired msg instrument order_id s =
      publish (answer (order_cancelled order_id (ts_of msg))) s
  report rejected msg instrument order_id s =
      publish (answer (order_rejected order_id (ts_of msg))) s
  report new msg instrument order_id s = handled s
  report replaced msg instrument order_id s = handled s
  report other msg instrument order_id s = handled s

  -- `_handle_execution_report`: of an unknown symbol or order it says nothing.
  unfoldable pub handle_execution_report : ExecutionReport → UserDataStream → Outcome
  handle_execution_report msg s = elim (env.by_wire msg.symbol) [
    | none ↦ handled s
    | some instrument ↦ elim (lookup msg.client_order_id s.client_to_order_id) [
      | none ↦ handled s
      | some order_id ↦ report msg.execution_type msg instrument order_id s
    ]
  ]

  abbrev pub event_time : Timestamp → Option ℕ → Timestamp
  event_time now none = now
  event_time now (some ms) = ms * 1000000

  -- `_handle_account_position`
  unfoldable pub handle_account_position :
      Timestamp → List AccountBalance → Option ℕ → UserDataStream → Outcome
  handle_account_position now balances time s = publish (account (event_time now time) balances) s

  abbrev pub wallet_balances : List (ℕ × Quantity) → List AccountBalance
  wallet_balances [] = []
  wallet_balances ((asset, wallet) ∷ rows) =
      record { asset = asset; free = wallet; locked = pos 0 } ∷ wallet_balances rows

  -- `_handle_futures_account_update`
  unfoldable pub handle_futures_account_update :
      Timestamp → List (ℕ × Quantity) → Option ℕ → UserDataStream → Outcome
  handle_futures_account_update now rows time s =
      publish (account (event_time now time) (wallet_balances rows)) s

  -- `_handle_frame`
  unfoldable pub handle_frame : Timestamp → Frame → UserDataStream → Outcome
  handle_frame now not_json s = handled s
  handle_frame now (execution_report msg) s = handle_execution_report msg s
  handle_frame now (account_position balances time) s = handle_account_position now balances time s
  handle_frame now (order_trade_update msg) s = handle_execution_report msg s
  handle_frame now (account_update rows time) s = handle_futures_account_update now rows time s
  handle_frame now trade_lite s = handled s
  handle_frame now listen_key_expired s = disconnected s
  handle_frame now unknown s = handled s

-- How a session of the loop ends: it returns, or raises.
pub data SessionEnd : Type 0 where
  returned : SessionEnd
  failed : SessionEnd

-- `_run_loop`, in seconds: the waits before the reconnections.
unfoldable pub run_loop : List SessionEnd → ℕ → List ℕ
run_loop [] backoff = []
run_loop (returned ∷ ends) backoff = run_loop ends 1
run_loop (failed ∷ ends) backoff =
    backoff ∷ run_loop ends (if ltb 60 (backoff * 2) then 60 else backoff * 2)
