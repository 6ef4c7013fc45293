-- ===== src/Oms/Adoption.antt =====
-- oms/engine.py: the adoption of orders that the venue reports, and the client order id that tells whose
-- they are. `number_of` is the number that stands for a strategy's text.
pub mod Restart
use qf635project.Base.{
  ℕ, suc, ◌+◌, Bool, true, false, Option, none, some, List, [], ◌∷◌, ◌++◌, ◌==◌, ◌&&◌, ◌||◌, not,
  leb, length, if◌then◌else◌,
}
use qf635project.Base.Dict.{text_eq, lookup}
use qf635project.Base.Decimal.{pos, ltb_ℤ}
use qf635project.Core.{
  Price, Quantity, Timestamp, Instrument, Side, OrderType, TimeInForce, OrderStatus,
  partially_filled, acknowledged,
}
use qf635project.Oms.Order.{Order}
use qf635project.Oms.Store.{update_order}
use qf635project.Oms.Response.{refresh}
use qf635project.Oms.Engine.{
  Env, Oms, dash, order_acknowledged, safe_publish, publish_open_orders, with_order,
}

-- `external`
abbrev pub external_strategy_id : List ℕ
external_strategy_id = 101 ∷ 120 ∷ 116 ∷ 101 ∷ 114 ∷ 110 ∷ 97 ∷ 108 ∷ []

-- `coid.rpartition("-")`: the text before the last dash and the text after it, if there is a dash.
unfoldable pub rpartition : List ℕ → Option (List ℕ × List ℕ)
rpartition [] = none
rpartition (c ∷ cs) = elim (rpartition cs) [
  | none ↦ if c == dash then some ([], cs) else none
  | some (head, tail) ↦ some (c ∷ head, tail)
]

-- `c in "0123456789abcdef"`
abbrev pub is_hex : ℕ → Bool
is_hex c = leb 48 c && leb c 57 || leb 97 c && leb c 102

abbrev pub is_hex_text : List ℕ → Bool
is_hex_text [] = true
is_hex_text (c ∷ cs) = is_hex c && is_hex_text cs

abbrev pub is_minted : List ℕ → List ℕ → Bool
is_minted [] tail = false
is_minted (_ ∷ _) tail = length tail == 12 && is_hex_text tail

unfoldable pub strategy_id_from_client_order_id : List ℕ → List ℕ
strategy_id_from_client_order_id coid = elim (rpartition coid) [
  | none ↦ external_strategy_id
  | some (head, tail) ↦ if is_minted head tail then head else external_strategy_id
]

-- What `adopt_order` is told of an order of the venue.
pub record VenueOrder : Type 0 where
  pub instrument : Instrument
  pub client_order_id : List ℕ
  pub side : Side
  pub order_type : OrderType
  pub quantity : Quantity
  pub cumulative_filled : Quantity
  pub price : Option Price
  pub time_in_force : TimeInForce
  pub exchange_order_id : Option ℕ
  pub created_at_ns : Option Timestamp

module _ {Algo : Type 0} (env : Env Algo) where
  -- The acknowledgement of an order that the venue has given an id.
  abbrev pub announce : Order → Oms Algo → Oms Algo
  announce o e = elim o.exchange_order_id [
    | none ↦ e
    | some xid ↦ (safe_publish env (order_acknowledged o.order_id xid) e).1
  ]

module _ {Algo : Type 0} (number_of : List ℕ → ℕ) where
  abbrev pub adopted : Timestamp → VenueOrder → Oms Algo → Order
  adopted now v e = record {
    order_id = e.next_order_id;
    client_order_id = v.client_order_id;
    strategy_id = number_of (strategy_id_from_client_order_id v.client_order_id);
    instrument = v.instrument;
    side = v.side;
    order_type = v.order_type;
    quantity = v.quantity;
    price = v.price;
    time_in_force = v.time_in_force;
    created_at_ns = elim v.created_at_ns [ none ↦ now | some at ↦ at ];
    status = if ltb_ℤ (pos 0) v.cumulative_filled then partially_filled else acknowledged;
    exchange_order_id = v.exchange_order_id;
    cumulative_filled = v.cumulative_filled;
    average_fill_price = pos 0;
    last_update_ns = 0;
    parent_leg_id = none;
    applied_fills = [];
    pending_amend = none;
  }

module _ {Algo : Type 0} (env : Env Algo) (number_of : List ℕ → ℕ) where
  -- `adopt_order`: an order that is known by its client order id is only refreshed.
  unfoldable pub adopt_order : Timestamp → VenueOrder → Oms Algo → ℕ × Oms Algo
  adopt_order now v e = elim (lookup v.client_order_id e.coid_to_order_id) [
    | some order_id ↦ (
      order_id,
      record e {
        orders = update_order order_id (refresh v.quantity v.cumulative_filled v.price) e.orders;
      },
    )
    | none ↦
        let o = adopted number_of now v e in
        (o.order_id, publish_open_orders env (announce env o (with_order env o e)))
  ]
