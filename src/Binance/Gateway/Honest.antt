-- ===== src/Binance/Gateway/Honest.antt =====
-- order_gateways/binance/order_gateway.py: an order is reported as cancelled only if it is off the venue.
use qf635project.Base.{ℕ, ◌≡◌, Bool, true, false, Option, List, ◌++◌, ◌==◌, All}
use qf635project.Base.Dict.{text_eq}
use qf635project.Core.{Price, Quantity, Side}
use qf635project.Oms.Order.{Order}
use qf635project.Oms.Response.{
  VenueEvent, order_acknowledged, order_rejected, cancel_rejected, amend_rejected, order_cancelled,
  order_amended,
}
use qf635project.Binance.Errors.{order_error, rate_limited, auth_error, gateway_error}
use qf635project.Binance.Gateway.{
  Env, remove, modify, Reply, accepted, raised, BinanceOrderGateway, OrderEvent, new, cancel, amend,
  is_gone,
}

abbrev pub client_order_id_of : OrderEvent → List ℕ
client_order_id_of (new req) = req.client_order_id
client_order_id_of (cancel req) = req.client_order_id
client_order_id_of (amend req) = req.client_order_id

module _ {Venue : Type 0} (env : Env Venue) (resting : List ℕ → Venue → Bool) where
  -- The reply to a DELETE tells of an order that is gone only if it does not rest.
  abbrev pub RemovalTold : List ℕ → Reply × Venue → Type 0
  RemovalTold coid (accepted resp, w) = resting coid w ≡ false
  RemovalTold coid (raised (order_error code logical), w) =
      is_gone code ≡ true → resting coid w ≡ false
  RemovalTold coid (raised rate_limited, w) = Unit {0}
  RemovalTold coid (raised auth_error, w) = Unit {0}
  RemovalTold coid (raised gateway_error, w) = Unit {0}

  -- The reply to a PUT tells of a terminal order, or of none, only if it does not rest.
  abbrev pub ChangeTold : List ℕ → Reply × Venue → Type 0
  ChangeTold coid (accepted resp, w) = resp.terminal ≡ true → resting coid w ≡ false
  ChangeTold coid (raised (order_error code logical), w) =
      (code == 2013) ≡ true → resting coid w ≡ false
  ChangeTold coid (raised rate_limited, w) = Unit {0}
  ChangeTold coid (raised auth_error, w) = Unit {0}
  ChangeTold coid (raised gateway_error, w) = Unit {0}

  -- What a futures venue is documented to mean: a DELETE that it accepts has ended the order, and so has a
  -- PUT whose reply has a final status; the code -2013 says that there is no such order, and for a DELETE
  -- the codes that `RemovalTold` names.
  pub record IsTruthful : Type 0 where
    pub removal :
        (symbol : ℕ) (coid : List ℕ) (w : Venue)
        → RemovalTold coid (env.send (remove symbol coid) w)
    pub change :
        (symbol : ℕ) (side : Side) (coid : List ℕ) (price : Option Price)
        (quantity : Option Quantity) (w : Venue)
        → ChangeTold coid (env.send (modify symbol side coid price quantity) w)

  -- A cancellation is published of what does not rest.
  abbrev pub IsHonest : List ℕ → Venue → VenueEvent → Type 0
  IsHonest coid w (order_cancelled _ _) = resting coid w ≡ false
  IsHonest coid w (order_acknowledged _ _ _) = Unit {0}
  IsHonest coid w (order_rejected _ _) = Unit {0}
  IsHonest coid w (cancel_rejected _ _) = Unit {0}
  IsHonest coid w (amend_rejected _) = Unit {0}
  IsHonest coid w (order_amended _ _ _ _ _) = Unit {0}

  -- What is published after `g`, and what rests on the venue then.
  abbrev pub Publishes : List ℕ → BinanceOrderGateway → BinanceOrderGateway × Venue → Type 0
  Publishes coid g r =
      (evs : List VenueEvent) × (r.0.published ≡ g.published ++ evs) × All (IsHonest coid r.1) evs
