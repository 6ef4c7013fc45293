-- ===== src/Backtest/Gateway.antt =====
-- backtest/order_gateway.py: the gateway that schedules what it answers. `now` is the simulated clock
-- and a latency is in nanoseconds. No handler waits.
pub mod Keeps
use qf635project.Base.{
  ℕ, suc, ◌+◌, Bool, true, false, Option, none, some, List, [], ◌∷◌, ◌++◌, ◌==◌, ◌&&◌, ◌||◌, ltb,
  if◌then◌else◌, map,
}
use qf635project.Base.Dict.{Dict, number_eq, lookup, insert, erase}
use qf635project.Base.Decimal.{ℤ, pos, ◌+ℤ◌, ◌-ℤ◌, ltb_ℤ, eq_ℤ}
use qf635project.Core.{Price, Quantity, Timestamp, Instrument, Side}
use qf635project.Oms.Order.{Order}
use qf635project.Oms.Response.{order_acknowledged, order_rejected, order_cancelled}
use qf635project.Venue.Matching.{
  Rng, Config, TopOfBook, RestingOrder, would_cross, crosses_trade, fills_at_once, is_post_only,
  fill_price, split_fill, Part, part_if, take_if, fill_of,
}
use qf635project.Venue.Simulation.{
  Published, answer, fill, MarketData, tick, trade, AmendRequest, OrderEvent, request, cancel,
  amend, rest_of,
}
use qf635project.Backtest.Schedule.{Scheduled, push, drain}

pub record Gateway : Type 0 where
  pub tops : Dict ℕ TopOfBook
  pub resting : Dict ℕ RestingOrder
  pub draws : ℕ
  pub next_id : ℕ
  pub schedule : List Scheduled
  pub seq : ℕ
  pub started : Bool

abbrev pub opened : Gateway
opened = record {
  tops = [];
  resting = [];
  draws = 0;
  next_id = 0;
  schedule = [];
  seq = 0;
  started = false;
}

-- `drain_due`: what is published, and the gateway after it.
unfoldable pub drain_due : Timestamp → Gateway → List Published × Gateway
drain_due now g = let (out, rest) = drain now g.schedule in (out, record g { schedule = rest })

abbrev pub top_of : Order → Gateway → Option TopOfBook
top_of req g = lookup req.instrument.instrument_id g.tops

module _ (c : Config) (rng : Rng) (now : Timestamp) where
  -- `_schedule_event`
  unfoldable pub schedule_event : ℕ → Published → Gateway → Gateway
  schedule_event delay event g = record g {
    schedule = push (record { due_ns = now + delay; seq = g.seq; event = event }) g.schedule;
    seq = suc g.seq;
  }

  -- `_schedule_reject`
  abbrev pub schedule_reject : ℕ → ℕ → Gateway → Gateway
  schedule_reject delay order_id g =
      schedule_event delay (answer (order_rejected order_id (now + delay))) g

  -- `_schedule_fill`, of the one part there is or of none.
  unfoldable pub schedule_fills :
      ℕ → ℕ → ℕ → Instrument → Side → Price → Bool → List Part → Gateway → Gateway
  schedule_fills delay order_id sid instrument side price is_maker [] g = g
  schedule_fills delay order_id sid instrument side price is_maker (p ∷ ps) g =
      schedule_fills delay order_id sid instrument side price is_maker ps (
        schedule_event delay
          (fill (fill_of c (now + delay) g.next_id order_id sid instrument side price is_maker p))
          (record g { next_id = suc g.next_id }))

  -- `_emit_fills`
  unfoldable pub emit_fills : ℕ → Order → Price → Gateway → Gateway
  emit_fills delay req price g =
      let (first, second, draws) = split_fill c rng g.draws req.quantity in
      let first_part =
        part_if (ltb_ℤ (pos 0) first)
          (record { quantity = first; cumulative = first; leaves = req.quantity -ℤ first }) in
      let second_part =
        part_if (ltb_ℤ (pos 0) second)
          (record { quantity = second; cumulative = req.quantity; leaves = pos 0 }) in
      schedule_fills (delay + c.fill_ns) req.order_id req.strategy_id req.instrument req.side price
        false second_part
        (schedule_fills delay req.order_id req.strategy_id req.instrument req.side price false
          first_part (record g { draws = draws }))

  -- `_fill_market`
  unfoldable pub fill_market : Order → Gateway → Gateway
  fill_market req g = elim (fill_price c req (top_of req g)) [
    | none ↦ schedule_reject c.submit_ack_ns req.order_id g
    | some price ↦ emit_fills (c.submit_ack_ns + c.fill_ns) req price g
  ]

  abbrev pub acknowledge : Order → Gateway → Gateway
  acknowledge req g =
      schedule_event c.submit_ack_ns
        (answer (order_acknowledged req.order_id (now + c.submit_ack_ns) g.next_id))
        (record g { next_id = suc g.next_id })

  unfoldable pub accept : Order → Gateway → Gateway
  accept req g =
      if fills_at_once req.order_type || would_cross req (top_of req g)
      then fill_market req (acknowledge req g)
      else record (acknowledge req g) {
        resting = insert req.order_id (rest_of req g.next_id) g.resting;
      }

  abbrev pub draw_reject : Gateway → Bool × Gateway
  draw_reject g =
      if c.reject_probability == 0
      then (false, g)
      else (ltb (rng.random g.draws) c.reject_probability, record g { draws = suc g.draws })

  abbrev pub after_draw : Order → Bool × Gateway → Gateway
  after_draw req (true, g) = schedule_reject c.submit_ack_ns req.order_id g
  after_draw req (false, g) =
      if is_post_only req.order_type && would_cross req (top_of req g)
      then schedule_reject c.submit_ack_ns req.order_id g
      else accept req g

  -- `_handle_order_request`
  unfoldable pub handle_order_request : Order → Gateway → Gateway
  handle_order_request req g =
      if c.is_ours req.instrument then after_draw req (draw_reject g) else g

  -- `_handle_cancel_request`
  unfoldable pub handle_cancel_request : ℕ → Gateway → Gateway
  handle_cancel_request order_id g = elim (lookup order_id g.resting) [
    | none ↦ schedule_reject c.cancel_ack_ns order_id g
    | some _ ↦
        schedule_event c.cancel_ack_ns (answer (order_cancelled order_id (now + c.cancel_ack_ns)))
          (record g { resting = erase order_id g.resting })
  ]

  -- The changes of `_handle_amend_request`, which answers nothing.
  abbrev pub amended : AmendRequest → RestingOrder → RestingOrder
  amended req o = record o {
    quantity = elim req.new_quantity [ none ↦ o.quantity | some q ↦ q ];
    leaves = elim req.new_quantity [ none ↦ o.leaves | some q ↦ q ];
    price = elim req.new_price [ none ↦ o.price | some p ↦ p ];
  }

  unfoldable pub handle_amend_request : AmendRequest → Gateway → Gateway
  handle_amend_request req g = elim (lookup req.order_id g.resting) [
    | none ↦ g
    | some o ↦ record g { resting = insert req.order_id (amended req o) g.resting }
  ]

  -- `_on_order_event`
  unfoldable pub on_order_event : OrderEvent → Gateway → Gateway
  on_order_event (request req) g = handle_order_request req g
  on_order_event (cancel order_id) g = handle_cancel_request order_id g
  on_order_event (amend req) g = handle_amend_request req g

  -- `_emit_fills_for_resting`, and the order's place in the book after it.
  abbrev pub after_match : RestingOrder → Gateway → Gateway
  after_match o g =
      if eq_ℤ o.leaves (pos 0)
      then record g { resting = erase o.order_id g.resting }
      else record g { resting = insert o.order_id o g.resting }

  abbrev pub first_fill : RestingOrder → Quantity → List Part
  first_fill o first = part_if (ltb_ℤ (pos 0) first) (record {
    quantity = first;
    cumulative = o.quantity -ℤ o.leaves +ℤ first;
    leaves = take_if first o.leaves;
  })

  abbrev pub second_fill : RestingOrder → Quantity → Quantity → List Part
  second_fill o first second = part_if (ltb_ℤ (pos 0) second) (record {
    quantity = second;
    cumulative = o.quantity -ℤ o.leaves +ℤ first +ℤ second;
    leaves = take_if first o.leaves -ℤ second;
  })

  abbrev pub schedule_match : RestingOrder → Quantity × Quantity × ℕ → Gateway → Gateway
  schedule_match o (first, second, draws) g =
      schedule_fills (c.fill_ns + c.fill_ns) o.order_id o.strategy_id o.instrument o.side o.price
        true (second_fill o first second)
        (schedule_fills c.fill_ns o.order_id o.strategy_id o.instrument o.side o.price true
          (first_fill o first) (record g { draws = draws }))

  abbrev pub matched : RestingOrder → Quantity × Quantity × ℕ → RestingOrder
  matched o (first, second, draws) = record o { leaves = take_if second (take_if first o.leaves) }

  unfoldable pub match_order : RestingOrder → Gateway → Gateway
  match_order o g =
      let split = split_fill c rng g.draws o.leaves in
      after_match (matched o split) (schedule_match o split g)

  abbrev pub is_hit : Instrument → Price → RestingOrder → Bool
  is_hit instrument price o =
      o.instrument.instrument_id == instrument.instrument_id && crosses_trade o.side o.price price

  abbrev pub match_one : Instrument → Price → ℕ → Gateway → Gateway
  match_one instrument price k g = elim (lookup k g.resting) [
    | none ↦ g
    | some o ↦ if is_hit instrument price o then match_order o g else g
  ]

  unfoldable pub match_keys : Instrument → Price → List ℕ → Gateway → Gateway
  match_keys instrument price [] g = g
  match_keys instrument price (k ∷ ks) g =
      match_keys instrument price ks (match_one instrument price k g)

  -- `_on_market_data`, with `_match_resting_against_trade`.
  unfoldable pub on_market_data : MarketData → Gateway → Gateway
  unfolding match_keys
  on_market_data (tick instrument bid ask) g = record g {
    tops = insert instrument.instrument_id (record { bid = some bid; ask = some ask }) g.tops;
  }
  on_market_data (trade instrument price) g =
      match_keys instrument price (map (λ entry. entry.0) g.resting) g
