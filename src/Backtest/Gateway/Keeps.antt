-- ===== src/Backtest/Gateway/Keeps.antt =====
-- backtest/order_gateway.py: what every handler keeps of the schedule.
use qf635project.Base.{
  ℕ, suc, ◌+◌, ◌≤◌, ◌<◌, Bool, true, false, List, [], ◌∷◌, All, All-map, map, ◌==◌, ◌&&◌, ◌||◌, ltb,
  Option-cases, inl, inr, if-elim, arith,
}
use qf635project.Base.Dict.{number_eq, lookup, insert, erase}
use qf635project.Base.Decimal.{pos, eq_ℤ}
use qf635project.Core.{Price, Quantity, Timestamp, Instrument, Side}
use qf635project.Oms.Order.{Order}
use qf635project.Venue.Matching.{
  Config, Rng, RestingOrder, Part, split_fill, fill_price, would_cross, fills_at_once, is_post_only,
  fill_of,
}
use qf635project.Venue.Simulation.{
  Published, fill, MarketData, tick, trade, AmendRequest, OrderEvent, request, cancel, amend,
  rest_of,
}
use qf635project.Backtest.Schedule.{Scheduled}
use qf635project.Backtest.Schedule.Sorted.{IsSorted, push-All, push-IsSorted}
use qf635project.Backtest.Gateway.{
  Gateway, schedule_event, schedule_reject, schedule_fills, emit_fills, fill_market, acknowledge,
  accept, draw_reject, after_draw, handle_order_request, handle_cancel_request,
  handle_amend_request, on_order_event, after_match, match_order, matched, schedule_match,
  first_fill, second_fill, is_hit, match_keys, match_one, on_market_data, top_of,
}

-- The schedule is in order, its numbers have been given out, and nothing of it is due before `now`.
pub record Timely (now : Timestamp) (schedule : List Scheduled) (seq : ℕ) : Type 0 where
  pub sorted : IsSorted schedule
  pub numbered : All (λ x. x.seq < seq) schedule
  pub ahead : All (λ x. now ≤ x.due_ns) schedule

abbrev pub OnTime : Timestamp → Gateway → Type 0
OnTime now g = Timely now g.schedule g.seq

-- An operation that keeps the schedule on time.
abbrev Keeps : Timestamp → (Gateway → Gateway) → Type 0
Keeps now f = (g : Gateway) → OnTime now g → OnTime now (f g)

module _ (c : Config) (rng : Rng) (now : Timestamp) where
  schedule_event-OnTime :
      (delay : ℕ) (event : Published) → Keeps now (schedule_event c rng now delay event)
  unfolding schedule_event
  schedule_event-OnTime delay event g v =
      let s : Scheduled = record { due_ns = now + delay; seq = g.seq; event = event } in
      record {
        sorted = push-IsSorted s g.schedule v.numbered v.sorted;
        numbered =
            push-All (λ x. x.seq < suc g.seq) s g.schedule (omega arith)
              (All-map (λ x. x.seq < g.seq) (λ x. x.seq < suc g.seq) (λ x h. omega arith) g.schedule
                v.numbered);
        ahead = push-All (λ x. now ≤ x.due_ns) s g.schedule (omega arith) v.ahead;
      }

  schedule_fills-OnTime :
      (delay order_id sid : ℕ) (instrument : Instrument) (side : Side) (price : Price)
      (is_maker : Bool) (ps : List Part)
      → Keeps now (schedule_fills c rng now delay order_id sid instrument side price is_maker ps)
  unfolding schedule_fills
  schedule_fills-OnTime delay order_id sid instrument side price is_maker [] g v = v
  schedule_fills-OnTime delay order_id sid instrument side price is_maker (p ∷ ps) g v =
      schedule_fills-OnTime delay order_id sid instrument side price is_maker ps _ (
        schedule_event-OnTime delay
          (fill (fill_of c (now + delay) g.next_id order_id sid instrument side price is_maker p))
          (record g { next_id = suc g.next_id }) v)

  emit_fills-OnTime :
      (delay : ℕ) (req : Order) (price : Price) → Keeps now (emit_fills c rng now delay req price)
  unfolding emit_fills
  emit_fills-OnTime delay req price g v =
      let (first, second, draws) = split_fill c rng g.draws req.quantity in
      schedule_fills-OnTime (delay + c.fill_ns) req.order_id req.strategy_id req.instrument req.side
        price false _ _
        (schedule_fills-OnTime delay req.order_id req.strategy_id req.instrument req.side price
          false _ (record g { draws = draws }) v)

  fill_market-OnTime : (req : Order) → Keeps now (fill_market c rng now req)
  unfolding fill_market
  fill_market-OnTime req g v = elim (Option-cases (fill_price c req (top_of req g))) [
    | inl unpriced ↦ rw (unpriced, fill_market) (schedule_event-OnTime c.submit_ack_ns _ g v)
    | inr (price, priced) ↦
        rw (priced, fill_market) (emit_fills-OnTime (c.submit_ack_ns + c.fill_ns) req price g v)
  ]

  acknowledge-OnTime : (req : Order) → Keeps now (acknowledge c rng now req)
  acknowledge-OnTime req g v =
      schedule_event-OnTime c.submit_ack_ns _ (record g { next_id = suc g.next_id }) v

  accept-OnTime : (req : Order) → Keeps now (accept c rng now req)
  unfolding accept
  accept-OnTime req g v =
      if-elim (OnTime now) (fills_at_once req.order_type || would_cross req (top_of req g))
        (fill_market c rng now req (acknowledge c rng now req g))
        (record (acknowledge c rng now req g) {
          resting = insert req.order_id (rest_of req g.next_id) g.resting;
        })
        (λ _. fill_market-OnTime req (acknowledge c rng now req g) (acknowledge-OnTime req g v))
        (λ _. acknowledge-OnTime req g v)

  after_draw-OnTime :
      (req : Order) (drawn : Bool × Gateway)
      → OnTime now drawn.1
      → OnTime now (after_draw c rng now req drawn)
  after_draw-OnTime req (true, g) v = schedule_event-OnTime c.submit_ack_ns _ g v
  after_draw-OnTime req (false, g) v =
      if-elim (OnTime now) (is_post_only req.order_type && would_cross req (top_of req g))
        (schedule_reject c rng now c.submit_ack_ns req.order_id g) (accept c rng now req g)
        (λ _. schedule_event-OnTime c.submit_ack_ns _ g v) (λ _. accept-OnTime req g v)

  handle_order_request-OnTime : (req : Order) → Keeps now (handle_order_request c rng now req)
  unfolding handle_order_request
  handle_order_request-OnTime req g v =
      if-elim (OnTime now) (c.is_ours req.instrument)
        (after_draw c rng now req (draw_reject c rng now g)) g
        (λ _. after_draw-OnTime req (draw_reject c rng now g) (
          if-elim (λ (p : Bool × Gateway). OnTime now p.1) (c.reject_probability == 0) (false, g)
            (ltb (rng.random g.draws) c.reject_probability, record g { draws = suc g.draws })
            (λ _. v) (λ _. v)))
        (λ _. v)

  handle_cancel_request-OnTime : (k : ℕ) → Keeps now (handle_cancel_request c rng now k)
  unfolding handle_cancel_request
  handle_cancel_request-OnTime k g v = elim (Option-cases (lookup k g.resting)) [
    | inl gone ↦ rw (gone, handle_cancel_request) (schedule_event-OnTime c.cancel_ack_ns _ g v)
    | inr (o, at) ↦
        rw (at, handle_cancel_request)
          (schedule_event-OnTime c.cancel_ack_ns _ (record g { resting = erase k g.resting }) v)
  ]

  handle_amend_request-OnTime :
      (req : AmendRequest) → Keeps now (handle_amend_request c rng now req)
  unfolding handle_amend_request
  handle_amend_request-OnTime req g v = elim (Option-cases (lookup req.order_id g.resting)) [
    | inl gone ↦ rw (gone, handle_amend_request) v
    | inr (o, at) ↦ rw (at, handle_amend_request) v
  ]

  pub on_order_event-OnTime : (ev : OrderEvent) → Keeps now (on_order_event c rng now ev)
  unfolding on_order_event
  on_order_event-OnTime (request req) g v = handle_order_request-OnTime req g v
  on_order_event-OnTime (cancel k) g v = handle_cancel_request-OnTime k g v
  on_order_event-OnTime (amend req) g v = handle_amend_request-OnTime req g v

  after_match-OnTime : (o : RestingOrder) → Keeps now (after_match c rng now o)
  after_match-OnTime o g v =
      if-elim (OnTime now) (eq_ℤ o.leaves (pos 0))
        (record g { resting = erase o.order_id g.resting })
        (record g { resting = insert o.order_id o g.resting }) (λ _. v) (λ _. v)

  schedule_match-OnTime :
      (o : RestingOrder) (split : Quantity × Quantity × ℕ)
      → Keeps now (schedule_match c rng now o split)
  schedule_match-OnTime o (first, second, draws) g v =
      schedule_fills-OnTime (c.fill_ns + c.fill_ns) o.order_id o.strategy_id o.instrument o.side
        o.price true (second_fill c rng now o first second)
        (schedule_fills c rng now c.fill_ns o.order_id o.strategy_id o.instrument o.side o.price
          true (first_fill c rng now o first) (record g { draws = draws }))
        (schedule_fills-OnTime c.fill_ns o.order_id o.strategy_id o.instrument o.side o.price true
          (first_fill c rng now o first) (record g { draws = draws }) v)

  match_order-OnTime : (o : RestingOrder) → Keeps now (match_order c rng now o)
  unfolding match_order
  match_order-OnTime o g v =
      let split = split_fill c rng g.draws o.leaves in
      after_match-OnTime (matched c rng now o split) (schedule_match c rng now o split g)
        (schedule_match-OnTime o split g v)

  match_keys-OnTime :
      (instrument : Instrument) (price : Price) (ks : List ℕ)
      → Keeps now (match_keys c rng now instrument price ks)
  unfolding match_keys
  match_keys-OnTime instrument price [] g v = v
  match_keys-OnTime instrument price (k ∷ ks) g v =
      match_keys-OnTime instrument price ks (match_one c rng now instrument price k g)
        (elim (Option-cases (lookup k g.resting)) [
          | inl gone ↦ rw (gone, match_one) v
          | inr (o, at) ↦
              rw (at, match_one)
                (if-elim (OnTime now) (is_hit c rng now instrument price o)
                  (match_order c rng now o g) g (λ _. match_order-OnTime o g v) (λ _. v))
        ])

  pub on_market_data-OnTime : (d : MarketData) → Keeps now (on_market_data c rng now d)
  unfolding on_market_data
  on_market_data-OnTime (tick instrument bid ask) g v = v
  on_market_data-OnTime (trade instrument price) g v =
      match_keys-OnTime instrument price (map (λ entry. entry.0) g.resting) g v
