-- ===== src/Venue/Lifecycle.antt =====
-- oms/order.py and oms/engine.py with order_gateways/simulation.py: an order of the OMS that the
-- venue fills.
use mathlib.Core.Path.{subst}
use qf635project.Base.{
  ℕ, suc, ◌<◌, ◌≡◌, refl, ◌∙◌, sym, ap, Bool, true, false, some, List, [], ◌∷◌, ◌++◌, append_assoc,
  All, any, ◌==◌, if◌then◌else◌, arith,
}
use qf635project.Base.Decimal.{pos, ◌+ℤ◌, ◌-ℤ◌, ◌<ℤ◌, ◌≤ℤ◌, eq_ℤ, int_laws, parts_of_eq, -ℤ_parts}
use qf635project.Core.{
  Price, Quantity, Timestamp, Instrument, Side, OrderType, market, ioc, fok, limit, stop,
  stop_limit, post_only, pending_new, partially_filled, filled, FillEvent,
}
use qf635project.Oms.StateMachine
use qf635project.Oms.StateMachine.{validate_transition}
use qf635project.Oms.Order
use qf635project.Oms.Order.{
  Order, Outcome, returned, was_applied, record_fill, apply_fill, transition_to, leaves_quantity,
}
use qf635project.Oms.Response.{order_acknowledged, respond, fill_result}
use qf635project.Venue.Matching.{
  Config, Rng, Part, fill_of, split_fill, request_parts, fill_price, fills_at_once, is_post_only,
}
use qf635project.Venue.Matching.Parts.{IsUniform, split_fill-Splits, Adds, request_parts-Adds}
use qf635project.Venue.Simulation.{
  Gateway, Published, answer, fill, acknowledge, emit_fills, fill_market, accept,
  handle_order_request, top_of,
}
use qf635project.Venue.Simulation.Fills.{fills_from, publish_fills_lem}

-- What an order makes of an event of the venue.
abbrev pub receive : Timestamp → Published → Order → Order
receive now (answer ev) o = respond now ev o
receive now (fill f) o = (fill_result f.event o).1

unfoldable pub receive_all : Timestamp → List Published → Order → Order
receive_all now [] o = o
receive_all now (ev ∷ evs) o = receive_all now evs (receive now ev o)

-- The order is live, has seen no fill from the id `n` on, and has `total` asked and `done` filled.
pub record IsLive (n : ℕ) (done total : Quantity) (o : Order) : Type 0 where
  pub live : Order.is_terminal o ≡ false
  pub unseen : All (λ k. k < n) o.applied_fills
  pub asked : o.quantity ≡ total
  pub counted : o.cumulative_filled ≡ done

unseen-was_applied : (n : ℕ) (ks : List ℕ) → All (λ k. k < n) ks → any (λ k. n == k) ks ≡ false
unseen-was_applied n [] h = refl
unseen-was_applied n (k ∷ ks) h = ground (arith, unseen-was_applied n ks h.1)

unseen_suc : (n : ℕ) (ks : List ℕ) → All (λ k. k < n) ks → All (λ k. k < suc n) ks
unseen_suc n [] h = tt
unseen_suc n (k ∷ ks) h = (omega (arith, h.0), unseen_suc n ks h.1)

-- A new fill of a live order.
new_fill :
    (o : Order) (f : FillEvent)
    → Order.is_terminal o ≡ false
    → was_applied f.fill_id o ≡ false
    → let p = (fill_result f o).1 in
      (p.quantity ≡ o.quantity)
      × (p.applied_fills ≡ f.fill_id ∷ o.applied_fills)
      × (p.cumulative_filled ≡ o.cumulative_filled +ℤ f.fill_quantity)
      × (p.status ≡ (
          if eq_ℤ (o.quantity -ℤ (o.cumulative_filled +ℤ f.fill_quantity)) (pos 0)
          then filled
          else partially_filled))
unfolding apply_fill record_fill transition_to validate_transition StateMachine.is_terminal
new_fill o f live new = ground arith

Adds-le : (a t : Quantity) (ps : List Part) → Adds a t ps → a ≤ℤ t
Adds-le a t [] e = omega (int_laws, parts_of_eq a t e)
Adds-le a t (p ∷ ps) (pos_q, cum, left, more) =
    omega (int_laws, Adds-le p.cumulative t ps more, parts_of_eq _ _ cum)

-- After a fill with another behind it something is left.
more_left :
    (c t : Quantity) (p : Part) (ps : List Part) → Adds c t (p ∷ ps) → eq_ℤ (t -ℤ c) (pos 0) ≡ false
more_left c t p ps (pos_q, cum, left, more) =
    let le = Adds-le p.cumulative t ps more in
    let sum = parts_of_eq _ _ cum in differs (omega int_laws)
  where
    differs : c <ℤ t → eq_ℤ (t -ℤ c) (pos 0) ≡ false
    differs lt = let d = -ℤ_parts t c in ground arith

none_left : (c t : Quantity) → c ≡ t → eq_ℤ (t -ℤ c) (pos 0) ≡ true
none_left c t e = let d = -ℤ_parts t c in let f = parts_of_eq _ _ e in ground arith

-- What an order is when all of `total` is filled.
abbrev pub IsFilled : Quantity → Order → Type 0
IsFilled total o = (o.status ≡ filled) × (o.cumulative_filled ≡ total) × (leaves_quantity o ≡ pos 0)

-- The status of an order of which `total` is asked and `cum` filled.
abbrev Counted : ℕ → List ℕ → Quantity → Quantity → Order → Type 0
Counted n seen cum total o =
    (o.quantity ≡ total)
    × (o.applied_fills ≡ n ∷ seen)
    × (o.cumulative_filled ≡ cum)
    × (o.status ≡ (if eq_ℤ (total -ℤ cum) (pos 0) then filled else partially_filled))

new_fill-Counted :
    (o : Order) (f : FillEvent) (n : ℕ) (done total cum : Quantity)
    → IsLive n done total o
    → f.fill_id ≡ n
    → cum ≡ done +ℤ f.fill_quantity
    → Counted n o.applied_fills cum total (fill_result f o).1
new_fill-Counted o f n done total cum v id e =
    let seen = unseen-was_applied n o.applied_fills v.unseen in
    let (q, a, cf, st) = new_fill o f v.live (ap (λ k. was_applied k o) id ∙ seen) in
    let sum = ap (λ d. d +ℤ f.fill_quantity) v.counted ∙ sym e in
    (
      q ∙ v.asked,
      a ∙ ap (λ (k : ℕ). k ∷ o.applied_fills) id,
      cf ∙ sum,
      st
          ∙ ap
              (λ (d : Quantity).
                if eq_ℤ (o.quantity -ℤ d) (pos 0) then filled else partially_filled)
              sum
          ∙ ap (λ (d : Quantity). if eq_ℤ (d -ℤ cum) (pos 0) then filled else partially_filled)
              v.asked,
    )

Counted-IsFilled :
    (n : ℕ) (seen : List ℕ) (cum total : Quantity) (o : Order)
    → Counted n seen cum total o
    → cum ≡ total
    → IsFilled total o
Counted-IsFilled n seen cum total o (q, a, cf, st) e =
    let e1 = parts_of_eq _ _ q in
    let e2 = parts_of_eq _ _ cf in
    let e3 = parts_of_eq _ _ e in
    (
      st ∙ ap (λ (b : Bool). if b then filled else partially_filled) (none_left cum total e),
      cf ∙ e,
      omega int_laws,
    )

partially_filled-is_terminal :
    (o : Order) → o.status ≡ partially_filled → Order.is_terminal o ≡ false
unfolding StateMachine.is_terminal
partially_filled-is_terminal o e = rw e

Counted-IsLive :
    (n : ℕ) (seen : List ℕ) (cum total : Quantity) (o : Order)
    → All (λ k. k < n) seen
    → Counted n seen cum total o
    → eq_ℤ (total -ℤ cum) (pos 0) ≡ false
    → IsLive (suc n) cum total o
Counted-IsLive n seen cum total o unseen (q, a, cf, st) e = record {
  live =
      partially_filled-is_terminal o
        (st ∙ ap (λ (b : Bool). if b then filled else partially_filled) e);
  unseen = rw a (omega arith, unseen_suc n seen unseen);
  asked = q;
  counted = cf;
}

module _ (c : Config) (now ts : Timestamp) (order_id sid : ℕ) (instrument : Instrument)
    (side : Side) (price : Price) (is_maker : Bool) where
  receive_fills-IsFilled :
      (ps : List Part) (p : Part) (n : ℕ) (done total : Quantity) (o : Order)
      → Adds done total (p ∷ ps)
      → IsLive n done total o
      → IsFilled total (
          receive_all now
            (fills_from c ts order_id sid instrument side price is_maker n (p ∷ ps))
            o)
  unfolding receive_all fills_from
  receive_fills-IsFilled [] p n done total o (pos_q, cum, left, last) v =
      let f = (fill_of c ts n order_id sid instrument side price is_maker p).event in
      Counted-IsFilled n o.applied_fills p.cumulative total (fill_result f o).1
        (new_fill-Counted o f n done total p.cumulative v refl cum) last
  receive_fills-IsFilled (p' ∷ ps) p n done total o (pos_q, cum, left, more) v =
      let f = (fill_of c ts n order_id sid instrument side price is_maker p).event in
      receive_fills-IsFilled ps p' (suc n) p.cumulative total (fill_result f o).1 more (
        Counted-IsLive n o.applied_fills p.cumulative total (fill_result f o).1 v.unseen
          (new_fill-Counted o f n done total p.cumulative v refl cum)
          (more_left p.cumulative total p' ps more))

  receive_parts-IsFilled :
      (ps : List Part) (n : ℕ) (total : Quantity) (o : Order)
      → pos 0 <ℤ total
      → Adds (pos 0) total ps
      → IsLive n (pos 0) total o
      → IsFilled total
          (receive_all now (fills_from c ts order_id sid instrument side price is_maker n ps) o)
  receive_parts-IsFilled [] n total o h e v = absurd (omega (int_laws, parts_of_eq _ _ e))
  receive_parts-IsFilled (p ∷ ps) n total o h a v =
      receive_fills-IsFilled ps p n (pos 0) total o a v

-- An order as the OMS submits it, of which the fill ids from `n` on are new.
pub record IsNew (n : ℕ) (o : Order) : Type 0 where
  pub fresh : o.status ≡ pending_new
  pub unfilled : o.cumulative_filled ≡ pos 0
  pub unseen : All (λ k. k < n) o.applied_fills
  pub positive : pos 0 <ℤ o.quantity

acknowledged-IsLive :
    (n x : ℕ) (now ts : Timestamp) (o : Order)
    → IsNew n o
    → IsLive n (pos 0) o.quantity (respond now (order_acknowledged o.order_id ts x) o)
unfolding respond transition_to validate_transition StateMachine.is_terminal
acknowledged-IsLive n x now ts o v = record {
  live = let e = v.fresh in ground arith;
  unseen = subst (All (λ k. k < n)) (sym (same_fills v.fresh)) v.unseen;
  asked = let e = v.fresh in ground arith;
  counted = let e = v.fresh in ground (arith, v.unfilled);
}
  where
    same_fills :
        o.status ≡ pending_new
        → (respond now (order_acknowledged o.order_id ts x) o).applied_fills ≡ o.applied_fills
    same_fills e = ground arith

-- The venue takes the request: it is its own, it draws no rejections, the order's type fills at once
-- and there is a price to fill at.
pub record IsTaken (c : Config) (req : Order) (g : Gateway) (price : Price) : Type 0 where
  pub ours : c.is_ours req.instrument ≡ true
  pub no_rejects : c.reject_probability ≡ 0
  pub at_once : fills_at_once req.order_type ≡ true
  pub priced : fill_price c req (top_of req g) ≡ some price

at_once-post_only : (t : OrderType) → fills_at_once t ≡ true → is_post_only t ≡ false
at_once-post_only post_only h = cc
at_once-post_only market h = refl
at_once-post_only ioc h = refl
at_once-post_only fok h = refl
at_once-post_only limit h = refl
at_once-post_only stop h = refl
at_once-post_only stop_limit h = refl

module _ (c : Config) (rng : Rng) (now : Timestamp) (req : Order) (g : Gateway) (price : Price)
    (t : IsTaken c req g price) where
  handle-taken :
      handle_order_request c rng now req g
      ≡ emit_fills c rng now req price (acknowledge c rng now req g)
  unfolding handle_order_request accept fill_market fill_price emit_fills
  handle-taken =
      let never = ap (λ k. k == 0) t.no_rejects in
      rw (t.ours, never, at_once-post_only req.order_type t.at_once, t.at_once, t.priced)

  -- An order that the OMS has just submitted, and that the venue takes for an immediate fill, ends
  -- filled: what the venue publishes on it, an acknowledgement and then one fill or two, brings the
  -- order to the status filled, with all its quantity filled and nothing left.
  pub request-IsFilled :
      IsUniform rng
      → IsNew (suc g.next_id) req
      → (evs : List Published) × ((handle_order_request c rng now req g).published
          ≡ g.published ++ evs)
        × IsFilled req.quantity (receive_all now evs req)
  unfolding emit_fills receive_all
  request-IsFilled u v =
      let (first, second, draws) = split_fill c rng g.draws req.quantity in
      let parts = request_parts req.quantity first second in
      let ack = answer (order_acknowledged req.order_id now g.next_id) in
      let fills =
        fills_from c now req.order_id req.strategy_id req.instrument req.side price false
          (suc g.next_id) parts in
      let (e, r, top) =
        publish_fills_lem c now req.order_id req.strategy_id req.instrument req.side price false rng
          parts (record (acknowledge c rng now req g) { draws = draws }) in
      (
        ack ∷ fills,
        ap (λ g'. g'.published) handle-taken ∙ e ∙ append_assoc g.published (ack ∷ []) fills,
        receive_parts-IsFilled c now now req.order_id req.strategy_id req.instrument req.side price
            false parts (suc g.next_id) req.quantity
            (respond now (order_acknowledged req.order_id now g.next_id) req) v.positive
            (request_parts-Adds req.quantity first second
              (split_fill-Splits c rng g.draws req.quantity u (omega (arith, v.positive))))
            (acknowledged-IsLive (suc g.next_id) g.next_id now now req v),
      )
