-- ===== src/Venue/Simulation/Book.antt =====
-- order_gateways/simulation.py: the book of resting orders.
use qf635project.Base.{
  ℕ, zero, suc, ◌≡◌, refl, ◌∙◌, ap, Bool, true, false, Option, none, some, List, [], ◌∷◌, All, map,
  ◌==◌, ◌&&◌, ◌||◌, ltb, Bool-cases, Option-cases, inl, inr, if-elim, arith,
}
use qf635project.Base.Dict.{Dict, number_eq, lookup, insert, erase}
use qf635project.Base.Decimal.{pos, negsuc, ◌-ℤ◌, ◌≤ℤ◌, eq_ℤ, max_ℤ, int_laws, parts_of_eq}
use qf635project.Core.{Price, Quantity, Timestamp, Instrument}
use qf635project.Oms.Order.{Order}
use qf635project.Oms.Response.{order_rejected}
use qf635project.Venue.Matching.{
  Config, Rng, RestingOrder, split_fill, resting_parts, fill_price, would_cross, fills_at_once,
  is_post_only,
}
use qf635project.Venue.Matching.Parts.{IsUniform, split_fill-Splits, resting_parts-Adds}
use qf635project.Venue.Simulation.{
  Gateway, MarketData, tick, trade, AmendRequest, OrderEvent, request, cancel, amend, emit_fills,
  fill_market, accept, handle_order_request, handle_cancel_request, handle_amend_request,
  on_order_event, match_order, match_keys, on_market_data, amended, rest_of, draw_reject, top_of,
  acknowledge, publish, after_draw, after_match, is_hit,
}
use qf635project.Venue.Simulation.Fills.{publish_fills_lem}

-- All that is asked is still to be filled, and it is positive.
abbrev pub Whole : RestingOrder → Type 0
Whole o = (o.leaves ≡ o.quantity) × (pos 1 ≤ℤ o.quantity)

abbrev pub IsWhole : Gateway → Type 0
IsWhole g = All (λ entry. Whole entry.1) g.resting

abbrev Orders : Type 0
Orders = Dict ℕ RestingOrder

abbrev AllWhole : Orders → Type 0
AllWhole d = All (λ entry. Whole entry.1) d

insert-AllWhole :
    (k : ℕ) (o : RestingOrder) (d : Orders) → Whole o → AllWhole d → AllWhole (insert k o d)
insert-AllWhole k o [] h a = (h, tt)
insert-AllWhole k o ((j, w) ∷ d) h a =
    if-elim AllWhole (k == j) ((j, o) ∷ d) ((j, w) ∷ insert k o d) (λ _. (h, a.1))
      (λ _. (a.0, insert-AllWhole k o d h a.1))

erase-AllWhole : (k : ℕ) (d : Orders) → AllWhole d → AllWhole (erase k d)
erase-AllWhole k [] a = tt
erase-AllWhole k ((j, w) ∷ d) a =
    if-elim AllWhole (k == j) d ((j, w) ∷ erase k d) (λ _. a.1) (λ _. (a.0, erase-AllWhole k d a.1))

lookup-Whole : (k : ℕ) (d : Orders) (o : RestingOrder) → AllWhole d → lookup k d ≡ some o → Whole o
lookup-Whole k [] o a e = cc
lookup-Whole k ((j, w) ∷ d) o a e = elim (Bool-cases (k == j)) [
  | inl here ↦ let same : w ≡ o = cc (rw here at e) in rw (← same) a.0
  | inr there ↦ lookup-Whole k d o a.1 (rw there at e)
]

abbrev pub Positive : Option Quantity → Type 0
Positive none = Unit {0}
Positive (some q) = pos 1 ≤ℤ q

-- An input asks for a positive quantity.
abbrev pub Asks : OrderEvent → Type 0
Asks (request req) = pos 1 ≤ℤ req.quantity
Asks (cancel order_id) = Unit {0}
Asks (amend req) = Positive req.new_quantity

max_ℤ-zero : (q : Quantity) → pos 1 ≤ℤ q → max_ℤ (pos 0) q ≡ q
max_ℤ-zero (pos zero) h = refl
max_ℤ-zero (pos (suc n)) h = ground arith
max_ℤ-zero (negsuc n) h = absurd (omega (arith, h))

amended_parts :
    (asked : Option Quantity) (l q : Quantity)
    → l ≡ q
    → pos 1 ≤ℤ q
    → Positive asked
    → ((elim asked as (λ x. Quantity) [ none ↦ l | some a ↦ max_ℤ (pos 0) (a -ℤ (q -ℤ l)) ])
        ≡ (elim asked as (λ x. Quantity) [ none ↦ q | some a ↦ a ]))
      × (pos 1 ≤ℤ (elim asked as (λ x. Quantity) [ none ↦ q | some a ↦ a ]))
amended_parts none l q e h k = (e, h)
amended_parts (some a) l q e h k =
    let sum = parts_of_eq _ _ e in
    let kept : a -ℤ (q -ℤ l) ≡ a = omega int_laws in
    (ap (λ d. max_ℤ (pos 0) d) kept ∙ max_ℤ-zero a k, k)

module _ (c : Config) (rng : Rng) (now : Timestamp) where
  after_match-IsWhole :
      (o : RestingOrder) (g : Gateway)
      → o.leaves ≡ pos 0
      → IsWhole g
      → IsWhole (after_match c rng now o g)
  after_match-IsWhole o g e w =
      let gone : eq_ℤ o.leaves (pos 0) ≡ true = ap (λ l. eq_ℤ l (pos 0)) e in
      rw gone (erase-AllWhole o.order_id g.resting w)

  emit_fills-resting :
      (req : Order) (price : Price) (g : Gateway)
      → (emit_fills c rng now req price g).resting ≡ g.resting
  unfolding emit_fills
  emit_fills-resting req price g =
      (publish_fills_lem c now req.order_id req.strategy_id req.instrument req.side price false rng
        _ _).1

  fill_market-resting :
      (req : Order) (g : Gateway) → (fill_market c rng now req g).resting ≡ g.resting
  unfolding fill_market
  fill_market-resting req g = elim (Option-cases (fill_price c req (top_of req g))) [
    | inl unpriced ↦ rw (unpriced, fill_market)
    | inr (price, priced) ↦ rw (priced, fill_market) (emit_fills-resting req price g)
  ]

  accept-IsWhole :
      (req : Order) (g : Gateway)
      → pos 1 ≤ℤ req.quantity
      → IsWhole g
      → IsWhole (accept c rng now req g)
  unfolding accept
  accept-IsWhole req g h w =
      if-elim IsWhole (fills_at_once req.order_type || would_cross req (top_of req g))
        (fill_market c rng now req (acknowledge c rng now req g))
        (record (acknowledge c rng now req g) {
          resting = insert req.order_id (rest_of req g.next_id) g.resting;
        })
        (λ _. rw (fill_market-resting req (acknowledge c rng now req g)) w)
        (λ _. insert-AllWhole req.order_id (rest_of req g.next_id) g.resting (refl, h) w)

  after_draw-IsWhole :
      (req : Order) (drawn : Bool × Gateway)
      → pos 1 ≤ℤ req.quantity
      → IsWhole drawn.1
      → IsWhole (after_draw c rng now req drawn)
  after_draw-IsWhole req (true, g) h w = w
  after_draw-IsWhole req (false, g) h w =
      if-elim IsWhole (is_post_only req.order_type && would_cross req (top_of req g))
        (publish (order_rejected req.order_id now) g) (accept c rng now req g) (λ _. w)
        (λ _. accept-IsWhole req g h w)

  handle_order_request-IsWhole :
      (req : Order) (g : Gateway)
      → pos 1 ≤ℤ req.quantity
      → IsWhole g
      → IsWhole (handle_order_request c rng now req g)
  unfolding handle_order_request
  handle_order_request-IsWhole req g h w =
      if-elim IsWhole (c.is_ours req.instrument)
        (after_draw c rng now req (draw_reject c rng now g)) g
        (λ _. after_draw-IsWhole req (draw_reject c rng now g) h (
          if-elim (λ (p : Bool × Gateway). IsWhole p.1) (c.reject_probability == 0) (false, g)
            (ltb (rng.random g.draws) c.reject_probability, record g { draws = suc g.draws })
            (λ _. w) (λ _. w)))
        (λ _. w)

  handle_cancel_request-IsWhole :
      (k : ℕ) (g : Gateway) → IsWhole g → IsWhole (handle_cancel_request c rng now k g)
  unfolding handle_cancel_request
  handle_cancel_request-IsWhole k g w = elim (Option-cases (lookup k g.resting)) [
    | inl gone ↦ rw (gone, handle_cancel_request) w
    | inr (o, at) ↦ rw (at, handle_cancel_request) (erase-AllWhole k g.resting w)
  ]

  amended-Whole :
      (req : AmendRequest) (o : RestingOrder)
      → Asks (amend req)
      → Whole o
      → Whole (amended c rng now req o)
  amended-Whole req o h (left, pos_q) =
      amended_parts req.new_quantity o.leaves o.quantity left pos_q h

  handle_amend_request-IsWhole :
      (req : AmendRequest) (g : Gateway)
      → Asks (amend req)
      → IsWhole g
      → IsWhole (handle_amend_request c rng now req g)
  unfolding handle_amend_request
  handle_amend_request-IsWhole req g h w = elim (Option-cases (lookup req.order_id g.resting)) [
    | inl gone ↦ rw (gone, handle_amend_request) w
    | inr (o, at) ↦
        rw (at, handle_amend_request)
          (insert-AllWhole req.order_id (amended c rng now req o) g.resting
            (amended-Whole req o h (lookup-Whole req.order_id g.resting o w at)) w)
  ]

  match_order-IsWhole :
      (o : RestingOrder) (g : Gateway)
      → IsUniform rng
      → Whole o
      → IsWhole g
      → IsWhole (match_order c rng now o g)
  unfolding match_order
  match_order-IsWhole o g u (left, h) w =
      let (first, second, draws) = split_fill c rng g.draws o.leaves in
      let (adds, none_left) =
        resting_parts-Adds o first second
          (split_fill-Splits c rng g.draws o.leaves u (rw left (omega (arith, h)))) in
      let (e, r, t) =
        publish_fills_lem c now o.order_id o.strategy_id o.instrument o.side o.price true rng
          (resting_parts o first second).0 (record g { draws = draws }) in
      after_match-IsWhole (resting_parts o first second).1 _ none_left (rw r w)

  match_keys-IsWhole :
      (instrument : Instrument) (price : Price) (ks : List ℕ) (g : Gateway)
      → IsUniform rng
      → IsWhole g
      → IsWhole (match_keys c rng now instrument price ks g)
  unfolding match_keys
  match_keys-IsWhole instrument price [] g u w = w
  match_keys-IsWhole instrument price (k ∷ ks) g u w =
      match_keys-IsWhole instrument price ks _ u (elim (Option-cases (lookup k g.resting)) [
        | inl gone ↦ rw gone w
        | inr (o, at) ↦ rw at (
            if-elim IsWhole (is_hit c rng now instrument price o) (match_order c rng now o g) g
              (λ _. match_order-IsWhole o g u (lookup-Whole k g.resting o w at) w) (λ _. w))
      ])

-- What reaches the gateway, at what time.
pub data Input : Type 0 where
  order : Timestamp → OrderEvent → Input
  data_of : Timestamp → MarketData → Input

unfoldable pub handle : Config → Rng → Input → Gateway → Gateway
handle c rng (order now ev) g = on_order_event c rng now ev g
handle c rng (data_of now d) g = on_market_data c rng now d g

unfoldable pub run : Config → Rng → List Input → Gateway → Gateway
run c rng [] g = g
run c rng (i ∷ is) g = run c rng is (handle c rng i g)

abbrev pub AsksAll : List Input → Type 0
AsksAll [] = Unit {0}
AsksAll (order now ev ∷ is) = Asks ev × AsksAll is
AsksAll (data_of now d ∷ is) = AsksAll is

module _ (c : Config) (rng : Rng) (u : IsUniform rng) where
  on_order_event-IsWhole :
      (now : Timestamp) (ev : OrderEvent) (g : Gateway)
      → Asks ev
      → IsWhole g
      → IsWhole (on_order_event c rng now ev g)
  unfolding on_order_event
  on_order_event-IsWhole now (request req) g h w = handle_order_request-IsWhole c rng now req g h w
  on_order_event-IsWhole now (cancel k) g h w = handle_cancel_request-IsWhole c rng now k g w
  on_order_event-IsWhole now (amend req) g h w = handle_amend_request-IsWhole c rng now req g h w

  on_market_data-IsWhole :
      (now : Timestamp) (d : MarketData) (g : Gateway)
      → IsWhole g
      → IsWhole (on_market_data c rng now d g)
  unfolding on_market_data
  on_market_data-IsWhole now (tick instrument bid ask) g w = w
  on_market_data-IsWhole now (trade instrument price) g w =
      match_keys-IsWhole c rng now instrument price (map (λ entry. entry.0) g.resting) g u w

  -- If every request and every amend that names a quantity asks for a positive one, then requests,
  -- cancels, amends and market data, in any order and with fills in one piece or in two, keep the book
  -- whole: of every resting order all of its quantity, which is positive, is still to be filled.
  pub run-IsWhole :
      (is : List Input) (g : Gateway) → AsksAll is → IsWhole g → IsWhole (run c rng is g)
  unfolding run handle
  run-IsWhole [] g h w = w
  run-IsWhole (order now ev ∷ is) g h w =
      run-IsWhole is (on_order_event c rng now ev g) h.1 (on_order_event-IsWhole now ev g h.0 w)
  run-IsWhole (data_of now d ∷ is) g h w =
      run-IsWhole is (on_market_data c rng now d g) h (on_market_data-IsWhole now d g w)
