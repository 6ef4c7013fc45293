-- ===== src/Venue/Simulation/PostOnly.antt =====
-- order_gateways/simulation.py: a post-only order never takes.
use qf635project.Base.{
  ℕ, suc, ◌≡◌, refl, Bool, true, false, [], ◌∷◌, ◌++◌, ◌==◌, Bool-cases, inl, inr, if-elim, ltb,
}
use qf635project.Oms.Response.{
  VenueEvent, order_acknowledged, order_rejected, cancel_rejected, amend_rejected, order_cancelled,
  order_amended,
}
use qf635project.Base.Dict.{number_eq}
use qf635project.Core.{Timestamp, post_only}
use qf635project.Oms.Order.{Order}
use qf635project.Venue.Matching.{Config, Rng, would_cross, fills_at_once, is_post_only}
use qf635project.Venue.Simulation.{
  Gateway, answer, accept, after_draw, handle_order_request, top_of,
}

-- The acknowledgement or the rejection of the order.
abbrev pub IsAnswer : (order_id : ℕ) → VenueEvent → Type 0
IsAnswer k (order_acknowledged j _ _) = j ≡ k
IsAnswer k (order_rejected j _) = j ≡ k
IsAnswer k (cancel_rejected _ _) = ⊥
IsAnswer k (amend_rejected _) = ⊥
IsAnswer k (order_cancelled _ _) = ⊥
IsAnswer k (order_amended _ _ _ _ _) = ⊥

-- The second gateway has published one event more than the first, which answers the order.
abbrev pub Answers : (order_id : ℕ) → Gateway → Gateway → Type 0
Answers k g g' =
    (ev : VenueEvent) × (g'.published ≡ g.published ++ (answer ev ∷ [])) × IsAnswer k ev

module _ (c : Config) (rng : Rng) (now : Timestamp) (req : Order)
    (po : req.order_type ≡ post_only) where
  at_once : fills_at_once req.order_type ≡ false
  at_once = rw po

  only : is_post_only req.order_type ≡ true
  only = rw po

  after_draw-Answers :
      (drawn : Bool × Gateway) → Answers req.order_id drawn.1 (after_draw c rng now req drawn)
  unfolding accept
  after_draw-Answers (true, g) = (_, refl, refl)
  after_draw-Answers (false, g) = elim (Bool-cases (would_cross req (top_of req g))) [
    | inl crossing ↦ rw (only, crossing) (_, refl, refl)
    | inr passive ↦ rw (only, passive, at_once) (_, refl, refl)
  ]

  -- A post-only request for an instrument of the gateway adds exactly one published event, its
  -- acknowledgement or its rejection, and so no fill: it never takes from the book.
  pub post_only-Answers :
      (g : Gateway)
      → c.is_ours req.instrument ≡ true
      → Answers req.order_id g (handle_order_request c rng now req g)
  unfolding handle_order_request
  post_only-Answers g ours = rw ours (
      if-elim (λ (p : Bool × Gateway). Answers req.order_id g (after_draw c rng now req p))
        (c.reject_probability == 0) (false, g)
        (ltb (rng.random g.draws) c.reject_probability, record g { draws = suc g.draws })
        (λ _. after_draw-Answers (false, g))
        (λ _.
          after_draw-Answers
            (ltb (rng.random g.draws) c.reject_probability, record g { draws = suc g.draws })))
