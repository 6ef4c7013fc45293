-- ===== src/Venue/Simulation/Fills.antt =====
-- order_gateways/simulation.py: what is published of an order's fills.
use qf635project.Base.{
  ℕ, suc, ◌≡◌, refl, ◌∙◌, sym, Bool, List, [], ◌∷◌, ◌++◌, append_nil, append_assoc,
}
use qf635project.Core.{Price, Timestamp, Instrument, Side}
use qf635project.Venue.Matching.{Config, Rng, Part, fill_of}
use qf635project.Venue.Simulation.{Gateway, Published, fill, publish_fills}

module _ (c : Config) (now : Timestamp) (order_id sid : ℕ) (instrument : Instrument) (side : Side)
    (price : Price) (is_maker : Bool) where
  -- The fills of parts, their ids from `n` on.
  unfoldable pub fills_from : ℕ → List Part → List Published
  fills_from n [] = []
  fills_from n (p ∷ ps) =
      fill (fill_of c now n order_id sid instrument side price is_maker p) ∷ fills_from (suc n) ps

  -- Fills are only published: the book of resting orders is left.
  pub publish_fills_lem :
      (rng : Rng) (ps : List Part) (g : Gateway)
      → let g' = publish_fills c rng now order_id sid instrument side price is_maker ps g in
        (g'.published ≡ g.published ++ fills_from g.next_id ps)
        × (g'.resting ≡ g.resting)
        × (g'.tops ≡ g.tops)
  unfolding publish_fills fills_from
  publish_fills_lem rng [] g = (sym (append_nil g.published), refl, refl)
  publish_fills_lem rng (p ∷ ps) g =
      let f = fill (fill_of c now g.next_id order_id sid instrument side price is_maker p) in
      let (e, r, t) =
        publish_fills_lem rng ps
          (record g { next_id = suc g.next_id; published = g.published ++ f ∷ [] }) in
      (e ∙ append_assoc g.published (f ∷ []) (fills_from (suc g.next_id) ps), r, t)
