-- ===== src/Oms/Adoption/Restart.antt =====
-- oms/engine.py: after a restart an order goes back to the strategy that had placed it.
use qf635project.Base.{
  ℕ, ◌≡◌, refl, sym, ap, ◌∙◌, Bool, true, Option, none, some, List, [], ◌∷◌, ◌++◌, ◌==◌, length,
  find, Option-cases, inl, inr, if-elim, arith,
}
use qf635project.Base.Dict.{text_eq, lookup, lookup-insert_self}
use qf635project.Core.{Timestamp, Side, SignalEvent}
use qf635project.Oms.Algo.{ChildOrderSpec}
use qf635project.Oms.Order.{Order}
use qf635project.Oms.Store.{get_order, put_order, update_order}
use qf635project.Oms.Response.{refresh}
use qf635project.Oms.Engine.{
  Event, Env, Oms, order_acknowledged, dash, safe_publish, publish_open_orders, with_order,
  new_order, ids,
}
use qf635project.Oms.Adoption.{
  rpartition, is_hex_text, strategy_id_from_client_order_id, VenueOrder, adopted, announce,
  adopt_order,
}

rpartition-hex : (t : List ℕ) → is_hex_text t ≡ true → rpartition t ≡ none
unfolding rpartition
rpartition-hex [] h = refl
rpartition-hex (c ∷ cs) h = ground (arith, rpartition-hex cs)

rpartition-append : (s t : List ℕ) → is_hex_text t ≡ true → rpartition (s ++ dash ∷ t) ≡ some (s, t)
unfolding rpartition
rpartition-append [] t h = rw (rpartition-hex t h) refl
rpartition-append (c ∷ cs) t h = rw (rpartition-append cs t h) refl

-- A text that is not empty, dashes or not, is read back from in front of a token of twelve hex digits.
strategy_id-append :
    (c : ℕ) (s t : List ℕ)
    → length t ≡ 12
    → is_hex_text t ≡ true
    → strategy_id_from_client_order_id ((c ∷ s) ++ dash ∷ t) ≡ c ∷ s
unfolding strategy_id_from_client_order_id rpartition
strategy_id-append c s t h k = rw (rpartition-append (c ∷ s) t k, h, k) refl

find-append_new :
    {A : Type 0} (p : A → Bool) (xs : List A) (x : A)
    → find p xs ≡ none
    → p x ≡ true
    → find p (xs ++ x ∷ []) ≡ some x
find-append_new p [] x h k = rw k refl
find-append_new p (y ∷ xs) x h k = ground (arith, h, k, find-append_new p xs x)

ids-put_order : (o : Order) (xs : List Order) → ids (put_order o xs) ≡ ids xs
ids-put_order o [] = refl
ids-put_order o (x ∷ xs) = ground (arith, ids-put_order o xs)

ids-update_order :
    (k : ℕ) (f : Order → Order) (xs : List Order) → ids (update_order k f xs) ≡ ids xs
ids-update_order k f xs = elim (Option-cases (get_order k xs)) [
  | inl nothing ↦ rw (nothing, update_order) refl
  | inr (o, found) ↦ rw (found, update_order) (ids-put_order (f o) xs)
]

module _ {Algo : Type 0} (env : Env Algo) (number_of : List ℕ → ℕ) where
  -- Numbers and texts of strategies go with each other, no text is empty, and an order id begins with
  -- twelve hex digits.
  pub record IsMinting : Type 0 where
    pub named : (sid : ℕ) → number_of (env.strategy_text sid) ≡ sid
    pub nonempty : (sid : ℕ) → (c : ℕ) × (s : List ℕ) × (env.strategy_text sid ≡ c ∷ s)
    pub long : (order_id : ℕ) → length (env.hex_of order_id) ≡ 12
    pub digits : (order_id : ℕ) → is_hex_text (env.hex_of order_id) ≡ true

  strategy_id-minted :
      (m : IsMinting) (sid order_id : ℕ)
      → number_of
          (strategy_id_from_client_order_id (env.strategy_text sid ++ dash ∷ env.hex_of order_id))
        ≡ sid
  strategy_id-minted m sid order_id =
      let (c, s, text) = m.nonempty sid in
      ap number_of (
        ap (λ (l : List ℕ). strategy_id_from_client_order_id (l ++ dash ∷ env.hex_of order_id)) text
        ∙ strategy_id-append c s (env.hex_of order_id) (m.long order_id) (m.digits order_id)
        ∙ sym text)
      ∙ m.named sid

  -- The same orders, under the same client order ids.
  abbrev Same : Oms Algo → Oms Algo → Type 0
  Same e e' = (e'.orders ≡ e.orders) × (e'.coid_to_order_id ≡ e.coid_to_order_id)

  publish-Same : (event : Event) (e f : Oms Algo) → Same e f → Same e (safe_publish env event f).1
  unfolding safe_publish
  publish-Same event e f h =
      if-elim (λ (p : Bool × Oms Algo). Same e p.1) (env.accepts f.attempts) _ _ (λ _. h) (λ _. h)

  announced-Same : (o : Order) (e : Oms Algo) → Same e (publish_open_orders env (announce env o e))
  unfolding publish_open_orders
  announced-Same o e =
      publish-Same _ e (announce env o e) (elim (Option-cases o.exchange_order_id) [
        | inl nothing ↦ rw nothing (refl, refl)
        | inr (xid, given) ↦
            rw given (publish-Same (order_acknowledged o.order_id xid) e e (refl, refl))
      ])

  -- An order of which nothing is known is adopted as it is reported, under the next id.
  adopt_order-new :
      (now : Timestamp) (v : VenueOrder) (e : Oms Algo)
      → lookup v.client_order_id e.coid_to_order_id ≡ none
      → ((adopt_order env number_of now v e).0 ≡ e.next_order_id)
        × ((adopt_order env number_of now v e).1.orders
            ≡ e.orders ++ adopted number_of now v e ∷ [])
        × (lookup v.client_order_id (adopt_order env number_of now v e).1.coid_to_order_id
            ≡ some e.next_order_id)
  unfolding adopt_order
  adopt_order-new now v e unknown =
      let o = adopted number_of now v e in
      let (orders, coids) = announced-Same o (with_order env o e) in
      rw (unknown, adopt_order)
        (
          refl,
          orders,
          ap (lookup v.client_order_id) coids
              ∙ lookup-insert_self v.client_order_id e.next_order_id e.coid_to_order_id,
        )

  -- An order that is known keeps its id, and there is none more.
  adopt_order-known :
      (now : Timestamp) (v : VenueOrder) (order_id : ℕ) (e : Oms Algo)
      → lookup v.client_order_id e.coid_to_order_id ≡ some order_id
      → ((adopt_order env number_of now v e).0 ≡ order_id)
        × (ids (adopt_order env number_of now v e).1.orders ≡ ids e.orders)
  unfolding adopt_order
  adopt_order-known now v order_id e known =
      rw (known, adopt_order)
        (refl, ids-update_order order_id (refresh v.quantity v.cumulative_filled v.price) e.orders)

  -- An order that one OMS has placed, and that a later one, which knows nothing of it, adopts as the
  -- venue reports it, belongs to the strategy that had placed it, with the quantity and the fills that
  -- are reported; and adopting it again, whatever is reported then, gives the same id and no other order.
  pub adopt_order-new_order :
      (m : IsMinting) (placed now later : Timestamp) (signal : SignalEvent) (side : Side)
      (spec : ChildOrderSpec) (leg : Option ℕ) (before after : Oms Algo) (v w : VenueOrder)
      → v.client_order_id ≡ (new_order env placed signal side spec leg before).client_order_id
      → w.client_order_id ≡ v.client_order_id
      → lookup v.client_order_id after.coid_to_order_id ≡ none
      → get_order after.next_order_id after.orders ≡ none
      → ((o : Order) × (get_order
              (adopt_order env number_of now v after).0
              (adopt_order env number_of now v after).1.orders
            ≡ some o)
          × (o.strategy_id ≡ signal.strategy_id)
          × (o.quantity ≡ v.quantity)
          × (o.cumulative_filled ≡ v.cumulative_filled))
        × ((adopt_order env number_of later w (adopt_order env number_of now v after).1).0
            ≡ (adopt_order env number_of now v after).0)
        × (ids
              (adopt_order env number_of later w (adopt_order env number_of now v after).1).1.orders
            ≡ ids (adopt_order env number_of now v after).1.orders)
  adopt_order-new_order m placed now later signal side spec leg before after v w minted again
        unknown fresh =
      let (id, orders, coids) = adopt_order-new now v after unknown in
      let o = adopted number_of now v after in
      let self : (o.order_id == o.order_id) ≡ true = ground arith in
      let (same, kept) =
        adopt_order-known later w after.next_order_id (adopt_order env number_of now v after).1 (
          ap (λ (c : List ℕ). lookup c (adopt_order env number_of now v after).1.coid_to_order_id)
            again
          ∙ coids) in
      (
        (
          o,
          rw (id, orders)
              (find-append_new (λ (p : Order). after.next_order_id == p.order_id) after.orders o
                fresh self),
          ap (λ (c : List ℕ). number_of (strategy_id_from_client_order_id c)) minted
              ∙ strategy_id-minted m signal.strategy_id before.next_order_id,
          refl,
          refl,
        ),
        same ∙ sym id,
        kept,
      )
