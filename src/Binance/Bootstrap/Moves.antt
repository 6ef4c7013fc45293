-- ===== src/Binance/Bootstrap/Moves.antt =====
-- order_gateways/binance/state_bootstrap.py: what moves the orders of the OMS.
use qf635project.Base.{
  ℕ, ◌≡◌, refl, sym, ◌∙◌, Bool, Option, none, some, List, [], ◌∷◌, ◌++◌, ◌==◌, ◌||◌, not, ◌⊎◌, inl,
  inr, find, Bool-cases, Option-cases, if-elim, arith,
}
use mathlib.Core.Path.{subst}
use qf635project.Base.Dict.{number_eq, text_eq}
use qf635project.Core.{Timestamp, OrderStatus, Quantity, status_is_terminal}
use qf635project.Oms.StateMachine.{validate_transition, Verdict, legal, no_transitions, illegal}
use qf635project.Oms.Order
use qf635project.Oms.Order.{Order, transition_to, set_status}
use qf635project.Oms.Store.{get_order, put_order, update_order}
use qf635project.Oms.Store.Evolution.{get_order-id, get_order-put_order}
use qf635project.Oms.Response.{refresh, terminalize, ratchet_to}

-- Every order of the first store is in the second, with its status, or one of which `P` tells.
abbrev pub Moves : (ℕ → OrderStatus → Type 0) → List Order → List Order → Type 0
Moves P xs ys =
    (order_id : ℕ) (o : Order)
    → get_order order_id xs ≡ some o
    → (o' : Order) × (get_order order_id ys ≡ some o')
      × ((o'.status ≡ o.status) ⊎ P order_id o'.status)

find-append_some :
    {A : Type 0} (p : A → Bool) (xs ys : List A) (x : A)
    → find p xs ≡ some x
    → find p (xs ++ ys) ≡ some x
find-append_some p [] ys x h = cc
find-append_some p (y ∷ xs) ys x h = ground (arith, h, find-append_some p xs ys x)

module _ (P : ℕ → OrderStatus → Type 0) where
  pub Moves-refl : (xs : List Order) → Moves P xs xs
  Moves-refl xs k o h = (o, h, inl refl)

  pub Moves-trans : (xs ys zs : List Order) → Moves P xs ys → Moves P ys zs → Moves P xs zs
  Moves-trans xs ys zs f g k o h =
      let (p, at, first) = f k o h in
      let (q, at', second) = g k p at in
      (
        q,
        at',
        elim second [
          | inr told ↦ inr told
          | inl same ↦ elim first [
            | inl before ↦ inl (same ∙ before)
            | inr told ↦ inr (subst (P k) (sym same) told)
          ]
        ],
      )

  pub append-Moves : (xs : List Order) (x : Order) → Moves P xs (xs ++ x ∷ [])
  append-Moves xs x k o h =
      (o, find-append_some (λ (p : Order). k == p.order_id) xs (x ∷ []) o h, inl refl)

  pub put_order-Moves :
      (j : ℕ) (x x' : Order) (xs : List Order)
      → get_order j xs ≡ some x
      → x'.order_id ≡ x.order_id
      → (x'.status ≡ x.status) ⊎ P j x'.status
      → Moves P xs (put_order x' xs)
  put_order-Moves j x x' xs found id moved k o h =
      let at = get_order-put_order k x' xs o h in
      elim (Bool-cases (k == x'.order_id)) [
        | inl same ↦
            let here : o ≡ x = ground (arith, same, found, h, get_order-id j xs x found, id) in
            let key : j ≡ k = ground (arith, same, get_order-id j xs x found, id) in
            (
              x',
              at ∙ rw same refl,
              subst (λ (q : Order). (x'.status ≡ q.status) ⊎ P k x'.status) (sym here)
                  (subst (λ i. (x'.status ≡ x.status) ⊎ P i x'.status) key moved),
            )
        | inr other ↦ (o, at ∙ rw other refl, inl refl)
      ]

  pub update_order-Moves :
      (j : ℕ) (f : Order → Order) (xs : List Order)
      → ((o : Order) → ((f o).order_id ≡ o.order_id) × ((f o).status ≡ o.status))
      → Moves P xs (update_order j f xs)
  update_order-Moves j f xs h = elim (Option-cases (get_order j xs)) [
    | inl nothing ↦ rw (nothing, update_order) (Moves-refl xs)
    | inr (o, found) ↦
        rw (found, update_order) (put_order-Moves j o (f o) xs found (h o).0 (inl (h o).1))
  ]

-- A refresh corrects quantities and prices only.
pub refresh-kept :
    (quantity total : Quantity) (price : Option Quantity) (o : Order)
    → ((refresh quantity total price o).order_id ≡ o.order_id)
      × ((refresh quantity total price o).status ≡ o.status)
unfolding refresh
refresh-kept quantity total price o = ground arith

set_status-told :
    (o : Order) (st : OrderStatus) (at : Timestamp) (v : Verdict)
    → ((set_status o st at v).1.order_id ≡ o.order_id)
      × (((set_status o st at v).1.status ≡ o.status) ⊎ ((set_status o st at v).1.status ≡ st))
set_status-told o st at legal = (refl, inr refl)
set_status-told o st at no_transitions = (refl, inl refl)
set_status-told o st at illegal = (refl, inl refl)

ratchet_to-kept :
    (total : Option Quantity) (o : Order)
    → ((ratchet_to total o).order_id ≡ o.order_id) × ((ratchet_to total o).status ≡ o.status)
ratchet_to-kept none o = (refl, refl)
ratchet_to-kept (some t) o = ground arith

-- An order is ended with the status that is told, or keeps its own.
pub terminalize-told :
    (now : Timestamp) (st : OrderStatus) (total : Option Quantity) (o : Order)
    → ((terminalize now st total o).order_id ≡ o.order_id)
      × (((terminalize now st total o).status ≡ o.status)
          ⊎ ((terminalize now st total o).status ≡ st))
unfolding terminalize transition_to
terminalize-told now st total o =
    let p = ratchet_to total o in
    let Told : Order → Type 0 =
      λ q. (q.order_id ≡ o.order_id) × ((q.status ≡ o.status) ⊎ (q.status ≡ st)) in
    if-elim Told (Order.is_terminal o || not (status_is_terminal st)) o _ (λ _. (refl, inl refl))
      (λ _.
        let (id, status) = ratchet_to-kept total o in
        let (id', told) = set_status-told p st now (validate_transition (some p.status) st) in
        (id' ∙ id, elim told [ inl same ↦ inl (same ∙ status) | inr new ↦ inr new ]))
