-- ===== src/Oms/Store/Evolution.antt =====
-- How the orders of a store may change: each keeps its identity and moves along legal transitions.
use mathlib.Core.Path.{subst}
use qf635project.Base.{
  ℕ, ◌≡◌, ap, refl, ◌∙◌, sym, inl, inr, Option, none, some, List, [], ◌∷◌, ◌++◌, ◌==◌,
  if◌then◌else◌, map, Bool-cases, arith,
}
use qf635project.Core.{OrderStatus, Timestamp}
use qf635project.Oms.StateMachine.{validate_transition, legal, no_transitions, illegal, Verdict}
use qf635project.Oms.StateMachine.Reachability.{Reach, here, next}
use qf635project.Oms.Order.{Order, transition_to, set_status}
use qf635project.Oms.Store.{get_order, put_order, update_order}

-- The same order, later.
abbrev pub Follows : Order → Order → Type 0
Follows o o' =
    (o'.order_id ≡ o.order_id)
    × (o'.client_order_id ≡ o.client_order_id)
    × (o'.strategy_id ≡ o.strategy_id)
    × (o'.instrument ≡ o.instrument)
    × (o'.side ≡ o.side)
    × Reach o.status o'.status

-- Every order of the first store is in the second, later.
abbrev pub Evolves : List Order → List Order → Type 0
Evolves xs ys =
    (order_id : ℕ) (o : Order)
    → get_order order_id xs ≡ some o
    → (o' : Order) × (get_order order_id ys ≡ some o') × Follows o o'

pub Reach-trans : {s t u : OrderStatus} → Reach s t → Reach t u → Reach s u
Reach-trans r here = r
Reach-trans r (next q st) = next (Reach-trans r q) st

pub Follows-refl : (o : Order) → Follows o o
Follows-refl o = (refl, refl, refl, refl, refl, here)

pub Follows-trans : (o p q : Order) → Follows o p → Follows p q → Follows o q
Follows-trans o p q (a, b, c, d, e, r) (a', b', c', d', e', r') =
    (a' ∙ a, b' ∙ b, c' ∙ c, d' ∙ d, e' ∙ e, Reach-trans r r')

pub Evolves-refl : (xs : List Order) → Evolves xs xs
Evolves-refl xs k o e = (o, e, Follows-refl o)

pub Evolves-trans : (xs ys zs : List Order) → Evolves xs ys → Evolves ys zs → Evolves xs zs
Evolves-trans xs ys zs f g k o e =
    let (p, at, follows) = f k o e in
    let (q, at', follows') = g k p at in (q, at', Follows-trans o p q follows follows')

pub get_order-id : (k : ℕ) (xs : List Order) (o : Order) → get_order k xs ≡ some o → o.order_id ≡ k
get_order-id k [] o e = cc
get_order-id k (x ∷ xs) o e = ground (arith, get_order-id k xs o)

pub get_order-put_order :
    (k : ℕ) (o : Order) (xs : List Order) (p : Order)
    → get_order k xs ≡ some p
    → get_order k (put_order o xs) ≡ (if k == o.order_id then some o else some p)
get_order-put_order k o [] p e = cc
get_order-put_order k o (x ∷ xs) p e = ground (arith, get_order-put_order k o xs p)

pub put_order-Evolves :
    (k : ℕ) (o o' : Order) (xs : List Order)
    → get_order k xs ≡ some o
    → Follows o o'
    → Evolves xs (put_order o' xs)
put_order-Evolves k o o' xs found follows j p e =
    let at = get_order-put_order j o' xs p e in
    elim (Bool-cases (j == o'.order_id)) [
      | inl same ↦
          let here : p ≡ o = ground (arith, same, found, e, get_order-id k xs o found, follows.0) in
          (o', at ∙ rw same refl, subst (λ (q : Order). Follows q o') (sym here) follows)
      | inr other ↦ (p, at ∙ rw other refl, Follows-refl p)
    ]

pub update_order-some :
    (k : ℕ) (f : Order → Order) (o : Order) (xs : List Order)
    → get_order k xs ≡ some o
    → update_order k f xs ≡ put_order (f o) xs
update_order-some k f o xs e =
    ap (λ (r : Option Order). elim r [ none ↦ xs | some p ↦ put_order (f p) xs ]) e

-- A write that the order's own rules allow.
pub update_order-Evolves :
    (k : ℕ) (f : Order → Order) (xs : List Order)
    → ((o : Order) → Follows o (f o))
    → Evolves xs (update_order k f xs)
update_order-Evolves k f xs h = go (get_order k xs) refl
  where
    go :
        (r : Option Order)
        → get_order k xs ≡ r
        → Evolves xs (elim r [ none ↦ xs | some o ↦ put_order (f o) xs ])
    go none e = Evolves-refl xs
    go (some o) e = put_order-Evolves k o (f o) xs e (h o)

pub transition_to-Follows :
    (o : Order) (s : OrderStatus) (at : Timestamp) → Follows o (transition_to o s at).1
unfolding transition_to
transition_to-Follows o s at = go (validate_transition (some o.status) s) refl
  where
    go :
        (v : Verdict)
        → validate_transition (some o.status) s ≡ v
        → Follows o (set_status o s at v).1
    go legal e = (refl, refl, refl, refl, refl, next here e)
    go no_transitions e = Follows-refl o
    go illegal e = Follows-refl o

get_order-append :
    (k : ℕ) (xs ys : List Order) (o : Order)
    → get_order k xs ≡ some o
    → get_order k (xs ++ ys) ≡ some o
get_order-append k [] ys o e = cc
get_order-append k (x ∷ xs) ys o e = ground (arith, get_order-append k xs ys o)

-- New orders stand behind the old ones.
pub append-Evolves : (xs ys : List Order) → Evolves xs (xs ++ ys)
append-Evolves xs ys k o e = (o, get_order-append k xs ys o e, Follows-refl o)

get_order-map :
    (f : Order → Order) (k : ℕ) (xs : List Order) (o : Order)
    → ((p : Order) → (f p).order_id ≡ p.order_id)
    → get_order k xs ≡ some o
    → get_order k (map f xs) ≡ some (f o)
get_order-map f k [] o h e = cc
get_order-map f k (x ∷ xs) o h e = ground (arith, get_order-map f k xs o h, h x)

-- A write to every order.
pub map-Evolves :
    (f : Order → Order) (xs : List Order) → ((o : Order) → Follows o (f o)) → Evolves xs (map f xs)
map-Evolves f xs h k o e = (f o, get_order-map f k xs o (λ p. (h p).0) e, h o)
