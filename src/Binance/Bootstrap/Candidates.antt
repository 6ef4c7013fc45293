-- ===== src/Binance/Bootstrap/Candidates.antt =====
-- order_gateways/binance/state_bootstrap.py: the orders that `_terminalize_gone_orders` looks up.
use qf635project.Base.{
  ℕ, suc, ◌≡◌, refl, Bool, true, false, List, [], ◌∷◌, ◌++◌, ◌==◌, ◌||◌, not, any, leb, ◌⊎◌, inl,
  inr, All, All-append, Bool-cases, if-elim, arith,
}
use mathlib.Core.Path.{subst}
use qf635project.Base.Dict.{Dict, number_eq, text_eq, lookup_or, insert}
use qf635project.Oms.Order
use qf635project.Oms.Order.{Order, transition_to, set_status}
use qf635project.Oms.Exposure.{open_orders}
use qf635project.Binance.Bootstrap.{
  Seen, Pass, gone_threshold, has_text, in_flight, note_order, note_orders,
}

abbrev pub In : Order → List Order → Type 0
In o [] = ⊥
In o (x ∷ xs) = (o ≡ x) ⊎ In o xs

-- The condition under which the resync looks an order of the store up, under its instrument: it is not
-- in flight, was not listed, and its instrument could be listed.
abbrev pub Candidate : Seen → List Order → ℕ → Order → Type 0
Candidate seen store iid o =
    (in_flight o.status ≡ false)
    × (has_text o.client_order_id seen.coids ≡ false)
    × (any (λ k. o.instrument.instrument_id == k) seen.fetched ≡ true)
    × (o.instrument.instrument_id ≡ iid)
    × In o store

insert-All :
    {V : Type 0} (Q : ℕ → V → Type 0) (k : ℕ) (v : V) (d : Dict ℕ V)
    → Q k v
    → All (λ (entry : ℕ × V). Q entry.0 entry.1) d
    → All (λ (entry : ℕ × V). Q entry.0 entry.1) (insert k v d)
insert-All Q k v [] h a = (h, tt)
insert-All Q k v ((j, w) ∷ d) h a =
    if-elim (All (λ entry. Q entry.0 entry.1)) (k == j) ((j, v) ∷ d) ((j, w) ∷ insert k v d)
      (λ same. let e : k ≡ j = ground (arith, same) in (subst (λ i. Q i v) e h, a.1))
      (λ _. (a.0, insert-All Q k v d h a.1))

lookup_or-All :
    (Q : ℕ → Order → Type 0) (k : ℕ) (d : Dict ℕ (List Order))
    → All (λ (entry : ℕ × List Order). All (Q entry.0) entry.1) d
    → All (Q k) (lookup_or k [] d)
lookup_or-All Q k [] a = tt
lookup_or-All Q k ((j, os) ∷ d) a = elim (Bool-cases (k == j)) [
  | inl same ↦
      let e : j ≡ k = ground (arith, same) in rw (same, lookup_or) (subst (λ i. All (Q i) os) e a.0)
  | inr other ↦ rw (other, lookup_or) (lookup_or-All Q k d a.1)
]

abbrev pub Groups : Seen → List Order → Pass → Type 0
Groups seen store p =
    All (λ (entry : ℕ × List Order). All (Candidate seen store entry.0) entry.1) p.by_instrument

pub open_orders-In :
    (xs store : List Order)
    → ((o : Order) → In o xs → In o store)
    → All (λ o. In o store) (open_orders xs)
unfolding open_orders
open_orders-In [] store h = tt
open_orders-In (x ∷ xs) store h =
    let rest = open_orders-In xs store (λ o at. h o (inr at)) in
    if-elim (All (λ o. In o store)) (not (Order.is_terminal x)) (x ∷ open_orders xs)
      (open_orders xs) (λ _. (h x (inl refl), rest)) (λ _. rest)

or_false_left : (a b : Bool) → (a || b) ≡ false → a ≡ false
or_false_left a b h = ground (arith, h)

or_false_right : (a b : Bool) → (a || b) ≡ false → b ≡ false
or_false_right a b h = ground (arith, h)

not-false : (a : Bool) → not a ≡ false → a ≡ true
not-false a h = ground (arith, h)

note_order-Groups :
    (seen : Seen) (store : List Order) (o : Order) (p : Pass)
    → In o store
    → Groups seen store p
    → Groups seen store (note_order seen o p)
unfolding note_order
note_order-Groups seen store o p here v =
    let iid = o.instrument.instrument_id in
    let n = suc (lookup_or o.client_order_id 0 p.gone) in
    if-elim (Groups seen store) (not (any (λ k. iid == k) seen.fetched)) p _ (λ _. v)
      (λ listed.
        if-elim (Groups seen store) (in_flight o.status || has_text o.client_order_id seen.coids) _
          _ (λ _. v)
          (λ absent.
            if-elim (Groups seen store) (leb gone_threshold n) _ _
              (λ _.
                insert-All (λ i. All (Candidate seen store i)) iid
                  (lookup_or iid [] p.by_instrument ++ o ∷ []) p.by_instrument
                  (All-append (Candidate seen store iid) (lookup_or iid [] p.by_instrument) (o ∷ [])
                    (lookup_or-All (Candidate seen store) iid p.by_instrument v)
                    (
                      (
                        or_false_left (in_flight o.status) (has_text o.client_order_id seen.coids)
                            absent,
                        or_false_right (in_flight o.status) (has_text o.client_order_id seen.coids)
                            absent,
                        not-false (any (λ k. iid == k) seen.fetched) listed,
                        refl,
                        here,
                      ),
                      tt,
                    ))
                  v)
              (λ _. v)))

pub note_orders-Groups :
    (seen : Seen) (store os : List Order) (p : Pass)
    → All (λ o. In o store) os
    → Groups seen store p
    → Groups seen store (note_orders seen os p)
unfolding note_orders
note_orders-Groups seen store [] p h v = v
note_orders-Groups seen store (o ∷ os) p h v =
    note_orders-Groups seen store os (note_order seen o p) h.1
      (note_order-Groups seen store o p h.0 v)
