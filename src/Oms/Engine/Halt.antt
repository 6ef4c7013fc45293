-- ===== src/Oms/Engine/Halt.antt =====
-- oms/engine.py: the halt, `_cancel_all_resting`.
use mathlib.Core.Path.{subst}
use qf635project.Base.{
  ℕ, ◌≡◌, refl, ◌∙◌, ap, inl, inr, false, some, List, [], ◌∷◌, Bool-cases, ◌==◌, arith, any,
}
use qf635project.Base.Dict.{Dict, number_eq, erase}
use qf635project.Core.{Timestamp}
use qf635project.Oms.Order.{Order}
use qf635project.Oms.Store.{get_order}
use qf635project.Oms.Store.Evolution.{Evolves}
use qf635project.Oms.Engine.{
  Env, Oms, keys, retire_algo, retire_algos, cancel_where, cancel_all_resting, ids, is_open,
}
use qf635project.Oms.Engine.Keeps.{Keeps, retire_algos-orders, cancel_where-Keeps}
use qf635project.Oms.Engine.Halted.{
  is_halted, Halted, cancel_where-Halted, not_listed, cancel_where-algos,
}
use qf635project.Oms.Engine.Requests.{Requests, cancel_all_resting-Requests}

erase_first : {Algo : Type 0} (k : ℕ) (a : Algo) (d : Dict ℕ Algo) → erase k ((k, a) ∷ d) ≡ d
erase_first k a d = ground arith

retire_keys :
    {Algo : Type 0} (d : Dict ℕ Algo) (e : Oms Algo)
    → e.algos ≡ d
    → (retire_algos (keys d) e).algos ≡ []
unfolding retire_algos retire_algo
retire_keys [] e h = h
retire_keys ((k, a) ∷ d) e h = retire_keys d (retire_algo k e) (ap (erase k) h ∙ erase_first k a d)

-- After a halt every order that the OMS knows is final, asked to cancel, or not acknowledged by the
-- venue yet; no algo is left, and no order is lost or moved but along its state machine. This holds
-- whatever the bus does with the requests. For every order that was none of the three before the halt,
-- a request to cancel it is published during the halt, unless the bus refuses an event, which is
-- counted as dropped.
pub cancel_all_resting_lem :
    {Algo : Type 0} (env : Env Algo) (now : Timestamp) (e : Oms Algo)
    → let e' = cancel_all_resting env now e in
      ((k : ℕ) → Halted k e')
      × (e'.algos ≡ [])
      × Keeps e e'
      × ((k : ℕ) (o : Order)
          → get_order k e.orders ≡ some o
          → is_halted o.status ≡ false
          → Requests k e e')
unfolding cancel_all_resting
cancel_all_resting_lem env now e =
    let start = retire_algos (keys e.algos) e in
    let same : start.orders ≡ e.orders = retire_algos-orders (keys e.algos) e in
    (
      (λ k.
          cancel_where-Halted env now k (ids e.orders) start
            (elim (Bool-cases (any (λ j. k == j) (ids e.orders))) [
              | inl listed ↦ inl listed
              | inr unknown ↦ inr (λ o found.
                  let gone = not_listed env now k e.orders unknown in cc (ap (get_order k) same))
            ])),
      cancel_where-algos env now is_open (ids e.orders) start ∙ retire_keys e.algos e refl,
      subst
          (λ (xs : List Order).
            Evolves xs (cancel_where env now is_open (ids e.orders) start).orders)
          same (cancel_where-Keeps env now is_open (ids e.orders) start),
      cancel_all_resting-Requests env now e,
    )
