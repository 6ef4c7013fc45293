-- ===== src/Oms/Slicing/Keeps.antt =====
-- oms/engine.py: driving the algos and reconciling a signal move orders along their state machine and
-- lose none.
use qf635project.Base.{
  ℕ, ◌≡◌, refl, ◌∙◌, Bool, true, false, Option, none, some, List, [], ◌∷◌, if-elim, if◌then◌else◌,
  ◌&&◌, not,
}
use qf635project.Base.Dict.{number_eq, lookup, insert}
use qf635project.Core.{Timestamp, OrderLeg, SignalEvent}
use qf635project.Oms.Algo.{ChildOrderSpec}
use qf635project.Oms.Engine.{
  execution_routed, Env, Oms, keys, retire_algo, has_live_children, safe_publish, cancel_children,
  new_order, submit,
}
use qf635project.Oms.Engine.Keeps.{
  Keeps, Keeps-refl, Keeps-trans, safe_publish-orders, publish_open_orders-orders,
  cancel_where-Keeps, submit-Keeps,
}
use qf635project.Oms.Reconcile.{reconcile_immediate}
use qf635project.Oms.Reconcile.Keeps.{same-Keeps, reconcile_immediate-Keeps}
use qf635project.Oms.Slicing.{
  submit_child, retire_if_done, submit_slice, drive_algo, drive_algos, same_scope, is_desired,
  withdraw_algo, withdraw_algos, start_algo, start_algos, join_routed, reconcile_sliced, route_legs,
  reconcile_quotes,
}

module _ {Algo : Type 0} (env : Env Algo) (now : Timestamp) where
  submit_child-Keeps :
      (k : ℕ) (spec : ChildOrderSpec) (e : Oms Algo) → Keeps e (submit_child env now k spec e)
  unfolding submit_child
  submit_child-Keeps k spec e = go (lookup k e.algo_ctx)
    where
      go :
          (r : Option (SignalEvent × OrderLeg))
          → Keeps e (elim r [
            | none ↦ e
            | some (signal, leg) ↦
                submit env now (new_order env now signal leg.side spec (some k) e) e
          ])
      go none = Keeps-refl e
      go (some (signal, leg)) =
          submit-Keeps env now (new_order env now signal leg.side spec (some k) e) e

  pub retire_if_done-orders :
      (k : ℕ) (a : Algo) (e : Oms Algo) → (retire_if_done env now k a e).orders ≡ e.orders
  unfolding retire_algo
  retire_if_done-orders k a e =
      if-elim (λ (f : Oms Algo). f.orders ≡ e.orders)
        (env.algo.is_done a && not (has_live_children k e.orders)) _ _ (λ _. refl) (λ _. refl)

  submit_slice-Keeps :
      (k : ℕ) (spec : Option ChildOrderSpec) (e : Oms Algo)
      → Keeps e (submit_slice env now k spec e)
  submit_slice-Keeps k none e = Keeps-refl e
  submit_slice-Keeps k (some spec) e =
      rw (publish_open_orders-orders env (submit_child env now k spec e))
        (submit_child-Keeps k spec e)

  drive_algo-Keeps : (k : ℕ) (e : Oms Algo) → Keeps e (drive_algo env now k e)
  unfolding drive_algo retire_algo
  drive_algo-Keeps k e = go (lookup k e.algos)
    where
      slice-Keeps :
          (r : Option (Option ChildOrderSpec × Algo))
          → Keeps e (elim r [
            | none ↦ retire_algo k e
            | some (spec, a') ↦
                retire_if_done env now k a'
                  (submit_slice env now k spec (record e { algos = insert k a' e.algos }))
          ])
      slice-Keeps none = Keeps-refl e
      slice-Keeps (some (spec, a')) =
          let f : Oms Algo = record e { algos = insert k a' e.algos } in
          rw (retire_if_done-orders k a' (submit_slice env now k spec f))
            (submit_slice-Keeps k spec f)

      go :
          (r : Option Algo)
          → Keeps e (elim r [
            | none ↦ e
            | some a ↦ elim (env.algo.next_slice now a) [
              | none ↦ retire_algo k e
              | some (spec, a') ↦
                  retire_if_done env now k a'
                    (submit_slice env now k spec (record e { algos = insert k a' e.algos }))
            ]
          ])
      go none = Keeps-refl e
      go (some a) = slice-Keeps (env.algo.next_slice now a)

  pub drive_algos-Keeps : (ks : List ℕ) (e : Oms Algo) → Keeps e (drive_algos env now ks e)
  unfolding drive_algos
  drive_algos-Keeps [] e = Keeps-refl e
  drive_algos-Keeps (k ∷ ks) e =
      let f = drive_algo env now k e in
      Keeps-trans e f (drive_algos env now ks f) (drive_algo-Keeps k e) (drive_algos-Keeps ks f)

  withdraw_algo-Keeps :
      (signal : SignalEvent) (sliced : List (OrderLeg × Algo)) (k : ℕ) (e : Oms Algo)
      → Keeps e (withdraw_algo env now signal sliced k e)
  unfolding withdraw_algo cancel_children retire_algo
  withdraw_algo-Keeps signal sliced k e = go (lookup k e.algo_ctx)
    where
      go :
          (r : Option (SignalEvent × OrderLeg))
          → Keeps e (elim r [
            | none ↦ e
            | some (algo_signal, _) ↦
                if same_scope env now algo_signal signal && not (is_desired env now sliced k)
                then cancel_children env now k (retire_algo k e)
                else e
          ])
      go none = Keeps-refl e
      go (some (algo_signal, _)) =
          if-elim (Keeps e)
            (same_scope env now algo_signal signal && not (is_desired env now sliced k)) _ _
            (λ _. cancel_where-Keeps env now _ _ (retire_algo k e)) (λ _. Keeps-refl e)

  start_algo-Keeps :
      (signal : SignalEvent) (leg : OrderLeg) (a : Algo) (e : Oms Algo)
      → Keeps e (start_algo env now signal leg a e)
  unfolding start_algo
  start_algo-Keeps signal leg a e = go (lookup leg.leg_id e.algos)
    where
      go :
          (r : Option Algo)
          → Keeps e (elim r [
            | some _ ↦ record e { algo_ctx = insert leg.leg_id (signal, leg) e.algo_ctx }
            | none ↦ drive_algo env now leg.leg_id (record e {
              algos = insert leg.leg_id a e.algos;
              algo_ctx = insert leg.leg_id (signal, leg) e.algo_ctx;
            })
          ])
      go none = drive_algo-Keeps leg.leg_id (record e {
        algos = insert leg.leg_id a e.algos;
        algo_ctx = insert leg.leg_id (signal, leg) e.algo_ctx;
      })
      go (some _) = Keeps-refl e

  withdraw_algos-Keeps :
      (signal : SignalEvent) (sliced : List (OrderLeg × Algo)) (ks : List ℕ) (e : Oms Algo)
      → Keeps e (withdraw_algos env now signal sliced ks e)
  unfolding withdraw_algos
  withdraw_algos-Keeps signal sliced [] e = Keeps-refl e
  withdraw_algos-Keeps signal sliced (k ∷ ks) e =
      let f = withdraw_algo env now signal sliced k e in
      Keeps-trans e f (withdraw_algos env now signal sliced ks f)
        (withdraw_algo-Keeps signal sliced k e) (withdraw_algos-Keeps signal sliced ks f)

  start_algos-Keeps :
      (signal : SignalEvent) (sliced : List (OrderLeg × Algo)) (e : Oms Algo)
      → Keeps e (start_algos env now signal sliced e)
  unfolding start_algos
  start_algos-Keeps signal [] e = Keeps-refl e
  start_algos-Keeps signal ((leg, a) ∷ rest) e =
      let f = start_algo env now signal leg a e in
      Keeps-trans e f (start_algos env now signal rest f) (start_algo-Keeps signal leg a e)
        (start_algos-Keeps signal rest f)

  route_legs-orders :
      (signal : SignalEvent) (legs : List OrderLeg) (e : Oms Algo)
      → (route_legs env now signal legs e).1.orders ≡ e.orders
  unfolding route_legs
  route_legs-orders signal [] e = refl
  route_legs-orders signal (leg ∷ legs) e =
      go
        (env.route leg now signal.instrument (lookup signal.instrument.instrument_id e.latest_mark))
        (λ sliced.
          route_legs-orders signal legs (safe_publish env (execution_routed leg.leg_id sliced) e).1
          ∙ safe_publish-orders env (execution_routed leg.leg_id sliced) e)
    where
      go :
          (r : Option Algo)
          → ((sliced : Bool)
              → (route_legs env now signal legs
                  (safe_publish env (execution_routed leg.leg_id sliced) e).1).1.orders
                ≡ e.orders)
          → (join_routed env now signal leg r (λ sliced.
              route_legs env now signal legs
                (safe_publish env (execution_routed leg.leg_id sliced) e).1)).1.orders
            ≡ e.orders
      go none h = h false
      go (some a) h = h true

  pub reconcile_quotes-Keeps :
      (signal : SignalEvent) (e : Oms Algo) → Keeps e (reconcile_quotes env now signal e)
  unfolding reconcile_quotes reconcile_sliced
  reconcile_quotes-Keeps signal e =
      let ((at_once, sliced), f) = route_legs env now signal signal.legs e in
      let g = reconcile_immediate env now signal at_once f in
      let h = withdraw_algos env now signal sliced (keys g.algos) g in
      let i = start_algos env now signal sliced h in
      let routed : Keeps e f = same-Keeps e f (route_legs-orders signal signal.legs e) in
      rw (publish_open_orders-orders env i) (
        Keeps-trans e f i routed (
          Keeps-trans f g i (reconcile_immediate-Keeps env now signal at_once f) (
            Keeps-trans g h i (withdraw_algos-Keeps signal sliced (keys g.algos) g)
              (start_algos-Keeps signal sliced h))))
