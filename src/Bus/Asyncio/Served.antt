-- ===== src/Bus/Asyncio/Served.antt =====
-- event_bus/asyncio_bus.py: what one subscription receives from each operation.
use qf635project.Base.{
  Bool, true, any, ℕ, zero, suc, ◌≤◌, ◌≡◌, refl, sym, ap, ◌∙◌, false, Option, none, some, List, [],
  ◌∷◌, ◌++◌, ◌&&◌, not, length, length-append, append_assoc, append_nil, map, All, Bool-cases, inl,
  inr, if-elim, arith,
}
use qf635project.Base.Dict.{number_eq}
use qf635project.Bus.Asyncio.{
  Subscription, returned, backpressure, is_full, enqueue, put_all, launch, is_consuming, signal,
  take_next, consume, modify,
}

backpressure_differs : backpressure ≡ returned → ⊥
backpressure_differs h = cc

module _ {Event : Type 0} where
  -- The events of a queue, the sentinel left out.
  abbrev pub waiting : List (Option Event) → List Event
  waiting [] = []
  waiting (none ∷ q) = waiting q
  waiting (some event ∷ q) = event ∷ waiting q

  pub waiting-append : (q r : List (Option Event)) → waiting (q ++ r) ≡ waiting q ++ waiting r
  waiting-append [] r = refl
  waiting-append (none ∷ q) r = waiting-append q r
  waiting-append (some event ∷ q) r = ap (λ (l : List Event). event ∷ l) (waiting-append q r)

  -- What a handler was called with, and then what it is still to be called with.
  abbrev pub received : Subscription Event → List Event
  received s = s.handled ++ waiting s.queue

  abbrev pub Bounded : ℕ → Subscription Event → Type 0
  Bounded queue_size s = length s.queue ≤ queue_size

  -- A subscription, and the same later, when it has received some events more.
  abbrev pub Gets : ℕ → List Event → Subscription Event → Subscription Event → Type 0
  Gets queue_size events s t =
      (received t ≡ received s ++ events) × (Bounded queue_size s → Bounded queue_size t)

  -- The subscriptions of a topic, and those later: the same, each with the events more, and new ones.
  abbrev pub Served :
      ℕ → List Event → List (Subscription Event) → List (Subscription Event) → Type 0
  Served queue_size events [] ts = All (Bounded queue_size) ts
  Served queue_size events (s ∷ ss) [] = ⊥
  Served queue_size events (s ∷ ss) (t ∷ ts) =
      Gets queue_size events s t × Served queue_size events ss ts

  pub Gets-refl : (size : ℕ) (s : Subscription Event) → Gets size [] s s
  Gets-refl size s = (sym (append_nil (received s)), (λ h. h))

  pub Served-refl : (size : ℕ) (ss : List (Subscription Event)) → Served size [] ss ss
  Served-refl size [] = tt
  Served-refl size (s ∷ ss) = (Gets-refl size s, Served-refl size ss)

  pub Served-Bounded :
      (size : ℕ) (events : List Event) (ss ts : List (Subscription Event))
      → Served size events ss ts
      → All (Bounded size) ss
      → All (Bounded size) ts
  Served-Bounded size events [] ts h v = h
  Served-Bounded size events (s ∷ ss) [] h v = absurd h
  Served-Bounded size events (s ∷ ss) (t ∷ ts) h v =
      (h.0.1 v.0, Served-Bounded size events ss ts h.1 v.1)

  pub Served-trans :
      (size : ℕ) (events more : List Event) (ss ts us : List (Subscription Event))
      → Served size events ss ts
      → Served size more ts us
      → Served size (events ++ more) ss us
  Served-trans size events more [] ts us h k = Served-Bounded size more ts us k h
  Served-trans size events more (s ∷ ss) [] us h k = absurd h
  Served-trans size events more (s ∷ ss) (t ∷ ts) [] h k = absurd k
  Served-trans size events more (s ∷ ss) (t ∷ ts) (u ∷ us) h k = (
    (
      k.0.0 ∙ ap (λ (l : List Event). l ++ more) h.0.0 ∙ append_assoc (received s) events more,
      (λ b. k.0.1 (h.0.1 b)),
    ),
    Served-trans size events more ss ts us h.1 k.1,
  )

  pub enqueue-Gets :
      (size : ℕ) (event : Event) (s : Subscription Event)
      → is_full size s ≡ false
      → Gets size (event ∷ []) s (enqueue (some event) s)
  enqueue-Gets size event s room = (
    ap (λ (l : List Event). s.handled ++ l) (waiting-append s.queue (some event ∷ []))
        ∙ sym (append_assoc s.handled (waiting s.queue) (event ∷ [])),
    (λ h. ground (arith, room, length-append s.queue (some event ∷ []))),
  )

  pub put_all-Served :
      (size : ℕ) (event : Event) (ss : List (Subscription Event))
      → (put_all size event ss).1 ≡ returned
      → Served size (event ∷ []) ss (put_all size event ss).0
  unfolding put_all
  put_all-Served size event [] h = tt
  put_all-Served size event (s ∷ ss) h = elim (Bool-cases (is_full size s)) [
    | inl full ↦
        let refused : (put_all size event (s ∷ ss)).1 ≡ backpressure = rw full refl in
        absurd (backpressure_differs (sym refused ∙ h))
    | inr room ↦
        let same : (put_all size event (s ∷ ss)).1 ≡ (put_all size event ss).1 = rw room refl in
        rw room (enqueue-Gets size event s room, put_all-Served size event ss (sym same ∙ h))
  ]

  pub signal-Gets : (size : ℕ) (s : Subscription Event) → Gets size [] s (signal size s)
  unfolding signal
  signal-Gets size s =
      let shutdown : List (Option Event) = none ∷ [] in
      if-elim (Gets size [] s) (is_consuming s.task && not s.signalled && not (is_full size s)) _ s
        (λ room. (
          ap (λ (l : List Event). s.handled ++ l)
                (waiting-append s.queue shutdown ∙ append_nil (waiting s.queue))
              ∙ sym (append_nil (received s)),
          (λ h. ground (arith, room, length-append s.queue shutdown)),
        ))
        (λ _. Gets-refl size s)

  pub take_next-Gets :
      (size : ℕ) (q : List (Option Event)) (s : Subscription Event)
      → s.queue ≡ q
      → Gets size [] s (take_next q s)
  take_next-Gets size [] s h = Gets-refl size s
  take_next-Gets size (none ∷ q) s h = (
    ap (λ (l : List (Option Event)). s.handled ++ waiting l) (sym h)
        ∙ sym (append_nil (received s)),
    (λ b. omega (arith, b, ap (length {A = Option Event}) h)),
  )
  take_next-Gets size (some event ∷ q) s h = (
    append_assoc s.handled (event ∷ []) (waiting q)
        ∙ ap (λ (l : List (Option Event)). s.handled ++ waiting l) (sym h)
        ∙ sym (append_nil (received s)),
    (λ b. omega (arith, b, ap (length {A = Option Event}) h)),
  )

  pub consume-Gets : (size : ℕ) (s : Subscription Event) → Gets size [] s (consume s)
  unfolding consume
  consume-Gets size s =
      if-elim (Gets size [] s) (is_consuming s.task) (take_next s.queue s) s
        (λ _. take_next-Gets size s.queue s refl) (λ _. Gets-refl size s)

  pub modify-Served :
      (size k : ℕ) (f : Subscription Event → Subscription Event) (ss : List (Subscription Event))
      → ((s : Subscription Event) → Gets size [] s (f s))
      → Served size [] ss (modify k f ss)
  unfolding modify
  modify-Served size k f [] h = tt
  modify-Served size zero f (s ∷ ss) h = (h s, Served-refl size ss)
  modify-Served size (suc k) f (s ∷ ss) h = (Gets-refl size s, modify-Served size k f ss h)

  pub subscribed-Served :
      (size : ℕ) (s : Subscription Event) (ss : List (Subscription Event))
      → Bounded size s
      → Served size [] ss (ss ++ (s ∷ []))
  subscribed-Served size s [] h = (h, tt)
  subscribed-Served size s (r ∷ ss) h = (Gets-refl size r, subscribed-Served size s ss h)

  pub launch-Served :
      (size : ℕ) (ss : List (Subscription Event)) → Served size [] ss (map launch ss)
  launch-Served size [] = tt
  launch-Served size (s ∷ ss) = (Gets-refl size s, launch-Served size ss)

  -- What a consumer is still to call its handler with: the events before the sentinel.
  abbrev pub ahead : List (Option Event) → List Event
  ahead [] = []
  ahead (none ∷ q) = []
  ahead (some event ∷ q) = event ∷ ahead q

  unfoldable pub turns : ℕ → Subscription Event → Subscription Event
  turns zero s = s
  turns (suc n) s = turns n (consume s)

  abbrev pub is_shutdown : Option Event → Bool
  is_shutdown none = true
  is_shutdown (some event) = false

  -- A consumer that has as many turns as its queue has entries handles what is ahead of the sentinel,
  -- which is all that waits where there is none.
  abbrev pub Drains : Subscription Event → Type 0
  Drains s =
      is_consuming s.task ≡ true
      → ((turns (length s.queue) s).handled ≡ s.handled ++ ahead s.queue)
        × (any (λ x. is_shutdown x) s.queue ≡ false → ahead s.queue ≡ waiting s.queue)

  consume-next :
      (q : List (Option Event)) (s : Subscription Event)
      → s.queue ≡ q
      → is_consuming s.task ≡ true
      → consume s ≡ take_next q s
  unfolding consume
  consume-next q s h on = rw on (ap (λ (l : List (Option Event)). take_next l s) h)

  finished-turns :
      (n : ℕ) (s : Subscription Event)
      → is_consuming s.task ≡ false
      → (turns n s).handled ≡ s.handled
  unfolding turns consume
  finished-turns zero s h = refl
  finished-turns (suc n) s h =
      let same : consume s ≡ s = rw h refl in
      ap (λ (t : Subscription Event). (turns n t).handled) same ∙ finished-turns n s h

  turns-handled :
      (q : List (Option Event)) (s : Subscription Event)
      → s.queue ≡ q
      → is_consuming s.task ≡ true
      → (turns (length q) s).handled ≡ s.handled ++ ahead q
  unfolding turns
  turns-handled [] s h on = sym (append_nil s.handled)
  turns-handled (none ∷ q) s h on =
      ap (λ (t : Subscription Event). (turns (length q) t).handled) (consume-next (none ∷ q) s h on)
      ∙ finished-turns (length q) (take_next (none ∷ q) s) refl
      ∙ sym (append_nil s.handled)
  turns-handled (some event ∷ q) s h on =
      ap (λ (t : Subscription Event). (turns (length q) t).handled)
        (consume-next (some event ∷ q) s h on)
      ∙ turns-handled q (take_next (some event ∷ q) s) refl on
      ∙ append_assoc s.handled (event ∷ []) (ahead q)

  ahead-waiting :
      (q : List (Option Event)) → any (λ x. is_shutdown x) q ≡ false → ahead q ≡ waiting q
  ahead-waiting [] h = refl
  ahead-waiting (none ∷ q) h = cc
  ahead-waiting (some event ∷ q) h = ap (λ (l : List Event). event ∷ l) (ahead-waiting q h)

  pub all-Drains : (ss : List (Subscription Event)) → All Drains ss
  all-Drains [] = tt
  all-Drains (s ∷ ss) =
      ((λ on. (turns-handled s.queue s refl on, ahead-waiting s.queue)), all-Drains ss)
