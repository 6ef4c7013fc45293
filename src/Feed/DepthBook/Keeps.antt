-- ===== src/Feed/DepthBook/Keeps.antt =====
-- order_gateways/binance/depth_book.py (DepthBookManager): what a bootstrap and a diff leave in the book.
use qf635project.Base.{
  if◌then◌else◌, ℕ, suc, ◌≡◌, refl, ◌∙◌, sym, ap, true, false, none, some, List, [], ◌∷◌, ◌++◌,
  keep, Bool-cases, inl, inr, ◌≢◌, ◌⊎◌, not, ◌==◌, leb, arith,
}
use mathlib.Core.Path.{subst}
use qf635project.Base.Dict.{lookup}
use qf635project.Core.{Price, Quantity}
use qf635project.Feed.OrderBook.{price_eq, L2OrderBook, empty_book, apply_snapshot}
use qf635project.Feed.OrderBook.Levels.{
  IsValid, Took, quoted, listed, quoted-append, lookup-of_snapshot, apply_snapshot-IsValid,
  apply_delta-IsValid,
}
use qf635project.Feed.DepthBook.{
  DepthEvent, Snapshot, DepthBookManager, Outcome, apply_event_to_book, sequence_or_zero, straddles,
  replay_buffer, bootstrap_finish, apply_diff,
}

-- The book has no snapshot, and no diff was applied.
abbrev pub Cold : DepthBookManager → Type 0
Cold m = (m.book ≡ empty_book) × (m.last_u ≡ none)

-- The book has a snapshot, the last update that it took is `l`, and its levels are valid.
abbrev pub At : ℕ → DepthBookManager → Type 0
At l m =
    (m.book.initialized ≡ true)
    × (m.last_u ≡ some l)
    × ((s : ℕ) × (m.book.sequence ≡ some s))
    × IsValid m.book

-- An event on a book that is at some update is applied.
pub apply_event_to_book-At :
    (e : DepthEvent) (l : ℕ) (m : DepthBookManager)
    → At l m
    → ((apply_event_to_book e m).0 ≡ false)
      × At e.last_id (apply_event_to_book e m).1
      × Took e.bids e.asks m.book (apply_event_to_book e m).1.book
unfolding apply_event_to_book
apply_event_to_book-At e l m (warm, at, (s, seq), ok) =
    let n = suc (sequence_or_zero m.book.sequence) in
    let (b, made, good, seq', init, took) =
      apply_delta-IsValid n e.bids e.asks m.book ok warm (rw seq (ground arith)) in
    rw made (refl, (init, refl, (n, seq'), good), took)

abbrev popped : List DepthEvent → DepthBookManager → DepthBookManager
popped rest m = record m { pre_snapshot_buffer = rest }

-- The first buffered event that is not stale straddles the snapshot, if there is one.
unfoldable pub Fits : ℕ → List DepthEvent → Type 0
Fits n [] = Unit {0}
Fits n (e ∷ rest) = if leb e.last_id n then Fits n rest else straddles (suc n) e ≡ true

-- The events that are not stale.
abbrev pub fresh : ℕ → List DepthEvent → List DepthEvent
fresh n es = keep (λ e. not (leb e.last_id n)) es

abbrev pub bids_of : List DepthEvent → List (Price × Quantity)
bids_of [] = []
bids_of (e ∷ es) = e.bids ++ bids_of es

abbrev pub asks_of : List DepthEvent → List (Price × Quantity)
asks_of [] = []
asks_of (e ∷ es) = e.asks ++ asks_of es

-- The last id of the last event, or the id before.
abbrev pub last_of : ℕ → List DepthEvent → ℕ
last_of l [] = l
last_of l (e ∷ es) = last_of e.last_id es

-- What a replay of events does to a book at update `l`.
abbrev Replays : ℕ → List DepthEvent → L2OrderBook → DepthBookManager → Type 0
Replays l es b m = At (last_of l es) m × Took (bids_of es) (asks_of es) b m.book

Took-trans :
    (xs ys xs' ys' : List (Price × Quantity)) (b c d : L2OrderBook)
    → Took xs ys b c
    → Took xs' ys' c d
    → Took (xs ++ xs') (ys ++ ys') b d
Took-trans xs ys xs' ys' b c d h k p = (
  (k p).0 ∙ ap (quoted p xs') (h p).0 ∙ sym (quoted-append p xs xs' (lookup p b.bids)),
  (k p).1 ∙ ap (quoted p ys') (h p).1 ∙ sym (quoted-append p ys ys' (lookup p b.asks)),
)

replay_buffer-live :
    (n : ℕ) (buffer : List DepthEvent) (l : ℕ) (m : DepthBookManager)
    → At l m
    → ((replay_buffer n true buffer m).0 ≡ false)
      × Replays l (fresh n buffer) m.book (replay_buffer n true buffer m).1
unfolding replay_buffer
replay_buffer-live n [] l m at = (refl, (at, (λ p. (refl, refl))))
replay_buffer-live n (e ∷ rest) l m at =
    let (quiet, at', took) = apply_event_to_book-At e l (popped rest m) at in
    let next = (apply_event_to_book e (popped rest m)).1 in
    elim (Bool-cases (leb e.last_id n)) [
      | inl stale ↦ rw stale (replay_buffer-live n rest l (popped rest m) at)
      | inr live ↦
          let (still, (end, more)) = replay_buffer-live n rest e.last_id next at' in
          let all =
            Took-trans e.bids e.asks (bids_of (fresh n rest)) (asks_of (fresh n rest)) m.book
              next.book (replay_buffer n true rest next).1.book took more in
          rw (live, quiet) (still, (end, all))
    ]

-- What a replay does to a book that is at some update: no exception leaves it, and the events are in
-- the book if they fit, and it is reset otherwise.
abbrev Replayed : ℕ → List DepthEvent → ℕ → L2OrderBook → Outcome → Type 0
Replayed n buffer l b r =
    (r.0 ≡ false)
    × ((Fits n buffer × Replays l (fresh n buffer) b r.1) ⊎ ((Fits n buffer → ⊥) × Cold r.1))

replay_buffer-Fits :
    (n : ℕ) (buffer : List DepthEvent) (l : ℕ) (m : DepthBookManager)
    → At l m
    → Replayed n buffer l m.book (replay_buffer n false buffer m)
unfolding replay_buffer Fits
replay_buffer-Fits n [] l m at = (refl, inl (tt, (at, (λ p. (refl, refl)))))
replay_buffer-Fits n (e ∷ rest) l m at =
    let (quiet, at', took) = apply_event_to_book-At e l (popped rest m) at in
    let next = (apply_event_to_book e (popped rest m)).1 in
    elim (Bool-cases (leb e.last_id n)) [
      | inl stale ↦ rw stale (replay_buffer-Fits n rest l (popped rest m) at)
      | inr live ↦ elim (Bool-cases (straddles (suc n) e)) [
        | inr old ↦ rw (live, old) (refl, inr ((λ h. ground (arith, h)), (refl, refl)))
        | inl take ↦
            let (still, (end, more)) = replay_buffer-live n rest e.last_id next at' in
            let all =
              Took-trans e.bids e.asks (bids_of (fresh n rest)) (asks_of (fresh n rest)) m.book
                next.book (replay_buffer n true rest next).1.book took more in
            rw (live, take, quiet) (still, inl (refl, (end, all)))
      ]
    ]

abbrev primed : Snapshot → DepthBookManager → DepthBookManager
primed s m = record m {
  book = apply_snapshot s.last_update_id s.bids s.asks;
  snapshot_last_update_id = some s.last_update_id;
  last_u = some s.last_update_id;
}

-- The book quotes every price as the snapshot and then the events say.
abbrev pub Quotes : Snapshot → List DepthEvent → L2OrderBook → Type 0
Quotes s es b =
    (p : Price)
    → (lookup p b.bids ≡ quoted p (bids_of es) (listed p s.bids none))
      × (lookup p b.asks ≡ quoted p (asks_of es) (listed p s.asks none))

-- No SequenceGapError leaves a bootstrap whose snapshot has arrived, and no snapshot is pending
-- afterwards. If the first buffered event that is not stale straddles the snapshot, or there is
-- none, then the book quotes every price as the snapshot and after it all the events that are not
-- stale say, in their order and whether or not there are gaps between them; the last update id is that
-- of the last of these, or the snapshot's, no level has a zero quantity and no price two levels.
-- Otherwise the book is empty and has no update id.
pub bootstrap_finish-Fits :
    (s : Snapshot) (m : DepthBookManager)
    → let r = bootstrap_finish s m in
      let n = s.last_update_id in
      let es = fresh n m.pre_snapshot_buffer in
      (r.0 ≡ false)
      × (r.1.snapshot_pending ≡ false)
      × ((Fits n m.pre_snapshot_buffer × At (last_of n es) r.1 × Quotes s es r.1.book)
          ⊎ ((Fits n m.pre_snapshot_buffer → ⊥) × Cold r.1))
unfolding bootstrap_finish apply_snapshot
bootstrap_finish-Fits s m =
    let n = s.last_update_id in
    let es = fresh n m.pre_snapshot_buffer in
    let (quiet, ok) =
      replay_buffer-Fits n m.pre_snapshot_buffer n (primed s m)
        (refl, refl, (n, refl), apply_snapshot-IsValid n s.bids s.asks) in
    rw quiet (
      refl,
      refl,
      elim ok [
        | inr reset ↦ inr reset
        | inl (fits, (at, took)) ↦ inl (
          fits,
          at,
          (λ p. (
            (took p).0 ∙ ap (quoted p (bids_of es)) (lookup-of_snapshot p s.bids []),
            (took p).1 ∙ ap (quoted p (asks_of es)) (lookup-of_snapshot p s.asks []),
          )),
        )
      ],
    )

apply_diff-next :
    (e : DepthEvent) (l : ℕ) (m : DepthBookManager)
    → m.snapshot_pending ≡ false
    → m.book.initialized ≡ true
    → m.last_u ≡ some l
    → (e.first_id == suc l) ≡ true
    → apply_diff e m ≡ apply_event_to_book e m
unfolding apply_diff
apply_diff-next e l m quiet warm at next = simp (quiet, warm, at, next)

apply_diff-gap :
    (e : DepthEvent) (l : ℕ) (m : DepthBookManager)
    → m.snapshot_pending ≡ false
    → m.book.initialized ≡ true
    → m.last_u ≡ some l
    → (e.first_id == suc l) ≡ false
    → apply_diff e m ≡ (true, record m { book = empty_book; last_u = none })
unfolding apply_diff
apply_diff-gap e l m quiet warm at gap = simp (quiet, warm, at, gap)

-- A diff of a book that is at update `l`, with no snapshot pending, is applied exactly when its
-- first update id is the one after `l`; then the book is at its last id, quotes every price of the diff as
-- the diff says and every other as before, and has no level of zero quantity and no price twice.
-- Otherwise SequenceGapError is raised, and the book is empty and has no update id.
pub apply_diff_lem :
    (e : DepthEvent) (l : ℕ) (m : DepthBookManager)
    → m.snapshot_pending ≡ false
    → At l m
    → ((e.first_id ≡ suc l)
        × ((apply_diff e m).0 ≡ false)
        × At e.last_id (apply_diff e m).1
        × Took e.bids e.asks m.book (apply_diff e m).1.book)
      ⊎ ((e.first_id ≢ suc l) × ((apply_diff e m).0 ≡ true) × Cold (apply_diff e m).1)
apply_diff_lem e l m quiet (warm, at, seq, ok) =
    let (done, at', took) = apply_event_to_book-At e l m (warm, at, seq, ok) in
    elim (Bool-cases (e.first_id == suc l)) [
      | inl next ↦
          let same = apply_diff-next e l m quiet warm at next in
          inl (
            ground arith,
            ap (λ r. r.0) same ∙ done,
            subst (λ r. At e.last_id r.1) (sym same) at',
            subst (λ r. Took e.bids e.asks m.book r.1.book) (sym same) took,
          )
      | inr gap ↦
          let same = apply_diff-gap e l m quiet warm at gap in
          inr
            ((λ h. ground arith), ap (λ r. r.0) same, subst (λ r. Cold r.1) (sym same) (refl, refl))
    ]
