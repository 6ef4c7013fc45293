-- ===== src/Feed/Tests.antt =====
-- order_gateways/binance/depth_book.py: the theorems at concrete inputs.
use qf635project.Feed.OrderBook.Levels.{Took}
use qf635project.Base.{◌≡◌, refl, true, false, some, [], ◌∷◌, ◌≢◌, ◌⊎◌}
use qf635project.Base.Decimal.{pos, ltb_ℤ}
use qf635project.Feed.OrderBook.Best.{BestOf, best_levels_lem}
use qf635project.Feed.OrderBook.{
  best_bid, best_ask, apply_delta, apply_snapshot, of_snapshot, apply_levels,
}
use qf635project.Feed.DepthBook.{
  DepthEvent, Snapshot, DepthBookManager, fresh_manager, bootstrap_begin, bootstrap_finish,
  apply_diff, apply_event_to_book, replay_buffer, begin, diff, call, calls,
}
use qf635project.Feed.DepthBook.Keeps.{
  At, Cold, bootstrap_finish-Fits, Fits, fresh, last_of, Quotes, apply_diff_lem,
}

abbrev early : DepthEvent
early = record { first_id = 4; last_id = 9; bids = (pos 100, pos 5) ∷ []; asks = [] }

abbrev late : DepthEvent
late = record {
  first_id = 10;
  last_id = 12;
  bids = (pos 100, pos 0) ∷ [];
  asks = (pos 102, pos 3) ∷ [];
}

abbrev snapshot : Snapshot
snapshot = record {
  last_update_id = 6;
  bids = (pos 99, pos 1) ∷ [];
  asks = (pos 101, pos 2) ∷ (pos 102, pos 0) ∷ [];
}

abbrev waiting : DepthBookManager
waiting = calls (begin ∷ diff early ∷ []) fresh_manager

abbrev primed_book : DepthBookManager
primed_book = (bootstrap_finish snapshot waiting).1

abbrev after_hole : DepthEvent
after_hole = record { first_id = 30; last_id = 31; bids = []; asks = (pos 103, pos 7) ∷ [] }

-- A gap between two buffered events is not seen by the replay.
replay_hole :
    (bootstrap_finish snapshot
      (calls (begin ∷ diff early ∷ diff after_hole ∷ []) fresh_manager)).1.last_u
    ≡ some 31
unfolding bootstrap_finish calls call replay_buffer apply_diff bootstrap_begin apply_event_to_book
    apply_delta apply_snapshot of_snapshot apply_levels
replay_hole = refl

waiting_ready : primed_book.last_u ≡ some 9
unfolding bootstrap_finish calls call replay_buffer apply_diff bootstrap_begin apply_event_to_book
    apply_delta apply_snapshot of_snapshot apply_levels
waiting_ready = refl

bootstrap_finish-Fits_example :
    let r = bootstrap_finish snapshot waiting in
    let es = fresh 6 waiting.pre_snapshot_buffer in
    (r.0 ≡ false)
    × (r.1.snapshot_pending ≡ false)
    × ((Fits 6 waiting.pre_snapshot_buffer × At (last_of 6 es) r.1 × Quotes snapshot es r.1.book)
        ⊎ ((Fits 6 waiting.pre_snapshot_buffer → ⊥) × Cold r.1))
bootstrap_finish-Fits_example = bootstrap_finish-Fits snapshot waiting

apply_diff_lem_example :
    ((late.first_id ≡ 10)
      × ((apply_diff late primed_book).0 ≡ false)
      × At 12 (apply_diff late primed_book).1
      × Took late.bids late.asks primed_book.book (apply_diff late primed_book).1.book)
    ⊎ ((late.first_id ≢ 10)
        × ((apply_diff late primed_book).0 ≡ true)
        × Cold (apply_diff late primed_book).1)
unfolding bootstrap_finish calls call replay_buffer apply_diff bootstrap_begin apply_event_to_book
    apply_delta apply_snapshot of_snapshot apply_levels
apply_diff_lem_example =
    apply_diff_lem late 9 primed_book refl
      (refl, refl, (7, refl), (((refl, (refl, tt)), (refl, (refl, tt))), (refl, tt), (refl, tt)))

best_levels_lem_example :
    BestOf (λ p q. ltb_ℤ q p) (best_bid primed_book.book) primed_book.book.bids
    × BestOf ltb_ℤ (best_ask primed_book.book) primed_book.book.asks
best_levels_lem_example = best_levels_lem primed_book.book
