-- ===== src/Feed/DepthBook.antt =====
-- order_gateways/binance/depth_book.py (DepthBookManager): the depth diffs of a venue, interleaved with
-- a snapshot. `bootstrap` awaits the snapshot, so it is two steps.
pub mod Keeps
use qf635project.Base.{
  ℕ, zero, suc, ◌≤◌, ◌≡◌, refl, Bool, true, false, Option, none, some, List, [], ◌∷◌, ◌++◌, ◌==◌,
  ◌&&◌, ◌||◌, not, leb, if◌then◌else◌,
}
use qf635project.Core.{Price, Quantity}
use qf635project.Feed.OrderBook.{L2OrderBook, empty_book, apply_snapshot, apply_delta}

-- The frame of the venue: its update ids `U` to `u`, and the levels of both sides.
pub record DepthEvent : Type 0 where
  pub first_id : ℕ
  pub last_id : ℕ
  pub bids : List (Price × Quantity)
  pub asks : List (Price × Quantity)

pub record Snapshot : Type 0 where
  pub last_update_id : ℕ
  pub bids : List (Price × Quantity)
  pub asks : List (Price × Quantity)

pub record DepthBookManager : Type 0 where
  pub book : L2OrderBook
  pub pre_snapshot_buffer : List DepthEvent
  pub snapshot_pending : Bool
  pub snapshot_last_update_id : Option ℕ
  pub last_u : Option ℕ

abbrev pub fresh_manager : DepthBookManager
fresh_manager = record {
  book = empty_book;
  pre_snapshot_buffer = [];
  snapshot_pending = false;
  snapshot_last_update_id = none;
  last_u = none;
}

-- What a call leaves, and whether it raised SequenceGapError.
abbrev pub Outcome : Type 0
Outcome = Bool × DepthBookManager

abbrev pub sequence_or_zero : Option ℕ → ℕ
sequence_or_zero none = 0
sequence_or_zero (some s) = s

abbrev applied : DepthEvent → DepthBookManager → Option L2OrderBook → Outcome
applied e m none = (true, m)
applied e m (some b) = (false, record m { book = b; last_u = some e.last_id })

unfoldable pub apply_event_to_book : DepthEvent → DepthBookManager → Outcome
apply_event_to_book e m =
    applied e m (apply_delta (suc (sequence_or_zero m.book.sequence)) e.bids e.asks m.book)

-- The book after a snapshot that is too old for the first event that is not stale.
abbrev pub abort_book : List DepthEvent → DepthBookManager → DepthBookManager
abort_book rest m = record m {
  book = empty_book;
  pre_snapshot_buffer = rest;
  snapshot_last_update_id = none;
  last_u = none;
}

abbrev pub straddles : ℕ → DepthEvent → Bool
straddles target e = leb e.first_id target && leb target e.last_id

-- `_replay_buffer`: the loop takes the events off the buffer. An exception of the book ends it.
unfoldable pub replay_buffer : ℕ → Bool → List DepthEvent → DepthBookManager → Outcome
replay_buffer last_update_id first_applied [] m = (false, record m { pre_snapshot_buffer = [] })
replay_buffer last_update_id first_applied (e ∷ rest) m =
    let popped = record m { pre_snapshot_buffer = rest } in
    let stale = replay_buffer last_update_id first_applied rest popped in
    let r = apply_event_to_book e popped in
    let next = replay_buffer last_update_id true rest r.1 in
    if leb e.last_id last_update_id
    then stale
    else if first_applied || straddles (suc last_update_id) e
    then (if r.0 then r else next)
    else (false, abort_book rest m)

-- `bootstrap` up to the request.
unfoldable pub bootstrap_begin : DepthBookManager → DepthBookManager
bootstrap_begin m = record m { snapshot_pending = true }

abbrev not_pending : Outcome → Outcome
not_pending (true, m) = (true, m)
not_pending (false, m) = (false, record m { snapshot_pending = false })

-- `bootstrap` from the response on.
unfoldable pub bootstrap_finish : Snapshot → DepthBookManager → Outcome
bootstrap_finish s m = not_pending (
    replay_buffer s.last_update_id false m.pre_snapshot_buffer (record m {
      book = apply_snapshot s.last_update_id s.bids s.asks;
      snapshot_last_update_id = some s.last_update_id;
      last_u = some s.last_update_id;
    }))

-- `self._last_u is not None and U != self._last_u + 1`
abbrev pub is_gap : Option ℕ → DepthEvent → Bool
is_gap none e = false
is_gap (some l) e = not (e.first_id == suc l)

unfoldable pub apply_diff : DepthEvent → DepthBookManager → Outcome
apply_diff e m =
    if m.snapshot_pending || not m.book.initialized
    then (false, record m { pre_snapshot_buffer = m.pre_snapshot_buffer ++ (e ∷ []) })
    else if is_gap m.last_u e
    then (true, record m { book = empty_book; last_u = none })
    else apply_event_to_book e m

-- What happens to a manager: a bootstrap starts, its snapshot arrives, a diff arrives.
pub data Call : Type 0 where
  begin : Call
  finish : Snapshot → Call
  diff : DepthEvent → Call

unfoldable pub call : Call → DepthBookManager → Outcome
call begin m = (false, bootstrap_begin m)
call (finish s) m = bootstrap_finish s m
call (diff e) m = apply_diff e m

unfoldable pub calls : List Call → DepthBookManager → DepthBookManager
calls [] m = m
calls (c ∷ cs) m = calls cs (call c m).1
