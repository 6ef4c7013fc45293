-- ===== src/Risk/State.antt =====
-- risk/state.py: the state that the rules read. The clock is an argument, `now`. VPIN values and
-- thresholds are floats that are only compared; they count thousandths. A drawdown is kept as the
-- fraction that it is, so that comparing it with a threshold rounds nothing.
pub mod Drawdown
use qf635project.Base.{
  ℕ, ◌+◌, ◌-◌, ◌*◌, ◌/◌, Bool, true, false, Option, none, some, List, [], ◌∷◌, ◌++◌, ◌==◌, ltb, leb,
  length, not, if◌then◌else◌,
}
use qf635project.Base.Dict.{Dict, number_eq, pair_eq, lookup, lookup_or, insert, map_values}
use qf635project.Base.Decimal.{ℤ, pos, pos_part, neg_part, ◌+ℤ◌, ◌-ℤ◌, ◌*ℤ◌, leb_ℤ, max_ℤ, abs_ℤ}
use qf635project.Core.{
  Price, Quantity, Timestamp, sign, FillEvent, PositionUpdateEvent, WorkingExposure,
}

abbrev ns_per_day : ℕ
ns_per_day = 86_400_000_000_000

-- `_StrategyDailyPnL`; a day index of `none` is the default -1.
pub record DailyPnl : Type 0 where
  pub baseline_pnl : Price
  pub day_index : Option ℕ
  pub realized_pnl : Price
  pub day_start_ns : Timestamp
  pub last_unrealized_pnl : Price

pub record RiskState : Type 0 where
  pub throttle_window_ns : ℕ
  pub positions : Dict (ℕ × ℕ) Quantity
  pub working : Dict (ℕ × ℕ) (Quantity × Quantity)
  pub daily_pnl : Dict ℕ DailyPnl
  pub recent_signals : Dict ℕ (List Timestamp)
  pub vpin : Dict ℕ ℕ
  pub vpin_breach_ticks : Dict (ℕ × ℕ) ℕ
  pub session_peak_equity : Dict ℕ Price

-- `__init__`
abbrev pub opened : ℕ → RiskState
opened window_ns = record {
  throttle_window_ns = window_ns;
  positions = [];
  working = [];
  daily_pnl = [];
  recent_signals = [];
  vpin = [];
  vpin_breach_ticks = [];
  session_peak_equity = [];
}

-- A float read as a fraction of no negative value.
pub record Fraction : Type 0 where
  pub numerator : ℕ
  pub denominator : ℕ

unfoldable pub get_position : RiskState → ℕ → ℕ → Quantity
get_position s strategy_id instrument_id =
    lookup_or (strategy_id, instrument_id) (pos 0) s.positions

unfoldable pub get_working : RiskState → ℕ → ℕ → Quantity × Quantity
get_working s strategy_id instrument_id =
    lookup_or (strategy_id, instrument_id) (pos 0, pos 0) s.working

-- `_day_index`
abbrev pub day_of : Timestamp → ℕ
day_of now = now / ns_per_day

abbrev same_day : Option ℕ → ℕ → Bool
same_day none today = false
same_day (some d) today = d == today

-- The part of `_maybe_rollover` that depends on the day.
abbrev pub rollover : Timestamp → DailyPnl → DailyPnl
rollover now bucket =
    if same_day bucket.day_index (day_of now)
    then bucket
    else record bucket { baseline_pnl = bucket.realized_pnl; day_index = some (day_of now) }

-- `_maybe_rollover` on the bucket of a strategy; it clears the peaks of all strategies each time.
unfoldable pub maybe_rollover : Timestamp → ℕ → DailyPnl → RiskState → RiskState
maybe_rollover now sid bucket s = record s {
  daily_pnl = insert sid (rollover now bucket) s.daily_pnl;
  session_peak_equity = [];
}

-- `get_realized_pnl_today`, which rolls the day over as it reads.
unfoldable pub get_realized_pnl_today : Timestamp → ℕ → RiskState → Price × RiskState
unfolding maybe_rollover
get_realized_pnl_today now sid s = elim (lookup sid s.daily_pnl) [
  | none ↦ (pos 0, s)
  | some bucket ↦ (
    (rollover now bucket).realized_pnl -ℤ (rollover now bucket).baseline_pnl,
    maybe_rollover now sid bucket s,
  )
]

abbrev drawdown_from : DailyPnl → Price → Option Fraction
drawdown_from bucket peak =
    let current = bucket.realized_pnl +ℤ bucket.last_unrealized_pnl in
    if leb_ℤ peak (pos 0)
    then none
    else some
        (record { numerator = pos_part (peak -ℤ current); denominator = pos_part (abs_ℤ peak) })

unfoldable pub get_drawdown_pct : ℕ → RiskState → Option Fraction
get_drawdown_pct sid s = elim (lookup sid s.daily_pnl) [
  | none ↦ none
  | some bucket ↦ elim (lookup sid s.session_peak_equity) [
    | none ↦ none
    | some peak ↦ drawdown_from bucket peak
  ]
]

abbrev pub get_vpin : RiskState → ℕ → Option ℕ
get_vpin s instrument_id = lookup instrument_id s.vpin

unfoldable pub get_vpin_breach_ticks : RiskState → ℕ → ℕ → ℕ
get_vpin_breach_ticks s instrument_id threshold =
    lookup_or (instrument_id, threshold) 0 s.vpin_breach_ticks

-- `while dq and dq[0] < cutoff: dq.popleft()`; the cutoff is `now - window`, which may be negative.
unfoldable pub evict : Timestamp → ℕ → List Timestamp → List Timestamp
evict now window [] = []
evict now window (t ∷ ts) =
    let rest = evict now window ts in if ltb (t + window) now then rest else t ∷ ts

-- `signals_in_window`, which evicts as it counts.
unfoldable pub signals_in_window : Timestamp → ℕ → ℕ → RiskState → ℕ × RiskState
unfolding evict
signals_in_window now sid window s = elim (lookup sid s.recent_signals) [
  | none ↦ (0, s)
  | some ts ↦
      let kept = evict now window ts in
      (length kept, record s { recent_signals = insert sid kept s.recent_signals })
]

unfoldable pub record_signal : Timestamp → ℕ → RiskState → RiskState
record_signal now sid s = record s {
  recent_signals = insert sid (lookup_or sid [] s.recent_signals ++ now ∷ []) s.recent_signals;
}

unfoldable pub apply_fill : FillEvent → RiskState → RiskState
apply_fill fill s =
    let key : ℕ × ℕ = (fill.strategy_id, fill.instrument.instrument_id) in
    record s {
      positions =
          insert key (lookup_or key (pos 0) s.positions +ℤ fill.fill_quantity *ℤ sign fill.side)
            s.positions;
    }

-- The bucket before the peak is taken: a new one, or the old one rolled over and updated.
abbrev update_bucket : Timestamp → PositionUpdateEvent → RiskState → RiskState
update_bucket now update s =
    let sid = update.strategy_id in
    elim (lookup sid s.daily_pnl) [
      | none ↦ record s {
        daily_pnl =
            insert sid
              (record {
                baseline_pnl = pos 0;
                day_index = some (day_of now);
                realized_pnl = update.realized_pnl;
                day_start_ns = now;
                last_unrealized_pnl = update.unrealized_pnl;
              })
              s.daily_pnl;
      }
      | some bucket ↦ record (maybe_rollover now sid bucket s) {
        daily_pnl =
            insert sid
              (record (rollover now bucket) {
                realized_pnl = update.realized_pnl;
                last_unrealized_pnl = update.unrealized_pnl;
              })
              s.daily_pnl;
      }
    ]

unfoldable pub apply_position_update : Timestamp → PositionUpdateEvent → RiskState → RiskState
unfolding maybe_rollover
apply_position_update now update s =
    let key : ℕ × ℕ = (update.strategy_id, update.instrument.instrument_id) in
    let t =
      update_bucket now update (record s { positions = insert key update.quantity s.positions }) in
    let total_equity = update.realized_pnl +ℤ update.unrealized_pnl in
    let prev_peak = lookup_or update.strategy_id total_equity t.session_peak_equity in
    record t {
      session_peak_equity =
          insert update.strategy_id (max_ℤ prev_peak total_equity) t.session_peak_equity;
    }

abbrev exposures :
    List WorkingExposure → Dict (ℕ × ℕ) (Quantity × Quantity) → Dict (ℕ × ℕ) (Quantity × Quantity)
exposures [] d = d
exposures (e ∷ es) d =
    exposures es
      (insert (e.strategy_id, e.instrument.instrument_id) (e.working_buy, e.working_sell) d)

unfoldable pub apply_open_orders_snapshot : List WorkingExposure → RiskState → RiskState
apply_open_orders_snapshot es s = record s { working = exposures es [] }

-- The four thresholds whose breaches are counted.
abbrev pub counted_thresholds : List ℕ
counted_thresholds = 500 ∷ 700 ∷ 800 ∷ 900 ∷ []

abbrev count_breaches : ℕ → ℕ → List ℕ → Dict (ℕ × ℕ) ℕ → Dict (ℕ × ℕ) ℕ
count_breaches iid vpin [] d = d
count_breaches iid vpin (threshold ∷ ts) d = count_breaches iid vpin ts (
    insert (iid, threshold) (if leb threshold vpin then lookup_or (iid, threshold) 0 d + 1 else 0)
      d)

unfoldable pub apply_analytics_snapshot : ℕ → Option ℕ → RiskState → RiskState
apply_analytics_snapshot iid none s = s
apply_analytics_snapshot iid (some vpin) s = record s {
  vpin = insert iid vpin s.vpin;
  vpin_breach_ticks = count_breaches iid vpin counted_thresholds s.vpin_breach_ticks;
}

unfoldable pub start_new_session : Timestamp → RiskState → RiskState
start_new_session now s = record s {
  daily_pnl =
      map_values
        (λ bucket. record bucket {
          baseline_pnl = bucket.realized_pnl;
          day_index = some (day_of now);
        })
        s.daily_pnl;
}
