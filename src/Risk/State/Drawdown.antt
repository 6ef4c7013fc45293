-- ===== src/Risk/State/Drawdown.antt =====
-- The drawdown that the state can report.
use qf635project.Base.{ℕ, ◌≡◌, Option, none, some, Option-cases, inl, inr, arith}
use qf635project.Base.Dict.{number_eq, pair_eq, lookup, lookup-insert, lookup-map_values}
use qf635project.Base.Decimal.{ℤ, ◌+ℤ◌, ◌-ℤ◌, max_ℤ}
use qf635project.Core.{Price, Timestamp, PositionUpdateEvent}
use qf635project.Risk.State.{
  DailyPnl, RiskState, Fraction, get_realized_pnl_today, get_drawdown_pct, apply_position_update,
  start_new_session, day_of,
}

abbrev pub equity_of : Option DailyPnl → Option Price
equity_of none = none
equity_of (some bucket) = some (bucket.realized_pnl +ℤ bucket.last_unrealized_pnl)

-- A peak that is on record is the present equity of its strategy.
abbrev pub AtPeak : RiskState → Type 0
AtPeak s =
    (sid : ℕ) (peak : Price)
    → lookup sid s.session_peak_equity ≡ some peak
    → equity_of (lookup sid s.daily_pnl) ≡ some peak

-- The drawdown reported for a strategy is zero whenever one is reported.
abbrev pub NoDrawdown : ℕ → RiskState → Type 0
NoDrawdown sid s = (f : Fraction) → get_drawdown_pct sid s ≡ some f → f.numerator ≡ 0

pub AtPeak-NoDrawdown : (s : RiskState) (sid : ℕ) → AtPeak s → NoDrawdown sid s
unfolding get_drawdown_pct ◌-ℤ◌
AtPeak-NoDrawdown s sid h f e = elim (Option-cases (lookup sid s.session_peak_equity)) [
  | inl absent ↦ ground arith
  | inr (peak, peaked) ↦ ground (arith, h sid peak peaked)
]

max_self : (a : ℤ) → max_ℤ a a ≡ a
max_self a = ground arith

module _ (now : Timestamp) where
  pub apply_position_update-AtPeak :
      (update : PositionUpdateEvent) (s : RiskState)
      → AtPeak s
      → AtPeak (apply_position_update now update s)
  unfolding apply_position_update
  apply_position_update-AtPeak update s h sid peak peaked =
      grind (arith, h sid peak, h update.strategy_id, lookup-insert, max_self)

  pub get_realized_pnl_today-AtPeak :
      (key : ℕ) (s : RiskState) → AtPeak s → AtPeak (get_realized_pnl_today now key s).1
  unfolding get_realized_pnl_today
  get_realized_pnl_today-AtPeak key s h sid peak peaked = ground (arith, h sid peak)

  pub start_new_session-AtPeak : (s : RiskState) → AtPeak s → AtPeak (start_new_session now s)
  unfolding start_new_session
  start_new_session-AtPeak s h sid peak peaked = ground (
    arith,
    h sid peak,
    lookup-map_values
        (λ bucket. record bucket {
          baseline_pnl = bucket.realized_pnl;
          day_index = some (day_of now);
        })
        sid s.daily_pnl,
  )
