-- ===== src/Risk/Rules/Breakers.antt =====
-- risk/rules/drawdown_circuit_breaker.py over the states that risk/state.py can reach.
use qf635project.Base.{
  ℕ, ◌<◌, ◌≡◌, refl, true, false, Option, none, some, List, Option-cases, inl, inr, arith,
}
use qf635project.Base.Decimal.{abs_ℤ, ◌-ℤ◌}
use qf635project.Core.{
  Timestamp, OrderLeg, SignalEvent, FillEvent, PositionUpdateEvent, WorkingExposure,
}
use qf635project.Risk.State.{
  RiskState, Fraction, record_signal, apply_fill, apply_position_update, apply_open_orders_snapshot,
  apply_analytics_snapshot, start_new_session, get_realized_pnl_today, signals_in_window,
  get_drawdown_pct, opened,
}
use qf635project.Risk.State.Drawdown.{
  AtPeak, AtPeak-NoDrawdown, apply_position_update-AtPeak, get_realized_pnl_today-AtPeak,
  start_new_session-AtPeak,
}
use qf635project.Risk.Rules.{Rule, is_constructible, result, approve, evaluate, reaches}

-- The states that the operations lead to, in any order and at any times.
pub data Reached (window : ℕ) : RiskState → Type 0 where
  at_start : Reached window (opened window)
  signal :
      {s : RiskState} (now : Timestamp) (sid : ℕ)
      → Reached window s
      → Reached window (record_signal now sid s)
  fill : {s : RiskState} (f : FillEvent) → Reached window s → Reached window (apply_fill f s)
  position_update :
      {s : RiskState} (now : Timestamp) (u : PositionUpdateEvent)
      → Reached window s
      → Reached window (apply_position_update now u s)
  open_orders :
      {s : RiskState} (es : List WorkingExposure)
      → Reached window s
      → Reached window (apply_open_orders_snapshot es s)
  analytics :
      {s : RiskState} (iid : ℕ) (vpin : Option ℕ)
      → Reached window s
      → Reached window (apply_analytics_snapshot iid vpin s)
  new_session :
      {s : RiskState} (now : Timestamp)
      → Reached window s
      → Reached window (start_new_session now s)
  pnl_read :
      {s : RiskState} (now : Timestamp) (sid : ℕ)
      → Reached window s
      → Reached window (get_realized_pnl_today now sid s).1
  window_read :
      {s : RiskState} (now : Timestamp) (sid w : ℕ)
      → Reached window s
      → Reached window (signals_in_window now sid w s).1

window_read-AtPeak :
    (now : Timestamp) (sid w : ℕ) (s : RiskState)
    → AtPeak s
    → AtPeak (signals_in_window now sid w s).1
unfolding signals_in_window
window_read-AtPeak now sid w s h k peak e = ground (arith, h k peak)

analytics-AtPeak :
    (iid : ℕ) (vpin : Option ℕ) (s : RiskState)
    → AtPeak s
    → AtPeak (apply_analytics_snapshot iid vpin s)
unfolding apply_analytics_snapshot
analytics-AtPeak iid none s h = h
analytics-AtPeak iid (some v) s h = h

-- In every reachable state a recorded peak is the present equity.
Reached-AtPeak : {window : ℕ} {s : RiskState} → Reached window s → AtPeak s
unfolding record_signal apply_fill apply_open_orders_snapshot
Reached-AtPeak at_start = λ sid peak e. cc
Reached-AtPeak (signal now sid r) = Reached-AtPeak r
Reached-AtPeak (fill f r) = Reached-AtPeak r
Reached-AtPeak (position_update {s} now u r) =
    apply_position_update-AtPeak now u s (Reached-AtPeak r)
Reached-AtPeak (open_orders es r) = Reached-AtPeak r
Reached-AtPeak (analytics {s} iid vpin r) = analytics-AtPeak iid vpin s (Reached-AtPeak r)
Reached-AtPeak (new_session {s} now r) = start_new_session-AtPeak now s (Reached-AtPeak r)
Reached-AtPeak (pnl_read {s} now sid r) = get_realized_pnl_today-AtPeak now sid s (Reached-AtPeak r)
Reached-AtPeak (window_read {s} now sid w r) = window_read-AtPeak now sid w s (Reached-AtPeak r)

drawdown-denominator :
    (sid : ℕ) (s : RiskState) (f : Fraction) → get_drawdown_pct sid s ≡ some f → 0 < f.denominator
unfolding get_drawdown_pct abs_ℤ ◌-ℤ◌
drawdown-denominator sid s f e = ground arith

below :
    (f : Fraction) (pct : ℕ) → f.numerator ≡ 0 → 0 < f.denominator → 0 < pct → reaches f pct ≡ false
below f pct n d p = grind arith

-- In every state that is reachable from the initial one, the drawdown breaker, with any parameters
-- that its constructor accepts, approves every leg without a clamp.
pub drawdown_breaker_lem :
    {window : ℕ} {s : RiskState} (warn_pct kill_pct : ℕ) (now : Timestamp) (sig : SignalEvent)
    (siblings : List OrderLeg) (leg : OrderLeg)
    → Reached window s
    → is_constructible (Rule.drawdown_circuit_breaker warn_pct kill_pct) ≡ true
    → let r = Rule.drawdown_circuit_breaker warn_pct kill_pct in
      evaluate now sig siblings leg r s ≡ (result (approve r none), s)
unfolding evaluate is_constructible
drawdown_breaker_lem {s = s} warn_pct kill_pct now sig siblings leg reached c =
    elim (Option-cases (get_drawdown_pct sig.strategy_id s)) [
      | inl e ↦ rw e refl
      | inr (f, e) ↦
          let z = AtPeak-NoDrawdown s sig.strategy_id (Reached-AtPeak reached) f e in
          let d = drawdown-denominator sig.strategy_id s f e in
          rw (e, below f kill_pct z d (ground arith), below f warn_pct z d (ground arith)) refl
    ]
