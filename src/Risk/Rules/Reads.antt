-- ===== src/Risk/Rules/Reads.antt =====
-- risk/rules/*.py: the parts of the state that no rule writes to.
use qf635project.Base.{◌≡◌, refl, List, arith}
use qf635project.Core.{Timestamp, OrderLeg, SignalEvent}
use qf635project.Risk.State.{RiskState, get_realized_pnl_today, signals_in_window}
use qf635project.Risk.Rules.{Rule, evaluate}

module _ (now : Timestamp) (signal : SignalEvent) (siblings : List OrderLeg) (leg : OrderLeg) where
  -- Whatever a rule reads, positions and VPIN values are as before.
  pub evaluate-reads :
      (r : Rule) (s : RiskState)
      → ((evaluate now signal siblings leg r s).1.positions ≡ s.positions)
        × ((evaluate now signal siblings leg r s).1.vpin ≡ s.vpin)
  unfolding evaluate get_realized_pnl_today signals_in_window
  evaluate-reads (Rule.daily_loss_limit max_loss) s = (ground arith, ground arith)
  evaluate-reads (Rule.drawdown_circuit_breaker warn_pct kill_pct) s = (refl, refl)
  evaluate-reads (Rule.instrument_allowlist allowed) s = (refl, refl)
  evaluate-reads (Rule.max_notional cap) s = (refl, refl)
  evaluate-reads (Rule.max_order_size max_quantity) s = (refl, refl)
  evaluate-reads (Rule.max_position max_long max_short) s = (refl, refl)
  evaluate-reads (Rule.throttle max_signals window_ns) s = (ground arith, ground arith)
  evaluate-reads (Rule.vpin_circuit_breaker threshold sustained) s = (refl, refl)
