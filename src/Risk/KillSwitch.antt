-- ===== src/Risk/KillSwitch.antt =====
-- risk/kill_switch.py: the latched stop. The reason's text is left out.
use qf635project.Base.{Bool, true, false, Option, none, some, if◌then◌else◌}
use qf635project.Core.{Timestamp, RuleName}

pub record KillSwitchState : Type 0 where
  pub engaged : Bool
  pub triggered_by : Option RuleName
  pub triggered_at_ns : Timestamp

abbrev pub released : KillSwitchState
released = record { engaged = false; triggered_by = none; triggered_at_ns = 0 }

-- `engage`: the first reason wins.
unfoldable pub engage : RuleName → Timestamp → KillSwitchState → KillSwitchState
engage name now k =
    if k.engaged
    then k
    else record { engaged = true; triggered_by = some name; triggered_at_ns = now }

-- `reset`
unfoldable pub reset : KillSwitchState → KillSwitchState
reset k = released
