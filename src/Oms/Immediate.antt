-- ===== src/Oms/Immediate.antt =====
-- oms/execution_algos/immediate.py: the algo of one slice.
use qf635project.Base.{Bool, true, false, Option, none, some, if◌then◌else◌}
use qf635project.Core.{Timestamp}
use qf635project.Oms.Algo.{ChildOrderSpec, ExecutionAlgo}

pub record ImmediateAlgo : Type 0 where
  pub spec : ChildOrderSpec
  pub done : Bool

abbrev pub create : ChildOrderSpec → ImmediateAlgo
create spec = record { spec = spec; done = false }

unfoldable pub next_slice : Timestamp → ImmediateAlgo → Option ChildOrderSpec × ImmediateAlgo
next_slice now a = if a.done then (none, a) else (some a.spec, record a { done = true })

abbrev pub is_done : ImmediateAlgo → Bool
is_done a = a.done

abbrev pub cancel : ImmediateAlgo → ImmediateAlgo
cancel a = record a { done = true }

-- The algo as the OMS drives it.
abbrev pub immediate : ExecutionAlgo ImmediateAlgo
immediate = record {
  next_slice = λ now a. some (next_slice now a);
  on_fill = λ fill a. a;
  is_done = is_done;
}
