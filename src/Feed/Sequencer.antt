-- ===== src/Feed/Sequencer.antt =====
-- feed_handler/sequencer.py: `observe` returns the size of the gap, or raises SequenceGapError, which is
-- none here.
pub mod Runs
use qf635project.Base.{
  ℕ, suc, ◌-◌, Bool, true, false, Option, none, some, ◌&&◌, ltb, leb, if◌then◌else◌,
}

pub record Sequencer : Type 0 where
  pub last : Option ℕ
  pub strict : Bool

abbrev pub create : Bool → Sequencer
create strict = record { last = none; strict = strict }

abbrev pub reset : Sequencer → Sequencer
reset s = record s { last = none }

-- After the number `last`.
unfoldable pub observe_after : ℕ → ℕ → Sequencer → Option (ℕ × Sequencer)
observe_after last seq s =
    if leb seq last
    then none
    else if ltb 0 (seq - last - 1) && s.strict
    then none
    else some (seq - last - 1, record s { last = some seq })

unfoldable pub observe : ℕ → Sequencer → Option (ℕ × Sequencer)
observe seq s = elim s.last [
  | none ↦ some (0, record s { last = some seq })
  | some last ↦ observe_after last seq s
]
