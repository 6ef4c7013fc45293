-- ===== src/Oms/StateMachine.antt =====
-- oms/state_machine.py: the table of legal transitions, its test and the terminal states.
pub mod Reachability
use qf635project.Base.{Bool, true, false, Option, none, some, List, [], ◌∷◌, ◌||◌}
use qf635project.Core.{
  OrderStatus, pending_new, acknowledged, partially_filled, filled, pending_cancel, cancelled,
  rejected, expired, pending_amend,
}

-- `None` is the state before an order exists; a state with no entry has no transitions.
legal_transitions : Option OrderStatus → Option (List OrderStatus)
legal_transitions none = some (pending_new ∷ [])
legal_transitions (some pending_new) =
    some (acknowledged ∷ rejected ∷ cancelled ∷ partially_filled ∷ filled ∷ [])
legal_transitions (some acknowledged) =
    some (partially_filled ∷ filled ∷ pending_cancel ∷ cancelled ∷ expired ∷ pending_amend ∷ [])
legal_transitions (some partially_filled) =
    some (partially_filled ∷ filled ∷ pending_cancel ∷ cancelled ∷ expired ∷ pending_amend ∷ [])
legal_transitions (some pending_cancel) =
    some (cancelled ∷ partially_filled ∷ filled ∷ acknowledged ∷ [])
legal_transitions (some pending_amend) =
    some (acknowledged ∷ partially_filled ∷ filled ∷ cancelled ∷ rejected ∷ pending_cancel ∷ [])
legal_transitions (some _) = none

-- `==` of two members of the enumeration.
abbrev pub eq_status : OrderStatus → OrderStatus → Bool
eq_status pending_new pending_new = true
eq_status acknowledged acknowledged = true
eq_status partially_filled partially_filled = true
eq_status filled filled = true
eq_status pending_cancel pending_cancel = true
eq_status cancelled cancelled = true
eq_status rejected rejected = true
eq_status expired expired = true
eq_status pending_amend pending_amend = true
eq_status _ _ = false

-- `to in allowed`
abbrev pub mem_status : OrderStatus → List OrderStatus → Bool
mem_status s [] = false
mem_status s (t ∷ ts) = eq_status s t || mem_status s ts

-- Nothing, or the two ways to raise InvalidStateTransitionError.
pub data Verdict : Type 0 where
  legal no_transitions illegal : Verdict

abbrev verdict_of : Bool → Verdict
verdict_of true = legal
verdict_of false = illegal

unfoldable pub validate_transition : Option OrderStatus → OrderStatus → Verdict
unfolding legal_transitions
validate_transition from to = elim (legal_transitions from) [
  | none ↦ no_transitions
  | some allowed ↦ verdict_of (mem_status to allowed)
]

-- `status not in _LEGAL_TRANSITIONS`
unfoldable pub is_terminal : OrderStatus → Bool
unfolding legal_transitions
is_terminal status = elim (legal_transitions (some status)) [ none ↦ true | some _ ↦ false ]
