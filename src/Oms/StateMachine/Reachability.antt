-- ===== src/Oms/StateMachine/Reachability.antt =====
-- Which statuses follow which: terminal statuses are final, and no other status is a dead end.
use qf635project.Base.{◌≡◌, refl, ◌↔◌, true, false, some, arith}
use qf635project.Core.{
  OrderStatus, pending_new, acknowledged, partially_filled, filled, pending_cancel, cancelled,
  rejected, expired, pending_amend, status_is_terminal,
}
use qf635project.Oms.StateMachine.{legal, no_transitions, illegal, validate_transition, is_terminal}

-- One accepted transition, and a run of them.
abbrev pub Step : OrderStatus → OrderStatus → Type 0
Step s t = validate_transition (some s) t ≡ legal

pub data Reach (s : OrderStatus) : OrderStatus → Type 0 where
  here : Reach s s
  next : {t u : OrderStatus} → Reach s t → Step t u → Reach s u

-- The two definitions of a terminal status agree, and a status is terminal exactly when every
-- transition out of it is refused as having none.
pub terminal_iff :
    (s : OrderStatus)
    → (is_terminal s ≡ status_is_terminal s)
      × ((is_terminal s ≡ true)
          ↔ ((t : OrderStatus) → validate_transition (some s) t ≡ no_transitions))
unfolding is_terminal status_is_terminal validate_transition
terminal_iff pending_new = (refl, ((λ h. cc), (λ h. cc (h filled))))
terminal_iff acknowledged = (refl, ((λ h. cc), (λ h. cc (h filled))))
terminal_iff partially_filled = (refl, ((λ h. cc), (λ h. cc (h filled))))
terminal_iff filled = (refl, ((λ h t. refl), (λ h. refl)))
terminal_iff pending_cancel = (refl, ((λ h. cc), (λ h. cc (h filled))))
terminal_iff cancelled = (refl, ((λ h t. refl), (λ h. refl)))
terminal_iff rejected = (refl, ((λ h t. refl), (λ h. refl)))
terminal_iff expired = (refl, ((λ h t. refl), (λ h. refl)))
terminal_iff pending_amend = (refl, ((λ h. cc), (λ h. cc (h filled))))

Step-not-terminal : (s t : OrderStatus) → Step s t → status_is_terminal s ≡ false
unfolding status_is_terminal validate_transition
Step-not-terminal s t h = ground arith

-- A status that `OrderStatus.is_terminal` lists (filled, cancelled, rejected or expired) is never left
-- by legal transitions: whatever is reached from it is itself.
pub Reach-terminal : {s t : OrderStatus} → status_is_terminal s ≡ true → Reach s t → t ≡ s
Reach-terminal h here = refl
Reach-terminal {s} h (next {t = t} {u = u} r st) =
    let e = Reach-terminal h r in cc (Step-not-terminal t u st)

-- Every status that is not terminal can be filled in one transition, and every status but the
-- initial one is reached from it.
pub live_status : (s : OrderStatus) → (is_terminal s ≡ false → Step s filled) × Reach pending_new s
unfolding is_terminal validate_transition
live_status pending_new = ((λ h. refl), here)
live_status acknowledged = ((λ h. refl), next here refl)
live_status partially_filled = ((λ h. refl), next here refl)
live_status filled = ((λ h. cc), next here refl)
live_status pending_cancel = ((λ h. refl), next {t = acknowledged} (next here refl) refl)
live_status cancelled = ((λ h. cc), next here refl)
live_status rejected = ((λ h. cc), next here refl)
live_status expired = ((λ h. cc), next {t = acknowledged} (next here refl) refl)
live_status pending_amend = ((λ h. refl), next {t = acknowledged} (next here refl) refl)

-- An order that is not acknowledged yet can be neither cancelled on request nor amended.
pub pending_new-no_request :
    (validate_transition (some pending_new) pending_cancel ≡ illegal)
    × (validate_transition (some pending_new) pending_amend ≡ illegal)
unfolding validate_transition
pending_new-no_request = (refl, refl)
