-- ===== src/Core/Types.antt =====
-- core/types.py: enumerations and value types.
use qf635project.Base.{ℕ, ◌≡◌, refl, Bool, true, false}
use qf635project.Base.Decimal.{ℤ, pos, negsuc}

abbrev pub Price : Type 0
Price = ℤ

abbrev pub Quantity : Type 0
Quantity = ℤ

abbrev pub Timestamp : Type 0
Timestamp = ℕ

pub data Side : Type 0 where
  buy sell : Side

-- `Side.sign`
abbrev pub sign : Side → ℤ
sign buy = pos 1
sign sell = negsuc 0

-- `is` on two sides.
abbrev pub same_side : Side → Side → Bool
same_side buy buy = true
same_side sell sell = true
same_side buy sell = false
same_side sell buy = false

pub same_side-≡ : (x y : Side) → same_side x y ≡ true → x ≡ y
same_side-≡ buy buy h = refl
same_side-≡ sell sell h = refl
same_side-≡ buy sell h = cc
same_side-≡ sell buy h = cc

pub data OrderType : Type 0 where
  market limit stop stop_limit ioc fok post_only : OrderType

pub data TimeInForce : Type 0 where
  gtc ioc fok day gtd gtx : TimeInForce

pub data ExecutionIntent : Type 0 where
  passive normal urgent : ExecutionIntent

pub data OrderStatus : Type 0 where
  pending_new acknowledged partially_filled filled pending_cancel cancelled rejected expired
        pending_amend :
      OrderStatus

pub OrderStatus-discrete : Discrete OrderStatus
OrderStatus-discrete = hlevel

-- The property `OrderStatus.is_terminal`.
unfoldable pub status_is_terminal : OrderStatus → Bool
status_is_terminal filled = true
status_is_terminal cancelled = true
status_is_terminal rejected = true
status_is_terminal expired = true
status_is_terminal _ = false

pub data Severity : Type 0 where
  info warn block kill : Severity
