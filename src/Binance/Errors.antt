-- ===== src/Binance/Errors.antt =====
-- order_gateways/binance/errors.py: the exceptions that errors of Binance are translated to. The codes of
-- Binance are negative, and `code` is without the sign; 0 is none.
use qf635project.Base.{ℕ, Bool, true, false, List, [], ◌∷◌, ◌==◌, ◌||◌, not, any, if◌then◌else◌}

pub record BinanceErrorResponse : Type 0 where
  pub code : ℕ
  pub http_status : ℕ

-- What is raised: OrderError with its code and whether it is a logical reject, or OrderGatewayError or
-- one of its two subclasses.
pub data Error : Type 0 where
  order_error : (code : ℕ) (logical_reject : Bool) → Error
  rate_limited : Error
  auth_error : Error
  gateway_error : Error

abbrev pub amend_noop : ℕ
amend_noop = 5027

abbrev pub amend_modify_limit : ℕ
amend_modify_limit = 5026

abbrev pub auth_codes : List ℕ
auth_codes = 1022 ∷ 2014 ∷ 2015 ∷ 1125 ∷ []

abbrev pub logical_reject_codes : List ℕ
logical_reject_codes = 2010 ∷ 2021 ∷ []

abbrev is_in : ℕ → List ℕ → Bool
is_in code codes = any (λ c. code == c) codes

abbrev pub is_rate_limited : BinanceErrorResponse → Bool
is_rate_limited e = e.http_status == 418 || e.http_status == 429 || e.code == 1003

abbrev pub is_auth_error : BinanceErrorResponse → Bool
is_auth_error e = is_in e.code auth_codes

abbrev pub is_logical_reject : BinanceErrorResponse → Bool
is_logical_reject e = is_in e.code logical_reject_codes

unfoldable pub translate_error : BinanceErrorResponse → Error
translate_error e =
    if is_rate_limited e
    then rate_limited
    else if is_auth_error e
    then auth_error
    else if is_logical_reject e
    then order_error e.code true
    else if not (e.code == 0)
    then order_error e.code false
    else gateway_error
