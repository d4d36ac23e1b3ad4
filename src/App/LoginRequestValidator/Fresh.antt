-- ===== src/App/LoginRequestValidator/Fresh.antt =====
-- What an attempt that login_request_validator.cpp (src/app) lets through is known to be.
use aegis_flow.Prelude.{ℕ, ◌-◌, ◌≤◌, ◌<◌, ◌≡◌, Option, some, Bytes, length, ◌>>=◌}
use aegis_flow.Domain.Login.{LoginAttempt}
use aegis_flow.Domain.IpAddress.{Family, parse}
use aegis_flow.App.LoginRequestValidator.{
  LoginRequest, max_user_id_bytes, max_device_id_bytes, max_past_age_ms, login_result, text_of,
}

-- `a` is what `r` asks for, within the limits, with the address in its one form.
pub record Accepted (canonical : Bytes → Option Bytes) (r : LoginRequest) (now_ms : ℕ)
    (a : LoginAttempt) : Type 0 where
  pub attempt_id : r.attempt_id ≡ some a.attempt_id
  pub timestamp_ms : r.timestamp_ms ≡ some a.timestamp_ms
  pub user_id : r.user_id ≡ some a.user_id
  pub device_id : r.device_id ≡ some a.device_id
  pub ip : (r.ip >>= canonical) ≡ some a.ip
  pub result : (r.result >>= login_result) ≡ some a.result
  pub user_fits : (0 < length a.user_id) × (length a.user_id ≤ max_user_id_bytes)
  pub device_fits : (0 < length a.device_id) × (length a.device_id ≤ max_device_id_bytes)
  pub age : (a.timestamp_ms ≤ now_ms) × (now_ms - a.timestamp_ms < max_past_age_ms)

module _ (inet_pton : Family → Bytes → Option Bytes)
    (inet_ntop : Family → Bytes → Option Bytes) where
  abbrev pub canonical_text : Bytes → Option Bytes
  canonical_text ip = text_of inet_pton inet_ntop (parse inet_pton inet_ntop ip)
