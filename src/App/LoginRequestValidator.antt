-- ===== src/App/LoginRequestValidator.antt =====
-- login_request_validator.hpp and .cpp (include/aegisflow/app, src/app): what comes in becomes an
-- attempt, or nothing.
use aegis_flow.Prelude.{
  ℕ, ◌-◌, ◌*◌, Bool, true, false, not, ◌&&◌, ◌||◌, Option, none, some, List, [], ◌∷◌, Bytes, ltb,
  leb, ◌==◌, if◌then◌else◌, length, ◌>>=◌, ℤ, pos, negsuc, ◌==ℤ◌,
}
use aegis_flow.Domain.Login.{LoginResult, success, fail, LoginAttempt}
use aegis_flow.Domain.IpAddress.{IpAddress, Family, parse}
pub mod Fresh

-- The message of the protocol: every field is there or not. An enum field may have any value.
pub record LoginRequest : Type 0 where
  pub attempt_id : Option ℕ
  pub timestamp_ms : Option ℕ
  pub user_id : Option Bytes
  pub ip : Option Bytes
  pub device_id : Option Bytes
  pub result : Option ℤ

abbrev pub max_user_id_bytes : ℕ
max_user_id_bytes = 128

abbrev pub max_device_id_bytes : ℕ
max_device_id_bytes = 128

abbrev pub max_ip_bytes : ℕ
max_ip_bytes = 45

abbrev pub max_past_age_ms : ℕ
max_past_age_ms = 60 * 60 * 1000

-- Of the enum of login.proto: 0 unknown, 1 success, 2 fail. Anything else is none.
abbrev pub login_result : ℤ → Option LoginResult
login_result r = if r ==ℤ pos 1 then some success else if r ==ℤ pos 2 then some fail else none

abbrev pub valid_length : Bytes → ℕ → Bool
valid_length text max_bytes = not (length text == 0) && leb (length text) max_bytes

abbrev pub valid_age : ℕ → ℕ → Bool
valid_age timestamp_ms now_ms =
    leb timestamp_ms now_ms && ltb (now_ms - timestamp_ms) max_past_age_ms

abbrev pub attempt_of :
    Option Bytes → Option LoginResult → ℕ → ℕ → Bytes → Bytes → Option LoginAttempt
attempt_of none result attempt_id timestamp_ms user_id device_id = none
attempt_of (some canonical_ip) none attempt_id timestamp_ms user_id device_id = none
attempt_of (some canonical_ip) (some result) attempt_id timestamp_ms user_id device_id =
    some (record {
      attempt_id = attempt_id;
      timestamp_ms = timestamp_ms;
      user_id = user_id;
      ip = canonical_ip;
      device_id = device_id;
      result = result;
    })

-- `inet_pton` and `inet_ntop` are the C library's.
module _ (inet_pton : Family → Bytes → Option Bytes)
    (inet_ntop : Family → Bytes → Option Bytes) where
  abbrev text_of : Option IpAddress → Option Bytes
  text_of none = none
  text_of (some address) = some address.canonical_text

  unfoldable pub validate : LoginRequest → ℕ → Option LoginAttempt
  validate request now_ms = do
    attempt_id ← request.attempt_id
    user_id ← request.user_id
    ip ← request.ip
    device_id ← request.device_id
    timestamp_ms ← request.timestamp_ms
    result_value ← request.result
    if not (valid_length user_id max_user_id_bytes)
          || not (valid_length ip max_ip_bytes)
          || not (valid_length device_id max_device_id_bytes)
          || not (valid_age timestamp_ms now_ms)
        then none
        else attempt_of (text_of (parse inet_pton inet_ntop ip)) (login_result result_value)
            attempt_id timestamp_ms user_id device_id
