-- ===== src/Domain/Login.antt =====
-- login.hpp (include/aegisflow/domain): an attempt to log in, and what is decided about it.
use aegis_flow.Prelude.{ℕ, List, Bytes}

pub data LoginResult : Type 0 where
  success fail : LoginResult

pub data LoginDecisionAction : Type 0 where
  pass review reject : LoginDecisionAction

pub record PolicyHit : Type 0 where
  pub reason_code : Bytes
  pub action : LoginDecisionAction
  pub risk_score : ℕ

pub record LoginDecision : Type 0 where
  pub attempt_id : ℕ
  pub user_id : Bytes
  pub action : LoginDecisionAction
  pub risk_score : ℕ
  pub policy_hits : List PolicyHit
  pub cost_us : ℕ

pub record LoginAttempt : Type 0 where
  pub attempt_id : ℕ
  pub timestamp_ms : ℕ
  pub user_id : Bytes
  pub ip : Bytes
  pub device_id : Bytes
  pub result : LoginResult
