-- ===== src/Risk/Types.antt =====
-- The types of the risk rules (include/aegisflow/risk: login_policy.hpp, blacklist_types.hpp,
-- blacklist_snapshot.hpp) and the features that they read (feature_store.hpp, user_state.hpp).
use aegis_flow.Prelude.{ℕ, Bool, Bytes}

pub data EntityType : Type 0 where
  user ip device : EntityType

pub record BlacklistEntry : Type 0 where
  pub type : EntityType
  pub id : Bytes
  pub expire_at_ms : ℕ

pub record LoginBlacklistMatches : Type 0 where
  pub user_hit : Bool
  pub ip_hit : Bool
  pub device_hit : Bool

pub record LoginPolicyConfig : Type 0 where
  pub user_failure_review_threshold : ℕ
  pub ip_spray_review_threshold : ℕ
  pub device_sharing_review_threshold : ℕ
  pub ip_distinct_reject_threshold : ℕ
  pub ip_failure_reject_threshold : ℕ

pub record LoginFeatureSnapshot : Type 0 where
  pub user_login_fail_5m : ℕ
  pub ip_distinct_failed_user_10m : ℕ
  pub device_distinct_account_10m : ℕ
  pub ip_login_failures_10m : ℕ
