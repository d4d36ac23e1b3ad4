-- ===== src/App/RiskService.antt =====
-- risk_service.hpp and risk_service.cpp (include/aegisflow/app, src/app), and risk_evaluation.hpp
-- (include/aegisflow/risk): an attempt is counted, looked up, judged and may become a candidate.
use aegis_flow.Prelude.{ℕ, Bool, true, false, Option, none, some, List, Bytes}
use aegis_flow.Domain.Login.{LoginDecision, LoginAttempt}
use aegis_flow.Domain.IpAddress.{Family}
use aegis_flow.Risk.Types.{LoginPolicyConfig, LoginBlacklistMatches}
use aegis_flow.Risk.Policy
use aegis_flow.Risk.Mutation.{BlacklistMutation}
use aegis_flow.Risk.Blacklist.{BlacklistManager, manager_matches}
use aegis_flow.Risk.Generator.{generate}
use aegis_flow.Feature.Store.{LoginFeatureStore, update_and_get}
pub mod Candidates

pub record RiskEvaluation : Type 0 where
  pub decision : LoginDecision
  pub candidates : List BlacklistMutation

pub record RiskService : Type 0 where
  pub policy_config : LoginPolicyConfig
  pub blacklist_manager : Option BlacklistManager
  pub feature_store : LoginFeatureStore

abbrev pub blacklist_of : Option BlacklistManager → LoginAttempt → ℕ → LoginBlacklistMatches
blacklist_of none attempt now_ms = record { user_hit = false; ip_hit = false; device_hit = false }
blacklist_of (some manager) attempt now_ms =
    manager_matches manager attempt.user_id attempt.ip attempt.device_id now_ms

-- `inet_pton` and `inet_ntop` are the C library's, `hash` is `std::hash<std::string>`; `now_ms` and
-- `cost_us` are what the clocks say.
module _ (inet_pton : Family → Bytes → Option Bytes) (inet_ntop : Family → Bytes → Option Bytes)
    (hash : Bytes → ℕ) where
  unfoldable pub evaluate : RiskService → LoginAttempt → ℕ → ℕ → RiskService × RiskEvaluation
  unfolding update_and_get Policy.evaluate generate
  evaluate service attempt now_ms cost_us =
      let (store, features) = update_and_get hash service.feature_store attempt now_ms in
      let blacklist = blacklist_of service.blacklist_manager attempt now_ms in
      let decision = Policy.evaluate service.policy_config attempt features blacklist in
      let candidates = generate inet_pton inet_ntop attempt decision blacklist now_ms in
      (
        record service { feature_store = store },
        record { decision = record decision { cost_us = cost_us }; candidates = candidates },
      )
