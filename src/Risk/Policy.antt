-- ===== src/Risk/Policy.antt =====
-- login_policy.hpp, login_policy_chain.hpp and login_policy_chain.cpp (include/aegisflow/risk,
-- src/risk): five rules look at an attempt, and the most severe hit decides.
use aegis_flow.Prelude.{
  ℕ, max, Bool, true, false, ◌&&◌, ◌||◌, Option, none, some, List, [], ◌∷◌, ◌++◌, Bytes, codes, ltb,
  leb, ◌==◌, if◌then◌else◌,
}
use aegis_flow.Domain.Login.{
  LoginDecisionAction, pass, review, reject, PolicyHit, LoginDecision, LoginAttempt,
}
use aegis_flow.Risk.Types.{LoginBlacklistMatches, LoginPolicyConfig, LoginFeatureSnapshot}
pub mod Verdict

abbrev pub review_score : ℕ
review_score = 30

abbrev pub reject_score : ℕ
reject_score = 100

-- `LoginFeatureStore::kDistinctMaxMembers`
abbrev pub distinct_max_members : ℕ
distinct_max_members = 5000

abbrev pub append_hit : List PolicyHit → Bytes → LoginDecisionAction → ℕ → List PolicyHit
append_hit hits reason action score =
    hits ++ (record { reason_code = reason; action = action; risk_score = score } ∷ [])

unfoldable pub evaluate_blacklist : LoginBlacklistMatches → List PolicyHit → List PolicyHit
evaluate_blacklist blacklist hits =
    let h1 =
      if blacklist.user_hit
      then append_hit hits (codes "blacklisted_user") reject reject_score
      else hits in
    let h2 =
      if blacklist.ip_hit then append_hit h1 (codes "blacklisted_ip") reject reject_score else h1 in
    if blacklist.device_hit
    then append_hit h2 (codes "blacklisted_device") reject reject_score
    else h2

unfoldable pub evaluate_credential_stuffing :
    LoginFeatureSnapshot → LoginPolicyConfig → List PolicyHit → List PolicyHit
evaluate_credential_stuffing features config hits =
    if leb config.ip_distinct_reject_threshold features.ip_distinct_failed_user_10m
      && leb config.ip_failure_reject_threshold features.ip_login_failures_10m
    then append_hit hits (codes "credential_stuffing_attack") reject reject_score
    else hits

unfoldable pub evaluate_user_failures :
    LoginFeatureSnapshot → LoginPolicyConfig → List PolicyHit → List PolicyHit
evaluate_user_failures features config hits =
    if leb config.user_failure_review_threshold features.user_login_fail_5m
    then append_hit hits (codes "too_many_failed_login") review review_score
    else hits

unfoldable pub evaluate_ip_spray :
    LoginFeatureSnapshot → LoginPolicyConfig → List PolicyHit → List PolicyHit
evaluate_ip_spray features config hits =
    if leb config.ip_spray_review_threshold features.ip_distinct_failed_user_10m
    then append_hit hits (codes "ip_many_users_failed_login") review review_score
    else hits

unfoldable pub evaluate_device_sharing :
    LoginFeatureSnapshot → LoginPolicyConfig → List PolicyHit → List PolicyHit
evaluate_device_sharing features config hits =
    if leb config.device_sharing_review_threshold features.device_distinct_account_10m
    then append_hit hits (codes "device_many_accounts") review review_score
    else hits

abbrev pub severity : LoginDecisionAction → ℕ
severity pass = 0
severity review = 1
severity reject = 2

-- `true` where the function returns, `false` where it throws.
unfoldable pub validate_login_policy_config : LoginPolicyConfig → Bool
validate_login_policy_config config =
    if (config.user_failure_review_threshold == 0)
      || (config.ip_spray_review_threshold == 0)
      || (config.device_sharing_review_threshold == 0)
      || (config.ip_distinct_reject_threshold == 0)
      || (config.ip_failure_reject_threshold == 0)
    then false
    else if ltb config.ip_distinct_reject_threshold config.ip_spray_review_threshold
    then false
    else if ltb distinct_max_members config.ip_spray_review_threshold
        || ltb distinct_max_members config.device_sharing_review_threshold
        || ltb distinct_max_members config.ip_distinct_reject_threshold
    then false
    else true

-- The constructor of the chain keeps the configuration, none where it throws.
abbrev pub new_chain : LoginPolicyConfig → Option LoginPolicyConfig
new_chain config = if validate_login_policy_config config then some config else none

-- One turn of the loop over the hits.
abbrev pub raise : LoginDecision → PolicyHit → LoginDecision
raise d hit = record d {
  action = if ltb (severity d.action) (severity hit.action) then hit.action else d.action;
  risk_score = max d.risk_score hit.risk_score;
}

abbrev pub raise_all : LoginDecision → List PolicyHit → LoginDecision
raise_all d [] = d
raise_all d (hit ∷ hits) = raise_all (raise d hit) hits

unfoldable pub policy_hits :
    LoginPolicyConfig → LoginFeatureSnapshot → LoginBlacklistMatches → List PolicyHit
unfolding evaluate_blacklist evaluate_credential_stuffing evaluate_user_failures evaluate_ip_spray
    evaluate_device_sharing
policy_hits config features blacklist =
    let h1 = evaluate_blacklist blacklist [] in
    let h2 = evaluate_credential_stuffing features config h1 in
    let h3 = evaluate_user_failures features config h2 in
    let h4 = evaluate_ip_spray features config h3 in evaluate_device_sharing features config h4

unfoldable pub evaluate :
    LoginPolicyConfig → LoginAttempt → LoginFeatureSnapshot → LoginBlacklistMatches → LoginDecision
unfolding policy_hits
evaluate config attempt features blacklist =
    let hits = policy_hits config features blacklist in
    raise_all
      (record {
        attempt_id = attempt.attempt_id;
        user_id = attempt.user_id;
        action = pass;
        risk_score = 0;
        policy_hits = hits;
        cost_us = 0;
      })
      hits
