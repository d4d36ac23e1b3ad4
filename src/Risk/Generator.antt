-- ===== src/Risk/Generator.antt =====
-- blacklist_candidate_generator.hpp and .cpp (include/aegisflow/risk, src/risk): credential stuffing
-- puts the address on the blacklist for half an hour.
use aegis_flow.Prelude.{
  ℕ, ◌-◌, ◌*◌, Bool, true, false, not, ◌&&◌, ◌||◌, Option, none, some, List, [], ◌∷◌, Bytes, codes,
  ◌==ᵇ◌, add_size, ltb, if◌then◌else◌,
}
use aegis_flow.Domain.Login.{LoginDecisionAction, reject, PolicyHit, LoginDecision, LoginAttempt}
use aegis_flow.Domain.IpAddress.{Family}
use aegis_flow.Risk.Types.{ip, LoginBlacklistMatches}
use aegis_flow.Risk.Mutation.{BlacklistMutation, max_expire_at_ms, upsert_mutation}

abbrev pub temporary_ip_ttl_ms : ℕ
temporary_ip_ttl_ms = 30 * 60 * 1000

abbrev pub credential_stuffing_reason : Bytes
credential_stuffing_reason = codes "credential_stuffing_attack"

abbrev pub is_reject : LoginDecisionAction → Bool
is_reject reject = true
is_reject _ = false

unfoldable pub any_stuffing_reject : List PolicyHit → Bool
any_stuffing_reject [] = false
any_stuffing_reject (hit ∷ hits) =
    (is_reject hit.action && (hit.reason_code ==ᵇ credential_stuffing_reason))
    || any_stuffing_reject hits

abbrev pub to_list : Option BlacklistMutation → List BlacklistMutation
to_list none = []
to_list (some m) = m ∷ []

-- `inet_pton` and `inet_ntop` are the C library's.
module _ (inet_pton : Family → Bytes → Option Bytes)
    (inet_ntop : Family → Bytes → Option Bytes) where
  unfoldable pub generate :
      LoginAttempt → LoginDecision → LoginBlacklistMatches → ℕ → List BlacklistMutation
  unfolding any_stuffing_reject
  generate attempt decision blacklist now_ms =
      if not (is_reject decision.action)
        || blacklist.user_hit
        || blacklist.ip_hit
        || blacklist.device_hit
      then []
      else if not (any_stuffing_reject decision.policy_hits)
          || ltb (max_expire_at_ms - temporary_ip_ttl_ms) now_ms
      then []
      else to_list (
          upsert_mutation inet_pton inet_ntop ip attempt.ip credential_stuffing_reason
            (add_size now_ms temporary_ip_ttl_ms))
