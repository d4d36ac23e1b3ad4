-- ===== src/App/RiskService/Candidates.antt =====
-- When an evaluation of risk_service.cpp (src/app) proposes an address for the blacklist.
use aegis_flow.Prelude.{
  ℕ, ◌+◌, ◌-◌, ◌*◌, ◌≡◌, refl, ap, ◌∙◌, inl, inr, Bool, true, false, not, ◌&&◌, ◌||◌, Option, List,
  [], ◌∷◌, ◌++◌, Bytes, codes, ◌==ᵇ◌, arith, add_size, ltb, leb, if◌then◌else◌, Bool-cases, none,
  some,
}
use aegis_flow.Domain.Login.{
  LoginDecisionAction, review, reject, PolicyHit, LoginDecision, LoginAttempt,
}
use aegis_flow.Domain.IpAddress.{Family, IpAddress, parse}
use aegis_flow.Risk.Types.{ip, LoginBlacklistMatches, LoginPolicyConfig, LoginFeatureSnapshot}
use aegis_flow.Risk.Mutation.{
  BlacklistMutation, BlacklistMutationOperation, max_expire_at_ms, valid_text, normalize_id,
  upsert_normalized, upsert_mutation,
}
use aegis_flow.Risk.Policy.{
  reject_score, policy_hits, append_hit, raise, raise_all, evaluate, evaluate_blacklist,
  evaluate_credential_stuffing, evaluate_user_failures, evaluate_ip_spray, evaluate_device_sharing,
}
use aegis_flow.Risk.Policy.Verdict.{
  is_blacklisted, is_stuffing, is_suspicious, verdict, evaluate-verdict,
}
use aegis_flow.Risk.Generator.{
  temporary_ip_ttl_ms, credential_stuffing_reason, is_reject, any_stuffing_reject, generate,
  to_list,
}

any-append :
    (xs ys : List PolicyHit)
    → any_stuffing_reject (xs ++ ys) ≡ any_stuffing_reject xs || any_stuffing_reject ys
unfolding any_stuffing_reject
any-append [] ys = refl
any-append (x ∷ xs) ys = ground (arith, any-append xs ys)

or-false : (b : Bool) → b || false ≡ b
or-false true = refl
or-false false = refl

-- A rule whose hit is no credential stuffing does not count.
any-other :
    (fired : Bool) (hits : List PolicyHit) (why : Bytes) (a : LoginDecisionAction) (score : ℕ)
    → is_reject a && (why ==ᵇ credential_stuffing_reason) ≡ false
    → any_stuffing_reject (if fired then append_hit hits why a score else hits)
      ≡ any_stuffing_reject hits
unfolding any_stuffing_reject
any-other true hits why a score h = any-append hits _ ∙ rw h (or-false (any_stuffing_reject hits))
any-other false hits why a score h = refl

module _ (c : LoginPolicyConfig) (f : LoginFeatureSnapshot) (b : LoginBlacklistMatches) where
  any-blacklist : any_stuffing_reject (evaluate_blacklist b []) ≡ false
  unfolding evaluate_blacklist any_stuffing_reject ◌==ᵇ◌
  any-blacklist =
      any-other b.device_hit _ _ reject _ refl
      ∙ any-other b.ip_hit _ _ reject _ refl
      ∙ any-other b.user_hit [] _ reject _ refl

  any-stuffing :
      any_stuffing_reject (evaluate_credential_stuffing f c (evaluate_blacklist b []))
      ≡ is_stuffing c f
  unfolding evaluate_credential_stuffing any_stuffing_reject ◌==ᵇ◌
  any-stuffing = elim (Bool-cases (is_stuffing c f)) [
    | inl e ↦ rw e (
        any-append (evaluate_blacklist b []) (
          record {
            reason_code = codes "credential_stuffing_attack";
            action = reject;
            risk_score = reject_score;
          }
          ∷ [])
        ∙ rw any-blacklist)
    | inr e ↦ rw e any-blacklist
  ]

  any-policy_hits : any_stuffing_reject (policy_hits c f b) ≡ is_stuffing c f
  unfolding policy_hits evaluate_user_failures evaluate_ip_spray evaluate_device_sharing
      any_stuffing_reject ◌==ᵇ◌
  any-policy_hits =
      any-other (leb c.device_sharing_review_threshold f.device_distinct_account_10m) _ _ review _
        refl
      ∙ any-other (leb c.ip_spray_review_threshold f.ip_distinct_failed_user_10m) _ _ review _ refl
      ∙ any-other (leb c.user_failure_review_threshold f.user_login_fail_5m) _ _ review _ refl
      ∙ any-stuffing

raise_all-hits :
    (d : LoginDecision) (hits : List PolicyHit) → (raise_all d hits).policy_hits ≡ d.policy_hits
raise_all-hits d [] = refl
raise_all-hits d (hit ∷ hits) = raise_all-hits (raise d hit) hits

is_reject-verdict :
    (c : LoginPolicyConfig) (f : LoginFeatureSnapshot) (b : LoginBlacklistMatches)
    → is_reject (verdict c f b) ≡ is_blacklisted b || is_stuffing c f
is_reject-verdict c f b = elim (Bool-cases (is_blacklisted b || is_stuffing c f)) [
  | inl e ↦ rw e
  | inr e ↦ elim (Bool-cases (is_suspicious c f)) [ inl s ↦ rw (e, s) | inr s ↦ rw (e, s) ]
]

evaluate-reject :
    (c : LoginPolicyConfig) (f : LoginFeatureSnapshot) (b : LoginBlacklistMatches)
    (attempt : LoginAttempt)
    → is_reject (evaluate c attempt f b).action ≡ is_blacklisted b || is_stuffing c f
evaluate-reject c f b attempt =
    ap is_reject (evaluate-verdict c f b attempt).0 ∙ is_reject-verdict c f b

evaluate-any :
    (c : LoginPolicyConfig) (f : LoginFeatureSnapshot) (b : LoginBlacklistMatches)
    (attempt : LoginAttempt)
    → any_stuffing_reject (evaluate c attempt f b).policy_hits ≡ is_stuffing c f
unfolding evaluate
evaluate-any c f b attempt =
    ap any_stuffing_reject (raise_all-hits _ (policy_hits c f b)) ∙ any-policy_hits c f b

-- The tests of `generate` in terms of what the attempt is.
chosen :
    (u i d s : Bool) (now_ms : ℕ) (g : ℕ → List BlacklistMutation)
    → (if not ((u || i || d) || s) || u || i || d
        then []
        else if not s || ltb (max_expire_at_ms - temporary_ip_ttl_ms) now_ms
        then []
        else g (add_size now_ms temporary_ip_ttl_ms))
      ≡ (if s && not (u || i || d) && leb (now_ms + temporary_ip_ttl_ms) max_expire_at_ms
          then g (now_ms + temporary_ip_ttl_ms)
          else [])
chosen true i d true now_ms g = refl
chosen true i d false now_ms g = refl
chosen false true d true now_ms g = refl
chosen false true d false now_ms g = refl
chosen false false true true now_ms g = refl
chosen false false true false now_ms g = refl
chosen false false false false now_ms g = refl
chosen false false false true now_ms g =
    elim (Bool-cases (ltb (max_expire_at_ms - temporary_ip_ttl_ms) now_ms)) [
      | inl late ↦
          let out : leb (now_ms + temporary_ip_ttl_ms) max_expire_at_ms ≡ false = ground arith in
          rw (late, out)
      | inr early ↦
          let within : leb (now_ms + temporary_ip_ttl_ms) max_expire_at_ms ≡ true = ground arith in
          let same : add_size now_ms temporary_ip_ttl_ms ≡ now_ms + temporary_ip_ttl_ms =
            ground arith in
          rw (early, within) (ap g same)
    ]

if_within :
    {A : Type 0} (s b within : Bool) (xs ys : List A)
    → (within ≡ true → xs ≡ ys)
    → (if s && not b && within then xs else []) ≡ (if s && not b && within then ys else [])
if_within false b within xs ys h = refl
if_within true true within xs ys h = refl
if_within true false true xs ys h = h refl
if_within true false false xs ys h = refl

module _ (inet_pton : Family → Bytes → Option Bytes)
    (inet_ntop : Family → Bytes → Option Bytes) where
  -- An address is put on the list in its canonical form; what is no address is not.
  abbrev pub proposals : Option IpAddress → ℕ → List BlacklistMutation
  proposals none expire_at_ms = []
  proposals (some address) expire_at_ms =
      record {
        operation = BlacklistMutationOperation.upsert;
        entity_type = some ip;
        id = address.canonical_text;
        reason = codes "credential_stuffing_attack";
        expire_at_ms = expire_at_ms;
      }
      ∷ []

  abbrev canonical : Option IpAddress → Option Bytes
  canonical none = none
  canonical (some address) = some address.canonical_text

  proposed_by :
      (o : Option IpAddress) (at : ℕ)
      → leb at max_expire_at_ms ≡ true
      → to_list (upsert_normalized ip credential_stuffing_reason at (canonical o)) ≡ proposals o at
  unfolding valid_text
  proposed_by none at h = refl
  proposed_by (some address) at h =
      let within : ltb max_expire_at_ms at ≡ false = ground arith in rw within refl

  upsert-proposals :
      (address : Bytes) (at : ℕ)
      → leb at max_expire_at_ms ≡ true
      → to_list (upsert_mutation inet_pton inet_ntop ip address credential_stuffing_reason at)
        ≡ proposals (parse inet_pton inet_ntop address) at
  unfolding upsert_mutation normalize_id
  upsert-proposals address at h = proposed_by (parse inet_pton inet_ntop address) at h

  -- From the decision of the policy chain an address is proposed for the blacklist exactly if the
  -- attempt stuffs credentials, no entry of the blacklist names it, half an hour from now is a time
  -- that an entry can carry, and its address is one; it is then put on the list in its canonical
  -- form, for credential stuffing, until half an hour from now.
  pub generate-stuffing :
      (c : LoginPolicyConfig) (f : LoginFeatureSnapshot) (b : LoginBlacklistMatches)
      (attempt : LoginAttempt) (now_ms : ℕ)
      → generate inet_pton inet_ntop attempt (evaluate c attempt f b) b now_ms ≡ (
          if is_stuffing c f
            && not (is_blacklisted b)
            && leb (now_ms + 30 * 60 * 1000) max_expire_at_ms
          then proposals (parse inet_pton inet_ntop attempt.ip) (now_ms + 30 * 60 * 1000)
          else [])
  unfolding generate
  generate-stuffing c f b attempt now_ms =
      let at = now_ms + 30 * 60 * 1000 in
      rw (evaluate-reject c f b attempt, evaluate-any c f b attempt)
        (chosen b.user_hit b.ip_hit b.device_hit (is_stuffing c f) now_ms (λ at.
            to_list
              (upsert_mutation inet_pton inet_ntop ip attempt.ip credential_stuffing_reason at))
          ∙ if_within (is_stuffing c f) (is_blacklisted b) (leb at max_expire_at_ms) _ _
              (upsert-proposals attempt.ip at))
