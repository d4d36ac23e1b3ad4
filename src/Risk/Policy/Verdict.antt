-- ===== src/Risk/Policy/Verdict.antt =====
-- What the chain of login_policy_chain.cpp (src/risk) decides, said without the hits.
use aegis_flow.Prelude.{
  ℕ, ◌≡◌, refl, ap, ◌∙◌, max, Bool, true, false, ◌&&◌, ◌||◌, List, [], ◌∷◌, ◌++◌, ltb, leb,
  if◌then◌else◌,
}
use aegis_flow.Domain.Login.{
  LoginDecisionAction, pass, review, reject, PolicyHit, LoginDecision, LoginAttempt,
}
use aegis_flow.Risk.Types.{LoginBlacklistMatches, LoginPolicyConfig, LoginFeatureSnapshot}
use aegis_flow.Risk.Policy.{
  review_score, reject_score, append_hit, severity, raise, raise_all, policy_hits, evaluate,
  evaluate_blacklist, evaluate_credential_stuffing, evaluate_user_failures, evaluate_ip_spray,
  evaluate_device_sharing,
}

abbrev pub is_blacklisted : LoginBlacklistMatches → Bool
is_blacklisted b = b.user_hit || b.ip_hit || b.device_hit

abbrev pub is_stuffing : LoginPolicyConfig → LoginFeatureSnapshot → Bool
is_stuffing c f =
    leb c.ip_distinct_reject_threshold f.ip_distinct_failed_user_10m
    && leb c.ip_failure_reject_threshold f.ip_login_failures_10m

abbrev pub is_suspicious : LoginPolicyConfig → LoginFeatureSnapshot → Bool
is_suspicious c f =
    leb c.user_failure_review_threshold f.user_login_fail_5m
    || leb c.ip_spray_review_threshold f.ip_distinct_failed_user_10m
    || leb c.device_sharing_review_threshold f.device_distinct_account_10m

-- Reject what is blacklisted or stuffs credentials, else review what is suspicious, else pass.
abbrev pub verdict :
    LoginPolicyConfig → LoginFeatureSnapshot → LoginBlacklistMatches → LoginDecisionAction
verdict c f b =
    if is_blacklisted b || is_stuffing c f
    then reject
    else if is_suspicious c f
    then review
    else pass

abbrev pub score_of : LoginDecisionAction → ℕ
score_of pass = 0
score_of review = review_score
score_of reject = reject_score

-- The more severe of two actions.
abbrev worse : LoginDecisionAction → LoginDecisionAction → LoginDecisionAction
worse pass b = b
worse review reject = reject
worse review _ = review
worse reject _ = reject

abbrev worst : LoginDecisionAction → List PolicyHit → LoginDecisionAction
worst a [] = a
worst a (hit ∷ hits) = worst (worse a hit.action) hits

-- Every hit has the score of its action.
abbrev IsScored : List PolicyHit → Type 0
IsScored [] = Unit
IsScored (hit ∷ hits) = (hit.risk_score ≡ score_of hit.action) × IsScored hits

raise-worse :
    (a b : LoginDecisionAction) → (if ltb (severity a) (severity b) then b else a) ≡ worse a b
raise-worse pass pass = refl
raise-worse pass review = refl
raise-worse pass reject = refl
raise-worse review pass = refl
raise-worse review review = refl
raise-worse review reject = refl
raise-worse reject pass = refl
raise-worse reject review = refl
raise-worse reject reject = refl

score-worse : (a b : LoginDecisionAction) → max (score_of a) (score_of b) ≡ score_of (worse a b)
score-worse pass pass = refl
score-worse pass review = refl
score-worse pass reject = refl
score-worse review pass = refl
score-worse review review = refl
score-worse review reject = refl
score-worse reject pass = refl
score-worse reject review = refl
score-worse reject reject = refl

raise_all-worst :
    (d : LoginDecision) (hits : List PolicyHit) (a : LoginDecisionAction)
    → d.action ≡ a
    → d.risk_score ≡ score_of a
    → IsScored hits
    → ((raise_all d hits).action ≡ worst a hits)
      × ((raise_all d hits).risk_score ≡ score_of (worst a hits))
raise_all-worst d [] a e k s = (e, k)
raise_all-worst d (hit ∷ hits) a e k s =
    raise_all-worst (raise d hit) hits (worse a hit.action) (rw e (raise-worse a hit.action))
      (rw (k, s.0) (score-worse a hit.action)) s.1

worst-append :
    (a : LoginDecisionAction) (xs ys : List PolicyHit) → worst a (xs ++ ys) ≡ worst (worst a xs) ys
worst-append a [] ys = refl
worst-append a (x ∷ xs) ys = worst-append (worse a x.action) xs ys

IsScored-append : (xs ys : List PolicyHit) → IsScored xs → IsScored ys → IsScored (xs ++ ys)
IsScored-append [] ys s t = t
IsScored-append (x ∷ xs) ys s t = (s.0, IsScored-append xs ys s.1 t)

-- What a rule does to the hits: they stay scored, and the worst becomes `a` or worse if the rule fires.
record Fires (hits hits' : List PolicyHit) (fired : Bool) (a : LoginDecisionAction) : Type 0 where
  scored : IsScored hits → IsScored hits'
  action : worst pass hits' ≡ worse (worst pass hits) (if fired then a else pass)

worse-pass : (a : LoginDecisionAction) → a ≡ worse a pass
worse-pass pass = refl
worse-pass review = refl
worse-pass reject = refl

append_hit-Fires :
    (fired : Bool) (hits : List PolicyHit) (why : List ℕ) (a : LoginDecisionAction) (score : ℕ)
    → score ≡ score_of a
    → Fires hits (if fired then append_hit hits why a score else hits) fired a
append_hit-Fires true hits why a score e = record {
  scored = λ s. IsScored-append hits _ s (e, tt);
  action = worst-append pass hits _;
}
append_hit-Fires false hits why a score e = record {
  scored = λ s. s;
  action = worse-pass (worst pass hits);
}

-- The seven tests in the order of the chain.
abbrev chained : Bool → Bool → Bool → Bool → Bool → Bool → Bool → LoginDecisionAction
chained u i d s f p v =
    let rejecting : Bool → LoginDecisionAction → LoginDecisionAction =
      λ b a. worse a (if b then reject else pass) in
    let reviewing : Bool → LoginDecisionAction → LoginDecisionAction =
      λ b a. worse a (if b then review else pass) in
    reviewing v
      (reviewing p (reviewing f (rejecting s (rejecting d (rejecting i (rejecting u pass))))))

chained_lem :
    (u i d s f p v : Bool)
    → chained u i d s f p v
      ≡ (if (u || i || d) || s then reject else if f || p || v then review else pass)
chained_lem true i d s f p v = refl
chained_lem false true d s f p v = refl
chained_lem false false true s f p v = refl
chained_lem false false false true f p v = refl
chained_lem false false false false true true true = refl
chained_lem false false false false true true false = refl
chained_lem false false false false true false true = refl
chained_lem false false false false true false false = refl
chained_lem false false false false false true true = refl
chained_lem false false false false false true false = refl
chained_lem false false false false false false true = refl
chained_lem false false false false false false false = refl

Fires-then :
    {xs ys : List PolicyHit} {b : Bool} {a r : LoginDecisionAction}
    → IsScored xs × (worst pass xs ≡ r)
    → Fires xs ys b a
    → IsScored ys × (worst pass ys ≡ worse r (if b then a else pass))
Fires-then k f = (f.scored k.0, f.action ∙ rw k.1 refl)

module _ (c : LoginPolicyConfig) (f : LoginFeatureSnapshot) (b : LoginBlacklistMatches) where
  policy_hits-worst :
      IsScored (policy_hits c f b) × (worst pass (policy_hits c f b) ≡ verdict c f b)
  unfolding policy_hits evaluate_blacklist evaluate_credential_stuffing evaluate_user_failures
      evaluate_ip_spray evaluate_device_sharing
  policy_hits-worst =
      let start : IsScored [] × (worst pass [] ≡ pass) = (tt, refl) in
      let k1 = Fires-then start (append_hit-Fires b.user_hit [] _ reject _ refl) in
      let k2 = Fires-then k1 (append_hit-Fires b.ip_hit _ _ reject _ refl) in
      let k3 = Fires-then k2 (append_hit-Fires b.device_hit _ _ reject _ refl) in
      let k4 = Fires-then k3 (append_hit-Fires (is_stuffing c f) _ _ reject _ refl) in
      let k5 = Fires-then k4 (
        append_hit-Fires (leb c.user_failure_review_threshold f.user_login_fail_5m) _ _ review _
          refl) in
      let k6 = Fires-then k5 (
        append_hit-Fires (leb c.ip_spray_review_threshold f.ip_distinct_failed_user_10m) _ _ review
          _ refl) in
      let k7 = Fires-then k6 (
        append_hit-Fires (leb c.device_sharing_review_threshold f.device_distinct_account_10m) _ _
          review _ refl) in
      (k7.0, k7.1 ∙ chained_lem _ _ _ _ _ _ _)

  -- The decision rejects exactly an attempt that is blacklisted or stuffs credentials, reviews
  -- exactly what is left of the suspicious ones, and passes the rest; its score is that of the action.
  pub evaluate-verdict :
      (attempt : LoginAttempt)
      → let d = evaluate c attempt f b in
        (d.action ≡ verdict c f b) × (d.risk_score ≡ score_of (verdict c f b))
  unfolding evaluate
  evaluate-verdict attempt =
      let k = policy_hits-worst in
      let r = raise_all-worst _ (policy_hits c f b) pass refl refl k.0 in
      (r.0 ∙ k.1, r.1 ∙ ap score_of k.1)
