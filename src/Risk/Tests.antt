-- ===== src/Risk/Tests.antt =====
-- The risk rules (src/risk) at concrete inputs.
use aegis_flow.Prelude.{◌≡◌, refl, true, false, none, List, [], ◌∷◌, Bytes, codes, arith}
use aegis_flow.Domain.Login.{review, LoginResult, LoginAttempt}
use aegis_flow.Risk.Types.{
  user, ip, device, BlacklistEntry, LoginBlacklistMatches, LoginPolicyConfig, LoginFeatureSnapshot,
}
use aegis_flow.Risk.Policy.{evaluate}
use aegis_flow.Risk.Policy.Verdict.{verdict, score_of, evaluate-verdict}
use aegis_flow.Risk.Blacklist.{BlacklistManager, publish, manager_matches}
use aegis_flow.Risk.Blacklist.Lookup.{is_listed, publish-matches, publish-refused}

-- The defaults of login_policy.hpp.
abbrev config : LoginPolicyConfig
config = record {
  user_failure_review_threshold = 5;
  ip_spray_review_threshold = 20;
  device_sharing_review_threshold = 10;
  ip_distinct_reject_threshold = 50;
  ip_failure_reject_threshold = 500;
}

abbrev attempt : LoginAttempt
attempt = record {
  attempt_id = 1;
  timestamp_ms = 1000;
  user_id = codes "u";
  ip = codes "192.0.2.1";
  device_id = codes "d";
  result = LoginResult.fail;
}

abbrev spraying : LoginFeatureSnapshot
spraying = record {
  user_login_fail_5m = 1;
  ip_distinct_failed_user_10m = 60;
  device_distinct_account_10m = 1;
  ip_login_failures_10m = 499;
}

abbrev clean : LoginBlacklistMatches
clean = record { user_hit = false; ip_hit = false; device_hit = false }

spraying_is_reviewed : verdict config spraying clean ≡ review
spraying_is_reviewed = refl

evaluate-verdict_example :
    ((evaluate config attempt spraying clean).action ≡ verdict config spraying clean)
    × ((evaluate config attempt spraying clean).risk_score
        ≡ score_of (verdict config spraying clean))
evaluate-verdict_example = evaluate-verdict config spraying clean attempt

abbrev manager : BlacklistManager
manager = record { snapshot = none }

abbrev u : Bytes
u = codes "u"

-- The user is listed twice, once until 500 and once until 900.
abbrev entries : List BlacklistEntry
entries =
    record { type = user; id = codes "u"; expire_at_ms = 900 }
    ∷ record { type = user; id = codes "u"; expire_at_ms = 500 }
    ∷ record { type = device; id = codes "d"; expire_at_ms = 0 }
    ∷ []

publish-matches_example :
    ((publish manager entries 100).1 ≡ true)
    × (manager_matches (publish manager entries 100).0 u (codes "a") (codes "d") 700 ≡ record {
      user_hit = is_listed entries user u 700;
      ip_hit = is_listed entries ip (codes "a") 700;
      device_hit = is_listed entries device (codes "d") 700;
    })
publish-matches_example =
    publish-matches manager entries 100 u (codes "a") (codes "d") 700 (omega arith) refl

abbrev broken : List BlacklistEntry
broken = record { type = ip; id = []; expire_at_ms = 0 } ∷ entries

publish-refused_example : publish manager broken 100 ≡ (manager, false)
publish-refused_example = publish-refused manager broken 100 refl
