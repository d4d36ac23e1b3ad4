-- ===== src/App/Tests.antt =====
-- The application layer (src/app) at concrete inputs.
use aegis_flow.Prelude.{
  ◌*◌, ℕ, ◌+◌, ◌≡◌, refl, true, false, not, ◌&&◌, Option, none, some, List, [], ◌∷◌, Bytes, codes,
  ◌==ᵇ◌, arith, leb, if◌then◌else◌, pos, drop, take, min,
}
use aegis_flow.Domain.Login.{LoginResult, LoginAttempt}
use aegis_flow.Domain.IpAddress.{Family, inet, inet6, parse}
use aegis_flow.Risk.Types.{
  ip, BlacklistEntry, LoginBlacklistMatches, LoginPolicyConfig, LoginFeatureSnapshot,
}
use aegis_flow.Risk.Mutation.{BlacklistMutationOperation, BlacklistMutation, max_expire_at_ms}
use aegis_flow.Risk.Policy
use aegis_flow.Risk.Policy.Verdict.{is_blacklisted, is_stuffing}
use aegis_flow.Risk.Generator.{generate}
use aegis_flow.App.CandidateQueue.{BlacklistCandidateQueue, reserve_batch}
use aegis_flow.App.CandidateQueue.Capacity.{
  Call, submits, reserves, reports, IsValid, Keeps, run, run-Keeps,
}
use aegis_flow.App.CandidateQueue.Batches.{
  expiry_in, latest, reserve_batch-latest, reserve_batch-again,
}
use aegis_flow.App.LoginRequestValidator.{LoginRequest}
use aegis_flow.Risk.Blacklist.{prepare_candidate}
use aegis_flow.App.Maintenance.{
  StoreStatus, MaintenanceCore, RefreshAnswers, refresh_snapshot_and_expiry,
}
use aegis_flow.App.Maintenance.Pending.{PendingAnswers, flush_one_pending_batch}
use aegis_flow.App.Maintenance.Flushes.{SafeFrom, flush-SafeFrom}
use aegis_flow.App.Maintenance.Refresh.{Refreshed, refresh-Refreshed}
use aegis_flow.App.RiskService.Candidates.{proposals, generate-stuffing}
use aegis_flow.Domain.IpAddress.{parse}

abbrev candidate : ℕ → BlacklistMutation
candidate at = record {
  operation = BlacklistMutationOperation.upsert;
  entity_type = some ip;
  id = codes "192.0.2.1";
  reason = codes "x";
  expire_at_ms = at;
}

abbrev queue : BlacklistCandidateQueue
queue = record {
  capacity = 2;
  queued = [];
  reserved_batch = [];
  dropped_count = 0;
  reported_dropped_count = 0;
  dropped_on_shutdown_count = 0;
  is_closed = false;
}

queue-IsValid : IsValid queue
queue-IsValid = record {
  bounded = omega arith;
  reported = omega arith;
  dropped = omega arith;
  shutdown = omega arith;
}

-- The third candidate is one too many.
abbrev calls : List Call
calls =
    submits (candidate 5)
    ∷ submits (candidate 9)
    ∷ submits (candidate 7)
    ∷ reserves 2
    ∷ reports
    ∷ []

run-Keeps_example : Keeps queue (run queue calls)
run-Keeps_example = run-Keeps queue calls queue-IsValid

abbrev filled : BlacklistCandidateQueue
filled = record queue { queued = candidate 5 ∷ candidate 9 ∷ [] }

reserve_batch-latest_example :
    ((reserve_batch filled 2).0.reserved_batch ≡ (reserve_batch filled 2).1)
    × ((reserve_batch filled 2).0.queued ≡ drop (min 2 2) filled.queued)
    × (expiry_in (reserve_batch filled 2).1 (some ip) (codes "192.0.2.1")
        ≡ latest none (take (min 2 2) filled.queued) (some ip) (codes "192.0.2.1"))
reserve_batch-latest_example =
    reserve_batch-latest filled 2 (some ip) (codes "192.0.2.1") refl (omega arith)

abbrev reserved : BlacklistCandidateQueue
reserved = record queue { reserved_batch = candidate 5 ∷ [] }

abbrev more : List Call
more = submits (candidate 9) ∷ reports ∷ []

reserve_batch-again_example :
    reserve_batch (run reserved more).0 8 ≡ ((run reserved more).0, reserved.reserved_batch)
reserve_batch-again_example = reserve_batch-again reserved more 8 refl refl

-- The C library, where "192.0.2.1" is the only address.
abbrev to_bytes : Family → Bytes → Option Bytes
to_bytes inet text = if text ==ᵇ codes "192.0.2.1" then some (192 ∷ 0 ∷ 2 ∷ 1 ∷ []) else none
to_bytes inet6 text = none

abbrev to_text : Family → Bytes → Option Bytes
to_text inet bytes = some (codes "192.0.2.1")
to_text inet6 bytes = none

abbrev request : LoginRequest
request = record {
  attempt_id = some 1;
  timestamp_ms = some 1000;
  user_id = some (codes "u");
  ip = some (codes "192.0.2.1");
  device_id = some (codes "d");
  result = some (pos 2);
}

abbrev attempt : LoginAttempt
attempt = record {
  attempt_id = 1;
  timestamp_ms = 1000;
  user_id = codes "u";
  ip = codes "192.0.2.1";
  device_id = codes "d";
  result = LoginResult.fail;
}

abbrev config : LoginPolicyConfig
config = record {
  user_failure_review_threshold = 5;
  ip_spray_review_threshold = 20;
  device_sharing_review_threshold = 10;
  ip_distinct_reject_threshold = 50;
  ip_failure_reject_threshold = 500;
}

abbrev stuffing : LoginFeatureSnapshot
stuffing = record {
  user_login_fail_5m = 1;
  ip_distinct_failed_user_10m = 60;
  device_distinct_account_10m = 1;
  ip_login_failures_10m = 600;
}

abbrev clean : LoginBlacklistMatches
clean = record { user_hit = false; ip_hit = false; device_hit = false }

generate-stuffing_example :
    generate to_bytes to_text attempt (Policy.evaluate config attempt stuffing clean) clean 1000 ≡ (
      if is_stuffing config stuffing
        && not (is_blacklisted clean)
        && leb (1000 + 30 * 60 * 1000) max_expire_at_ms
      then proposals to_bytes to_text (parse to_bytes to_text attempt.ip) (1000 + 30 * 60 * 1000)
      else [])
generate-stuffing_example = generate-stuffing to_bytes to_text config stuffing clean attempt 1000

-- A snapshot of two entries, one of them expired, repeated in the scan.
abbrev entry : ℕ → BlacklistEntry
entry at = record { type = ip; id = codes "192.0.2.1"; expire_at_ms = at }

abbrev answers : RefreshAnswers
answers = record {
  stop_at_start = false;
  revision = record { status = StoreStatus.ok; revision = some 8 };
  snapshot = record { status = StoreStatus.ok; revision = 8; entries = entry 900 ∷ entry 900 ∷ [] };
  stop_after_load = false;
  removed = record { status = StoreStatus.io_error; revision = none };
  stop_after_removal = false;
  stop_before_publication = false;
}

abbrev core : MaintenanceCore
core = record {
  expire_cleanup_interval = 60000;
  manager = record { snapshot = none };
  state = record { last_published_revision = 7; publication_dirty = false; completed_rounds = 1 };
  next_expire_cleanup = 100;
}

refresh-Refreshed_example :
    Refreshed core answers 500 (refresh_snapshot_and_expiry core answers 500 40)
refresh-Refreshed_example = refresh-Refreshed core answers 500 40

-- The new revision is published.
published_revision :
    (refresh_snapshot_and_expiry core answers 500 40).state.last_published_revision ≡ 8
unfolding refresh_snapshot_and_expiry ◌==ᵇ◌ prepare_candidate
published_revision = refl

-- A record that cannot be read, and one that can.
abbrev pending : PendingAnswers
pending = record {
  stop_at_start = false;
  pending = record {
    status = StoreStatus.ok;
    entries =
        record { stream_id = codes "1-0"; mutation = none }
        ∷ record { stream_id = codes "2-0"; mutation = some (candidate 900) }
        ∷ [];
  };
  invalid_deleted = StoreStatus.ok;
  stop_before_commit = false;
  committed = true;
  stop_after_commit = false;
}

flush-SafeFrom_example : SafeFrom pending.pending.entries [] (flush_one_pending_batch pending)
flush-SafeFrom_example = flush-SafeFrom pending
