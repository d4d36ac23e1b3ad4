-- ===== src/App/Maintenance.antt =====
-- The refresh of the blacklist in blacklist_maintenance.cpp (src/app), with the store's results of
-- blacklist_redis_store.hpp (include/aegisflow/storage).
use aegis_flow.Prelude.{
  ℕ, ◌+◌, Bool, true, false, not, ◌&&◌, ◌||◌, Option, none, some, List, [], ◌∷◌, Bytes, ◌==ᵇ◌, ltb,
  leb, ◌==◌, ◌>>=◌, if◌then◌else◌,
}
use aegis_flow.Risk.Types.{EntityType, user, ip, device, BlacklistEntry}
use aegis_flow.Risk.Blacklist.{BlacklistManager, is_expired, prepare_candidate, publish_candidate}
pub mod Folding
pub mod Refresh
pub mod Pending
pub mod Flushes
pub mod Candidates

pub data StoreStatus : Type 0 where
  ok watch_conflict not_ready invalid_remote_state deadline_exceeded io_error commit_unknown :
      StoreStatus
  transaction_error protocol_error : StoreStatus

pub record StoreResult : Type 0 where
  pub status : StoreStatus
  pub revision : Option ℕ

pub record SnapshotReadResult : Type 0 where
  pub status : StoreStatus
  pub revision : ℕ
  pub entries : List BlacklistEntry

pub record BlacklistMaintenanceState : Type 0 where
  pub last_published_revision : ℕ
  pub publication_dirty : Bool
  pub completed_rounds : ℕ

-- The part of `BlacklistMaintenanceCore` that a refresh reads and writes.
pub record MaintenanceCore : Type 0 where
  pub expire_cleanup_interval : ℕ
  pub manager : BlacklistManager
  pub state : BlacklistMaintenanceState
  pub next_expire_cleanup : ℕ

-- What a refresh meets: the answers of `shouldStop` in their order, and those of the backend.
pub record RefreshAnswers : Type 0 where
  pub stop_at_start : Bool
  pub revision : StoreResult
  pub snapshot : SnapshotReadResult
  pub stop_after_load : Bool
  pub removed : StoreResult
  pub stop_after_removal : Bool
  pub stop_before_publication : Bool

abbrev pub is_ok : StoreStatus → Bool
is_ok ok = true
is_ok _ = false

-- The revision of a result that is in order.
abbrev pub usable : StoreResult → Option ℕ
usable r = if is_ok r.status then r.revision else none

abbrev pub same_type : EntityType → EntityType → Bool
same_type user user = true
same_type ip ip = true
same_type device device = true
same_type _ _ = false

-- `emplace` and the comparison after it: none where the field is there with another expiry. The map
-- is the list of its entries.
unfoldable pub fold_in : List BlacklistEntry → BlacklistEntry → Option (List BlacklistEntry)
fold_in [] entry = some (entry ∷ [])
fold_in (e ∷ unique) entry =
    let rest = fold_in unique entry in
    if same_type e.type entry.type && (e.id ==ᵇ entry.id)
    then if e.expire_at_ms == entry.expire_at_ms then some (e ∷ unique) else none
    else elim rest [ none ↦ none | some unique' ↦ some (e ∷ unique') ]

-- The entries without repetitions; none where the scan contradicts itself.
unfoldable pub fold_unique :
    List BlacklistEntry → List BlacklistEntry → Option (List BlacklistEntry)
unfolding fold_in
fold_unique unique [] = some unique
fold_unique unique (entry ∷ entries) =
    fold_in unique entry >>= (λ unique'. fold_unique unique' entries)

unfoldable pub active_entries : List BlacklistEntry → ℕ → List BlacklistEntry
active_entries [] now_ms = []
active_entries (e ∷ es) now_ms =
    let rest = active_entries es now_ms in if is_expired e now_ms then rest else e ∷ rest

unfoldable pub expired_entries : List BlacklistEntry → ℕ → List BlacklistEntry
expired_entries [] now_ms = []
expired_entries (e ∷ es) now_ms =
    let rest = expired_entries es now_ms in if is_expired e now_ms then e ∷ rest else rest

abbrev pub some_entry : List BlacklistEntry → Bool
some_entry [] = false
some_entry (e ∷ es) = true

-- The revision to publish, after the removal of the expired fields if it is due; none where that has
-- failed or the round is to stop.
unfoldable pub removed_revision : RefreshAnswers → Bool → List BlacklistEntry → Option ℕ
removed_revision a cleanup_due expired =
    if cleanup_due && some_entry expired
    then if a.stop_after_removal then none else usable a.removed
    else some a.snapshot.revision

-- The publication and what is noted of it.
abbrev pub note_published :
    MaintenanceCore → Bool → ℕ → ℕ → BlacklistManager × Bool → MaintenanceCore
note_published c cleanup_due revision steady_now (manager, false) = c
note_published c cleanup_due revision steady_now (manager, true) = record c {
  manager = manager;
  state = record c.state { last_published_revision = revision; publication_dirty = true };
  next_expire_cleanup =
      if cleanup_due then steady_now + c.expire_cleanup_interval else c.next_expire_cleanup;
}

abbrev pub publish_active :
    MaintenanceCore
    → RefreshAnswers
    → Bool
    → List BlacklistEntry
    → ℕ
    → ℕ
    → Option ℕ
    → MaintenanceCore
publish_active c a cleanup_due unique now_ms steady_now none = c
publish_active c a cleanup_due unique now_ms steady_now (some revision) =
    if a.stop_before_publication
    then c
    else note_published c cleanup_due revision steady_now
        (publish_candidate c.manager (prepare_candidate (active_entries unique now_ms) now_ms))

-- From the stable snapshot on.
abbrev pub after_load :
    MaintenanceCore → RefreshAnswers → Bool → ℕ → ℕ → Option (List BlacklistEntry) → MaintenanceCore
after_load c a cleanup_due now_ms steady_now none = c
after_load c a cleanup_due now_ms steady_now (some unique) =
    publish_active c a cleanup_due unique now_ms steady_now
      (removed_revision a cleanup_due (expired_entries unique now_ms))

abbrev pub after_revision : MaintenanceCore → RefreshAnswers → ℕ → ℕ → Option ℕ → MaintenanceCore
after_revision c a now_ms steady_now none = c
after_revision c a now_ms steady_now (some revision) =
    let cleanup_due = leb c.next_expire_cleanup steady_now in
    if not cleanup_due && (revision == c.state.last_published_revision)
    then c
    else if not (is_ok a.snapshot.status) || a.stop_after_load
    then c
    else after_load c a cleanup_due now_ms steady_now (fold_unique [] a.snapshot.entries)

unfoldable pub refresh_snapshot_and_expiry :
    MaintenanceCore → RefreshAnswers → ℕ → ℕ → MaintenanceCore
unfolding fold_unique active_entries expired_entries removed_revision
refresh_snapshot_and_expiry c a now_ms steady_now =
    if a.stop_at_start then c else after_revision c a now_ms steady_now (usable a.revision)

-- `stop` is what `shouldStop` says, `answer` what the backend answers.
unfoldable pub retry_published_revision : MaintenanceCore → Bool → StoreStatus → MaintenanceCore
retry_published_revision c stop answer =
    if not c.state.publication_dirty || stop
    then c
    else if is_ok answer
    then record c { state = record c.state { publication_dirty = false } }
    else c
