-- ===== src/App/Maintenance/Pending.antt =====
-- The pending records of blacklist_maintenance.cpp (src/app): `flushOnePendingBatch` writes them to
-- MySQL and deletes them from the stream.
use aegis_flow.Prelude.{
  Bool, true, false, not, ◌||◌, Option, none, some, List, [], ◌∷◌, Bytes, if◌then◌else◌,
}
use aegis_flow.Risk.Mutation.{BlacklistMutation}
use aegis_flow.App.Maintenance.{StoreStatus, is_ok}

pub record PendingBlacklistEntry : Type 0 where
  pub stream_id : Bytes
  pub mutation : Option BlacklistMutation

pub record PendingReadResult : Type 0 where
  pub status : StoreStatus
  pub entries : List PendingBlacklistEntry

-- What a flush meets: the answers of `shouldStop` in their order, and those of the backend.
pub record PendingAnswers : Type 0 where
  pub stop_at_start : Bool
  pub pending : PendingReadResult
  pub invalid_deleted : StoreStatus
  pub stop_before_commit : Bool
  pub committed : Bool
  pub stop_after_commit : Bool

-- A call of the backend that changes what it stores; `applies` with what it answered.
pub data Effect : Type 0 where
  deletes : List Bytes → Effect
  applies : List BlacklistMutation → Bool → Effect

abbrev pub add_invalid : Option BlacklistMutation → Bytes → List Bytes → List Bytes
add_invalid none stream_id ids = stream_id ∷ ids
add_invalid (some mutation) stream_id ids = ids

abbrev pub add_valid : Option BlacklistMutation → Bytes → List Bytes → List Bytes
add_valid none stream_id ids = ids
add_valid (some mutation) stream_id ids = stream_id ∷ ids

abbrev pub add_mutation : Option BlacklistMutation → List BlacklistMutation → List BlacklistMutation
add_mutation none mutations = mutations
add_mutation (some mutation) mutations = mutation ∷ mutations

-- The three lists of the loop over the records.
abbrev pub invalid_ids : List PendingBlacklistEntry → List Bytes
invalid_ids [] = []
invalid_ids (e ∷ es) = add_invalid e.mutation e.stream_id (invalid_ids es)

abbrev pub valid_ids : List PendingBlacklistEntry → List Bytes
valid_ids [] = []
valid_ids (e ∷ es) = add_valid e.mutation e.stream_id (valid_ids es)

abbrev pub mutations_of : List PendingBlacklistEntry → List BlacklistMutation
mutations_of [] = []
mutations_of (e ∷ es) = add_mutation e.mutation (mutations_of es)

abbrev pub no_mutation : List BlacklistMutation → Bool
no_mutation [] = true
no_mutation (m ∷ ms) = false

-- From the commit on.
abbrev pub commit_valid : PendingAnswers → List PendingBlacklistEntry → List Effect
commit_valid a entries =
    if no_mutation (mutations_of entries) || a.stop_before_commit
    then []
    else applies (mutations_of entries) a.committed
      ∷ (if not a.committed || a.stop_after_commit then [] else deletes (valid_ids entries) ∷ [])

abbrev pub delete_invalid : PendingAnswers → List PendingBlacklistEntry → List Bytes → List Effect
delete_invalid a entries [] = commit_valid a entries
delete_invalid a entries (id ∷ ids) =
    deletes (id ∷ ids) ∷ (if not (is_ok a.invalid_deleted) then [] else commit_valid a entries)

abbrev pub flush_entries : PendingAnswers → List PendingBlacklistEntry → List Effect
flush_entries a [] = []
flush_entries a (e ∷ es) = delete_invalid a (e ∷ es) (invalid_ids (e ∷ es))

unfoldable pub flush_one_pending_batch : PendingAnswers → List Effect
flush_one_pending_batch a =
    if a.stop_at_start
    then []
    else if not (is_ok a.pending.status)
    then []
    else flush_entries a a.pending.entries
