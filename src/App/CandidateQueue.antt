-- ===== src/App/CandidateQueue.antt =====
-- blacklist_candidate_queue.hpp and .cpp (include/aegisflow/app, src/app): candidates wait for the
-- maintenance worker, which takes them in batches and keeps a batch until it is stored.
use aegis_flow.Prelude.{
  ℕ, zero, suc, ◌+◌, ◌-◌, ◌<◌, min, Bool, true, false, not, ◌&&◌, ◌||◌, Option, none, some, List,
  [], ◌∷◌, ◌++◌, Bytes, ◌==ᵇ◌, ltb, leb, ◌==◌, if◌then◌else◌, length, add_size, sub_size, u64_max,
}
use aegis_flow.Risk.Types.{EntityType, user, ip, device}
use aegis_flow.Risk.Mutation.{BlacklistMutationOperation, BlacklistMutation}
pub mod Capacity
pub mod Batches

pub data CandidateSubmitStatus : Type 0 where
  accepted full closed invalid : CandidateSubmitStatus

pub record BlacklistCandidateQueue : Type 0 where
  pub capacity : ℕ
  pub queued : List BlacklistMutation
  pub reserved_batch : List BlacklistMutation
  pub dropped_count : ℕ
  pub reported_dropped_count : ℕ
  pub dropped_on_shutdown_count : ℕ
  pub is_closed : Bool

pub record BlacklistCandidateQueueStats : Type 0 where
  pub queued : ℕ
  pub reserved : ℕ
  pub dropped : ℕ
  pub dropped_on_shutdown : ℕ
  pub closed : Bool

-- none where the constructor throws.
unfoldable pub new_queue : ℕ → Option BlacklistCandidateQueue
new_queue capacity =
    if capacity == 0
    then none
    else some (record {
      capacity = capacity;
      queued = [];
      reserved_batch = [];
      dropped_count = 0;
      reported_dropped_count = 0;
      dropped_on_shutdown_count = 0;
      is_closed = false;
    })

abbrev pub same_type : EntityType → EntityType → Bool
same_type user user = true
same_type ip ip = true
same_type device device = true
same_type _ _ = false

-- `==` on `std::optional<EntityType>`
abbrev pub same_entity : Option EntityType → Option EntityType → Bool
same_entity none none = true
same_entity (some a) (some b) = same_type a b
same_entity none (some _) = false
same_entity (some _) none = false

abbrev has_value : Option EntityType → Bool
has_value none = false
has_value (some _) = true

abbrev is_upsert : BlacklistMutationOperation → Bool
is_upsert BlacklistMutationOperation.upsert = true
is_upsert _ = false

unfoldable pub is_candidate : BlacklistMutation → Bool
is_candidate m = is_upsert m.operation && has_value m.entity_type

unfoldable pub expires_later : ℕ → ℕ → Bool
expires_later candidate current = (candidate == 0) || (not (current == 0) && ltb current candidate)

abbrev pub same_key : BlacklistMutation → BlacklistMutation → Bool
same_key item m = same_entity item.entity_type m.entity_type && (item.id ==ᵇ m.id)

unfoldable pub merge_into_reserved :
    List BlacklistMutation → BlacklistMutation → List BlacklistMutation
unfolding expires_later
merge_into_reserved [] m = m ∷ []
merge_into_reserved (item ∷ batch) m =
    let rest = merge_into_reserved batch m in
    if same_key item m
    then (if expires_later m.expire_at_ms item.expire_at_ms then m ∷ batch else item ∷ batch)
    else item ∷ rest

unfoldable pub try_submit :
    BlacklistCandidateQueue → BlacklistMutation → BlacklistCandidateQueue × CandidateSubmitStatus
unfolding is_candidate
try_submit q candidate =
    if not (is_candidate candidate)
    then (q, CandidateSubmitStatus.invalid)
    else if q.is_closed
    then (q, CandidateSubmitStatus.closed)
    else if leb q.capacity (length q.queued + length q.reserved_batch)
    then (
      if not (q.dropped_count == u64_max)
          then record q { dropped_count = q.dropped_count + 1 }
          else q,
      CandidateSubmitStatus.full,
    )
    else (record q { queued = q.queued ++ (candidate ∷ []) }, CandidateSubmitStatus.accepted)

-- The loop of `reserveBatch`: so many candidates from the front, merged into the batch.
unfoldable pub move_to_batch :
    ℕ
    → List BlacklistMutation
    → List BlacklistMutation
    → List BlacklistMutation × List BlacklistMutation
unfolding merge_into_reserved
move_to_batch zero queued batch = (queued, batch)
move_to_batch (suc n) [] batch = ([], batch)
move_to_batch (suc n) (m ∷ queued) batch = move_to_batch n queued (merge_into_reserved batch m)

abbrev is_empty : List BlacklistMutation → Bool
is_empty [] = true
is_empty (m ∷ ms) = false

unfoldable pub reserve_batch :
    BlacklistCandidateQueue → ℕ → BlacklistCandidateQueue × List BlacklistMutation
unfolding move_to_batch
reserve_batch q max_batch_size =
    if not (is_empty q.reserved_batch)
    then (q, q.reserved_batch)
    else if max_batch_size == 0
    then (q, [])
    else let take_count = min max_batch_size (length q.queued) in
      let (queued, batch) = move_to_batch take_count q.queued q.reserved_batch in
      (record q { queued = queued; reserved_batch = batch }, batch)

abbrev pub acknowledge_reserved : BlacklistCandidateQueue → BlacklistCandidateQueue
acknowledge_reserved q = record q { reserved_batch = [] }

abbrev pub close : BlacklistCandidateQueue → BlacklistCandidateQueue
close q = record q { is_closed = true }

unfoldable pub discard_remaining_on_shutdown : BlacklistCandidateQueue → BlacklistCandidateQueue × ℕ
discard_remaining_on_shutdown q =
    let remaining = length q.queued + length q.reserved_batch in
    let available = u64_max - q.dropped_on_shutdown_count in
    let added = min remaining available in
    (
      record q {
        queued = [];
        reserved_batch = [];
        dropped_on_shutdown_count = q.dropped_on_shutdown_count + added;
      },
      added,
    )

unfoldable pub take_dropped_since_last_report :
    BlacklistCandidateQueue → BlacklistCandidateQueue × ℕ
take_dropped_since_last_report q =
    let delta = sub_size q.dropped_count q.reported_dropped_count in
    (record q { reported_dropped_count = q.dropped_count }, delta)

abbrev pub stats : BlacklistCandidateQueue → BlacklistCandidateQueueStats
stats q = record {
  queued = length q.queued;
  reserved = length q.reserved_batch;
  dropped = q.dropped_count;
  dropped_on_shutdown = q.dropped_on_shutdown_count;
  closed = q.is_closed;
}

abbrev pub empty : BlacklistCandidateQueue → Bool
empty q = is_empty q.queued && is_empty q.reserved_batch
