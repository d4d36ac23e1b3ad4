-- ===== src/App/CandidateQueue/Batches.antt =====
-- The batches of blacklist_candidate_queue.cpp (src/app): what a batch holds, and how long.
use aegis_flow.Prelude.{
  ℕ, zero, suc, ◌<◌, ◌≡◌, refl, ap, ◌∙◌, inl, inr, min, Bool, true, false, ◌&&◌, Option, none, some,
  List, [], ◌∷◌, arith, ◌==◌, if◌then◌else◌, Bool-cases, Bytes, ◌==ᵇ◌, bytes_eq_sym, bytes_eq_trans,
  length, take, drop,
}
use aegis_flow.Risk.Types.{EntityType, user, ip, device}
use aegis_flow.Risk.Mutation.{BlacklistMutation}
use aegis_flow.Risk.Blacklist.{later}
use aegis_flow.App.CandidateQueue.{
  BlacklistCandidateQueue, same_type, same_entity, same_key, expires_later, merge_into_reserved,
  move_to_batch, try_submit, reserve_batch, take_dropped_since_last_report, is_empty,
}
use aegis_flow.App.CandidateQueue.Capacity.{
  Call, submits, reserves, acknowledges, closes, discards, reports, step, run,
}

abbrev pub has_key : BlacklistMutation → Option EntityType → Bytes → Bool
has_key m type id = same_entity m.entity_type type && (m.id ==ᵇ id)

-- The expiry that a batch holds for an entity.
abbrev pub expiry_in : List BlacklistMutation → Option EntityType → Bytes → Option ℕ
expiry_in [] type id = none
expiry_in (m ∷ batch) type id =
    if has_key m type id then some m.expire_at_ms else expiry_in batch type id

-- One more expiry: the later counts, and 0 is never over.
abbrev pub joined : Option ℕ → ℕ → ℕ
joined none e = e
joined (some c) e = later c e

-- The latest expiry that some candidates, in order, ask for an entity.
abbrev pub latest : Option ℕ → List BlacklistMutation → Option EntityType → Bytes → Option ℕ
latest best [] type id = best
latest best (m ∷ ms) type id =
    latest (if has_key m type id then some (joined best m.expire_at_ms) else best) ms type id

same_entity_trans :
    (a b c : Option EntityType) → same_entity a b ≡ true → same_entity b c ≡ same_entity a c
same_entity_trans none none c h = refl
same_entity_trans none (some b) c h = ground arith
same_entity_trans (some a) none c h = ground arith
same_entity_trans (some user) (some user) c h = refl
same_entity_trans (some ip) (some ip) c h = refl
same_entity_trans (some device) (some device) c h = refl
same_entity_trans (some user) (some ip) c h = ground arith
same_entity_trans (some user) (some device) c h = ground arith
same_entity_trans (some ip) (some user) c h = ground arith
same_entity_trans (some ip) (some device) c h = ground arith
same_entity_trans (some device) (some user) c h = ground arith
same_entity_trans (some device) (some ip) c h = ground arith

same_type-sym : (a b : EntityType) → same_type a b ≡ same_type b a
same_type-sym user user = refl
same_type-sym user ip = refl
same_type-sym user device = refl
same_type-sym ip user = refl
same_type-sym ip ip = refl
same_type-sym ip device = refl
same_type-sym device user = refl
same_type-sym device ip = refl
same_type-sym device device = refl

same_entity-sym : (a b : Option EntityType) → same_entity a b ≡ same_entity b a
same_entity-sym none none = refl
same_entity-sym none (some b) = refl
same_entity-sym (some a) none = refl
same_entity-sym (some a) (some b) = same_type-sym a b

and-true : (a b : Bool) → (a && b) ≡ true → (a ≡ true) × (b ≡ true)
and-true true b h = (refl, h)
and-true false b h = ground arith

-- Two candidates with one key have the same keys.
has_key-same :
    (item m : BlacklistMutation) (type : Option EntityType) (id : Bytes)
    → same_key item m ≡ true
    → has_key m type id ≡ has_key item type id
has_key-same item m type id h =
    let k = and-true _ _ h in
    rw (
      same_entity_trans item.entity_type m.entity_type type k.0,
      bytes_eq_trans item.id m.id id k.1,
    )

has_key-other :
    (item m : BlacklistMutation) (type : Option EntityType) (id : Bytes)
    → same_key item m ≡ false
    → has_key item type id ≡ true
    → has_key m type id ≡ false
has_key-other item m type id h at =
    let k = and-true _ _ at in
    rw
      (
        same_entity-sym m.entity_type type
            ∙ same_entity_trans item.entity_type type m.entity_type k.0,
        bytes_eq_sym m.id id ∙ bytes_eq_trans item.id id m.id k.1,
      )
      h

expires_later-new : (new old : ℕ) → expires_later new old ≡ true → new ≡ later old new
unfolding expires_later
expires_later-new new old h = ground arith

expires_later-old : (new old : ℕ) → expires_later new old ≡ false → old ≡ later old new
unfolding expires_later
expires_later-old new old h = ground arith

-- Merging into the first candidate of the batch.
merge-first :
    (item m : BlacklistMutation) (batch : List BlacklistMutation) (type : Option EntityType)
    (id : Bytes)
    → has_key m type id ≡ has_key item type id
    → expiry_in
        (if expires_later m.expire_at_ms item.expire_at_ms then m ∷ batch else item ∷ batch)
        type
        id
      ≡ (if has_key item type id
          then some (later item.expire_at_ms m.expire_at_ms)
          else expiry_in batch type id)
merge-first item m batch type id keys =
    elim (Bool-cases (expires_later m.expire_at_ms item.expire_at_ms)) [
      | inl newer ↦ elim (Bool-cases (has_key item type id)) [
        | inl here ↦
            rw (newer, keys ∙ here, here)
              (ap (λ e. some e) (expires_later-new m.expire_at_ms item.expire_at_ms newer))
        | inr elsewhere ↦ rw (newer, keys ∙ elsewhere, elsewhere)
      ]
      | inr older ↦ elim (Bool-cases (has_key item type id)) [
        | inl here ↦
            rw (older, here)
              (ap (λ e. some e) (expires_later-old m.expire_at_ms item.expire_at_ms older))
        | inr elsewhere ↦ rw (older, elsewhere)
      ]
    ]

merge-expiry :
    (batch : List BlacklistMutation) (m : BlacklistMutation) (type : Option EntityType) (id : Bytes)
    → expiry_in (merge_into_reserved batch m) type id ≡ (
        if has_key m type id
        then some (joined (expiry_in batch type id) m.expire_at_ms)
        else expiry_in batch type id)
unfolding merge_into_reserved
merge-expiry [] m type id = refl
merge-expiry (item ∷ batch) m type id = elim (Bool-cases (same_key item m)) [
  | inl same ↦ elim (Bool-cases (has_key item type id)) [
    | inl here ↦
        rw (same, has_key-same item m type id same, here)
          (merge-first item m batch type id (has_key-same item m type id same) ∙ rw here)
    | inr elsewhere ↦
        rw (same, has_key-same item m type id same, elsewhere)
          (merge-first item m batch type id (has_key-same item m type id same) ∙ rw elsewhere)
  ]
  | inr other ↦ elim (Bool-cases (has_key item type id)) [
    | inl here ↦ rw (other, here, has_key-other item m type id other here)
    | inr not_here ↦ rw (other, not_here) (merge-expiry batch m type id)
  ]
]

move_to_batch-expiry :
    (n : ℕ) (queued batch : List BlacklistMutation) (type : Option EntityType) (id : Bytes)
    → let (queued', batch') = move_to_batch n queued batch in
      (queued' ≡ drop n queued)
      × (expiry_in batch' type id ≡ latest (expiry_in batch type id) (take n queued) type id)
unfolding move_to_batch
move_to_batch-expiry zero queued batch type id = (refl, refl)
move_to_batch-expiry (suc n) [] batch type id = (refl, refl)
move_to_batch-expiry (suc n) (m ∷ queued) batch type id =
    let k = move_to_batch-expiry n queued (merge_into_reserved batch m) type id in
    (k.0, k.1 ∙ ap (λ b. latest b (take n queued) type id) (merge-expiry batch m type id))

is_empty-nil : (ms : List BlacklistMutation) → is_empty ms ≡ true → ms ≡ []
is_empty-nil [] h = refl
is_empty-nil (m ∷ ms) h = ground arith

-- A new batch takes the oldest candidates, up to its size, and holds for every entity the latest
-- expiry that one of these asks for it; the rest stays queued in order.
pub reserve_batch-latest :
    (q : BlacklistCandidateQueue) (n : ℕ) (type : Option EntityType) (id : Bytes)
    → q.reserved_batch ≡ []
    → 0 < n
    → let (q', batch) = reserve_batch q n in
      let k = min n (length q.queued) in
      (q'.reserved_batch ≡ batch)
      × (q'.queued ≡ drop k q.queued)
      × (expiry_in batch type id ≡ latest none (take k q.queued) type id)
unfolding reserve_batch
reserve_batch-latest q n type id none_reserved l =
    let positive : (n == 0) ≡ false = ground arith in
    rw (none_reserved, positive)
      (let moved = move_to_batch-expiry (min n (length q.queued)) q.queued [] type id in
        (refl, moved.0, moved.1))

abbrev keeps_batch : Call → Bool
keeps_batch acknowledges = false
keeps_batch discards = false
keeps_batch _ = true

abbrev pub all_keep_batch : List Call → Bool
all_keep_batch [] = true
all_keep_batch (c ∷ cs) = keeps_batch c && all_keep_batch cs

step-keeps_batch :
    (q : BlacklistCandidateQueue) (c : Call)
    → is_empty q.reserved_batch ≡ false
    → keeps_batch c ≡ true
    → (step q c).0.reserved_batch ≡ q.reserved_batch
unfolding try_submit reserve_batch take_dropped_since_last_report
step-keeps_batch q (submits m) full h = ground arith
step-keeps_batch q (reserves n) full h = rw full
step-keeps_batch q acknowledges full h = ground arith
step-keeps_batch q closes full h = refl
step-keeps_batch q discards full h = ground arith
step-keeps_batch q reports full h = refl

run-keeps_batch :
    (q : BlacklistCandidateQueue) (cs : List Call)
    → is_empty q.reserved_batch ≡ false
    → all_keep_batch cs ≡ true
    → (run q cs).0.reserved_batch ≡ q.reserved_batch
run-keeps_batch q [] full h = refl
run-keeps_batch q (c ∷ cs) full h =
    let k = and-true _ _ h in
    let same = step-keeps_batch q c full k.0 in
    run-keeps_batch (step q c).0 cs (ap is_empty same ∙ full) k.1 ∙ same

-- A batch that is reserved and neither acknowledged nor discarded is handed out again unchanged,
-- whatever is submitted, reported or closed in between and whatever size is asked for.
pub reserve_batch-again :
    (q : BlacklistCandidateQueue) (cs : List Call) (n : ℕ)
    → is_empty q.reserved_batch ≡ false
    → all_keep_batch cs ≡ true
    → reserve_batch (run q cs).0 n ≡ ((run q cs).0, q.reserved_batch)
unfolding reserve_batch
reserve_batch-again q cs n full h =
    let same = run-keeps_batch q cs full h in
    rw (ap is_empty same ∙ full) (ap (λ b. ((run q cs).0, b)) same)
