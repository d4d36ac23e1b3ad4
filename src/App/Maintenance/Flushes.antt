-- ===== src/App/Maintenance/Flushes.antt =====
-- What `flushOnePendingBatch` of blacklist_maintenance.cpp (src/app) deletes, and when.
use aegis_flow.Prelude.{
  ◌≡◌, refl, ◌⊎◌, inl, inr, Bool, true, false, not, ◌||◌, Option, none, some, List, [], ◌∷◌, ◌++◌,
  Bytes, if◌then◌else◌, Bool-cases,
}
use aegis_flow.Risk.Mutation.{BlacklistMutation}
use aegis_flow.App.Maintenance.{is_ok}
use aegis_flow.App.Maintenance.Pending.{
  PendingBlacklistEntry, PendingAnswers, Effect, deletes, applies, invalid_ids, valid_ids,
  mutations_of, no_mutation, commit_valid, delete_invalid, flush_entries, flush_one_pending_batch,
}

abbrev pub In : BlacklistMutation → List BlacklistMutation → Type 0
In m [] = ⊥
In m (x ∷ xs) = (x ≡ m) ⊎ In m xs

-- Some record has the id and cannot be read.
abbrev pub Unreadable : Bytes → List PendingBlacklistEntry → Type 0
Unreadable id [] = ⊥
Unreadable id (e ∷ es) = ((e.stream_id ≡ id) × (e.mutation ≡ none)) ⊎ Unreadable id es

-- Some record has the id, and its mutation is among those done.
abbrev pub Committed : List BlacklistMutation → Bytes → List PendingBlacklistEntry → Type 0
Committed done id [] = ⊥
Committed done id (e ∷ es) =
    ((e.stream_id ≡ id) × ((m : BlacklistMutation) × (e.mutation ≡ some m) × In m done))
    ⊎ Committed done id es

-- The mutations of the records that can be read, in the order of the records.
pub data InOrder : List PendingBlacklistEntry → List BlacklistMutation → Type 0 where
  ends : InOrder [] []
  unread :
      {e : PendingBlacklistEntry} {es : List PendingBlacklistEntry} {ms : List BlacklistMutation}
      → e.mutation ≡ none
      → InOrder es ms
      → InOrder (e ∷ es) ms
  reads :
      {e : PendingBlacklistEntry} {es : List PendingBlacklistEntry} {m : BlacklistMutation}
      {ms : List BlacklistMutation}
      → e.mutation ≡ some m
      → InOrder es ms
      → InOrder (e ∷ es) (m ∷ ms)

abbrev pub AllSafe : List PendingBlacklistEntry → List BlacklistMutation → List Bytes → Type 0
AllSafe entries done [] = Unit
AllSafe entries done (id ∷ ids) =
    (Unreadable id entries ⊎ Committed done id entries) × AllSafe entries done ids

-- Every id that is deleted is that of a record that cannot be read, or whose mutation has been
-- committed before; a commit is of the mutations of all records that can be read, in their order.
abbrev pub SafeFrom : List PendingBlacklistEntry → List BlacklistMutation → List Effect → Type 0
SafeFrom entries done [] = Unit
SafeFrom entries done (applies mutations true ∷ effects) =
    InOrder entries mutations × SafeFrom entries (done ++ mutations) effects
SafeFrom entries done (applies mutations false ∷ effects) =
    InOrder entries mutations × SafeFrom entries done effects
SafeFrom entries done (deletes ids ∷ effects) =
    AllSafe entries done ids × SafeFrom entries done effects

abbrev Includes : List BlacklistMutation → List BlacklistMutation → Type 0
Includes done done' = (m : BlacklistMutation) → In m done → In m done'

Committed-more :
    (done done' : List BlacklistMutation) (id : Bytes) (es : List PendingBlacklistEntry)
    → Includes done done'
    → Committed done id es
    → Committed done' id es
Committed-more done done' id [] g h = elim h [ ]
Committed-more done done' id (e ∷ es) g (inl (same, (m, at, there))) =
    inl (same, (m, at, g m there))
Committed-more done done' id (e ∷ es) g (inr h) = inr (Committed-more done done' id es g h)

AllSafe-more :
    (e : PendingBlacklistEntry) (es : List PendingBlacklistEntry)
    (done done' : List BlacklistMutation) (ids : List Bytes)
    → Includes done done'
    → AllSafe es done ids
    → AllSafe (e ∷ es) done' ids
AllSafe-more e es done done' [] g h = tt
AllSafe-more e es done done' (id ∷ ids) g (inl u, h) =
    (inl (inr u), AllSafe-more e es done done' ids g h)
AllSafe-more e es done done' (id ∷ ids) g (inr c, h) =
    (inr (inr (Committed-more done done' id es g c)), AllSafe-more e es done done' ids g h)

-- The first record, by whether it can be read.
abbrev with_first :
    Bytes → Option BlacklistMutation → List PendingBlacklistEntry → List PendingBlacklistEntry
with_first id o es = record { stream_id = id; mutation = o } ∷ es

invalid_ids-AllSafe :
    (es : List PendingBlacklistEntry) (done : List BlacklistMutation)
    → AllSafe es done (invalid_ids es)
invalid_ids-AllSafe [] done = tt
invalid_ids-AllSafe (e ∷ es) done = first e.stream_id e.mutation (invalid_ids-AllSafe es done)
  where
    first :
        (id : Bytes) (o : Option BlacklistMutation)
        → AllSafe es done (invalid_ids es)
        → AllSafe (with_first id o es) done (invalid_ids (with_first id o es))
    first id none h =
        (inl (inl (refl, refl)), AllSafe-more _ es done done (invalid_ids es) (λ m i. i) h)
    first id (some m) h = AllSafe-more _ es done done (invalid_ids es) (λ m i. i) h

valid_ids-AllSafe : (es : List PendingBlacklistEntry) → AllSafe es (mutations_of es) (valid_ids es)
valid_ids-AllSafe [] = tt
valid_ids-AllSafe (e ∷ es) = first e.stream_id e.mutation (valid_ids-AllSafe es)
  where
    first :
        (id : Bytes) (o : Option BlacklistMutation)
        → AllSafe es (mutations_of es) (valid_ids es)
        → AllSafe
            (with_first id o es)
            (mutations_of (with_first id o es))
            (valid_ids (with_first id o es))
    first id none h =
        AllSafe-more _ es (mutations_of es) (mutations_of es) (valid_ids es) (λ m i. i) h
    first id (some m) h = (
      inr (inl (refl, (m, refl, inl refl))),
      AllSafe-more _ es (mutations_of es) (m ∷ mutations_of es) (valid_ids es) (λ m i. inr i) h,
    )

mutations_of-InOrder : (es : List PendingBlacklistEntry) → InOrder es (mutations_of es)
mutations_of-InOrder [] = ends
mutations_of-InOrder (e ∷ es) = first e.stream_id e.mutation (mutations_of-InOrder es)
  where
    first :
        (id : Bytes) (o : Option BlacklistMutation)
        → InOrder es (mutations_of es)
        → InOrder (with_first id o es) (mutations_of (with_first id o es))
    first id none h = unread refl h
    first id (some m) h = reads refl h

commit_valid-SafeFrom :
    (a : PendingAnswers) (entries : List PendingBlacklistEntry)
    → SafeFrom entries [] (commit_valid a entries)
commit_valid-SafeFrom a entries =
    elim (Bool-cases (no_mutation (mutations_of entries) || a.stop_before_commit)) [
      | inl e ↦ rw e tt
      | inr e ↦ rw e (applied a.committed)
    ]
  where
    applied :
        (b : Bool)
        → SafeFrom entries [] (
            applies (mutations_of entries) b
            ∷ (if not b || a.stop_after_commit then [] else deletes (valid_ids entries) ∷ []))
    applied false = (mutations_of-InOrder entries, tt)
    applied true = elim (Bool-cases a.stop_after_commit) [
      | inl f ↦ rw f (mutations_of-InOrder entries, tt)
      | inr f ↦ rw f (mutations_of-InOrder entries, (valid_ids-AllSafe entries, tt))
    ]

delete_invalid-SafeFrom :
    (a : PendingAnswers) (entries : List PendingBlacklistEntry) (ids : List Bytes)
    → AllSafe entries [] ids
    → SafeFrom entries [] (delete_invalid a entries ids)
delete_invalid-SafeFrom a entries [] safe = commit_valid-SafeFrom a entries
delete_invalid-SafeFrom a entries (id ∷ ids) safe = elim (Bool-cases (is_ok a.invalid_deleted)) [
  | inl e ↦ rw e (safe, commit_valid-SafeFrom a entries)
  | inr e ↦ rw e (safe, tt)
]

flush_entries-SafeFrom :
    (a : PendingAnswers) (entries : List PendingBlacklistEntry)
    → SafeFrom entries [] (flush_entries a entries)
flush_entries-SafeFrom a [] = tt
flush_entries-SafeFrom a (e ∷ es) =
    delete_invalid-SafeFrom a (e ∷ es) (invalid_ids (e ∷ es)) (invalid_ids-AllSafe (e ∷ es) [])

-- A flush deletes only records that cannot be read, and those whose mutation has been committed
-- before; what it commits are the mutations of all records that can be read, in the order of the
-- stream. So no mutation is lost.
pub flush-SafeFrom :
    (a : PendingAnswers) → SafeFrom a.pending.entries [] (flush_one_pending_batch a)
unfolding flush_one_pending_batch
flush-SafeFrom a = go a.stop_at_start (is_ok a.pending.status)
  where
    go :
        (b fine : Bool)
        → SafeFrom a.pending.entries []
            (if b then [] else if not fine then [] else flush_entries a a.pending.entries)
    go true fine = tt
    go false false = tt
    go false true = flush_entries-SafeFrom a a.pending.entries
