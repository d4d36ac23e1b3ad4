-- ===== src/App/Maintenance/Candidates.antt =====
-- How blacklist_maintenance.cpp (src/app) stores the candidates: `flushOneCandidateBatch` and
-- `drainCandidatesUntil`.
use aegis_flow.Prelude.{
  ℕ, ◌≡◌, refl, sym, ap, subst, ◌∙◌, inl, inr, Bool, true, false, Option, none, some, List, [], ◌∷◌,
  arith, if◌then◌else◌, Bool-cases,
}
use aegis_flow.Risk.Mutation.{BlacklistMutation}
use aegis_flow.App.CandidateQueue.{
  BlacklistCandidateQueue, reserve_batch, acknowledge_reserved, empty,
}
use aegis_flow.App.CandidateQueue.Capacity.{Call, run}
use aegis_flow.App.CandidateQueue.Batches.{all_keep_batch, reserve_batch-again}
use aegis_flow.App.Maintenance.{StoreResult, usable}

abbrev pub no_batch : List BlacklistMutation → Bool
no_batch [] = true
no_batch (m ∷ ms) = false

-- What becomes of a batch with what the backend answers; its result is what the flush returns.
abbrev pub after_store : BlacklistCandidateQueue → Option ℕ → BlacklistCandidateQueue × Bool
after_store q none = (q, false)
after_store q (some revision) = (acknowledge_reserved q, true)

-- `stop` is what `shouldStop` says, `stored` what the backend answers.
unfoldable pub flush_one_candidate_batch :
    BlacklistCandidateQueue → ℕ → Bool → StoreResult → BlacklistCandidateQueue × Bool
unfolding reserve_batch
flush_one_candidate_batch q batch_size stop stored =
    if stop
    then (q, false)
    else let (q', batch) = reserve_batch q batch_size in
      if no_batch batch then (q', true) else after_store q' (usable stored)

-- What a turn of the loop meets: the calls of other threads on the queue before it, the answers of
-- `shouldStop` in their order, and that of the backend.
pub record DrainTurn : Type 0 where
  pub meanwhile : List Call
  pub stop_before : Bool
  pub stop_in_flush : Bool
  pub stored : StoreResult
  pub stop_after : Bool

-- What follows a flush in the loop: the next turn, or the end.
abbrev pub after_flush :
    Bool
    → (BlacklistCandidateQueue → BlacklistCandidateQueue × Bool)
    → BlacklistCandidateQueue × Bool
    → BlacklistCandidateQueue × Bool
after_flush stop next (q, true) = next q
after_flush stop next (q, false) = if stop then (q, false) else next q

-- The loop of `drainCandidatesUntil`. After the last turn the deadline has come, and `shouldStop`
-- says so.
unfoldable pub drain_candidates :
    BlacklistCandidateQueue → ℕ → List DrainTurn → BlacklistCandidateQueue × Bool
unfolding flush_one_candidate_batch
drain_candidates q batch_size [] = (q, empty q)
drain_candidates q batch_size (t ∷ ts) =
    let q' = (run q t.meanwhile).0 in
    if empty q'
    then (q', true)
    else if t.stop_before
    then (q', false)
    else after_flush t.stop_after (λ next. drain_candidates next batch_size ts)
        (flush_one_candidate_batch q' batch_size t.stop_in_flush t.stored)

-- A result that says true comes with an empty queue.
abbrev pub IsHonest : BlacklistCandidateQueue × Bool → Type 0
IsHonest r = r.1 ≡ true → empty r.0 ≡ true

pick-IsHonest :
    (b : Bool) (x y : BlacklistCandidateQueue × Bool)
    → (b ≡ true → IsHonest x)
    → IsHonest y
    → IsHonest (if b then x else y)
pick-IsHonest true x y here there = here refl
pick-IsHonest false x y here there = there

false-IsHonest : (q : BlacklistCandidateQueue) → IsHonest (q, false)
false-IsHonest q h = ground arith

after_flush-IsHonest :
    (stop : Bool) (next : BlacklistCandidateQueue → BlacklistCandidateQueue × Bool)
    (r : BlacklistCandidateQueue × Bool)
    → ((q : BlacklistCandidateQueue) → IsHonest (next q))
    → IsHonest (after_flush stop next r)
after_flush-IsHonest stop next (q, true) honest = honest q
after_flush-IsHonest stop next (q, false) honest =
    pick-IsHonest stop (q, false) (next q) (λ _. false-IsHonest q) (honest q)

-- A drain that succeeds leaves an empty queue.
pub drain_candidates-IsHonest :
    (q : BlacklistCandidateQueue) (batch_size : ℕ) (ts : List DrainTurn)
    → IsHonest (drain_candidates q batch_size ts)
unfolding drain_candidates
drain_candidates-IsHonest q batch_size [] = λ h. h
drain_candidates-IsHonest q batch_size (t ∷ ts) =
    let q' = (run q t.meanwhile).0 in
    pick-IsHonest (empty q') (q', true) _ (λ e _. e)
      (pick-IsHonest t.stop_before (q', false) _ (λ _. false-IsHonest q')
        (after_flush-IsHonest t.stop_after (λ next. drain_candidates next batch_size ts)
          (flush_one_candidate_batch q' batch_size t.stop_in_flush t.stored)
          (λ next. drain_candidates-IsHonest next batch_size ts)))

kept_by_reserve :
    (q : BlacklistCandidateQueue) (batch_size : ℕ)
    → no_batch (reserve_batch q batch_size).1 ≡ false
    → (reserve_batch q batch_size).0.reserved_batch ≡ (reserve_batch q batch_size).1
unfolding reserve_batch
kept_by_reserve q batch_size h = ground arith

flush_failed :
    (q : BlacklistCandidateQueue) (batch_size : ℕ) (stored : StoreResult)
    → (flush_one_candidate_batch q batch_size false stored).1 ≡ false
    → ((flush_one_candidate_batch q batch_size false stored).0 ≡ (reserve_batch q batch_size).0)
      × (no_batch (reserve_batch q batch_size).1 ≡ false)
unfolding flush_one_candidate_batch
flush_failed q batch_size stored h = elim (Bool-cases (no_batch (reserve_batch q batch_size).1)) [
  | inl e ↦ absurd (ground (arith, rw e at h))
  | inr e ↦ (rw e (failed_store (reserve_batch q batch_size).0 (usable stored) (rw e at h)), e)
]
  where
    failed_store :
        (q : BlacklistCandidateQueue) (o : Option ℕ)
        → (after_store q o).1 ≡ false
        → (after_store q o).0 ≡ q
    failed_store q none k = refl
    failed_store q (some revision) k = ground arith

-- A batch that could not be stored is the next one to be reserved again, whatever other threads
-- submit, report or close in between: no candidate of it is lost.
pub flush_failed-reserve_batch :
    (q : BlacklistCandidateQueue) (batch_size again_size : ℕ) (stored : StoreResult)
    (cs : List Call)
    → (flush_one_candidate_batch q batch_size false stored).1 ≡ false
    → all_keep_batch cs ≡ true
    → let after = (run (flush_one_candidate_batch q batch_size false stored).0 cs).0 in
      reserve_batch after again_size ≡ (after, (reserve_batch q batch_size).1)
flush_failed-reserve_batch q batch_size again_size stored cs h keep =
    let (same, full) = flush_failed q batch_size stored h in
    let reserved = kept_by_reserve q batch_size full in
    let q1 = (reserve_batch q batch_size).0 in
    subst
      (λ q2.
        reserve_batch (run q2 cs).0 again_size ≡ ((run q2 cs).0, (reserve_batch q batch_size).1))
      (sym same)
      (reserve_batch-again q1 cs again_size (ap no_batch reserved ∙ full) keep
        ∙ ap (λ b. ((run q1 cs).0, b)) reserved)
