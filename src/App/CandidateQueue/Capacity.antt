-- ===== src/App/CandidateQueue/Capacity.antt =====
-- The candidate queue of blacklist_candidate_queue.cpp (src/app) under any sequence of calls: its
-- bound, and its counts.
use aegis_flow.Prelude.{
  ℕ, zero, suc, ◌+◌, ◌≤◌, ◌≡◌, refl, ◌∙◌, inl, inr, some, min, List, [], ◌∷◌, arith, ◌==◌,
  Bool-cases, length, length-append, u64_max,
}
use aegis_flow.Risk.Mutation.{BlacklistMutation}
use aegis_flow.App.CandidateQueue.{
  BlacklistCandidateQueue, new_queue, merge_into_reserved, move_to_batch, try_submit, reserve_batch,
  acknowledge_reserved, close, discard_remaining_on_shutdown, take_dropped_since_last_report,
}

pub data Call : Type 0 where
  submits : BlacklistMutation → Call
  reserves : ℕ → Call
  acknowledges : Call
  closes : Call
  discards : Call
  reports : Call

-- The queue after a call, and the drops that the call reports.
abbrev pub step : BlacklistCandidateQueue → Call → BlacklistCandidateQueue × ℕ
step q (submits m) = ((try_submit q m).0, 0)
step q (reserves n) = ((reserve_batch q n).0, 0)
step q acknowledges = (acknowledge_reserved q, 0)
step q closes = (close q, 0)
step q discards = ((discard_remaining_on_shutdown q).0, 0)
step q reports = take_dropped_since_last_report q

abbrev pub run : BlacklistCandidateQueue → List Call → BlacklistCandidateQueue × ℕ
run q [] = (q, 0)
run q (c ∷ cs) = let (q1, n) = step q c in let (q2, m) = run q1 cs in (q2, n + m)

pub record IsValid (q : BlacklistCandidateQueue) : Type 0 where
  pub bounded : length q.queued + length q.reserved_batch ≤ q.capacity
  pub reported : q.reported_dropped_count ≤ q.dropped_count
  pub dropped : q.dropped_count ≤ u64_max
  pub shutdown : q.dropped_on_shutdown_count ≤ u64_max

merge_into_reserved-length :
    (batch : List BlacklistMutation) (m : BlacklistMutation)
    → length (merge_into_reserved batch m) ≤ suc (length batch)
unfolding merge_into_reserved
merge_into_reserved-length [] m = omega arith
merge_into_reserved-length (item ∷ batch) m = ground (arith, merge_into_reserved-length batch m)

move_to_batch-length :
    (n : ℕ) (queued batch : List BlacklistMutation)
    → let (queued', batch') = move_to_batch n queued batch in
      length queued' + length batch' ≤ length queued + length batch
unfolding move_to_batch
move_to_batch-length zero queued batch = omega arith
move_to_batch-length (suc n) [] batch = omega arith
move_to_batch-length (suc n) (m ∷ queued) batch = omega (
  arith,
  move_to_batch-length n queued (merge_into_reserved batch m),
  merge_into_reserved-length batch m,
)

-- What a step keeps: validity, the capacity, and the balance of the drops reported.
pub record Keeps (q : BlacklistCandidateQueue) (r : BlacklistCandidateQueue × ℕ) : Type 0 where
  pub valid : IsValid r.0
  pub capacity : r.0.capacity ≡ q.capacity
  pub balance : r.1 + q.reported_dropped_count ≡ r.0.reported_dropped_count

step-Keeps : (q : BlacklistCandidateQueue) (c : Call) → IsValid q → Keeps q (step q c)
unfolding try_submit reserve_batch discard_remaining_on_shutdown take_dropped_since_last_report
step-Keeps q (submits m) v = record {
  valid = record {
    bounded = ground (arith, length-append q.queued (m ∷ []), v.bounded);
    reported = ground (arith, v.reported, v.dropped);
    dropped = ground (arith, v.dropped);
    shutdown = ground (arith, v.shutdown);
  };
  capacity = ground arith;
  balance = ground arith;
}
step-Keeps q (reserves n) v = record {
  valid = record {
    bounded = ground (
      arith,
      move_to_batch-length (min n (length q.queued)) q.queued q.reserved_batch,
      v.bounded,
    );
    reported = ground (arith, v.reported);
    dropped = ground (arith, v.dropped);
    shutdown = ground (arith, v.shutdown);
  };
  capacity = ground arith;
  balance = ground arith;
}
step-Keeps q acknowledges v = record {
  valid = record {
    bounded = omega (arith, v.bounded);
    reported = v.reported;
    dropped = v.dropped;
    shutdown = v.shutdown;
  };
  capacity = refl;
  balance = omega arith;
}
step-Keeps q closes v = record {
  valid = record {
    bounded = v.bounded;
    reported = v.reported;
    dropped = v.dropped;
    shutdown = v.shutdown;
  };
  capacity = refl;
  balance = omega arith;
}
step-Keeps q discards v = record {
  valid = record {
    bounded = omega arith;
    reported = v.reported;
    dropped = v.dropped;
    shutdown = omega (arith, v.shutdown);
  };
  capacity = refl;
  balance = omega arith;
}
step-Keeps q reports v = record {
  valid = record {
    bounded = v.bounded;
    reported = omega arith;
    dropped = v.dropped;
    shutdown = v.shutdown;
  };
  capacity = refl;
  balance = omega (arith, v.reported, v.dropped);
}

-- Under any calls the queued and the reserved candidates together stay within the capacity, and the
-- drops that the calls report add up to the count of drops reported.
pub run-Keeps : (q : BlacklistCandidateQueue) (cs : List Call) → IsValid q → Keeps q (run q cs)
run-Keeps q [] v = record { valid = v; capacity = refl; balance = omega arith }
run-Keeps q (c ∷ cs) v =
    let k = step-Keeps q c v in
    let r = run-Keeps (step q c).0 cs k.valid in
    record {
      valid = r.valid;
      capacity = r.capacity ∙ k.capacity;
      balance = omega (arith, k.balance, r.balance);
    }

new_queue-IsValid :
    (n : ℕ) (q : BlacklistCandidateQueue) → new_queue n ≡ some q → IsValid q × (q.capacity ≡ n)
unfolding new_queue
new_queue-IsValid n q h = elim (Bool-cases (n == 0)) [ inl e ↦ ground arith | inr e ↦ ground arith ]
