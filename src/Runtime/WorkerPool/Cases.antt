-- ===== src/Runtime/WorkerPool/Cases.antt =====
-- The branches of the operations of bounded_worker_pool.cpp (src/runtime).
use aegis_flow.Prelude.{
  ℕ, ◌<◌, ◌≡◌, refl, ◌⊎◌, inl, inr, true, false, Option, none, some, arith, ltb, leb, ◌==◌,
  Bool-cases, set, add_size,
}
use aegis_flow.Runtime.Ring.{put, front, take_front}
use aegis_flow.Runtime.WorkerPool.{
  BoundedWorkerPool, accepted, rejected, closed, waits, exits, takes, returns, waits_for_join,
  joins, running, closing, stopped, PoolState, WorkerPoolStatus, try_submit, join_start,
  join_in_state, self_join, take_task, is_worker_thread,
}

zero_of : (n : ℕ) → (n == 0) ≡ true → n ≡ 0
zero_of n e = ground arith

some_of : (n : ℕ) → (n == 0) ≡ false → ltb 0 n ≡ true
some_of n e = ground arith

module _ {ℓ} {Task : Type ℓ} where
  -- A task is taken in when the pool is open and has room.
  pub try_submit-cases :
      (s : BoundedWorkerPool Task) (task : Option Task)
      → ((try_submit s task ≡ (s, closed)) ⊎ (try_submit s task ≡ (s, rejected)))
        ⊎ ((t : Task) × (task ≡ some t)
            × (s.queue.size < s.config.queue_capacity)
            × (s.accepting ≡ true)
            × (try_submit s task
                ≡ (record s { queue = put s.queue t; inflight = add_size s.inflight 1 }, accepted)))
  unfolding try_submit
  try_submit-cases s none = elim (Bool-cases s.accepting) [
    | inl e ↦ inl (inr (rw e refl))
    | inr e ↦ inl (inl (rw e refl))
  ]
  try_submit-cases s (some t) = elim (Bool-cases s.accepting) [
    | inr e ↦ inl (inl (rw e refl))
    | inl e ↦ elim (Bool-cases (leb s.config.queue_capacity s.queue.size)) [
      | inl f ↦ inl (inr (rw (e, f) refl))
      | inr f ↦ inr (t, refl, ground arith, e, rw (e, f) refl)
    ]
  ]

  -- A worker waits at an open pool without tasks, leaves a closed one without tasks, and otherwise
  -- takes the task at the front.
  pub take_task-cases :
      (s : BoundedWorkerPool Task) (index : ℕ)
      → ((take_task s index ≡ waits) × (s.accepting ≡ true) × (s.queue.size ≡ 0))
        ⊎ (((s.accepting ≡ false)
              × (s.queue.size ≡ 0)
              × (take_task s index ≡ exits (record s { worker_ids = set s.worker_ids index none })))
            ⊎ ((0 < s.queue.size)
                × (take_task s index
                    ≡ takes (front s.queue) (record s { queue = take_front s.queue }))))
  unfolding take_task
  take_task-cases s index = elim (Bool-cases s.accepting) [
    | inl e ↦ elim (Bool-cases (s.queue.size == 0)) [
      | inl f ↦ inl (rw (e, zero_of s.queue.size f) refl, e, zero_of s.queue.size f)
      | inr f ↦ inr (inr (ground arith, rw (e, f, some_of s.queue.size f) refl))
    ]
    | inr e ↦ elim (Bool-cases (s.queue.size == 0)) [
      | inl f ↦ inr (inl (e, zero_of s.queue.size f, rw (e, f) refl))
      | inr f ↦ inr (inr (ground arith, rw (e, f) refl))
    ]
  ]

  join_in_state-cases :
      (s : BoundedWorkerPool Task) (state : PoolState)
      → ((status : WorkerPoolStatus) × (join_in_state s state ≡ returns status))
        ⊎ ((join_in_state s state ≡ waits_for_join)
            ⊎ ((join_in_state s state ≡ joins (record s { join_in_progress = true }))
                × (state ≡ closing)))
  join_in_state-cases s running = inl (_, refl)
  join_in_state-cases s closing = elim (Bool-cases s.join_in_progress) [
    | inl e ↦ inr (inl (rw e refl))
    | inr e ↦ inr (inr (rw e refl, refl))
  ]
  join_in_state-cases s stopped = elim (Bool-cases s.join_in_progress) [
    | inl e ↦ inr (inl (rw e refl))
    | inr e ↦ inl (s.join_status, rw e refl)
  ]

  -- `join` leaves the pool as it is, or notes on a closing pool that it is under way.
  pub join_start-cases :
      (s : BoundedWorkerPool Task) (thread : ℕ)
      → ((status : WorkerPoolStatus) × (join_start s thread ≡ returns status))
        ⊎ ((join_start s thread ≡ waits_for_join)
            ⊎ ((join_start s thread ≡ joins (record s { join_in_progress = true }))
                × (s.state ≡ closing)))
  unfolding join_start
  join_start-cases s thread = elim (Bool-cases (is_worker_thread s.worker_ids thread)) [
    | inl e ↦ inl (self_join, rw e refl)
    | inr e ↦ rw e (join_in_state-cases s s.state)
  ]
