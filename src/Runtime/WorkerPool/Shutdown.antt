-- ===== src/Runtime/WorkerPool/Shutdown.antt =====
-- How bounded_worker_pool.cpp (src/runtime) comes to its end.
use aegis_flow.Prelude.{
  ℕ, zero, suc, ◌+◌, ◌*◌, ◌^◌, ◌≤◌, ◌<◌, ◌≡◌, refl, sym, ap, subst, ◌∙◌, inl, inr, true, false,
  Option, some, List, ◌++◌, arith, get_elem?, set, length, Bool-cases, append-nil,
}
use aegis_flow.Runtime.Ring.{front, take_front}
use aegis_flow.Runtime.WorkerPool.{
  BoundedWorkerPoolConfig, BoundedWorkerPool, closed, stopped, fresh_pool, try_submit, close,
  drain_start, drain_end, register_worker, join_end, take_task, finish_task, valid_config,
}
use aegis_flow.Runtime.WorkerPool.Cases.{take_task-cases, join_start-cases}
use aegis_flow.Runtime.WorkerPool.Threads.{
  Worker, idle, busy, gone, World, booked, after_join_start, after_take, all_gone, Step, submits,
  closes, drains, cancels, starts_join, ends_join, registers, polls, finishes, Steps, halts, steps,
  started,
}
use aegis_flow.Runtime.WorkerPool.Workers.{
  is_gone, total, at_work, total-set, find_worker, all_gone-none,
}
use aegis_flow.Runtime.WorkerPool.Ledger.{all_gone-closed}
use aegis_flow.Runtime.WorkerPool.Reachable.{Steps-IsSound}

module _ {ℓ} {Task : Type ℓ} where
  -- When `join` has stopped the pool, every task it ever took in has left the queue, no worker has
  -- one any more, and none is in flight.
  pub stopped_is_done :
      (config : BoundedWorkerPoolConfig) (w : World Task)
      → valid_config config ≡ true
      → config.queue_capacity + config.thread_count < 2 ^ 64
      → Steps (started (fresh_pool config)) w
      → w.pool.state ≡ stopped
      → (w.taken_in ≡ w.left) × (at_work w.workers ≡ 0) × (w.pool.inflight ≡ 0)
  stopped_is_done config w good small ss end =
      let (waiting, k) = Steps-IsSound config w good small ss in
      let ended = k.over end in
      let nothing = (all_gone-closed w waiting ended k).1 in
      let no_work = all_gone-none w.workers ended in
      (
        k.ledger ∙ ap (λ ts. w.left ++ ts) nothing ∙ append-nil w.left,
        no_work,
        omega (arith, k.counted, ap length nothing, no_work),
      )

  -- The pool is closed and has taken in the same tasks.
  abbrev pub IsClosedAt : List Task → World Task → Type ℓ
  IsClosedAt tasks w = (w.pool.accepting ≡ false) × (w.taken_in ≡ tasks)

  close-closed : (s : BoundedWorkerPool Task) → s.accepting ≡ false → (close s).accepting ≡ false
  unfolding close
  close-closed s h = ground arith

  drain_end-closed :
      (s : BoundedWorkerPool Task) → s.accepting ≡ false → (drain_end s).0.accepting ≡ false
  unfolding drain_end
  drain_end-closed s h = ground arith

  submit-closed :
      (s : BoundedWorkerPool Task) (task : Option Task)
      → s.accepting ≡ false
      → try_submit s task ≡ (s, closed)
  unfolding try_submit
  submit-closed s task h = rw h refl

  closed-Step :
      {w w' : World Task} (tasks : List Task) → Step w w' → IsClosedAt tasks w → IsClosedAt tasks w'
  unfolding drain_start join_end register_worker finish_task try_submit
  closed-Step tasks (submits w task) (shut, same) =
      subst (λ r. IsClosedAt tasks (booked w r task)) (sym (submit-closed w.pool task shut))
        (shut, append-nil w.taken_in ∙ same)
  closed-Step tasks (closes w) (shut, same) = (close-closed w.pool shut, same)
  closed-Step tasks (drains w) (shut, same) = (close-closed w.pool shut, same)
  closed-Step tasks (cancels w shut') (shut, same) = (drain_end-closed w.pool shut, same)
  closed-Step tasks (starts_join w thread) k = elim (join_start-cases w.pool thread) [
    | inl (status, e) ↦ subst (λ t. IsClosedAt tasks (after_join_start w t)) (sym e) k
    | inr (inl e) ↦ subst (λ t. IsClosedAt tasks (after_join_start w t)) (sym e) k
    | inr (inr (e, _)) ↦ subst (λ t. IsClosedAt tasks (after_join_start w t)) (sym e) k
  ]
  closed-Step tasks (ends_join w under_way ended) k = k
  closed-Step tasks (registers w index thread) k = k
  closed-Step tasks (polls w index at) k = elim (take_task-cases w.pool index) [
    | inl (e, _, _) ↦ subst (λ t. IsClosedAt tasks (after_take w index t)) (sym e) k
    | inr (inl (_, _, e)) ↦ subst (λ t. IsClosedAt tasks (after_take w index t)) (sym e) k
    | inr (inr (_, e)) ↦ subst (λ t. IsClosedAt tasks (after_take w index t)) (sym e) k
  ]
  closed-Step tasks (finishes w index task at) k = k

  closed-Steps :
      {w w' : World Task} (tasks : List Task)
      → Steps w w'
      → IsClosedAt tasks w
      → IsClosedAt tasks w'
  closed-Steps tasks (halts w) k = k
  closed-Steps tasks (steps s ss) k = closed-Steps tasks ss (closed-Step tasks s k)

  -- Once closed, whatever the threads do, the pool takes in nothing more and answers every submission
  -- that it is closed.
  pub nothing_after_close :
      (w w' : World Task) (task : Option Task)
      → Steps w w'
      → w.pool.accepting ≡ false
      → (w'.taken_in ≡ w.taken_in) × (try_submit w'.pool task ≡ (w'.pool, closed))
  nothing_after_close w w' task ss h =
      let (shut, same) = closed-Steps w.taken_in ss (h, refl) in
      (same, submit-closed w'.pool task shut)

  abbrev pub stay : Worker Task → ℕ
  stay idle = 1
  stay (busy t) = 2
  stay gone = 0

  -- How many steps the workers have left when the pool is closed.
  abbrev pub steps_left : World Task → ℕ
  steps_left w = w.pool.queue.size * 2 + total stay w.workers

  -- What a worker does next.
  abbrev pub worker_turn : World Task → ℕ → Worker Task → World Task
  worker_turn w index idle = after_take w index (take_task w.pool index)
  worker_turn w index (busy task) = record w {
    pool = finish_task w.pool;
    workers = set w.workers index idle;
  }
  worker_turn w index gone = w

  -- In a closed pool every worker that is not gone can take its next step without waiting, and each
  -- such step leaves fewer to take.
  pub closed-worker_turn :
      (w : World Task) (index : ℕ) (worker : Worker Task)
      → w.pool.accepting ≡ false
      → get_elem? w.workers index ≡ some worker
      → is_gone worker ≡ false
      → Step w (worker_turn w index worker)
        × (steps_left (worker_turn w index worker) < steps_left w)
  unfolding finish_task take_front
  closed-worker_turn w index idle shut at here = (
    polls w index at,
    elim (take_task-cases w.pool index) [
      | inl (_, opened, _) ↦ absurd (ground arith)
      | inr (inl (_, _, e)) ↦
          subst (λ t. steps_left (after_take w index t) < steps_left w) (sym e)
            (omega (arith, total-set stay w.workers index idle gone at))
      | inr (inr (some_there, e)) ↦
          subst (λ t. steps_left (after_take w index t) < steps_left w) (sym e)
            (omega (
              arith,
              some_there,
              total-set stay w.workers index idle (busy (front w.pool.queue)) at,
            ))
    ],
  )
  closed-worker_turn w index (busy task) shut at here =
      (finishes w index task at, omega (arith, total-set stay w.workers index (busy task) idle at))
  closed-worker_turn w index gone shut at here = absurd (ground arith)

  some_turn :
      (w : World Task)
      → w.pool.accepting ≡ false
      → all_gone w.workers ≡ false
      → (w' : World Task) × Step w w' × (steps_left w' < steps_left w) × (w'.pool.accepting ≡ false)
  some_turn w shut going =
      let (index, worker, at, here) = find_worker w.workers going in
      let (turn, nearer) = closed-worker_turn w index worker shut at here in
      (worker_turn w index worker, turn, nearer, (closed-Step w.taken_in turn (shut, refl)).0)

  ends_within :
      (n : ℕ) (w : World Task)
      → steps_left w ≤ n
      → w.pool.accepting ≡ false
      → (w' : World Task) × Steps w w' × (all_gone w'.workers ≡ true)
  ends_within zero w bound shut = elim (Bool-cases (all_gone w.workers)) [
    | inl ended ↦ (w, halts w, ended)
    | inr going ↦
        let (w', turn, nearer, _) = some_turn w shut going in absurd (omega (arith, nearer))
  ]
  ends_within (suc n) w bound shut = elim (Bool-cases (all_gone w.workers)) [
    | inl ended ↦ (w, halts w, ended)
    | inr going ↦
        let (w1, turn, nearer, shut1) = some_turn w shut going in
        let (w2, ss, ended) = ends_within n w1 (omega (arith, nearer)) shut1 in
        (w2, steps turn ss, ended)
  ]

  -- From any state of a closed pool the workers come to their end by steps of their own, so that
  -- `join` can return.
  pub closed_ends :
      (w : World Task)
      → w.pool.accepting ≡ false
      → (w' : World Task) × Steps w w' × (all_gone w'.workers ≡ true)
  closed_ends w shut = ends_within (steps_left w) w (omega arith) shut
