-- ===== src/Runtime/WorkerPool/Reachable.antt =====
-- The books of bounded_worker_pool.cpp (src/runtime) in every state that its threads can reach.
use aegis_flow.Prelude.{
  ◌+◌, ◌^◌, ◌<◌, ◌≡◌, refl, sym, subst, inl, inr, true, false, none, [], arith, length-replicate,
}
use aegis_flow.Runtime.Ring.Order.{new_ring-Holds}
use aegis_flow.Runtime.WorkerPool.{
  BoundedWorkerPoolConfig, ok, stopped, fresh_pool, drain_start, register_worker, join_end,
  valid_config,
}
use aegis_flow.Runtime.WorkerPool.Threads.{
  idle, World, after_join_start, Step, submits, closes, drains, cancels, starts_join, ends_join,
  registers, polls, finishes, Steps, halts, steps, started,
}
use aegis_flow.Runtime.WorkerPool.Cases.{join_start-cases}
use aegis_flow.Runtime.WorkerPool.Workers.{started_idle}
use aegis_flow.Runtime.WorkerPool.Ledger.{IsSound, same_books, all_gone-closed}
use aegis_flow.Runtime.WorkerPool.Accepting.{close-IsSettled, submit-IsSound, drained-IsSettled}
use aegis_flow.Runtime.WorkerPool.Taking.{polls-IsSound, finish-IsSettled}

module _ {ℓ} {Task : Type ℓ} where
  step-IsSound : {w w' : World Task} → Step w w' → IsSound w → IsSound w'
  unfolding drain_start join_end register_worker
  step-IsSound (submits w task) k = submit-IsSound w task k
  step-IsSound (closes w) (waiting, k) = (waiting, close-IsSettled w waiting k)
  step-IsSound (drains w) (waiting, k) = (waiting, close-IsSettled w waiting k)
  step-IsSound (cancels w shut) (waiting, k) = drained-IsSettled w waiting k
  step-IsSound (starts_join w thread) (waiting, k) = elim (join_start-cases w.pool thread) [
    | inl (status, e) ↦ subst (λ t. IsSound (after_join_start w t)) (sym e) (waiting, k)
    | inr (inl e) ↦ subst (λ t. IsSound (after_join_start w t)) (sym e) (waiting, k)
    | inr (inr (e, _)) ↦
        subst (λ t. IsSound (after_join_start w t)) (sym e)
          (
            waiting,
            same_books w waiting w.pool.worker_ids w.pool.accepting true w.pool.join_status
                w.pool.state (λ h. h) k.opened k.over k,
          )
  ]
  step-IsSound (ends_join w under_way ended) (waiting, k) =
      let shut = (all_gone-closed w waiting ended k).0 in
      (
        waiting,
        same_books w waiting w.pool.worker_ids w.pool.accepting false ok stopped (λ h. h)
            (λ h. ground (arith, shut)) (λ h. ended) k,
      )
  step-IsSound (registers w index thread) (waiting, k) = (
    waiting,
    same_books w waiting _ w.pool.accepting w.pool.join_in_progress w.pool.join_status w.pool.state
        (λ h. h) k.opened k.over k,
  )
  step-IsSound (polls w index at) k = polls-IsSound w index at k
  step-IsSound (finishes w index task at) (waiting, k) =
      (waiting, finish-IsSettled w index task waiting at k)

  pub many-IsSound : {w w' : World Task} → Steps w w' → IsSound w → IsSound w'
  many-IsSound (halts w) k = k
  many-IsSound (steps s ss) k = many-IsSound ss (step-IsSound s k)

  pub started-IsSound :
      (config : BoundedWorkerPoolConfig)
      → valid_config config ≡ true
      → config.queue_capacity + config.thread_count < 2 ^ 64
      → IsSound (started (fresh_pool {Task = Task} config))
  started-IsSound config good small =
      let idle_all = started_idle Task config.thread_count in
      (
        [],
        record {
          holds = new_ring-Holds config.queue_capacity (ground arith);
          ledger = refl;
          counted = omega (arith, idle_all.0);
          slots = length-replicate config.queue_capacity none;
          buffer = length-replicate config.queue_capacity none;
          threads = length-replicate config.thread_count idle;
          some_threads = ground arith;
          room = small;
          empty = λ g. ground (arith, idle_all.1);
          opened = λ h. refl;
          over = λ h. ground arith;
        },
      )

  -- From its start on, whatever the threads do: the tasks taken in are those that left the queue, to
  -- be run or cancelled, followed by those that wait, all in the order in which they came; the ring
  -- holds just those that wait; and what is in flight is what waits or is with a worker.
  pub Steps-IsSound :
      (config : BoundedWorkerPoolConfig) (w : World Task)
      → valid_config config ≡ true
      → config.queue_capacity + config.thread_count < 2 ^ 64
      → Steps (started (fresh_pool config)) w
      → IsSound w
  Steps-IsSound config w good small ss = many-IsSound ss (started-IsSound config good small)
