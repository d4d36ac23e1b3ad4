-- ===== src/Runtime/WorkerPool/Ledger.antt =====
-- The books of bounded_worker_pool.cpp (src/runtime).
use aegis_flow.Prelude.{
  ℕ, ◌+◌, ◌^◌, ◌<◌, ◌≡◌, ◌≢◌, Bool, true, false, Option, some, List, [], ◌++◌, arith, get_elem?,
  length,
}
use aegis_flow.Runtime.Ring.Order.{Holds}
use aegis_flow.Runtime.WorkerPool.{WorkerPoolStatus, PoolState, running, stopped}
use aegis_flow.Runtime.WorkerPool.Threads.{Worker, World, all_gone}
use aegis_flow.Runtime.WorkerPool.Workers.{
  is_gone, at_work, some_gone, at_work-length, all_gone-some, all_gone-each,
}

module _ {ℓ} {Task : Type ℓ} where
  -- What is waiting is what was taken in and has not left, in order; what is in flight is waiting or
  -- with a worker; a worker goes only from a closed pool where nothing waits; a pool stops only when
  -- all are gone.
  pub record IsSettled (w : World Task) (waiting : List Task) : Type ℓ where
    pub holds : Holds w.pool.queue waiting
    pub ledger : w.taken_in ≡ w.left ++ waiting
    pub counted : w.pool.inflight ≡ length waiting + at_work w.workers
    pub slots : length w.pool.queue.slots ≡ w.pool.config.queue_capacity
    pub buffer : length w.pool.cancel_buffer ≡ w.pool.config.queue_capacity
    pub threads : length w.workers ≡ w.pool.config.thread_count
    pub some_threads : 0 < w.pool.config.thread_count
    pub room : w.pool.config.queue_capacity + w.pool.config.thread_count < 2 ^ 64
    pub empty : some_gone w.workers ≡ true → (w.pool.accepting ≡ false) × (waiting ≡ [])
    pub opened : w.pool.accepting ≡ true → w.pool.state ≡ running
    pub over : w.pool.state ≡ stopped → all_gone w.workers ≡ true

  abbrev pub IsSound : World Task → Type ℓ
  IsSound w = (waiting : List Task) × IsSettled w waiting

  pub in_bounds :
      (w : World Task) (waiting : List Task) → IsSettled w waiting → w.pool.inflight < 2 ^ 64
  in_bounds w waiting k =
      omega (arith, k.counted, k.room, k.threads, k.slots, k.holds.fits, at_work-length w.workers)

  -- Where a worker is not gone, the pool has not stopped.
  pub someone_left :
      (w : World Task) (waiting : List Task) (index : ℕ) (worker : Worker Task)
      → get_elem? w.workers index ≡ some worker
      → is_gone worker ≢ true
      → IsSettled w waiting
      → w.pool.state ≢ stopped
  someone_left w waiting index worker at here k s =
      here (all_gone-each w.workers index worker (k.over s) at)

  -- A step that touches neither the queue nor a worker, and opens nothing.
  pub same_books :
      (w : World Task) (waiting : List Task) (ids : List (Option ℕ)) (b joining : Bool)
      (status : WorkerPoolStatus) (state : PoolState)
      → (b ≡ true → w.pool.accepting ≡ true)
      → (b ≡ true → state ≡ running)
      → (state ≡ stopped → all_gone w.workers ≡ true)
      → IsSettled w waiting
      → IsSettled
          (record w {
            pool = record w.pool {
              worker_ids = ids;
              accepting = b;
              join_in_progress = joining;
              join_status = status;
              state = state;
            };
          })
          waiting
  same_books w waiting ids b joining status state shuts opens ends k = record {
    holds = k.holds;
    ledger = k.ledger;
    counted = k.counted;
    slots = k.slots;
    buffer = k.buffer;
    threads = k.threads;
    some_threads = k.some_threads;
    room = k.room;
    empty = λ e. ground (arith, k.empty e, shuts);
    opened = opens;
    over = ends;
  }

  -- Where every worker is gone the pool is closed.
  pub all_gone-closed :
      (w : World Task) (waiting : List Task)
      → all_gone w.workers ≡ true
      → IsSettled w waiting
      → (w.pool.accepting ≡ false) × (waiting ≡ [])
  all_gone-closed w waiting ended k =
      k.empty (all_gone-some w.workers ended (omega (arith, k.threads, k.some_threads)))
