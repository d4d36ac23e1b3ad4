-- ===== src/Runtime/WorkerPool/Threads.antt =====
-- The threads of bounded_worker_pool.cpp (src/runtime): their steps, in the order in which they get
-- the lock, with what becomes of the tasks.
use aegis_flow.Prelude.{
  ℕ, zero, suc, ◌≡◌, Bool, true, false, Option, none, some, List, [], ◌∷◌, ◌++◌, get_elem?, set,
  replicate,
}
use aegis_flow.Runtime.Ring.{in_slot}
use aegis_flow.Runtime.WorkerPool.{
  BoundedWorkerPool, WorkerSubmitStatus, accepted, rejected, closed, WorkerPoolStatus, WorkerTurn,
  waits, exits, takes, JoinTurn, returns, waits_for_join, joins, try_submit, close, drain_start,
  drain_end, register_worker, join_start, join_end, take_task, finish_task,
}

-- What a worker thread is at.
pub data Worker {ℓ} (Task : Type ℓ) : Type ℓ where
  idle : Worker Task
  busy : Option Task → Worker Task
  gone : Worker Task

-- The pool, its threads, the tasks it has accepted, and those that have left the queue, to be run or
-- to be cancelled; both oldest first.
pub record World {ℓ} (Task : Type ℓ) : Type ℓ where
  pub pool : BoundedWorkerPool Task
  pub workers : List (Worker Task)
  pub taken_in : List Task
  pub left : List Task

module _ {ℓ} {Task : Type ℓ} where
  abbrev pub of_option : Option Task → List Task
  of_option none = []
  of_option (some t) = t ∷ []

  abbrev pub if_accepted : WorkerSubmitStatus → Option Task → List Task
  if_accepted accepted task = of_option task
  if_accepted rejected task = []
  if_accepted closed task = []

  abbrev pub booked :
      World Task → BoundedWorkerPool Task × WorkerSubmitStatus → Option Task → World Task
  booked w (pool, status) task = record w {
    pool = pool;
    taken_in = w.taken_in ++ if_accepted status task;
  }

  abbrev pub submitted : World Task → Option Task → World Task
  submitted w task = booked w (try_submit w.pool task) task

  -- What the cancel buffer holds from an index on.
  abbrev pub cancelled : ℕ → ℕ → List (Option Task) → List Task
  cancelled zero index buffer = []
  cancelled (suc n) index buffer =
      of_option (in_slot (get_elem? buffer index)) ++ cancelled n (suc index) buffer

  abbrev pub after_drain : World Task → BoundedWorkerPool Task × WorkerPoolStatus × ℕ → World Task
  after_drain w (pool, status, count) = record w {
    pool = pool;
    left = w.left ++ cancelled count 0 pool.cancel_buffer;
  }

  abbrev pub drained : World Task → World Task
  drained w = after_drain w (drain_end w.pool)

  abbrev pub after_join_start : World Task → JoinTurn Task → World Task
  after_join_start w (returns status) = w
  after_join_start w waits_for_join = w
  after_join_start w (joins pool) = record w { pool = pool }

  abbrev pub after_take : World Task → ℕ → WorkerTurn Task → World Task
  after_take w index waits = w
  after_take w index (exits pool) = record w { pool = pool; workers = set w.workers index gone }
  after_take w index (takes task pool) = record w {
    pool = pool;
    workers = set w.workers index (busy task);
    left = w.left ++ of_option task;
  }

  abbrev pub all_gone : List (Worker Task) → Bool
  all_gone [] = true
  all_gone (gone ∷ ws) = all_gone ws
  all_gone (idle ∷ ws) = false
  all_gone (busy t ∷ ws) = false

  -- A step of some thread. The cancelling part of `drainUntil` comes after its `close`, the last part
  -- of `join` when every worker thread has ended; a worker finishes the task that it has.
  pub data Step : World Task → World Task → Type ℓ where
    submits : (w : World Task) (task : Option Task) → Step w (submitted w task)
    closes : (w : World Task) → Step w (record w { pool = close w.pool })
    drains : (w : World Task) → Step w (record w { pool = (drain_start w.pool).0 })
    cancels : (w : World Task) → w.pool.accepting ≡ false → Step w (drained w)
    starts_join :
        (w : World Task) (thread : ℕ) → Step w (after_join_start w (join_start w.pool thread))
    ends_join :
        (w : World Task)
        → w.pool.join_in_progress ≡ true
        → all_gone w.workers ≡ true
        → Step w (record w { pool = join_end w.pool })
    registers :
        (w : World Task) (index thread : ℕ)
        → Step w (record w { pool = register_worker w.pool index thread })
    polls :
        (w : World Task) (index : ℕ)
        → get_elem? w.workers index ≡ some idle
        → Step w (after_take w index (take_task w.pool index))
    finishes :
        (w : World Task) (index : ℕ) (task : Option Task)
        → get_elem? w.workers index ≡ some (busy task)
        → Step w (record w { pool = finish_task w.pool; workers = set w.workers index idle })

  pub data Steps : World Task → World Task → Type ℓ where
    halts : (w : World Task) → Steps w w
    steps : {u v w : World Task} → Step u v → Steps v w → Steps u w

  -- The world when the constructor has started its threads.
  abbrev pub started : BoundedWorkerPool Task → World Task
  started pool = record {
    pool = pool;
    workers = replicate pool.config.thread_count idle;
    taken_in = [];
    left = [];
  }
