-- ===== src/Runtime/WorkerPool.antt =====
-- bounded_worker_pool.hpp and bounded_worker_pool.cpp (include/aegisflow/runtime, src/runtime), one
-- function per section that holds the lock.
use aegis_flow.Prelude.{
  ℕ, zero, suc, ◌+◌, ◌-◌, ◌%◌, ◌≡◌, Bool, true, false, not, ◌&&◌, ◌||◌, Option, none, some, List,
  [], ◌∷◌, get_elem?, set, length, replicate, ltb, leb, ◌==◌, if◌then◌else◌, add_size, sub_size,
}
use aegis_flow.Runtime.Ring.{Ring, new_ring, put, front, advance, take_front}
pub mod Cases
pub mod Threads
pub mod Workers
pub mod Cancelling
pub mod Ledger
pub mod Accepting
pub mod Taking
pub mod Reachable
pub mod Shutdown

pub data WorkerSubmitStatus : Type 0 where
  accepted rejected closed : WorkerSubmitStatus

pub data WorkerPoolStatus : Type 0 where
  ok invalid_state deadline_exceeded self_join : WorkerPoolStatus

pub record BoundedWorkerPoolConfig : Type 0 where
  pub thread_count : ℕ
  pub queue_capacity : ℕ

pub data PoolState : Type 0 where
  running closing stopped : PoolState

-- `queue` is the ring of `queue_`, `queue_head_`, `queue_tail_` and `queue_size_`; a thread is named
-- by a number; `stop_requested` is the flag that the stop tokens share.
pub record BoundedWorkerPool {ℓ} (Task : Type ℓ) : Type ℓ where
  pub config : BoundedWorkerPoolConfig
  pub queue : Ring Task
  pub cancel_buffer : List (Option Task)
  pub worker_ids : List (Option ℕ)
  pub stop_requested : Bool
  pub inflight : ℕ
  pub accepting : Bool
  pub join_in_progress : Bool
  pub join_status : WorkerPoolStatus
  pub state : PoolState

abbrev pub valid_config : BoundedWorkerPoolConfig → Bool
valid_config config = ltb 0 config.thread_count && ltb 0 config.queue_capacity

-- Whether a thread is among the workers.
abbrev pub is_worker_thread : List (Option ℕ) → ℕ → Bool
is_worker_thread [] id = false
is_worker_thread (none ∷ ids) id = is_worker_thread ids id
is_worker_thread (some other ∷ ids) id = (other == id) || is_worker_thread ids id

-- How the first locked section of `join` ends: it returns, waits for another `join`, or goes on to
-- join the threads.
pub data JoinTurn {ℓ} (Task : Type ℓ) : Type ℓ where
  returns : WorkerPoolStatus → JoinTurn Task
  waits_for_join : JoinTurn Task
  joins : BoundedWorkerPool Task → JoinTurn Task

-- How the first locked section of a turn of `workerLoop` ends.
pub data WorkerTurn {ℓ} (Task : Type ℓ) : Type ℓ where
  waits : WorkerTurn Task
  exits : BoundedWorkerPool Task → WorkerTurn Task
  takes : Option Task → BoundedWorkerPool Task → WorkerTurn Task

module _ {ℓ} {Task : Type ℓ} where
  abbrev pub fresh_pool : BoundedWorkerPoolConfig → BoundedWorkerPool Task
  fresh_pool config = record {
    config = config;
    queue = new_ring config.queue_capacity;
    cancel_buffer = replicate config.queue_capacity none;
    worker_ids = replicate config.thread_count none;
    stop_requested = false;
    inflight = 0;
    accepting = true;
    join_in_progress = false;
    join_status = ok;
    state = running;
  }

  unfoldable pub new_pool : BoundedWorkerPoolConfig → Option (BoundedWorkerPool Task)
  new_pool config = if not (valid_config config) then none else some (fresh_pool config)

  unfoldable pub try_submit :
      BoundedWorkerPool Task → Option Task → BoundedWorkerPool Task × WorkerSubmitStatus
  unfolding put
  try_submit s task = if not s.accepting then (s, closed) else elim task [
    | none ↦ (s, rejected)
    | some t ↦
        if leb s.config.queue_capacity s.queue.size
        then (s, rejected)
        else (record s { queue = put s.queue t; inflight = add_size s.inflight 1 }, accepted)
  ]

  unfoldable pub close : BoundedWorkerPool Task → BoundedWorkerPool Task
  close s = if not s.accepting then s else record s { accepting = false; state = closing }

  -- `drainUntil` up to where it waits for the deadline; with a status where it returns before.
  unfoldable pub drain_start :
      BoundedWorkerPool Task → BoundedWorkerPool Task × Option WorkerPoolStatus
  unfolding close
  drain_start s =
      let s1 = close s in
      (s1, elim s1.state [ stopped ↦ some ok | _ ↦ if s1.inflight == 0 then some ok else none ])

  -- The loop of `drainUntil` over the slots.
  unfoldable pub move_to_cancel_buffer :
      ℕ → ℕ → Ring Task → List (Option Task) → Ring Task × List (Option Task)
  move_to_cancel_buffer zero index queue buffer = (queue, buffer)
  move_to_cancel_buffer (suc rest) index queue buffer =
      move_to_cancel_buffer rest (suc index) (advance queue) (set buffer index (front queue))

  -- `drainUntil` from the end of its wait: the number of tasks it has cancelled and will destroy.
  unfoldable pub drain_end : BoundedWorkerPool Task → BoundedWorkerPool Task × WorkerPoolStatus × ℕ
  unfolding move_to_cancel_buffer
  drain_end s =
      if s.inflight == 0
      then (s, ok, 0)
      else let cancelled_now = s.queue.size in
        let (queue, buffer) = move_to_cancel_buffer cancelled_now 0 s.queue s.cancel_buffer in
        (
          record s {
            queue = record queue { size = 0; tail = queue.head };
            cancel_buffer = buffer;
            inflight = sub_size s.inflight cancelled_now;
            stop_requested = true;
          },
          deadline_exceeded,
          cancelled_now,
        )

  -- `join` by the state of the pool.
  abbrev pub join_in_state : BoundedWorkerPool Task → PoolState → JoinTurn Task
  join_in_state s running = returns invalid_state
  join_in_state s closing =
      if s.join_in_progress then waits_for_join else joins (record s { join_in_progress = true })
  join_in_state s stopped = if s.join_in_progress then waits_for_join else returns s.join_status

  unfoldable pub join_start : BoundedWorkerPool Task → ℕ → JoinTurn Task
  join_start s thread =
      if is_worker_thread s.worker_ids thread then returns self_join else join_in_state s s.state

  -- `join` once every thread has ended.
  unfoldable pub join_end : BoundedWorkerPool Task → BoundedWorkerPool Task
  join_end s = record s { state = stopped; join_status = ok; join_in_progress = false }

  unfoldable pub register_worker : BoundedWorkerPool Task → ℕ → ℕ → BoundedWorkerPool Task
  register_worker s index thread = record s { worker_ids = set s.worker_ids index (some thread) }

  -- What `workerLoop` does with the lock to get a task; it waits where the predicate of its wait does
  -- not hold.
  unfoldable pub take_task : BoundedWorkerPool Task → ℕ → WorkerTurn Task
  unfolding take_front
  take_task s index =
      if not (not s.accepting || ltb 0 s.queue.size)
      then waits
      else if s.queue.size == 0
      then if not s.accepting
        then exits (record s { worker_ids = set s.worker_ids index none })
        else waits
      else takes (front s.queue) (record s { queue = take_front s.queue })

  -- A task has run to its end, or has thrown.
  unfoldable pub finish_task : BoundedWorkerPool Task → BoundedWorkerPool Task
  finish_task s = record s { inflight = sub_size s.inflight 1 }
