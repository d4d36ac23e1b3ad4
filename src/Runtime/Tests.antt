-- ===== src/Runtime/Tests.antt =====
-- The worker pool (src/runtime) at concrete inputs.
use aegis_flow.Prelude.{ℕ, ◌<◌, ◌≡◌, refl, true, some, [], ◌∷◌, arith}
use aegis_flow.Runtime.WorkerPool.{
  BoundedWorkerPoolConfig, closed, fresh_pool, close, try_submit, take_task, finish_task,
  join_start, join_end,
}
use aegis_flow.Runtime.WorkerPool.Threads.{
  World, idle, submitted, after_take, after_join_start, all_gone, Step, submits, closes,
  starts_join, ends_join, polls, finishes, Steps, halts, steps, started,
}
use aegis_flow.Runtime.WorkerPool.Workers.{at_work}
use aegis_flow.Runtime.WorkerPool.Ledger.{IsSound}
use aegis_flow.Runtime.WorkerPool.Reachable.{Steps-IsSound}
use aegis_flow.Runtime.WorkerPool.Shutdown.{
  stopped_is_done, nothing_after_close, steps_left, worker_turn, closed-worker_turn, closed_ends,
}

-- One worker, one slot.
abbrev config : BoundedWorkerPoolConfig
config = record { thread_count = 1; queue_capacity = 1 }

-- A task comes in, and the pool is closed.
abbrev with_task : World ℕ
with_task = submitted (started (fresh_pool config)) (some 5)

abbrev shut : World ℕ
shut = record with_task { pool = close with_task.pool }

shutting : Steps (started (fresh_pool config)) shut
shutting = steps (submits _ (some 5)) (steps (closes _) (halts _))

Steps-IsSound_example : IsSound shut
Steps-IsSound_example = Steps-IsSound config shut refl (omega arith) shutting

abbrev working : World ℕ
working = after_take shut 0 (take_task shut.pool 0)

abbrev finished : World ℕ
finished = record working { pool = finish_task working.pool; workers = idle ∷ [] }

abbrev alone : World ℕ
alone = after_take finished 0 (take_task finished.pool 0)

abbrev joining : World ℕ
joining = after_join_start alone (join_start alone.pool 9)

abbrev joined : World ℕ
joined = record joining { pool = join_end joining.pool }

shut_up : Steps (started (fresh_pool config)) joined
unfolding try_submit close take_task finish_task join_start join_end
shut_up = steps (submits _ (some 5)) (
    steps (closes _) (
      steps (polls shut 0 refl) (
        steps (finishes working 0 (some 5) refl) (
          steps (polls finished 0 refl)
            (steps (starts_join alone 9) (steps (ends_join joining refl refl) (halts joined)))))))

stopped_is_done_example :
    (joined.taken_in ≡ joined.left) × (at_work joined.workers ≡ 0) × (joined.pool.inflight ≡ 0)
unfolding join_end
stopped_is_done_example = stopped_is_done config joined refl (omega arith) shut_up refl

nothing_after_close_example :
    (working.taken_in ≡ shut.taken_in) × (try_submit working.pool (some 6) ≡ (working.pool, closed))
unfolding try_submit close
nothing_after_close_example =
    nothing_after_close shut working (some 6) (steps (polls shut 0 refl) (halts working)) refl

closed-worker_turn_example :
    Step shut (worker_turn shut 0 idle) × (steps_left (worker_turn shut 0 idle) < steps_left shut)
unfolding try_submit close
closed-worker_turn_example = closed-worker_turn shut 0 idle refl refl refl

closed_ends_example : (w : World ℕ) × Steps shut w × (all_gone w.workers ≡ true)
unfolding try_submit close
closed_ends_example = closed_ends shut refl
