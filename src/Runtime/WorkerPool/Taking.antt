-- ===== src/Runtime/WorkerPool/Taking.antt =====
-- The books of bounded_worker_pool.cpp (src/runtime) as its workers take and finish tasks.
use aegis_flow.Prelude.{
  ℕ, ◌<◌, ◌≡◌, ◌≢◌, sym, subst, ◌∙◌, inl, inr, false, Option, none, some, List, [], ◌∷◌, arith,
  get_elem?, set, length-set, append_assoc,
}
use aegis_flow.Runtime.Ring.{front, take_front}
use aegis_flow.Runtime.Ring.Order.{take_front-Holds}
use aegis_flow.Runtime.WorkerPool.{takes, take_task, finish_task}
use aegis_flow.Runtime.WorkerPool.Threads.{idle, busy, gone, World, after_take}
use aegis_flow.Runtime.WorkerPool.Cases.{take_task-cases}
use aegis_flow.Runtime.WorkerPool.Workers.{at_work-set, some_gone-set}
use aegis_flow.Runtime.WorkerPool.Ledger.{IsSettled, IsSound, in_bounds, someone_left}

module _ {ℓ} {Task : Type ℓ} where
  exit-IsSettled :
      (w : World Task) (index : ℕ) (ids : List (Option ℕ)) (waiting : List Task)
      → get_elem? w.workers index ≡ some idle
      → w.pool.accepting ≡ false
      → w.pool.queue.size ≡ 0
      → IsSettled w waiting
      → IsSettled
          (record w {
            pool = record w.pool { worker_ids = ids };
            workers = set w.workers index gone;
          })
          waiting
  exit-IsSettled w index ids waiting at shut none_there k =
      let counts = at_work-set w.workers index idle gone at in
      record {
        holds = k.holds;
        ledger = k.ledger;
        counted = omega (arith, k.counted, counts);
        slots = k.slots;
        buffer = k.buffer;
        threads = length-set w.workers index gone ∙ k.threads;
        some_threads = k.some_threads;
        room = k.room;
        empty = λ e. (shut, ground (arith, k.holds.sized));
        opened = k.opened;
        over = λ s. absurd (someone_left w waiting index idle at (λ h. ground arith) k s);
      }

  nothing_waits : {x : Task} {xs : List Task} → x ∷ xs ≢ []
  nothing_waits e = ground arith

  take-IsSound :
      (w : World Task) (index : ℕ) (waiting : List Task)
      → get_elem? w.workers index ≡ some idle
      → 0 < w.pool.queue.size
      → IsSettled w waiting
      → IsSound (
          after_take w index
            (takes (front w.pool.queue) (record w.pool { queue = take_front w.pool.queue })))
  unfolding take_front
  take-IsSound w index [] at some_there k = absurd (ground (arith, k.holds.sized))
  take-IsSound w index (x ∷ waiting) at some_there k =
      let (first, rest) = take_front-Holds w.pool.queue x waiting k.holds in
      let counts = at_work-set w.workers index idle (busy (some x)) at in
      subst
        (λ o.
          IsSound
            (after_take w index (takes o (record w.pool { queue = take_front w.pool.queue }))))
        (sym first)
        (
          waiting,
          record {
            holds = rest;
            ledger = k.ledger ∙ sym (append_assoc w.left (x ∷ []) waiting);
            counted = omega (arith, k.counted, counts);
            slots = length-set w.pool.queue.slots w.pool.queue.head none ∙ k.slots;
            buffer = k.buffer;
            threads = length-set w.workers index (busy (some x)) ∙ k.threads;
            some_threads = k.some_threads;
            room = k.room;
            empty = λ g. elim (some_gone-set w.workers index (busy (some x)) g) [
              | inl h ↦ absurd (nothing_waits (k.empty h).1)
              | inr h ↦ absurd (ground arith)
            ];
            opened = k.opened;
            over = λ s. absurd (someone_left w (x ∷ waiting) index idle at (λ h. ground arith) k s);
          },
        )

  pub polls-IsSound :
      (w : World Task) (index : ℕ)
      → get_elem? w.workers index ≡ some idle
      → IsSound w
      → IsSound (after_take w index (take_task w.pool index))
  polls-IsSound w index at (waiting, k) = elim (take_task-cases w.pool index) [
    | inl (e, _, _) ↦ subst (λ t. IsSound (after_take w index t)) (sym e) (waiting, k)
    | inr (inl (shut, none_there, e)) ↦
        subst (λ t. IsSound (after_take w index t)) (sym e)
          (
            waiting,
            exit-IsSettled w index (set w.pool.worker_ids index none) waiting at shut none_there k,
          )
    | inr (inr (some_there, e)) ↦
        subst (λ t. IsSound (after_take w index t)) (sym e)
          (take-IsSound w index waiting at some_there k)
  ]

  pub finish-IsSettled :
      (w : World Task) (index : ℕ) (task : Option Task) (waiting : List Task)
      → get_elem? w.workers index ≡ some (busy task)
      → IsSettled w waiting
      → IsSettled
          (record w { pool = finish_task w.pool; workers = set w.workers index idle })
          waiting
  unfolding finish_task
  finish-IsSettled w index task waiting at k =
      let counts = at_work-set w.workers index (busy task) idle at in
      record {
        holds = k.holds;
        ledger = k.ledger;
        counted = omega (arith, k.counted, counts, in_bounds w waiting k);
        slots = k.slots;
        buffer = k.buffer;
        threads = omega (arith, k.threads, length-set w.workers index idle);
        some_threads = k.some_threads;
        room = k.room;
        empty = λ e. elim (some_gone-set w.workers index idle e) [
          | inl g ↦ k.empty g
          | inr g ↦ absurd (ground arith)
        ];
        opened = k.opened;
        over = λ s. absurd (someone_left w waiting index (busy task) at (λ h. ground arith) k s);
      }
