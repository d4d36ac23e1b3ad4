-- ===== src/Runtime/WorkerPool/Accepting.antt =====
-- The books of bounded_worker_pool.cpp (src/runtime) as tasks come in and are cancelled.
use aegis_flow.Prelude.{
  ◌<◌, ◌≡◌, refl, sym, ap, subst, ◌∙◌, inl, inr, true, false, not, Option, some, List, [], ◌∷◌,
  ◌++◌, arith, length, length-set, length-append, ◌==◌, if◌then◌else◌, Bool-cases, add_size,
  append_assoc, append-nil,
}
use aegis_flow.Runtime.Ring.{put}
use aegis_flow.Runtime.Ring.Order.{put-Holds}
use aegis_flow.Runtime.WorkerPool.{
  WorkerSubmitStatus, accepted, rejected, closed, closing, close, drain_end,
}
use aegis_flow.Runtime.WorkerPool.Threads.{World, submitted, if_accepted, drained, booked}
use aegis_flow.Runtime.WorkerPool.Cases.{try_submit-cases}
use aegis_flow.Runtime.WorkerPool.Workers.{at_work-length}
use aegis_flow.Runtime.WorkerPool.Cancelling.{
  sized, resize, move-cancelled, move-buffer_length, move-slots_length,
}
use aegis_flow.Runtime.WorkerPool.Ledger.{IsSettled, IsSound, in_bounds, same_books}

module _ {ℓ} {Task : Type ℓ} where
  pub close-IsSettled :
      (w : World Task) (waiting : List Task)
      → IsSettled w waiting
      → IsSettled (record w { pool = close w.pool }) waiting
  unfolding close
  close-IsSettled w waiting k = elim (Bool-cases w.pool.accepting) [
    | inl e ↦
        subst
          (λ b.
            IsSettled
              (record w {
                pool =
                    if not b then w.pool else record w.pool { accepting = false; state = closing };
              })
              waiting)
          (sym e)
          (same_books w waiting w.pool.worker_ids false w.pool.join_in_progress w.pool.join_status
            closing (λ h. ground arith) (λ h. ground arith) (λ h. ground arith) k)
    | inr e ↦
        subst
          (λ b.
            IsSettled
              (record w {
                pool =
                    if not b then w.pool else record w.pool { accepting = false; state = closing };
              })
              waiting)
          (sym e) k
  ]

  not_booked :
      (w : World Task) (status : WorkerSubmitStatus) (task : Option Task)
      → if_accepted status task ≡ []
      → IsSound w
      → IsSound (booked w (w.pool, status) task)
  not_booked w status task none_in sound =
      subst (λ ts. IsSound (record w { taken_in = ts }))
        (sym (ap (λ ts. w.taken_in ++ ts) none_in ∙ append-nil w.taken_in)) sound

  booked-IsSettled :
      (w : World Task) (t : Task) (waiting : List Task)
      → w.pool.accepting ≡ true
      → w.pool.queue.size < w.pool.config.queue_capacity
      → IsSettled w waiting
      → IsSettled
          (booked w
            (
              record w.pool { queue = put w.pool.queue t; inflight = add_size w.pool.inflight 1 },
              accepted,
            )
            (some t))
          (waiting ++ (t ∷ []))
  unfolding put
  booked-IsSettled w t waiting opened space k = record {
    holds = put-Holds w.pool.queue t waiting k.holds (omega (arith, k.slots));
    ledger = ap (λ ts. ts ++ (t ∷ [])) k.ledger ∙ append_assoc w.left waiting (t ∷ []);
    counted = omega (
      arith,
      k.counted,
      length-append waiting (t ∷ []),
      k.holds.sized,
      k.room,
      k.threads,
      at_work-length w.workers,
    );
    slots = length-set w.pool.queue.slots w.pool.queue.tail (some t) ∙ k.slots;
    buffer = k.buffer;
    threads = k.threads;
    some_threads = k.some_threads;
    room = k.room;
    empty = λ e. ground (arith, k.empty e);
    opened = k.opened;
    over = k.over;
  }

  pub submit-IsSound :
      (w : World Task) (task : Option Task) → IsSound w → IsSound (submitted w task)
  submit-IsSound w task (waiting, k) = elim (try_submit-cases w.pool task) [
    | inl (inl e) ↦
        subst (λ r. IsSound (booked w r task)) (sym e) (not_booked w closed task refl (waiting, k))
    | inl (inr e) ↦
        subst (λ r. IsSound (booked w r task)) (sym e)
          (not_booked w rejected task refl (waiting, k))
    | inr (t, is_task, space, opened, e) ↦
        subst (λ r. IsSound (booked w r task)) (sym e)
          (subst
            (λ o. IsSound (
              booked w
                (
                  record w.pool {
                    queue = put w.pool.queue t;
                    inflight = add_size w.pool.inflight 1;
                  },
                  accepted,
                )
                o))
            (sym is_task) (waiting ++ (t ∷ []), booked-IsSettled w t waiting opened space k))
  ]

  pub drained-IsSettled :
      (w : World Task) (waiting : List Task) → IsSettled w waiting → IsSound (drained w)
  unfolding drain_end
  drained-IsSettled w waiting k = elim (Bool-cases (w.pool.inflight == 0)) [
    | inl e ↦ rw e (
      waiting,
      subst (λ ts. IsSettled (record w { left = ts }) waiting) (sym (append-nil w.left)) k,
    )
    | inr e ↦
        rw (e, k.holds.sized)
          (let q = sized w.pool.queue (length waiting) in
            let n = length waiting in
            let buffer = w.pool.cancel_buffer in
            let m =
              move-cancelled waiting 0 q buffer (resize w.pool.queue waiting k.holds)
                (omega (arith, k.holds.fits, k.slots, k.buffer)) in
            (
              [],
              record {
                holds = m.1;
                ledger = k.ledger ∙ ap (λ ts. w.left ++ ts) (sym m.0) ∙ sym (append-nil _);
                counted = omega (arith, k.counted, in_bounds w waiting k);
                slots = move-slots_length n 0 q buffer ∙ k.slots;
                buffer = move-buffer_length n 0 q buffer ∙ k.buffer;
                threads = k.threads;
                some_threads = k.some_threads;
                room = k.room;
                empty = λ g. ((k.empty g).0, refl);
                opened = k.opened;
                over = k.over;
              },
            ))
  ]
