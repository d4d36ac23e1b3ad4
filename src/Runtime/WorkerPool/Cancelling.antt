-- ===== src/Runtime/WorkerPool/Cancelling.antt =====
-- What `drainUntil` of bounded_worker_pool.cpp (src/runtime) takes out of the queue.
use aegis_flow.Prelude.{
  ℕ, zero, suc, ◌+◌, ◌≤◌, ◌<◌, ◌≡◌, ◌≢◌, refl, ap, ◌∙◌, Option, none, some, List, [], ◌∷◌, ◌++◌,
  arith, get_elem?, set, length, length-set, get_elem?-set_self, get_elem?-set_ne,
}
use aegis_flow.Runtime.Ring.{Ring, in_slot, front, take_front, advance}
use aegis_flow.Runtime.Ring.Order.{Holds, take_front-Holds}
use aegis_flow.Runtime.WorkerPool.{move_to_cancel_buffer}
use aegis_flow.Runtime.WorkerPool.Threads.{of_option, cancelled}

module _ {ℓ} {Task : Type ℓ} where
  abbrev pub sized : Ring Task → ℕ → Ring Task
  sized q n = record q { size = n }

  pub resize : (q : Ring Task) (xs : List Task) → Holds q xs → Holds (sized q (length xs)) xs
  resize q xs k = record {
    some_slots = k.some_slots;
    head_fits = k.head_fits;
    fits = k.fits;
    sized = refl;
    tail_at = k.tail_at;
    held = k.held;
  }

  advance-Holds :
      (q : Ring Task) (x : Task) (xs : List Task)
      → Holds (sized q (length (x ∷ xs))) (x ∷ xs)
      → Holds (sized (advance q) (length xs)) xs
  unfolding take_front
  advance-Holds q x xs k =
      resize (take_front (sized q (length (x ∷ xs)))) xs
        (take_front-Holds (sized q (length (x ∷ xs))) x xs k).1

  -- Slots of the buffer before the index are not touched.
  move-earlier :
      (n index : ℕ) (q : Ring Task) (buffer : List (Option Task)) (j : ℕ)
      → j < index
      → get_elem? (move_to_cancel_buffer n index q buffer).1 j ≡ get_elem? buffer j
  unfolding move_to_cancel_buffer
  move-earlier zero index q buffer j h = refl
  move-earlier (suc n) index q buffer j h =
      let other : index ≢ j = ground arith in
      move-earlier n (suc index) (advance q) (set buffer index (front q)) j (omega arith)
      ∙ get_elem?-set_ne buffer (front q) other

  pub move-buffer_length :
      (n index : ℕ) (q : Ring Task) (buffer : List (Option Task))
      → length (move_to_cancel_buffer n index q buffer).1 ≡ length buffer
  unfolding move_to_cancel_buffer
  move-buffer_length zero index q buffer = refl
  move-buffer_length (suc n) index q buffer =
      move-buffer_length n (suc index) (advance q) (set buffer index (front q))
      ∙ length-set buffer index (front q)

  pub move-slots_length :
      (n index : ℕ) (q : Ring Task) (buffer : List (Option Task))
      → length (move_to_cancel_buffer n index q buffer).0.slots ≡ length q.slots
  unfolding move_to_cancel_buffer
  move-slots_length zero index q buffer = refl
  move-slots_length (suc n) index q buffer =
      move-slots_length n (suc index) (advance q) (set buffer index (front q))
      ∙ length-set q.slots q.head none

  -- The loop empties the queue into the buffer, in order.
  pub move-cancelled :
      (xs : List Task) (index : ℕ) (q : Ring Task) (buffer : List (Option Task))
      → Holds (sized q (length xs)) xs
      → index + length xs ≤ length buffer
      → (cancelled (length xs) index (move_to_cancel_buffer (length xs) index q buffer).1 ≡ xs)
        × Holds
            (record (move_to_cancel_buffer (length xs) index q buffer).0 {
              size = 0;
              tail = (move_to_cancel_buffer (length xs) index q buffer).0.head;
            })
            []
  unfolding move_to_cancel_buffer
  move-cancelled [] index q buffer k room = (
    refl,
    record {
      some_slots = k.some_slots;
      head_fits = k.head_fits;
      fits = omega arith;
      sized = refl;
      tail_at = ground (arith, k.head_fits);
      held = λ i short. elim short [ ];
    },
  )
  move-cancelled (x ∷ xs) index q buffer k room =
      let buffer1 = set buffer index (front q) in
      let rest =
        move-cancelled xs (suc index) (advance q) buffer1 (advance-Holds q x xs k)
          (omega (arith, length-set buffer index (front q))) in
      let first = (take_front-Holds (sized q (length (x ∷ xs))) x xs k).0 in
      let here : get_elem? (move_to_cancel_buffer (length xs) (suc index) (advance q) buffer1).1
            index
          ≡ some (some x) =
        move-earlier (length xs) (suc index) (advance q) buffer1 index (omega arith)
        ∙ get_elem?-set_self buffer index (front q) (omega arith)
        ∙ ap some first in
      (
        ap
              (λ o.
                of_option (in_slot o)
                ++ cancelled (length xs) (suc index)
                    (move_to_cancel_buffer (length xs) (suc index) (advance q) buffer1).1)
              here
            ∙ ap (λ ys. x ∷ ys) rest.0,
        rest.1,
      )
