-- ===== src/Net/Mailbox/Timeouts/Noticed.antt =====
-- No timeout that `TimeoutMailbox` of loop_mailbox.cpp (src/net) has taken in goes unnoticed.
use aegis_flow.Prelude.{
  ℕ, ◌<◌, ◌≡◌, refl, sym, ap, subst, ◌∙◌, inl, inr, Bool, true, false, List, [], ◌∷◌, ◌++◌, arith,
  length, ◌==◌, append_assoc, append-nil,
}
use aegis_flow.Runtime.Ring.{Ring, put, unput, take_front}
use aegis_flow.Runtime.Ring.Order.{Holds, new_ring-Holds, put-Holds, unput-Holds, take_front-Holds}
use aegis_flow.Timer.Types.{TimerEvent}
use aegis_flow.Net.Mailbox.Timeouts.{TimeoutMailbox, fresh_mailbox, try_post, try_pop, clear, close}
use aegis_flow.Net.Mailbox.Timeouts.Runs.{
  Call, Trace, after_post, after_pop, step, follow, run, IsCalm, PostCase, try_post-PostCase,
  try_pop_empty, IsCalm-later, run_uneasy, posts, pops, rescans, closes,
}

-- After a trace the mailbox is the queue of some events, and while it is calm none is missing: what
-- waited and what came in is, in order, what was handed out and what waits.
abbrev pub Noticed : List TimerEvent → Trace → Type 0
Noticed events t =
    (waiting : List TimerEvent) × Holds t.mailbox.queue waiting
    × (IsCalm t → events ++ t.taken_in ≡ t.given ++ waiting)

-- What follows a step, put in front of what the step does.
module _ (calls : List Call)
    (later : (m : TimeoutMailbox) (events : List TimerEvent)
      → Holds m.queue events
      → Noticed events (run m calls)) where
  post-Noticed :
      (m : TimeoutMailbox) (event : TimerEvent) (events : List TimerEvent)
      (r : TimeoutMailbox × Bool)
      → Holds m.queue events
      → PostCase m event r
      → Noticed events (follow (after_post event r) (run r.0 calls))
  post-Noticed m event events r k (inl e) =
      subst (λ r. Noticed events (follow (after_post event r) (run r.0 calls))) (sym e)
        (later m events k)
  post-Noticed m event events r k (inr (inl (posted, e))) =
      let asked : TimeoutMailbox = record m { rescan_required = true } in
      let (waiting, holds, _) = later asked events k in
      subst (λ r. Noticed events (follow (after_post event r) (run r.0 calls))) (sym e)
        (waiting, holds, λ calm. absurd (run_uneasy asked calls (inr refl) calm))
  post-Noticed m event events r k (inr (inr (room, inl e))) =
      let with_it : TimeoutMailbox = record m { queue = put m.queue event } in
      let space : m.queue.size < length m.queue.slots = ground (arith, room, k.sized, k.fits) in
      let (waiting, holds, order) =
        later with_it (events ++ (event ∷ [])) (put-Holds m.queue event events k space) in
      subst (λ r. Noticed events (follow (after_post event r) (run r.0 calls))) (sym e)
        (
          waiting,
          holds,
          λ calm. sym (append_assoc events (event ∷ []) (run with_it calls).taken_in) ∙ order calm,
        )
  post-Noticed m event events r k (inr (inr (room, inr e))) =
      let without_it : TimeoutMailbox = record m {
        queue = unput (put m.queue event) m.queue.tail;
      } in
      let space : m.queue.size < length m.queue.slots = ground (arith, room, k.sized, k.fits) in
      subst (λ r. Noticed events (follow (after_post event r) (run r.0 calls))) (sym e)
        (later without_it events (unput-Holds m.queue event events k space))

  pop-Noticed :
      (m : TimeoutMailbox) (events : List TimerEvent)
      → Holds m.queue events
      → Noticed events (run m (pops ∷ calls))
  unfolding try_pop
  pop-Noticed m [] k =
      subst (λ r. Noticed [] (follow (after_pop r) (run (after_pop r).mailbox calls)))
        (sym (try_pop_empty m k.sized)) (later m [] k)
  pop-Noticed m (event ∷ events) k =
      let (first, rest) = take_front-Holds m.queue event events k in
      let some_there : (m.queue.size == 0) ≡ false = ground (arith, k.sized) in
      let (waiting, holds, order) = later (record m { queue = take_front m.queue }) events rest in
      rw (some_there, first) (waiting, holds, λ calm. ap (λ es. event ∷ es) (order calm))

clear-Holds :
    (q : Ring TimerEvent) (events : List TimerEvent)
    → Holds q events
    → Holds (clear (length events) q) []
unfolding clear
clear-Holds q [] k = k
clear-Holds q (event ∷ events) k =
    clear-Holds (take_front q) events (take_front-Holds q event events k).1

close-Holds :
    (m : TimeoutMailbox) (events : List TimerEvent)
    → Holds m.queue events
    → Holds (close m).queue []
unfolding close
close-Holds m events k =
    let empty : Holds (clear m.queue.size m.queue) [] =
      subst (λ n. Holds (clear n m.queue) []) (sym k.sized) (clear-Holds m.queue events k) in
    record {
      some_slots = empty.some_slots;
      head_fits = empty.head_fits;
      fits = empty.fits;
      sized = empty.sized;
      tail_at = ground (arith, empty.head_fits);
      held = empty.held;
    }

close-shut : (m : TimeoutMailbox) → (close m).accepting ≡ false
unfolding close
close-shut m = refl

kept-Noticed :
    (m : TimeoutMailbox) (events : List TimerEvent) (calls : List Call)
    → Holds m.queue events
    → Noticed events (run m calls)
kept-Noticed m events [] k = (events, k, λ calm. append-nil events)
kept-Noticed m events (posts event wake ∷ calls) k =
    post-Noticed calls (λ m es. kept-Noticed m es calls) m event events (try_post m event wake) k
      (try_post-PostCase m event wake)
kept-Noticed m events (pops ∷ calls) k =
    pop-Noticed calls (λ m es. kept-Noticed m es calls) m events k
kept-Noticed m events (rescans ∷ calls) k =
    let (waiting, holds, order) =
      kept-Noticed (record m { rescan_required = false }) events calls k in
    (
      waiting,
      holds,
      λ calm. order (IsCalm-later (step m rescans) (run (step m rescans).mailbox calls) calm).1,
    )
kept-Noticed m events (closes ∷ calls) k =
    let (waiting, holds, _) = kept-Noticed (close m) [] calls (close-Holds m events k) in
    (waiting, holds, λ calm. absurd (run_uneasy (close m) calls (inl (close-shut m)) calm))

-- From a new mailbox on, under any calls: while the mailbox is open and no rescan has been asked for,
-- the events taken in are, in order, those handed out and those that wait. So an event that is taken
-- in and is not kept is one for which the loop is told to look at all its deadlines.
pub run-Noticed :
    (capacity : ℕ) (calls : List Call)
    → 0 < capacity
    → Noticed [] (run (fresh_mailbox capacity) calls)
run-Noticed capacity calls some_room =
    kept-Noticed (fresh_mailbox capacity) [] calls (new_ring-Holds capacity some_room)
