-- ===== src/Net/Mailbox/Completions/Delivery.antt =====
-- No completion that `LoopMailbox` of loop_mailbox.cpp (src/net) has taken in is lost, doubled or
-- overtaken.
use aegis_flow.Prelude.{
  ℕ, ◌<◌, ◌≡◌, ◌^◌, refl, sym, ap, subst, ◌∙◌, inl, inr, Bool, true, false, Option, none, some,
  List, [], ◌∷◌, ◌++◌, arith, length, append_assoc, append-nil, if◌then◌else◌, Bool-cases, ltb,
}
use aegis_flow.Runtime.Ring.Order.{new_ring-Holds}
use aegis_flow.Net.Completion.{BusinessCompletion, valid_completion}
use aegis_flow.Net.Mailbox.Wake.{WakeWrite}
use aegis_flow.Net.Mailbox.Completions.{
  LoopMailbox, fresh_mailbox, bad_capacities, try_post, try_pop, close,
}
use aegis_flow.Net.Mailbox.Completions.Posting.{
  IsKept, KeptAfter, try_post-refines, try_pop-refines, try_pop_empty, close-IsKept,
}

pub data Call : Type 0 where
  posts : BusinessCompletion → WakeWrite → Call
  pops : Call
  closes : Call

abbrev pub Trace : Type 0
Trace = LoopMailbox × List BusinessCompletion × List BusinessCompletion

abbrev pub after_post : BusinessCompletion → LoopMailbox × Bool → Trace
after_post c (m, posted) = (m, if posted then c ∷ [] else [], [])

abbrev pub after_pop : LoopMailbox × Option BusinessCompletion → Trace
after_pop (m, none) = (m, [], [])
after_pop (m, some c) = (m, [], c ∷ [])

-- The mailbox after a call, with what the call took in and what it handed out.
abbrev pub step : LoopMailbox → Call → Trace
step m (posts c wake) = after_post c (try_post m c wake)
step m pops = after_pop (try_pop m)
step m closes = (close m, [], [])

-- The calls of all threads, in the order in which they get the lock.
abbrev pub run : LoopMailbox → List Call → Trace
run m [] = (m, [], [])
run m (c ∷ cs) =
    let (m1, taken_in, given) = step m c in
    let (m2, taken_in', given') = run m1 cs in (m2, taken_in ++ taken_in', given ++ given')

try_post_closed :
    (m : LoopMailbox) (c : BusinessCompletion) (wake : WakeWrite)
    → m.accepting ≡ false
    → try_post m c wake ≡ (m, false)
unfolding try_post
try_post_closed m c wake shut = elim (Bool-cases (valid_completion c)) [
  | inr e ↦ rw e refl
  | inl e ↦ elim (Bool-cases (ltb m.max_completion_bytes (length c.response_frame))) [
    | inl f ↦ rw (e, f) refl
    | inr f ↦ rw (e, f, shut) refl
  ]
]

-- A closed mailbox stays as it is.
run_closed :
    (m : LoopMailbox) (calls : List Call)
    → IsKept m []
    → m.accepting ≡ false
    → ((run m calls).1 ≡ [])
      × ((run m calls).2 ≡ [])
      × IsKept (run m calls).0 []
      × ((run m calls).0.accepting ≡ false)
run_closed m [] k shut = (refl, refl, k, shut)
run_closed m (posts c wake ∷ calls) k shut =
    rw (try_post_closed m c wake shut) (run_closed m calls k shut)
run_closed m (pops ∷ calls) k shut = rw (try_pop_empty m k) (run_closed m calls k shut)
run_closed m (closes ∷ calls) k shut =
    let (k', shut') = close-IsKept m [] k in run_closed (close m) calls k' shut'

-- What was waiting and what came in is, in order, what was handed out, what `close` dropped and what
-- waits; nothing is dropped while the mailbox is open.
abbrev pub InOrder : List BusinessCompletion → Trace → Type 0
InOrder cs (m, taken_in, given) =
    (dropped : List BusinessCompletion) × (waiting : List BusinessCompletion) × (cs ++ taken_in
      ≡ given ++ (dropped ++ waiting))
    × IsKept m waiting
    × (m.accepting ≡ true → dropped ≡ [])

-- What follows a call, put in front of what the call does.
module _ (calls : List Call)
    (later : (m : LoopMailbox) (cs : List BusinessCompletion)
      → IsKept m cs
      → InOrder cs (run m calls)) where
  post-InOrder :
      (c : BusinessCompletion) (cs : List BusinessCompletion) (r : LoopMailbox × Bool)
      → KeptAfter cs c r
      → InOrder cs (
          let (m1, taken_in, given) = after_post c r in
          let (m2, taken_in', given') = run m1 calls in
          (m2, taken_in ++ taken_in', given ++ given'))
  post-InOrder c cs (m, false) k = later m cs k
  post-InOrder c cs (m, true) k =
      let (dropped, waiting, order, kept, none_lost) = later m (cs ++ (c ∷ [])) k in
      (dropped, waiting, sym (append_assoc cs (c ∷ []) (run m calls).1) ∙ order, kept, none_lost)

  pop-InOrder :
      (m : LoopMailbox) (cs : List BusinessCompletion)
      → IsKept m cs
      → InOrder cs (run m (pops ∷ calls))
  pop-InOrder m [] k = rw (try_pop_empty m k) (later m [] k)
  pop-InOrder m (c ∷ cs) k =
      let (first, rest) = try_pop-refines m c cs k in
      let (dropped, waiting, order, kept, none_lost) = later (try_pop m).0 cs rest in
      subst
        (λ o. InOrder (c ∷ cs) (
          let (m1, taken_in, given) = after_pop ((try_pop m).0, o) in
          let (m2, taken_in', given') = run m1 calls in
          (m2, taken_in ++ taken_in', given ++ given')))
        (sym first) (dropped, waiting, ap (λ xs. c ∷ xs) order, kept, none_lost)

  close-InOrder :
      (m : LoopMailbox) (cs : List BusinessCompletion)
      → IsKept m cs
      → InOrder cs (run m (closes ∷ calls))
  close-InOrder m cs k =
      let (empty, shut) = close-IsKept m cs k in
      let (no_more, none_given, kept, still_shut) = run_closed (close m) calls empty shut in
      (
        cs,
        [],
        ap (λ xs. cs ++ xs) no_more ∙ sym (ap (λ xs. xs ++ (cs ++ [])) none_given),
        kept,
        λ opened. absurd (ground arith),
      )

kept-InOrder :
    (m : LoopMailbox) (cs : List BusinessCompletion) (calls : List Call)
    → IsKept m cs
    → InOrder cs (run m calls)
kept-InOrder m cs [] k = ([], cs, append-nil cs, k, λ opened. refl)
kept-InOrder m cs (posts c wake ∷ calls) k =
    post-InOrder calls (λ m cs. kept-InOrder m cs calls) c cs (try_post m c wake)
      (try_post-refines m c cs wake k).1
kept-InOrder m cs (pops ∷ calls) k = pop-InOrder calls (λ m cs. kept-InOrder m cs calls) m cs k
kept-InOrder m cs (closes ∷ calls) k = close-InOrder calls (λ m cs. kept-InOrder m cs calls) m cs k

-- From a new mailbox on, under any calls, the completions taken in are in order those handed out,
-- then those that `close` dropped, then those that wait; while the mailbox is open none is dropped.
pub run-InOrder :
    (capacity byte_capacity max_completion_bytes : ℕ) (calls : List Call)
    → bad_capacities capacity byte_capacity max_completion_bytes ≡ false
    → byte_capacity < 2 ^ 64
    → InOrder [] (run (fresh_mailbox capacity byte_capacity max_completion_bytes) calls)
run-InOrder capacity byte_capacity max_completion_bytes calls good small =
    kept-InOrder (fresh_mailbox capacity byte_capacity max_completion_bytes) [] calls (record {
      holds = new_ring-Holds capacity (ground arith);
      counted = refl;
      within = omega arith;
      room = small;
    })
