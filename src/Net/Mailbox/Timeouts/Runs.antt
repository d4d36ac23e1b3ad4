-- ===== src/Net/Mailbox/Timeouts/Runs.antt =====
-- Sequences of calls of `TimeoutMailbox` of loop_mailbox.cpp (src/net).
use aegis_flow.Prelude.{
  ◌≡◌, refl, sym, ap, subst, ◌⊎◌, inl, inr, Bool, true, false, not, ◌||◌, Option, none, some, List,
  [], ◌∷◌, ◌++◌, arith, length, ◌==◌, if◌then◌else◌, Bool-cases,
}
use aegis_flow.Runtime.Ring.{put, unput}
use aegis_flow.Timer.Types.{TimerEvent}
use aegis_flow.Net.Mailbox.Wake.{WakeWrite, signal_wake_fd}
use aegis_flow.Net.Mailbox.Timeouts.{
  TimeoutMailbox, connection_timeout_event, post_open, try_post, try_pop, take_rescan_request,
  close,
}

pub data Call : Type 0 where
  posts : TimerEvent → WakeWrite → Call
  pops : Call
  rescans : Call
  closes : Call

-- The mailbox, the events taken in and handed out, and whether the loop has been told to look at all
-- its deadlines.
pub record Trace : Type 0 where
  pub mailbox : TimeoutMailbox
  pub taken_in : List TimerEvent
  pub given : List TimerEvent
  pub rescanned : Bool

abbrev pub quiet : TimeoutMailbox → Trace
quiet m = record { mailbox = m; taken_in = []; given = []; rescanned = false }

abbrev pub after_post : TimerEvent → TimeoutMailbox × Bool → Trace
after_post event (m, posted) = record (quiet m) { taken_in = if posted then event ∷ [] else [] }

abbrev pub after_pop : TimeoutMailbox × Option TimerEvent → Trace
after_pop (m, none) = quiet m
after_pop (m, some event) = record (quiet m) { given = event ∷ [] }

abbrev pub step : TimeoutMailbox → Call → Trace
step m (posts event wake) = after_post event (try_post m event wake)
step m pops = after_pop (try_pop m)
step m rescans =
    let (m', requested) = take_rescan_request m in record (quiet m') { rescanned = requested }
step m closes = quiet (close m)

-- One trace after the other.
abbrev pub follow : Trace → Trace → Trace
follow s t = record {
  mailbox = t.mailbox;
  taken_in = s.taken_in ++ t.taken_in;
  given = s.given ++ t.given;
  rescanned = s.rescanned || t.rescanned;
}

-- The calls of all threads, in the order in which they get the lock.
abbrev pub run : TimeoutMailbox → List Call → Trace
run m [] = quiet m
run m (c ∷ cs) = let s = step m c in follow s (run s.mailbox cs)

-- The mailbox is open, and no overflow has been or is to be reported.
abbrev pub IsCalm : Trace → Type 0
IsCalm t =
    (t.mailbox.accepting ≡ true) × (t.rescanned ≡ false) × (t.mailbox.rescan_required ≡ false)

-- The branches of `tryPost`: nothing changes, a rescan is asked for, the event comes last, or it is
-- taken back out.
abbrev pub PostCase : TimeoutMailbox → TimerEvent → TimeoutMailbox × Bool → Type 0
PostCase m event r =
    (r ≡ (m, false))
    ⊎ (((posted : Bool) × (r ≡ (record m { rescan_required = true }, posted)))
        ⊎ (((m.queue.size == length m.queue.slots) ≡ false)
            × ((r ≡ (record m { queue = put m.queue event }, true))
                ⊎ (r ≡ (record m { queue = unput (put m.queue event) m.queue.tail }, false)))))

post_open-PostCase :
    (m : TimeoutMailbox) (event : TimerEvent) (wake : WakeWrite)
    → PostCase m event (post_open m event wake)
unfolding post_open
post_open-PostCase m event wake = elim (Bool-cases (m.queue.size == length m.queue.slots)) [
  | inl e ↦ elim (Bool-cases (signal_wake_fd wake)) [
    | inl f ↦ inr (inl (true, rw (e, f) refl))
    | inr f ↦ inr (inl (false, rw (e, f) refl))
  ]
  | inr e ↦ elim (Bool-cases (signal_wake_fd wake)) [
    | inl f ↦ inr (inr (e, inl (rw (e, f) refl)))
    | inr f ↦ inr (inr (e, inr (rw (e, f) refl)))
  ]
]

pub try_post-PostCase :
    (m : TimeoutMailbox) (event : TimerEvent) (wake : WakeWrite)
    → PostCase m event (try_post m event wake)
unfolding try_post
try_post-PostCase m event wake = elim (Bool-cases (connection_timeout_event event)) [
  | inr e ↦ inl (rw e refl)
  | inl e ↦ rw e (elim (Bool-cases m.accepting) [
    | inr f ↦ inl (ap (λ b. if not b then (m, false) else post_open m event wake) f)
    | inl f ↦
        subst (PostCase m event)
          (sym (ap (λ b. if not b then (m, false) else post_open m event wake) f))
          (post_open-PostCase m event wake)
  ])
]

-- An open mailbox with a rescan asked for is not calm afterwards, and neither is a closed one.
abbrev IsUneasy : TimeoutMailbox → Type 0
IsUneasy m = (m.accepting ≡ false) ⊎ (m.rescan_required ≡ true)

post-IsUneasy :
    (m : TimeoutMailbox) (event : TimerEvent) (wake : WakeWrite)
    → IsUneasy m
    → IsUneasy (try_post m event wake).0
unfolding try_post post_open
post-IsUneasy m event wake (inl shut) = inl (ground arith)
post-IsUneasy m event wake (inr asked) = inr (ground arith)

after_pop-mailbox : (r : TimeoutMailbox × Option TimerEvent) → (after_pop r).mailbox ≡ r.0
after_pop-mailbox (m, none) = refl
after_pop-mailbox (m, some event) = refl

pop-IsUneasy : (m : TimeoutMailbox) → IsUneasy m → IsUneasy (try_pop m).0
unfolding try_pop
pop-IsUneasy m (inl shut) = inl (ground arith)
pop-IsUneasy m (inr asked) = inr (ground arith)

pub try_pop_empty : (m : TimeoutMailbox) → m.queue.size ≡ 0 → try_pop m ≡ (m, none)
unfolding try_pop
try_pop_empty m h = rw h refl

step-IsUneasy :
    (m : TimeoutMailbox) (c : Call)
    → IsUneasy m
    → IsUneasy (step m c).mailbox ⊎ ((step m c).rescanned ≡ true)
unfolding try_pop close
step-IsUneasy m (posts event wake) u = inl (post-IsUneasy m event wake u)
step-IsUneasy m pops u =
    inl (subst IsUneasy (sym (after_pop-mailbox (try_pop m))) (pop-IsUneasy m u))
step-IsUneasy m rescans (inl shut) = inl (inl shut)
step-IsUneasy m rescans (inr asked) = inr asked
step-IsUneasy m closes u = inl (inl refl)

pub IsCalm-later : (s t : Trace) → IsCalm (follow s t) → (s.rescanned ≡ false) × IsCalm t
IsCalm-later s t calm = ground (arith, calm.0, calm.1, calm.2)

pub run_uneasy : (m : TimeoutMailbox) (calls : List Call) → IsUneasy m → ¬ IsCalm (run m calls)
run_uneasy m [] u calm = ground (arith, calm.0, calm.2)
run_uneasy m (c ∷ calls) u calm =
    let (told, calm') = IsCalm-later (step m c) (run (step m c).mailbox calls) calm in
    elim (step-IsUneasy m c u) [
      | inl u' ↦ run_uneasy (step m c).mailbox calls u' calm'
      | inr e ↦ ground (arith, e, told)
    ]
