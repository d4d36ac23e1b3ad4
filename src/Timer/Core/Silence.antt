-- ===== src/Timer/Core/Silence.antt =====
-- No timer of timer_core.cpp (src/timer) fires twice, or after it was cancelled.
use aegis_flow.Prelude.{
  ℕ, suc, ◌+◌, ◌≤◌, ◌<◌, ◌≡◌, refl, sym, ap, subst, ◌∙◌, ◌⊎◌, inl, inr, Bool, true, false, Option,
  none, some, List, [], ◌∷◌, ◌++◌, arith, ltb, ◌==◌, if◌then◌else◌, Bool-cases,
}
use aegis_flow.Timer.Types.{TimerId, TimerEvent}
use aegis_flow.Timer.State.{
  TimerCoreConfig, ok, HeapNode, Command, schedule, stop, TimerCore, find, erase, is_active,
}
use aegis_flow.Timer.Core.{
  init, schedule_at, cancel, request_stop, process_command, process_all, cleanup_stale,
  process_commands, Turn, breaks, continues, fires, take_top, take_ready,
}
use aegis_flow.Timer.Core.Reservations.{
  find-erase_self, find-erase_gone, find-cancel_all, find-clean_gone, is_active-gone, Follows,
  Follows-refl, Follows-trans, Follows-drop,
}

-- What a thread may do while it holds the lock, with the nodes that fire.
pub data Call : Type 0 where
  inits : TimerCoreConfig → Call
  schedules : ℕ → ℕ → Bool → TimerEvent → Call
  cancels : TimerId → Call
  stops : Call
  processes : Call
  turns : ℕ → Call

abbrev pub after_turn : Turn → TimerCore × List HeapNode
after_turn (breaks s) = (s, [])
after_turn (continues s) = (s, [])
after_turn (fires node s) = (s, node ∷ [])

abbrev pub step : TimerCore → Call → TimerCore × List HeapNode
step s (inits config) = ((init s config).0, [])
step s (schedules deadline sink expired event) = ((schedule_at s deadline sink expired event).0, [])
step s (cancels id) = ((cancel s id).0, [])
step s stops = ((request_stop s).0, [])
step s processes = ((process_commands s).0, [])
step s (turns now) = after_turn (take_ready now s)

-- Calls of all threads, in the order in which they get the lock.
abbrev pub run : TimerCore → List Call → TimerCore × List HeapNode
run s [] = (s, [])
run s (c ∷ cs) = let (s1, fired) = step s c in let (s2, more) = run s1 cs in (s2, fired ++ more)

-- How often the timer with an id fires.
abbrev pub times : ℕ → List HeapNode → ℕ
times v [] = 0
times v (node ∷ nodes) = if node.id.value == v then suc (times v nodes) else times v nodes

times-append : (v : ℕ) (xs ys : List HeapNode) → times v (xs ++ ys) ≡ times v xs + times v ys
times-append v [] ys = omega arith
times-append v (x ∷ xs) ys = ground (arith, times-append v xs ys)

init-Follows : (s : TimerCore) (c : TimerCoreConfig) → Follows s (init s c).0
unfolding init find
init-Follows s c = record { later = ground arith; gone = λ v h o. ground arith }

schedule_at-Follows :
    (s : TimerCore) (deadline sink : ℕ) (expired : Bool) (event : TimerEvent)
    → Follows s (schedule_at s deadline sink expired event).0
unfolding schedule_at find
schedule_at-Follows s deadline sink expired event = record {
  later = ground arith;
  gone = λ v h o. ground arith;
}

cancel-Follows : (s : TimerCore) (id : TimerId) → Follows s (cancel s id).0
unfolding cancel
cancel-Follows s id = record {
  later = ground arith;
  gone = λ v h o. ground (arith, find-erase_gone s.reservations id.value v h);
}

request_stop-Follows : (s : TimerCore) → Follows s (request_stop s).0
unfolding request_stop
request_stop-Follows s = record { later = ground arith; gone = λ v h o. ground arith }

process_command-Follows : (s : TimerCore) (c : Command) → Follows s (process_command s c)
unfolding process_command
process_command-Follows s (schedule node) = record {
  later = ground arith;
  gone = λ v h o. ground arith;
}
process_command-Follows s stop = record {
  later = omega arith;
  gone = λ v h o. find-cancel_all s.reservations v ∙ rw h refl;
}

process_all-Follows : (s : TimerCore) (cs : List Command) → Follows s (process_all s cs)
unfolding process_all
process_all-Follows s [] = Follows-refl s
process_all-Follows s (c ∷ cs) =
    Follows-trans (process_command-Follows s c) (process_all-Follows (process_command s c) cs)

pub cleanup_stale-Follows : (s : TimerCore) → Follows s (cleanup_stale s)
unfolding cleanup_stale
cleanup_stale-Follows s = record {
  later = omega arith;
  gone = λ v h o. find-clean_gone s.heap s.reservations v h;
}

process_commands-Follows : (s : TimerCore) → Follows s (process_commands s).0
unfolding process_commands
process_commands-Follows s = go s.config
  where
    go :
        (c : Option TimerCoreConfig)
        → Follows (record s { config = c }) (process_commands (record s { config = c })).0
    go none = Follows-refl _
    go (some c) =
        Follows-trans
          (Follows-trans
            (Follows-drop _ (record s { config = some c; commands = [] }) refl (λ v h. h))
            (process_all-Follows _ s.commands))
          (cleanup_stale-Follows _)

-- A turn reserves nothing, fires only what is reserved, and what fires is reserved no more.
record Turned (s : TimerCore) (r : TimerCore × List HeapNode) : Type 0 where
  follows : Follows s r.0
  silent : (v : ℕ) → find s.reservations v ≡ none → times v r.1 ≡ 0
  once : (v : ℕ) → (times v r.1 ≡ 0) ⊎ ((times v r.1 ≡ 1) × (find r.0.reservations v ≡ none))

quiet : (s s' : TimerCore) → Follows s s' → Turned s (s', [])
quiet s s' f = record { follows = f; silent = λ v h. refl; once = λ v. inl refl }

active-ne :
    (s : TimerCore) (node : HeapNode) (v : ℕ)
    → is_active s.reservations node.id ≡ true
    → find s.reservations v ≡ none
    → (node.id.value == v) ≡ false
active-ne s node v active h = elim (Bool-cases (node.id.value == v)) [
  | inl e ↦
      let same : node.id.value ≡ v = ground arith in
      let off = is_active-gone s.reservations node.id (ap (find s.reservations) same ∙ h) in
      ground arith
  | inr e ↦ e
]

fired :
    (s : TimerCore) (node : HeapNode) (rest : List HeapNode)
    → is_active s.reservations node.id ≡ true
    → Turned s
        (record s { heap = rest; reservations = erase s.reservations node.id.value }, node ∷ [])
fired s node rest active = record {
  follows = Follows-drop _ _ refl (λ v h. find-erase_gone s.reservations node.id.value v h);
  silent = λ v h. rw (active-ne s node v active h);
  once = λ v. elim (Bool-cases (node.id.value == v)) [
    | inl e ↦
        let same : node.id.value ≡ v = ground arith in
        inr
          (rw e, ap (λ w. find (erase s.reservations w) v) same ∙ find-erase_self s.reservations v)
    | inr e ↦ inl (rw e)
  ];
}

take_top-Turned :
    (heap : List HeapNode) (now : ℕ) (s : TimerCore)
    → Turned (record s { heap = heap }) (after_turn (take_top now (record s { heap = heap })))
unfolding take_top
take_top-Turned [] now s = quiet _ _ (Follows-refl _)
take_top-Turned (node ∷ rest) now s = elim (Bool-cases (ltb now node.deadline)) [
  | inl early ↦ rw early (quiet _ _ (Follows-refl _))
  | inr due ↦ elim (Bool-cases (is_active s.reservations node.id)) [
    | inl active ↦ rw (due, active) (fired (record s { heap = node ∷ rest }) node rest active)
    | inr stale ↦ rw (due, stale) (quiet _ _ (Follows-drop _ _ refl (λ v h. h)))
  ]
]

Turned-after :
    {s t : TimerCore} {r : TimerCore × List HeapNode}
    → Follows s t
    → ((v : ℕ) → find s.reservations v ≡ none → find t.reservations v ≡ none)
    → Turned t r
    → Turned s r
Turned-after f gone t = record {
  follows = Follows-trans f t.follows;
  silent = λ v h. t.silent v (gone v h);
  once = t.once;
}

take_ready-Turned : (now : ℕ) (s : TimerCore) → Turned s (after_turn (take_ready now s))
unfolding take_ready cleanup_stale
take_ready-Turned now s = elim (Bool-cases s.stop_requested) [
  | inl e ↦
      subst (λ b. Turned s (after_turn (if b then breaks s else take_top now (cleanup_stale s))))
        (sym e) (quiet s s (Follows-refl s))
  | inr e ↦
      subst (λ b. Turned s (after_turn (if b then breaks s else take_top now (cleanup_stale s))))
        (sym e)
        (Turned-after (cleanup_stale-Follows s) (find-clean_gone s.heap s.reservations)
          (take_top-Turned (cleanup_stale s).heap now (cleanup_stale s)))
]

step-Turned : (s : TimerCore) (c : Call) → Turned s (step s c)
step-Turned s (inits config) = quiet s _ (init-Follows s config)
step-Turned s (schedules deadline sink expired event) =
    quiet s _ (schedule_at-Follows s deadline sink expired event)
step-Turned s (cancels id) = quiet s _ (cancel-Follows s id)
step-Turned s stops = quiet s _ (request_stop-Follows s)
step-Turned s processes = quiet s _ (process_commands-Follows s)
step-Turned s (turns now) = take_ready-Turned now s

-- A timer that has been given out and has no reservation never fires.
run-silent :
    (s : TimerCore) (cs : List Call) (v : ℕ)
    → v < s.next_id_value
    → find s.reservations v ≡ none
    → times v (run s cs).1 ≡ 0
run-silent s [] v old h = refl
run-silent s (c ∷ cs) v old h =
    let t = step-Turned s c in
    let rest =
      run-silent (step s c).0 cs v (omega (arith, t.follows.later))
        (t.follows.gone v h (inl old)) in
    omega (arith, times-append v (step s c).1 (run (step s c).0 cs).1, t.silent v h, rest)

-- Nothing is reserved under an id that has not been given out yet.
abbrev pub IsIssued : TimerCore → Type 0
IsIssued s = (v : ℕ) → s.next_id_value ≤ v → find s.reservations v ≡ none

step-IsIssued : (s : TimerCore) (c : Call) → IsIssued s → IsIssued (step s c).0
step-IsIssued s c issued v h =
    let f = (step-Turned s c).follows in f.gone v (issued v (omega (arith, f.later))) (inr h)

-- Whatever the threads call and in whatever order, no timer fires more than once.
pub run_once : (s : TimerCore) (cs : List Call) (v : ℕ) → IsIssued s → times v (run s cs).1 ≤ 1
run_once s [] v issued = omega arith
run_once s (c ∷ cs) v issued =
    let t = step-Turned s c in
    let split = times-append v (step s c).1 (run (step s c).0 cs).1 in
    let issued' = step-IsIssued s c issued in
    elim (t.once v) [
      | inl none_yet ↦ omega (arith, split, none_yet, run_once (step s c).0 cs v issued')
      | inr (one, gone) ↦ elim (Bool-cases (ltb v (step s c).0.next_id_value)) [
        | inl old ↦ omega (arith, split, one, run-silent (step s c).0 cs v (ground arith) gone)
        | inr new ↦ omega (arith, t.silent v (issued v (ground (arith, t.follows.later))), one)
      ]
    ]

cancel_takes :
    (s : TimerCore) (id : TimerId)
    → (cancel s id).1 ≡ ok
    → find (cancel s id).0.reservations id.value ≡ none
unfolding cancel
cancel_takes s id h = ground (arith, find-erase_self s.reservations id.value)

cancel_finds :
    (s : TimerCore) (id : TimerId) → find s.reservations id.value ≡ none → ¬ ((cancel s id).1 ≡ ok)
unfolding cancel
cancel_finds s id gone h = ground arith

cancel-issued :
    (s : TimerCore) (id : TimerId) → IsIssued s → (cancel s id).1 ≡ ok → id.value < s.next_id_value
cancel-issued s id issued h = elim (Bool-cases (ltb id.value s.next_id_value)) [
  | inl e ↦ ground arith
  | inr e ↦ absurd (cancel_finds s id (issued id.value (ground arith)) h)
]

-- A timer that was cancelled with success never fires afterwards, whatever the threads call.
pub cancel-silent :
    (s : TimerCore) (id : TimerId) (cs : List Call)
    → IsIssued s
    → (cancel s id).1 ≡ ok
    → times id.value (run (cancel s id).0 cs).1 ≡ 0
cancel-silent s id cs issued h =
    run-silent (cancel s id).0 cs id.value
      (omega (arith, cancel-issued s id issued h, (cancel-Follows s id).later))
      (cancel_takes s id h)
