-- ===== src/Timer/Core/Kept.antt =====
-- Every call of timer_core.cpp (src/timer) keeps the heap sorted and every active timer on its way,
-- and stays within the capacities.
use aegis_flow.Prelude.{
  ℕ, ◌≡◌, refl, sym, subst, ◌∙◌, inl, inr, Bool, Option, none, some, List, [], ◌∷◌, arith, ltb,
  if◌then◌else◌, Bool-cases,
}
use aegis_flow.Timer.Types.{TimerId, TimerEvent}
use aegis_flow.Timer.State.{
  TimerCoreConfig, HeapNode, Command, schedule, stop, TimerCore, find, is_active,
}
use aegis_flow.Timer.Core.{
  init, schedule_at, cancel, request_stop, cleanup_stale, process_command, process_all,
  process_commands, breaks, take_top, take_ready,
}
use aegis_flow.Timer.Core.Heap.{
  has_command-append, IsKept, clean-IsSorted, clean-IsBacked, skip-IsBacked, erase-active,
  process_all-IsKept,
}
use aegis_flow.Timer.Core.Silence.{
  Call, inits, schedules, cancels, stops, processes, turns, after_turn, step, run,
}

-- The state between two calls.
abbrev pub IsSound : TimerCore → Type 0
IsSound s = IsKept s.commands s

init-IsSound : (s : TimerCore) (c : TimerCoreConfig) → IsSound s → IsSound (init s c).0
unfolding init is_active find
init-IsSound s c k = record {
  sorted = ground (arith, k.sorted);
  backed = λ id on. ground (arith, k.backed id);
}

cancel-IsSound : (s : TimerCore) (id : TimerId) → IsSound s → IsSound (cancel s id).0
unfolding cancel
cancel-IsSound s id k = record {
  sorted = ground (arith, k.sorted);
  backed = λ other on. ground (arith, k.backed other, erase-active s.reservations id.value other);
}

request_stop-IsSound : (s : TimerCore) → IsSound s → IsSound (request_stop s).0
unfolding request_stop
request_stop-IsSound s k = record {
  sorted = ground (arith, k.sorted);
  backed = λ id on. ground (arith, k.backed id, has_command-append s.commands (stop ∷ []) id);
}

schedule_at-IsSound :
    (s : TimerCore) (deadline sink : ℕ) (expired : Bool) (event : TimerEvent)
    → IsSound s
    → IsSound (schedule_at s deadline sink expired event).0
unfolding schedule_at is_active find
schedule_at-IsSound s deadline sink expired event k = record {
  sorted = ground (arith, k.sorted);
  backed = λ id on. ground (
    arith,
    k.backed id,
    has_command-append s.commands
        (schedule (record {
          deadline = deadline;
          sequence = s.next_sequence;
          id = record { value = s.next_id_value; generation = s.next_generation };
          sink = sink;
          event = event;
        })
          ∷ [])
        id,
  );
}

cleanup-IsSound : (s : TimerCore) → IsSound s → IsSound (cleanup_stale s)
unfolding cleanup_stale
cleanup-IsSound s k = record {
  sorted = clean-IsSorted s.heap s.reservations k.sorted;
  backed = clean-IsBacked s.commands s.heap s.reservations k.backed;
}

process_all-commands :
    (s : TimerCore) (cs : List Command) → (process_all s cs).commands ≡ s.commands
unfolding process_all process_command
process_all-commands s [] = refl
process_all-commands s (schedule node ∷ cs) =
    process_all-commands (process_command s (schedule node)) cs ∙ ground arith
process_all-commands s (stop ∷ cs) = process_all-commands (process_command s stop) cs

process_commands-IsSound : (s : TimerCore) → IsSound s → IsSound (process_commands s).0
unfolding process_commands
process_commands-IsSound s k = go s.config
  where
    go : (c : Option TimerCoreConfig) → IsSound (process_commands (record s { config = c })).0
    go none = record { sorted = k.sorted; backed = k.backed }
    go (some c) =
        let start : TimerCore = record s { config = some c; commands = [] } in
        cleanup-IsSound (process_all start s.commands) (
          subst (λ cs. IsKept cs (process_all start s.commands))
            (sym (process_all-commands start s.commands))
            (process_all-IsKept start s.commands (record { sorted = k.sorted; backed = k.backed })))

top-IsSound :
    (heap : List HeapNode) (now : ℕ) (s : TimerCore)
    → IsSound (record s { heap = heap })
    → IsSound (after_turn (take_top now (record s { heap = heap }))).0
unfolding take_top
top-IsSound [] now s k = k
top-IsSound (node ∷ rest) now s k = elim (Bool-cases (ltb now node.deadline)) [
  | inl early ↦ rw early k
  | inr due ↦ elim (Bool-cases (is_active s.reservations node.id)) [
    | inl active ↦
        rw (due, active)
          (record {
            sorted = k.sorted.1;
            backed = λ id on.
                let (was, other) = erase-active s.reservations node.id.value id on in
                ground (arith, k.backed id was);
          })
    | inr stale ↦
        rw (due, stale)
          (record {
            sorted = k.sorted.1;
            backed = skip-IsBacked s.commands node rest s.reservations stale k.backed;
          })
  ]
]

take_ready-IsSound :
    (now : ℕ) (s : TimerCore) → IsSound s → IsSound (after_turn (take_ready now s)).0
unfolding take_ready
take_ready-IsSound now s k = elim (Bool-cases s.stop_requested) [
  | inl e ↦
      subst (λ b. IsSound (after_turn (if b then breaks s else take_top now (cleanup_stale s))).0)
        (sym e) k
  | inr e ↦
      subst (λ b. IsSound (after_turn (if b then breaks s else take_top now (cleanup_stale s))).0)
        (sym e) (top-IsSound (cleanup_stale s).heap now (cleanup_stale s) (cleanup-IsSound s k))
]

step-IsSound : (s : TimerCore) (c : Call) → IsSound s → IsSound (step s c).0
step-IsSound s (inits config) k = init-IsSound s config k
step-IsSound s (schedules deadline sink expired event) k =
    schedule_at-IsSound s deadline sink expired event k
step-IsSound s (cancels id) k = cancel-IsSound s id k
step-IsSound s stops k = request_stop-IsSound s k
step-IsSound s processes k = process_commands-IsSound s k
step-IsSound s (turns now) k = take_ready-IsSound now s k

-- Whatever the threads call and in whatever order, the heap stays in the order of the deadlines, and
-- every active timer has its node in the heap or waits as a command.
pub run-IsSound : (s : TimerCore) (cs : List Call) → IsSound s → IsSound (run s cs).0
run-IsSound s [] k = k
run-IsSound s (c ∷ cs) k = run-IsSound (step s c).0 cs (step-IsSound s c k)
