-- ===== src/Timer/Tests.antt =====
-- The timers (src/timer) at concrete inputs.
use aegis_flow.Prelude.{◌≤◌, ◌≡◌, refl, false, List, [], ◌∷◌, arith, pos}
use aegis_flow.Timer.Types.{TimerEvent, idle_timeout}
use aegis_flow.Timer.State.{TimerCoreConfig, TimerCore, new_core, is_active, find}
use aegis_flow.Timer.Core.{init, schedule_at, cancel, run_ready}
use aegis_flow.Timer.Core.Silence.{
  Call, inits, schedules, processes, turns, run, times, IsIssued, run_once, cancel-silent,
}
use aegis_flow.Timer.Core.Ready.{Cycle, run_ready-Cycle}
use aegis_flow.Timer.Core.Kept.{IsSound, run-IsSound}

abbrev small : TimerCoreConfig
small = record { command_capacity = 4; timer_capacity = 4 }

abbrev idle : TimerEvent
idle = record {
  kind = idle_timeout;
  target_id = 0;
  target_loop_id = 0;
  target_fd = pos 5;
  target_generation = 1;
  target_sequence = 1;
}

-- Two timers, the later one first.
abbrev scheduled : List Call
scheduled = inits small ∷ schedules 30 7 false idle ∷ schedules 20 7 false idle ∷ []

abbrev waiting : TimerCore
waiting = (run new_core scheduled).0

new_core-IsIssued : IsIssued new_core
unfolding find
new_core-IsIssued v h = refl

new_core-IsSound : IsSound new_core
unfolding is_active find
new_core-IsSound = record { sorted = tt; backed = λ id on. ground arith }

run-IsSound_example : IsSound waiting
run-IsSound_example = run-IsSound new_core scheduled new_core-IsSound

run_once_example :
    times 1
      (run new_core
        (inits small ∷ schedules 30 7 false idle ∷ processes ∷ turns 40 ∷ turns 40 ∷ [])).1
    ≤ 1
run_once_example =
    run_once new_core
      (inits small ∷ schedules 30 7 false idle ∷ processes ∷ turns 40 ∷ turns 40 ∷ []) 1
      new_core-IsIssued

waiting-IsIssued : IsIssued waiting
unfolding init schedule_at find
waiting-IsIssued v h = ground arith

cancel-silent_example :
    times 1
      (run (cancel waiting (record { value = 1; generation = 1 })).0 (processes ∷ turns 40 ∷ [])).1
    ≡ 0
unfolding init schedule_at cancel find
cancel-silent_example =
    cancel-silent waiting (record { value = 1; generation = 1 }) (processes ∷ turns 40 ∷ [])
      waiting-IsIssued refl

run_ready-Cycle_example : Cycle 25 waiting (run_ready waiting 25)
unfolding init schedule_at find
run_ready-Cycle_example = run_ready-Cycle waiting small 25 refl refl run-IsSound_example
