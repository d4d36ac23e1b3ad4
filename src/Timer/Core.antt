-- ===== src/Timer/Core.antt =====
-- timer_core.cpp (src/timer): timers that are scheduled and cancelled by any thread and run by one.
use aegis_flow.Prelude.{
  ℕ, zero, suc, ◌+◌, Bool, true, false, not, ◌&&◌, ◌||◌, Option, none, some, List, [], ◌∷◌, ◌++◌,
  ltb, leb, ◌==◌, if◌then◌else◌, length, u64_max,
}
use aegis_flow.Timer.Types.{TimerId, no_timer, TimerEvent}
use aegis_flow.Timer.State.{
  TimerStatus, TimerCoreConfig, Reservation, HeapNode, Command, TimerCore, TimerCycleResult,
  new_core, later_deadline, push, find, erase, cancel_all, active_in, is_active, is_cancelled, ok,
  invalid_config, config_conflict, not_initialized, invalid_state, not_running, stopped, queue_full,
  timer_limit, sink_expired, invalid_event, id_exhausted, not_found, generation_mismatch,
  already_cancelled, thread_start_failed, self_join, system_call_failed, wake_failed,
  internal_error, schedule, stop,
}
pub mod Reservations
pub mod Heap
pub mod Fired
pub mod Silence
pub mod Ready
pub mod Kept

abbrev pub valid_config : TimerCoreConfig → Bool
valid_config config = ltb 0 config.command_capacity && ltb 0 config.timer_capacity

abbrev same_config : TimerCoreConfig → TimerCoreConfig → Bool
same_config a b =
    (a.command_capacity == b.command_capacity) && (a.timer_capacity == b.timer_capacity)

unfoldable pub init : TimerCore → TimerCoreConfig → TimerCore × TimerStatus
init s config = if not (valid_config config) then (s, invalid_config) else elim s.config [
  | some old ↦ (s, if same_config old config then ok else config_conflict)
  | none ↦ (
    record s {
      config = some config;
      reservations = [];
      accepting = true;
      stop_requested = false;
      is_stopped = false;
    },
    ok,
  )
]

-- `expired` is what `sink.expired()` says. Every kind of event of the enum is valid.
unfoldable pub schedule_at :
    TimerCore → ℕ → ℕ → Bool → TimerEvent → TimerCore × TimerStatus × TimerId
unfolding find
schedule_at s deadline sink expired event = elim s.config [
  | none ↦ (s, not_initialized, no_timer)
  | some config ↦
      if not s.accepting
      then (s, stopped, no_timer)
      else if expired
      then (s, sink_expired, no_timer)
      else if leb config.command_capacity (length s.commands)
      then (s, queue_full, no_timer)
      else if leb config.timer_capacity (length s.reservations)
      then (s, timer_limit, no_timer)
      else if (s.next_id_value == u64_max)
          || (s.next_generation == u64_max)
          || (s.next_sequence == u64_max)
      then (s, id_exhausted, no_timer)
      else let id : TimerId = record { value = s.next_id_value; generation = s.next_generation } in
        let node : HeapNode = record {
          deadline = deadline;
          sequence = s.next_sequence;
          id = id;
          sink = sink;
          event = event;
        } in
        elim (find s.reservations id.value) [
          | some _ ↦ (s, internal_error, no_timer)
          | none ↦ (
            record s {
              reservations =
                  (id.value, record { generation = id.generation; cancelled = false })
                  ∷ s.reservations;
              commands = s.commands ++ (schedule node ∷ []);
              next_id_value = s.next_id_value + 1;
              next_generation = s.next_generation + 1;
              next_sequence = s.next_sequence + 1;
            },
            ok,
            id,
          )
        ]
]

unfoldable pub cancel : TimerCore → TimerId → TimerCore × TimerStatus
unfolding find erase
cancel s id = elim s.config [
  | none ↦ (s, not_initialized)
  | some config ↦ if not s.accepting then (s, stopped) else elim (find s.reservations id.value) [
    | none ↦ (s, not_found)
    | some r ↦
        if not (r.generation == id.generation)
        then (s, generation_mismatch)
        else (record s { reservations = erase s.reservations id.value }, ok)
  ]
]

unfoldable pub request_stop : TimerCore → TimerCore × TimerStatus
request_stop s = elim s.config [
  | none ↦ (s, not_initialized)
  | some config ↦ if s.stop_requested then (s, ok) else (
    record s { commands = s.commands ++ (stop ∷ []); accepting = false; stop_requested = true },
    ok,
  )
]

-- One turn of the loop of `processCommands`.
unfoldable pub process_command : TimerCore → Command → TimerCore
unfolding is_active push cancel_all
process_command s (schedule node) =
    if is_active s.reservations node.id then record s { heap = push node s.heap } else s
process_command s stop = record s { reservations = cancel_all s.reservations; is_stopped = true }

unfoldable pub process_all : TimerCore → List Command → TimerCore
unfolding process_command
process_all s [] = s
process_all s (c ∷ cs) = process_all (process_command s c) cs

-- The loop of `cleanupStaleLocked`.
unfoldable pub clean :
    List HeapNode → List (ℕ × Reservation) → List HeapNode × List (ℕ × Reservation)
unfolding is_active is_cancelled erase
clean [] reservations = ([], reservations)
clean (node ∷ rest) reservations =
    let reservations' =
      if is_cancelled reservations node.id
      then erase reservations node.id.value
      else reservations in
    let cleaned = clean rest reservations' in
    if is_active reservations node.id then (node ∷ rest, reservations) else cleaned

unfoldable pub cleanup_stale : TimerCore → TimerCore
unfolding clean
cleanup_stale s =
    let (heap, reservations) = clean s.heap s.reservations in
    record s { heap = heap; reservations = reservations }

abbrev pub top_deadline : List HeapNode → Option ℕ
top_deadline [] = none
top_deadline (node ∷ rest) = some node.deadline

abbrev pub next_deadline : TimerCore → Option ℕ
next_deadline s = top_deadline s.heap

unfoldable pub process_commands : TimerCore → TimerCore × TimerCycleResult
unfolding process_all cleanup_stale
process_commands s = elim s.config [
  | none ↦ (
    s,
    record {
      status = not_initialized;
      commands_processed = 0;
      timers_dispatched = 0;
      next_deadline = none;
      is_stopped = false;
    },
  )
  | some config ↦
      let s' = cleanup_stale (process_all (record s { commands = [] }) s.commands) in
      (
        s',
        record {
          status = ok;
          commands_processed = length s.commands;
          timers_dispatched = 0;
          next_deadline = next_deadline s';
          is_stopped = s'.is_stopped;
        },
      )
]

-- How a turn of the loop of `runReady` ends: by `break`, by `continue`, or with a timer to post.
pub data Turn : Type 0 where
  breaks : TimerCore → Turn
  continues : TimerCore → Turn
  fires : HeapNode → TimerCore → Turn

-- The top of a heap that is clean: due and posted, or not yet due.
unfoldable pub take_top : ℕ → TimerCore → Turn
unfolding is_active erase
take_top now s = elim s.heap [
  | [] ↦ breaks s
  | node ∷ rest ↦
      if ltb now node.deadline
      then breaks s
      else if not (is_active s.reservations node.id)
      then continues (record s { heap = rest })
      else fires node (record s { heap = rest; reservations = erase s.reservations node.id.value })
]

-- The locked part of a turn of `runReady`.
unfoldable pub take_ready : ℕ → TimerCore → Turn
unfolding cleanup_stale take_top
take_ready now s = if s.stop_requested then breaks s else take_top now (cleanup_stale s)

-- What follows a turn of `runReady`.
abbrev pub follow : (TimerCore → TimerCore × List HeapNode) → Turn → TimerCore × List HeapNode
follow next (breaks s) = (s, [])
follow next (continues s) = next s
follow next (fires node s) = let (s', nodes) = next s in (s', node ∷ nodes)

-- The loop of `runReady`: the nodes whose events are posted, in order.
unfoldable pub ready_turns : ℕ → ℕ → TimerCore → TimerCore × List HeapNode
unfolding take_ready
ready_turns zero now s = (s, [])
ready_turns (suc fuel) now s = follow (ready_turns fuel now) (take_ready now s)

-- `runReady` when no other thread takes the lock in between.
unfoldable pub run_ready : TimerCore → ℕ → TimerCore × TimerCycleResult × List HeapNode
unfolding process_commands ready_turns cleanup_stale
run_ready s now = elim s.config [
  | none ↦ let (s', result) = process_commands s in (s', result, [])
  | some config ↦
      let (s1, result) = process_commands s in
      let (s2, nodes) = ready_turns (suc (length s1.heap)) now s1 in
      let s3 = cleanup_stale s2 in
      (
        s3,
        record result {
          timers_dispatched = length nodes;
          next_deadline = next_deadline s3;
          is_stopped = s3.is_stopped;
        },
        nodes,
      )
]
