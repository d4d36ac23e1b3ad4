-- ===== src/Timer/State.antt =====
-- The state of timer_core.hpp (include/aegisflow/timer): timers that are scheduled, reserved, and
-- waiting in the heap.
use aegis_flow.Prelude.{
  ℕ, Bool, true, false, not, ◌&&◌, Option, none, some, List, [], ◌∷◌, ltb, ◌==◌, if◌then◌else◌,
}
use aegis_flow.Timer.Types.{TimerId, TimerEvent}

pub data TimerStatus : Type 0 where
  ok invalid_config config_conflict not_initialized invalid_state not_running stopped : TimerStatus
  queue_full timer_limit sink_expired invalid_event id_exhausted not_found : TimerStatus
  generation_mismatch already_cancelled thread_start_failed self_join : TimerStatus
  system_call_failed wake_failed internal_error : TimerStatus

pub record TimerCoreConfig : Type 0 where
  pub command_capacity : ℕ
  pub timer_capacity : ℕ

pub record Reservation : Type 0 where
  pub generation : ℕ
  pub cancelled : Bool

-- A time is a number of ticks of the steady clock; a sink is named by a number.
pub record HeapNode : Type 0 where
  pub deadline : ℕ
  pub sequence : ℕ
  pub id : TimerId
  pub sink : ℕ
  pub event : TimerEvent

-- The id of a command to schedule is that of its node.
pub data Command : Type 0 where
  schedule : HeapNode → Command
  stop : Command

-- `heap` is the priority queue as a list, the top first; `reservations` is the hash map as an
-- association list with distinct keys.
pub record TimerCore : Type 0 where
  pub config : Option TimerCoreConfig
  pub commands : List Command
  pub heap : List HeapNode
  pub reservations : List (ℕ × Reservation)
  pub next_id_value : ℕ
  pub next_generation : ℕ
  pub next_sequence : ℕ
  pub accepting : Bool
  pub stop_requested : Bool
  pub is_stopped : Bool

pub record TimerCycleResult : Type 0 where
  pub status : TimerStatus
  pub commands_processed : ℕ
  pub timers_dispatched : ℕ
  pub next_deadline : Option ℕ
  pub is_stopped : Bool

abbrev pub new_core : TimerCore
new_core = record {
  config = none;
  commands = [];
  heap = [];
  reservations = [];
  next_id_value = 1;
  next_generation = 1;
  next_sequence = 0;
  accepting = false;
  stop_requested = false;
  is_stopped = false;
}

-- `right` comes out before `left`.
unfoldable pub later_deadline : HeapNode → HeapNode → Bool
later_deadline left right =
    if not (left.deadline == right.deadline)
    then ltb right.deadline left.deadline
    else ltb right.sequence left.sequence

-- `heap_.push`
unfoldable pub push : HeapNode → List HeapNode → List HeapNode
unfolding later_deadline
push node [] = node ∷ []
push node (top ∷ rest) =
    let rest' = push node rest in if later_deadline node top then top ∷ rest' else node ∷ top ∷ rest

unfoldable pub find : List (ℕ × Reservation) → ℕ → Option Reservation
find [] value = none
find ((key, r) ∷ rest) value = if key == value then some r else find rest value

unfoldable pub erase : List (ℕ × Reservation) → ℕ → List (ℕ × Reservation)
erase [] value = []
erase ((key, r) ∷ rest) value =
    let rest' = erase rest value in if key == value then rest' else (key, r) ∷ rest'

unfoldable pub cancel_all : List (ℕ × Reservation) → List (ℕ × Reservation)
cancel_all [] = []
cancel_all ((key, r) ∷ rest) = (key, record r { cancelled = true }) ∷ cancel_all rest

abbrev pub active_in : Option Reservation → ℕ → Bool
active_in none generation = false
active_in (some r) generation = (r.generation == generation) && not r.cancelled

-- The timer has a reservation, of its generation, that is not cancelled.
unfoldable pub is_active : List (ℕ × Reservation) → TimerId → Bool
unfolding find
is_active reservations id = active_in (find reservations id.value) id.generation

abbrev pub cancelled_in : Option Reservation → ℕ → Bool
cancelled_in none generation = false
cancelled_in (some r) generation = (r.generation == generation) && r.cancelled

-- The timer has a reservation, of its generation, that is cancelled.
unfoldable pub is_cancelled : List (ℕ × Reservation) → TimerId → Bool
unfolding find
is_cancelled reservations id = cancelled_in (find reservations id.value) id.generation
