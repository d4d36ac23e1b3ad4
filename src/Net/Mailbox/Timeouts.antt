-- ===== src/Net/Mailbox/Timeouts.antt =====
-- `TimeoutMailbox` of loop_mailbox.cpp (src/net): the timeouts for a loop.
use aegis_flow.Prelude.{
  ℕ, suc, zero, Bool, true, false, not, ◌&&◌, Option, none, some, length, ◌==◌, if◌then◌else◌,
  is_nonneg,
}
use aegis_flow.Runtime.Ring.{Ring, new_ring, put, unput, front, take_front}
use aegis_flow.Timer.Types.{
  TimerEvent, TimerEventKind, idle_timeout, read_timeout, write_timeout, business_timeout,
  cleanup_tick, blacklist_maintenance_tick,
}
use aegis_flow.Net.Mailbox.Wake.{WakeWrite, signal_wake_fd}
pub mod Runs
pub mod Noticed

pub record TimeoutMailbox : Type 0 where
  pub queue : Ring TimerEvent
  pub accepting : Bool
  pub rescan_required : Bool

abbrev pub fresh_mailbox : ℕ → TimeoutMailbox
fresh_mailbox capacity = record {
  queue = new_ring capacity;
  accepting = true;
  rescan_required = false;
}

-- `fd_made` is whether `::eventfd` gives a descriptor.
unfoldable pub new_mailbox : ℕ → Bool → Option TimeoutMailbox
new_mailbox capacity fd_made =
    if capacity == 0 then none else if fd_made then some (fresh_mailbox capacity) else none

abbrev pub is_connection_kind : TimerEventKind → Bool
is_connection_kind idle_timeout = true
is_connection_kind read_timeout = true
is_connection_kind write_timeout = true
is_connection_kind business_timeout = true
is_connection_kind cleanup_tick = false
is_connection_kind blacklist_maintenance_tick = false

abbrev pub connection_timeout_event : TimerEvent → Bool
connection_timeout_event event =
    is_connection_kind event.kind
    && is_nonneg event.target_fd
    && not (event.target_generation == 0)
    && not (event.target_sequence == 0)

-- `tryPost` of a mailbox that is open, with an event of a connection.
unfoldable pub post_open : TimeoutMailbox → TimerEvent → WakeWrite → TimeoutMailbox × Bool
unfolding put unput
post_open m event wake =
    if m.queue.size == length m.queue.slots
    then (let m' = record m { rescan_required = true } in
        if not (signal_wake_fd wake) then (m', false) else (m', true))
    else let index = m.queue.tail in
      let queue = put m.queue event in
      if not (signal_wake_fd wake)
      then (record m { queue = unput queue index }, false)
      else (record m { queue = queue }, true)

unfoldable pub try_post : TimeoutMailbox → TimerEvent → WakeWrite → TimeoutMailbox × Bool
unfolding post_open
try_post m event wake =
    if not (connection_timeout_event event)
    then (m, false)
    else if not m.accepting
    then (m, false)
    else post_open m event wake

unfoldable pub try_pop : TimeoutMailbox → TimeoutMailbox × Option TimerEvent
unfolding take_front
try_pop m =
    if m.queue.size == 0
    then (m, none)
    else (record m { queue = take_front m.queue }, front m.queue)

abbrev pub take_rescan_request : TimeoutMailbox → TimeoutMailbox × Bool
take_rescan_request m = (record m { rescan_required = false }, m.rescan_required)

-- The loop of `close`.
unfoldable pub clear : ℕ → Ring TimerEvent → Ring TimerEvent
unfolding take_front
clear zero queue = queue
clear (suc n) queue = clear n (take_front queue)

unfoldable pub close : TimeoutMailbox → TimeoutMailbox
unfolding clear
close m =
    let queue = clear m.queue.size m.queue in
    record m {
      accepting = false;
      rescan_required = false;
      queue = record queue { tail = queue.head };
    }
