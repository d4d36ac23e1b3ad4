-- ===== src/Net/Mailbox/Connections.antt =====
-- `ConnectionMailbox` of loop_mailbox.cpp (src/net): the new connections for a loop.
use aegis_flow.Prelude.{
  ℕ, suc, zero, Bool, true, false, not, Option, none, some, length, ◌==◌, if◌then◌else◌, ℤ,
  is_nonneg,
}
use aegis_flow.Runtime.Ring.{Ring, new_ring, put, unput, front, take_front}
use aegis_flow.Net.Mailbox.Wake.{WakeWrite, signal_wake_fd}

-- A socket is its descriptor; a negative one is none.
pub record ConnectionMailbox : Type 0 where
  pub queue : Ring ℤ
  pub accepting : Bool

abbrev pub fresh_mailbox : ℕ → ConnectionMailbox
fresh_mailbox capacity = record { queue = new_ring capacity; accepting = true }

-- `fd_made` is whether `::eventfd` gives a descriptor.
unfoldable pub new_mailbox : ℕ → Bool → Option ConnectionMailbox
new_mailbox capacity fd_made =
    if capacity == 0 then none else if fd_made then some (fresh_mailbox capacity) else none

unfoldable pub try_post : ConnectionMailbox → ℤ → WakeWrite → ConnectionMailbox × Bool
unfolding put unput
try_post m socket wake =
    if not (is_nonneg socket)
    then (m, false)
    else if not m.accepting
    then (m, false)
    else if m.queue.size == length m.queue.slots
    then (m, false)
    else let index = m.queue.tail in
      let queue = put m.queue socket in
      if not (signal_wake_fd wake)
      then (record m { queue = unput queue index }, false)
      else (record m { queue = queue }, true)

unfoldable pub try_pop : ConnectionMailbox → ConnectionMailbox × Option ℤ
unfolding take_front
try_pop m =
    if m.queue.size == 0
    then (m, none)
    else (record m { queue = take_front m.queue }, front m.queue)

-- The loop of `close`, with the count of the sockets it discards.
unfoldable pub clear : ℕ → Ring ℤ → ℕ → Ring ℤ × ℕ
unfolding take_front
clear zero queue discarded = (queue, discarded)
clear (suc n) queue discarded = clear n (take_front queue) (suc discarded)

-- The result of the wake-up is not used.
unfoldable pub close : ConnectionMailbox → ConnectionMailbox × ℕ
unfolding clear
close m =
    let (queue, discarded) = clear m.queue.size m.queue 0 in
    (record m { accepting = false; queue = record queue { tail = queue.head } }, discarded)
