-- ===== src/Net/Mailbox/Completions.antt =====
-- `LoopMailbox` of loop_mailbox.cpp (src/net): the completions for a loop.
use aegis_flow.Prelude.{
  ℕ, suc, zero, ◌+◌, ◌-◌, ◌%◌, ◌^◌, Bool, true, false, not, ◌&&◌, ◌||◌, Option, none, some, List,
  [], ◌∷◌, length, ltb, leb, ◌==◌, if◌then◌else◌, add_size, sub_size,
}
use aegis_flow.Runtime.Ring.{Ring, new_ring, put, unput, front, take_front}
use aegis_flow.Net.Token.{valid}
use aegis_flow.Net.Completion.{BusinessCompletion, valid_completion}
use aegis_flow.Net.Mailbox.Wake.{WakeWrite, signal_wake_fd}
pub mod Posting
pub mod Delivery

pub record LoopMailbox : Type 0 where
  pub queue : Ring BusinessCompletion
  pub buffered_bytes : ℕ
  pub byte_capacity : ℕ
  pub max_completion_bytes : ℕ
  pub accepting : Bool

abbrev pub fresh_mailbox : ℕ → ℕ → ℕ → LoopMailbox
fresh_mailbox capacity byte_capacity max_completion_bytes = record {
  queue = new_ring capacity;
  buffered_bytes = 0;
  byte_capacity = byte_capacity;
  max_completion_bytes = max_completion_bytes;
  accepting = true;
}

abbrev pub bad_capacities : ℕ → ℕ → ℕ → Bool
bad_capacities capacity byte_capacity max_completion_bytes =
    (capacity == 0)
    || (byte_capacity == 0)
    || (max_completion_bytes == 0)
    || ltb byte_capacity max_completion_bytes

-- `fd_made` is whether `::eventfd` gives a descriptor.
unfoldable pub new_mailbox : ℕ → ℕ → ℕ → Bool → Option LoopMailbox
new_mailbox capacity byte_capacity max_completion_bytes fd_made =
    if bad_capacities capacity byte_capacity max_completion_bytes
    then none
    else if fd_made
    then some (fresh_mailbox capacity byte_capacity max_completion_bytes)
    else none

abbrev pub completion_bytes : BusinessCompletion → ℕ
completion_bytes c = length c.response_frame

-- The queue as it is with the completion in it.
abbrev pub inserted : LoopMailbox → BusinessCompletion → LoopMailbox
inserted m completion = record m {
  queue = put m.queue completion;
  buffered_bytes = add_size m.buffered_bytes (completion_bytes completion);
}

-- The completion is taken back out of the slot it was put in.
abbrev pub rolled_back : LoopMailbox → ℕ → BusinessCompletion → LoopMailbox
rolled_back m inserted_index completion = record m {
  queue = unput m.queue inserted_index;
  buffered_bytes = sub_size m.buffered_bytes (completion_bytes completion);
}

unfoldable pub try_post : LoopMailbox → BusinessCompletion → WakeWrite → LoopMailbox × Bool
unfolding valid_completion put unput
try_post m completion wake =
    if not (valid_completion completion)
    then (m, false)
    else if ltb m.max_completion_bytes (completion_bytes completion)
    then (m, false)
    else if not m.accepting
    then (m, false)
    else if m.queue.size == length m.queue.slots
    then (m, false)
    else if ltb (sub_size m.byte_capacity m.buffered_bytes) (completion_bytes completion)
    then (m, false)
    else let inserted_index = m.queue.tail in
      let m' = inserted m completion in
      if signal_wake_fd wake then (m', true) else (rolled_back m' inserted_index completion, false)

-- How many bytes the completion at the front holds.
abbrev pub front_bytes : Option BusinessCompletion → ℕ
front_bytes none = 0
front_bytes (some c) = completion_bytes c

-- The queue without the completion at the front.
unfoldable pub popped : LoopMailbox → LoopMailbox
unfolding take_front
popped m = record m {
  queue = take_front m.queue;
  buffered_bytes = sub_size m.buffered_bytes (front_bytes (front m.queue));
}

unfoldable pub try_pop : LoopMailbox → LoopMailbox × Option BusinessCompletion
unfolding popped
try_pop m = if m.queue.size == 0 then (m, none) else (popped m, front m.queue)

-- The loop of `close`, once per completion.
unfoldable pub clear : ℕ → LoopMailbox → LoopMailbox
unfolding popped
clear zero m = m
clear (suc n) m = clear n (popped m)

unfoldable pub close : LoopMailbox → LoopMailbox
unfolding clear
close m =
    let m' = clear m.queue.size (record m { accepting = false }) in
    record m' { queue = record m'.queue { tail = m'.queue.head }; buffered_bytes = 0 }
