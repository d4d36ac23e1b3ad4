-- ===== src/Net/Mailbox/Tests.antt =====
-- The mailboxes and the business task (src/net/loop_mailbox.cpp, src/net/completion_router.cpp) at
-- concrete inputs.
use aegis_flow.Prelude.{
  ◌≡◌, refl, Bool, false, true, none, ◌==◌, if◌then◌else◌, Option, some, [], ◌∷◌, arith, Bytes, pos,
}
use aegis_flow.Timer.Types.{TimerEvent, read_timeout}
use aegis_flow.Net.Token.{ConnectionToken, valid}
use aegis_flow.Runtime.Ring.Order.{new_ring-Holds}
use aegis_flow.Net.Completion.{
  FrameBusinessStatus, FrameBusinessResult, BusinessRequest, BusinessCompletionStatus,
  BusinessCompletion, run_task,
}
use aegis_flow.Net.Completion.Reply.{Replies, run_task-Replies}
use aegis_flow.Net.Mailbox.Wake.{written, would_block, write_failed, write_interrupted}
use aegis_flow.Net.Mailbox.Completions.{LoopMailbox, fresh_mailbox, try_post, try_pop}
use aegis_flow.Net.Mailbox.Completions.Posting.{IsKept, admits, KeptAfter, try_post-refines}
use aegis_flow.Net.Mailbox.Completions.Delivery.{posts, pops, closes, InOrder, run, run-InOrder}
use aegis_flow.Net.Mailbox.Timeouts
use aegis_flow.Net.Mailbox.Timeouts.Runs
use aegis_flow.Net.Mailbox.Timeouts.Noticed.{Noticed, run-Noticed}
use aegis_flow.Net.Router.{CompletionRouter, Mailboxes, slots_from, bind, try_route}
use aegis_flow.Net.Router.Binding.{Binds, bind-Binds}
use aegis_flow.Net.Router.Routing.{Routes, try_route-Routes}

abbrev token : ConnectionToken
token = record { loop_id = 0; fd = pos 7; generation = 1 }

abbrev echo : Bytes → Bool → Option FrameBusinessResult
echo payload stop =
    some (record { status = FrameBusinessStatus.response; response_payload = payload })

abbrev request : BusinessRequest
request = record { token = token; request_payload = 104 ∷ 105 ∷ [] }

run_task-Replies_example : Replies echo 8 request false (run_task echo 8 request false)
unfolding valid
run_task-Replies_example = run_task-Replies echo 8 request false refl (omega arith)

abbrev completion : BusinessCompletion
completion = record {
  token = token;
  status = BusinessCompletionStatus.response;
  response_frame = 0 ∷ 0 ∷ 0 ∷ 1 ∷ 33 ∷ [];
}

abbrev mailbox : LoopMailbox
mailbox = fresh_mailbox 1 8 8

mailbox-IsKept : IsKept mailbox []
mailbox-IsKept = record {
  holds = new_ring-Holds 1 (omega arith);
  counted = refl;
  within = omega arith;
  room = omega arith;
}

try_post-refines_example :
    ((try_post mailbox completion (write_interrupted written)).1
      ≡ admits mailbox [] completion (write_interrupted written))
    × KeptAfter [] completion (try_post mailbox completion (write_interrupted written))
try_post-refines_example =
    try_post-refines mailbox completion [] (write_interrupted written) mailbox-IsKept

run-InOrder_example : InOrder [] (
    run mailbox (
      posts completion written
      ∷ posts completion written
      ∷ pops
      ∷ posts completion would_block
      ∷ closes
      ∷ []))
run-InOrder_example =
    run-InOrder 1 8 8
      (posts completion written
        ∷ posts completion written
        ∷ pops
        ∷ posts completion would_block
        ∷ closes
        ∷ [])
      refl (omega arith)

-- A completion goes in, and comes out again.
post_then_pop :
    (run mailbox (posts completion written ∷ posts completion write_failed ∷ pops ∷ [])).2
    ≡ completion ∷ []
unfolding try_post try_pop
post_then_pop = refl

abbrev timeout : TimerEvent
timeout = record {
  kind = read_timeout;
  target_id = 0;
  target_loop_id = 0;
  target_fd = pos 7;
  target_generation = 1;
  target_sequence = 1;
}

run-Noticed_example : Noticed [] (
    Runs.run
      (Timeouts.fresh_mailbox 1)
      (Runs.posts timeout written ∷ Runs.posts timeout written ∷ Runs.pops ∷ []))
run-Noticed_example =
    run-Noticed 1 (Runs.posts timeout written ∷ Runs.posts timeout written ∷ Runs.pops ∷ [])
      (omega arith)

-- Two loops, and one mailbox that is alive.
abbrev router : CompletionRouter
router = record { loops = slots_from 0 2; first_loop_id = 0; accepting = true }

abbrev boxes : Mailboxes
boxes name = if name == 4 then some mailbox else none

bind-Binds_example : Binds router boxes 1 4 (bind router boxes 1 (some 4))
bind-Binds_example = bind-Binds router boxes 1 4

abbrev bound : CompletionRouter
bound = (bind router boxes 0 (some 4)).0

try_route-Routes_example :
    Routes bound boxes completion written (try_route bound boxes completion written)
try_route-Routes_example = try_route-Routes bound boxes completion written
