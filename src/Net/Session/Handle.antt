-- ===== src/Net/Session/Handle.antt =====
-- Only `finalizeClose` touches the handle of a session.
use aegis_flow.Prelude.{
  ℕ, zero, ◌+◌, ◌∙◌, drop, length, suc, ◌≡◌, refl, Bool, true, false, [], Bytes, arith,
}
use aegis_flow.Net.Token.{ConnectionToken}
use aegis_flow.Net.Codec.{CodecConsumeResult}
use aegis_flow.Net.Session.State.{
  SessionState, SessionStatus, SessionCloseReason, Session, result_with_status, begin_close,
  append_pending_input, clear_consumed_pending_input,
}
use aegis_flow.Net.Session.Input.{
  Reading, ReadFlow, goes_on, returns, after_codec, read_round, read_rounds, store_rest,
  finish_reading, consume_reading_bytes, on_input, consume_pending_input,
}
use aegis_flow.Net.Session.Output.{
  queue_response, output_done, on_bytes_written, close_after_writing, on_peer_read_closed,
}

abbrev flow_handle : ReadFlow → Bool
flow_handle (goes_on r) = r.session.connection_closed
flow_handle (returns r) = r.session.connection_closed

pub begin_close-handle :
    (s : Session) (why : SessionCloseReason)
    → (begin_close s why).0.connection_closed ≡ s.connection_closed
unfolding begin_close
begin_close-handle s why = ground arith

after_codec-handle :
    (r : Reading) (out : CodecConsumeResult)
    → flow_handle (after_codec r out) ≡ r.session.connection_closed
unfolding after_codec
after_codec-handle r out = ground arith

read_round-handle :
    (store : Bool) (r : Reading) → flow_handle (read_round store r) ≡ r.session.connection_closed
unfolding read_round
read_round-handle store r = ground arith

next-handle :
    (fuel : ℕ) (store : Bool) (f : ReadFlow)
    → ((r : Reading) → flow_handle (read_rounds fuel store r) ≡ r.session.connection_closed)
    → flow_handle (elim f [ goes_on r ↦ read_rounds fuel store r | returns r ↦ returns r ])
      ≡ flow_handle f
next-handle fuel store (goes_on r) ih = ih r
next-handle fuel store (returns r) ih = refl

read_rounds-handle :
    (fuel : ℕ) (store : Bool) (r : Reading)
    → flow_handle (read_rounds fuel store r) ≡ r.session.connection_closed
unfolding read_rounds
read_rounds-handle zero store r = refl
read_rounds-handle (suc fuel) store r = ground (
  arith,
  next-handle fuel store (read_round store r) (read_rounds-handle fuel store),
  read_round-handle store r,
)

store_rest-handle :
    (store : Bool) (n : ℕ) (r : Reading)
    → (store_rest store n r).0.connection_closed ≡ r.session.connection_closed
unfolding store_rest
store_rest-handle store n r = ground arith

finish-handle :
    (store : Bool) (n : ℕ) (f : ReadFlow)
    → (finish_reading store n f).0.connection_closed ≡ flow_handle f
unfolding finish_reading
finish-handle store n (goes_on r) = store_rest-handle store n r
finish-handle store n (returns r) = refl

consume_reading_bytes-handle :
    (s : Session) (input : Bytes) (store : Bool)
    → (consume_reading_bytes s input store).0.connection_closed ≡ s.connection_closed
unfolding consume_reading_bytes
consume_reading_bytes-handle s input store =
    finish-handle store (length input) (read_rounds (length input) store start)
    ∙ read_rounds-handle (length input) store start
  where
    start : Reading
    start = record { session = s; rest = input; result = result_with_status SessionStatus.buffered }

pub on_input-handle :
    (s : Session) (input : Bytes) → (on_input s input).0.connection_closed ≡ s.connection_closed
unfolding on_input append_pending_input begin_close
on_input-handle s input = ground (arith, consume_reading_bytes-handle s input true)

consume_pending_input-handle :
    (s : Session) → (consume_pending_input s).0.connection_closed ≡ s.connection_closed
unfolding consume_pending_input clear_consumed_pending_input
consume_pending_input-handle s =
    ground
      (arith, consume_reading_bytes-handle s (drop s.pending_input_offset s.pending_input) false)

output_done-handle : (s : Session) → (output_done s).0.connection_closed ≡ s.connection_closed
unfolding output_done
output_done-handle s =
    let s1 = record s { output = []; output_offset = 0 } in
    ground (
      arith,
      consume_pending_input-handle (record s1 { state = SessionState.reading }),
      begin_close-handle s1 s.close_reason,
      begin_close-handle s1 SessionCloseReason.peer_closed,
    )

pub on_bytes_written-handle :
    (s : Session) (n : ℕ) → (on_bytes_written s n).0.connection_closed ≡ s.connection_closed
unfolding on_bytes_written begin_close
on_bytes_written-handle s n =
    ground (arith, output_done-handle (record s { output_offset = s.output_offset + n }))

pub queue_response-handle :
    (s : Session) (t : ConnectionToken) (response : Bytes)
    → (queue_response s t response).0.connection_closed ≡ s.connection_closed
unfolding queue_response
queue_response-handle s t response = ground arith

pub close_after_writing-handle :
    (s : Session) (why : SessionCloseReason)
    → (close_after_writing s why).0.connection_closed ≡ s.connection_closed
unfolding close_after_writing
close_after_writing-handle s why = ground arith

pub on_peer_read_closed-handle :
    (s : Session) → (on_peer_read_closed s).0.connection_closed ≡ s.connection_closed
unfolding on_peer_read_closed
on_peer_read_closed-handle s = ground arith
