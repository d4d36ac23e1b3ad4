-- ===== src/Net/Session/Output.antt =====
-- session.cpp (src/net): responses, the end of a connection, what epoll is asked for, and timers.
use aegis_flow.Prelude.{
  ℕ, ◌+◌, Bool, true, false, not, ◌&&◌, ◌||◌, [], ◌∷◌, Bytes, ltb, leb, ◌==◌, if◌then◌else◌, length,
}
use aegis_flow.Net.Token.{ConnectionToken, token_eq}
use aegis_flow.Net.Session.State.{
  SessionState, reading, processing, writing, closing, closed, SessionStatus, buffered,
  SessionCloseReason, no_reason, SessionResult, Session, result_with_status, buffered_input_bytes,
  remaining_output_bytes, begin_close, SessionTimerKind, SessionTimers, no_timers,
}
use aegis_flow.Timer.Types.{TimerId}
use aegis_flow.Net.Session.Input.{consume_pending_input}

-- `queueResponse` once the token is found to match.
unfoldable pub accept_response : Session → Bytes → Session × SessionStatus
unfolding begin_close
accept_response s response = elim s.state [
  | closing ↦ (s, SessionStatus.closing)
  | closed ↦ (s, SessionStatus.closed)
  | processing ↦ elim response [
    | [] ↦ (s, SessionStatus.invalid_argument)
    | b ∷ bs ↦
        if ltb s.config.max_output_buffer_bytes (length (b ∷ bs))
        then (
          (begin_close s SessionCloseReason.output_limit_exceeded).0,
          SessionStatus.output_limit_exceeded,
        )
        else (
          record s { output = b ∷ bs; output_offset = 0; state = SessionState.writing },
          SessionStatus.ok,
        )
  ]
  | _ ↦ (s, SessionStatus.invalid_state)
]

unfoldable pub queue_response : Session → ConnectionToken → Bytes → Session × SessionStatus
unfolding token_eq accept_response
queue_response s t response =
    if not (token_eq s.token t) then (s, SessionStatus.stale_token) else accept_response s response

abbrev pub ok_if_buffered : SessionResult → SessionResult
ok_if_buffered out = elim out.status [
  | buffered ↦ record out { status = SessionStatus.ok }
  | _ ↦ out
]

-- What `onBytesWritten` does once the whole output is written.
unfoldable pub output_done : Session → Session × SessionResult
unfolding begin_close consume_pending_input
output_done s =
    let s1 = record s { output = []; output_offset = 0 } in
    if s.close_after_write || s.peer_read_closed
    then (
      (begin_close s1
          (if s.close_after_write then s.close_reason else SessionCloseReason.peer_closed)).0,
      result_with_status SessionStatus.closing,
    )
    else let (s2, out) = consume_pending_input (record s1 { state = SessionState.reading }) in
      (s2, ok_if_buffered out)

unfoldable pub on_bytes_written : Session → ℕ → Session × SessionResult
unfolding output_done remaining_output_bytes
on_bytes_written s n = elim s.state [
  | closing ↦ (s, result_with_status SessionStatus.closing)
  | closed ↦ (s, result_with_status SessionStatus.closed)
  | writing ↦
      if ltb (remaining_output_bytes s) n
      then (
        (begin_close s SessionCloseReason.write_invariant_violation).0,
        result_with_status SessionStatus.write_progress_exceeded,
      )
      else let s1 = record s { output_offset = s.output_offset + n } in
        if remaining_output_bytes s1 == 0
        then output_done s1
        else (s1, result_with_status SessionStatus.ok)
  | _ ↦ (s, result_with_status SessionStatus.invalid_state)
]

unfoldable pub close_after_writing : Session → SessionCloseReason → Session × SessionStatus
close_after_writing s reason = elim s.state [
  | closing ↦ (s, SessionStatus.closing)
  | closed ↦ (s, SessionStatus.closed)
  | writing ↦ elim reason [
    | no_reason ↦ (s, SessionStatus.invalid_state)
    | r ↦ (record s { close_reason = r; close_after_write = true }, SessionStatus.ok)
  ]
  | _ ↦ (s, SessionStatus.invalid_state)
]

unfoldable pub on_peer_read_closed : Session → Session × SessionStatus
unfolding begin_close buffered_input_bytes
on_peer_read_closed s =
    let s1 = record s { peer_read_closed = true } in
    elim s.state [
      | closing ↦ (s, SessionStatus.closing)
      | closed ↦ (s, SessionStatus.closed)
      | reading ↦
          if buffered_input_bytes s1 == 0
          then ((begin_close s1 SessionCloseReason.peer_closed).0, SessionStatus.closing)
          else (
            (begin_close s1 SessionCloseReason.peer_truncated_frame).0,
            SessionStatus.truncated_frame,
          )
      | _ ↦ (record s1 { close_reason = SessionCloseReason.peer_closed }, SessionStatus.ok)
    ]

-- `SessionInterest`, a bit mask, as its bits.
pub record SessionInterest : Type 0 where
  pub read : Bool
  pub write : Bool
  pub peer_read_close : Bool

abbrev pub above_soft_watermark : Session → Bool
above_soft_watermark s =
    leb s.config.input_soft_watermark_bytes (buffered_input_bytes s)
    || leb s.config.output_soft_watermark_bytes (remaining_output_bytes s)

unfoldable pub read_paused_by_backpressure : Session → Bool
unfolding buffered_input_bytes remaining_output_bytes
read_paused_by_backpressure s = if s.peer_read_closed then false else elim s.state [
  | processing ↦ above_soft_watermark s
  | writing ↦ above_soft_watermark s
  | _ ↦ false
]

abbrev pub is_reading : SessionState → Bool
is_reading reading = true
is_reading _ = false

abbrev pub is_writing : SessionState → Bool
is_writing writing = true
is_writing _ = false

unfoldable pub interest : Session → SessionInterest
unfolding read_paused_by_backpressure
interest s = elim s.state [
  | closing ↦ record { read = false; write = false; peer_read_close = false }
  | closed ↦ record { read = false; write = false; peer_read_close = false }
  | st ↦ record {
    read = not s.peer_read_closed && (is_reading st || not (read_paused_by_backpressure s));
    write = is_writing st;
    peer_read_close = not s.peer_read_closed;
  }
]

-- The timer that the kind had, after another takes its place.
unfoldable pub replace_timer : Session → SessionTimerKind → TimerId → Session × TimerId
replace_timer s SessionTimerKind.idle t =
    (record s { timers = record (s.timers) { idle = t } }, s.timers.idle)
replace_timer s SessionTimerKind.read t =
    (record s { timers = record (s.timers) { read = t } }, s.timers.read)
replace_timer s SessionTimerKind.write t =
    (record s { timers = record (s.timers) { write = t } }, s.timers.write)
replace_timer s SessionTimerKind.business t =
    (record s { timers = record (s.timers) { business = t } }, s.timers.business)

abbrev pub release_timers_for_close : Session → Session × SessionTimers
release_timers_for_close s = (record s { timers = no_timers }, s.timers)
