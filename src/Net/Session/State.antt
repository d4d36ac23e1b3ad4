-- ===== src/Net/Session/State.antt =====
-- session.hpp and session.cpp (include/aegisflow/net, src/net): the state of one connection.
use aegis_flow.Prelude.{
  ℕ, ◌+◌, Bool, true, false, not, ◌&&◌, ◌||◌, Option, none, some, [], ◌∷◌, ◌++◌, Bytes, ltb, leb,
  ◌==◌, if◌then◌else◌, length, drop, sub_size, ℤ, ◌==ℤ◌,
}
use aegis_flow.Timer.Types.{TimerId, no_timer}
use aegis_flow.Net.Protocol.{ProtocolError, no_error, frame_header_size, max_payload_size}
use aegis_flow.Net.Codec.{Codec, need_header, need_body, fresh_codec, buffered_bytes}
use aegis_flow.Net.Token.{ConnectionToken, token_eq}
use aegis_flow.Net.Token

pub data SessionState : Type 0 where
  reading processing writing closing closed : SessionState

pub data SessionStatus : Type 0 where
  ok buffered request_ready invalid_state invalid_argument stale_token : SessionStatus
  input_limit_exceeded output_limit_exceeded protocol_error truncated_frame : SessionStatus
  write_progress_exceeded closing closed : SessionStatus

pub data SessionCloseReason : Type 0 where
  no_reason local_shutdown protocol_error input_limit_exceeded output_limit_exceeded :
      SessionCloseReason
  peer_closed peer_truncated_frame write_invariant_violation io_error : SessionCloseReason
  business_queue_rejected business_error idle_timeout read_timeout write_timeout :
      SessionCloseReason
  business_timeout resource_exhausted : SessionCloseReason

pub data SessionTimerKind : Type 0 where
  idle read write business : SessionTimerKind

pub record SessionTimers : Type 0 where
  pub idle : TimerId
  pub read : TimerId
  pub write : TimerId
  pub business : TimerId

abbrev pub no_timers : SessionTimers
no_timers = record { idle = no_timer; read = no_timer; write = no_timer; business = no_timer }

pub record SessionConfig : Type 0 where
  pub max_frame_payload_bytes : ℕ
  pub input_soft_watermark_bytes : ℕ
  pub max_input_buffer_bytes : ℕ
  pub output_soft_watermark_bytes : ℕ
  pub max_output_buffer_bytes : ℕ

pub record SessionResult : Type 0 where
  pub status : SessionStatus
  pub request : Option Bytes
  pub bytes_accepted : ℕ
  pub protocol_error : ProtocolError

pub record Session : Type 0 where
  pub token : ConnectionToken
  pub config : SessionConfig
  pub codec : Codec
  pub pending_input : Bytes
  pub pending_input_offset : ℕ
  pub output : Bytes
  pub output_offset : ℕ
  pub timers : SessionTimers
  pub state : SessionState
  pub close_reason : SessionCloseReason
  pub peer_read_closed : Bool
  pub close_after_write : Bool
  pub connection_closed : Bool

abbrev pub result_with_status : SessionStatus → SessionResult
result_with_status st = record {
  status = st;
  request = none;
  bytes_accepted = 0;
  protocol_error = no_error;
}

unfoldable pub valid_config : SessionConfig → Bool
valid_config c =
    ltb 0 c.max_frame_payload_bytes
    && leb c.max_frame_payload_bytes max_payload_size
    && ltb 0 c.input_soft_watermark_bytes
    && leb c.input_soft_watermark_bytes c.max_input_buffer_bytes
    && leb c.max_frame_payload_bytes c.max_input_buffer_bytes
    && ltb 0 c.output_soft_watermark_bytes
    && leb c.output_soft_watermark_bytes c.max_output_buffer_bytes

abbrev pub fresh_session : ConnectionToken → SessionConfig → Session
fresh_session t c = record {
  token = t;
  config = c;
  codec = fresh_codec;
  pending_input = [];
  pending_input_offset = 0;
  output = [];
  output_offset = 0;
  timers = no_timers;
  state = SessionState.reading;
  close_reason = SessionCloseReason.no_reason;
  peer_read_closed = false;
  close_after_write = false;
  connection_closed = false;
}

-- The constructor; `fd` is what the connection handle reports, none where there is no handle. A
-- refusal throws, after closing the handle.
unfoldable pub create : ConnectionToken → SessionConfig → Option ℤ → Option Session
unfolding valid_config Token.valid
create t c none = none
create t c (some fd) =
    if not (Token.valid t) || not (valid_config c) || not (fd ==ℤ t.fd)
    then none
    else some (fresh_session t c)

unfoldable pub pending_input_bytes : Session → ℕ
pending_input_bytes s = sub_size (length s.pending_input) s.pending_input_offset

unfoldable pub buffered_input_bytes : Session → ℕ
unfolding pending_input_bytes buffered_bytes
buffered_input_bytes s = buffered_bytes s.codec + pending_input_bytes s

unfoldable pub remaining_output_bytes : Session → ℕ
remaining_output_bytes s = sub_size (length s.output) s.output_offset

unfoldable pub pending_output : Session → Bytes
pending_output s = drop s.output_offset s.output

unfoldable pub bytes_needed_by_codec : Session → ℕ
unfolding buffered_bytes
bytes_needed_by_codec s = elim s.codec.next_state [
  | need_header ↦ sub_size frame_header_size (buffered_bytes s.codec)
  | need_body ↦ sub_size s.codec.expected_payload_bytes (buffered_bytes s.codec)
  | _ ↦ 0
]

unfoldable pub begin_close : Session → SessionCloseReason → Session × SessionStatus
begin_close s reason = elim s.state [
  | closed ↦ (s, SessionStatus.closed)
  | closing ↦ (s, SessionStatus.closing)
  | _ ↦ elim reason [
    | no_reason ↦ (s, SessionStatus.invalid_argument)
    | r ↦ (record s { state = SessionState.closing; close_reason = r }, SessionStatus.closing)
  ]
]

-- The second component is the number of calls of `connection_->close()`.
unfoldable pub finalize_close : Session → Session × ℕ × SessionStatus
unfolding begin_close
finalize_close s = elim s.state [
  | closed ↦ (s, 0, SessionStatus.closed)
  | st ↦
      let s1 : Session = elim st [
        | closing ↦ s
        | _ ↦ (begin_close s SessionCloseReason.local_shutdown).0
      ] in
      (
        record s1 { connection_closed = true; state = SessionState.closed },
        if s1.connection_closed then 0 else 1,
        SessionStatus.ok,
      )
]

unfoldable pub append_pending_input : Session → Bytes → Session
append_pending_input s [] = s
append_pending_input s (b ∷ bs) = record s {
  pending_input = drop s.pending_input_offset s.pending_input ++ (b ∷ bs);
  pending_input_offset = 0;
}

unfoldable pub clear_consumed_pending_input : Session → Session
clear_consumed_pending_input s =
    if s.pending_input_offset == length s.pending_input
    then record s { pending_input = []; pending_input_offset = 0 }
    else s
