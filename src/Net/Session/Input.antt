-- ===== src/Net/Session/Input.antt =====
-- session.cpp (src/net): the bytes that a connection receives.
-- `offset` of `consumeReadingBytes` is the length of the input less that of `rest`.
use aegis_flow.Prelude.{
  ℕ, zero, suc, ◌+◌, ◌-◌, Bool, true, false, ◌&&◌, none, some, [], ◌∷◌, Bytes, ltb, ◌==◌,
  if◌then◌else◌, length, take, drop, min, sub_size,
}
use aegis_flow.Net.Protocol.{ProtocolError, multiple_requests}
use aegis_flow.Net.Codec.{need_body, error, CodecConsumeResult, consume}
use aegis_flow.Net.Session.State.{
  SessionState, reading, closing, closed, SessionStatus, SessionCloseReason, SessionResult, Session,
  result_with_status, pending_input_bytes, buffered_input_bytes, bytes_needed_by_codec, begin_close,
  append_pending_input, clear_consumed_pending_input,
}

-- The locals of `consumeReadingBytes`, with the session.
pub record Reading : Type 0 where
  pub session : Session
  pub rest : Bytes
  pub result : SessionResult

-- How a round ends: back to the test of the loop, or by a `return`.
pub data ReadFlow : Type 0 where
  goes_on returns : Reading → ReadFlow

abbrev pub close_reading : Reading → SessionCloseReason → SessionStatus → ProtocolError → ReadFlow
close_reading r reason st e = returns (record r {
  session = (begin_close r.session reason).0;
  result = record (r.result) { status = st; protocol_error = e };
})

-- A header has declared more than the configured payload.
unfoldable pub declares_too_much : Session → Bool
declares_too_much s = elim s.codec.next_state [
  | need_body ↦ ltb s.config.max_frame_payload_bytes s.codec.expected_payload_bytes
  | _ ↦ false
]

-- What follows the call of the codec; `r` is as after that call.
unfoldable pub after_codec : Reading → CodecConsumeResult → ReadFlow
unfolding begin_close declares_too_much
after_codec r out = elim out.state [
  | error ↦
      close_reading r SessionCloseReason.protocol_error SessionStatus.protocol_error out.error_code
  | _ ↦
      if declares_too_much r.session
      then close_reading r SessionCloseReason.input_limit_exceeded
          SessionStatus.input_limit_exceeded r.result.protocol_error
      else elim out.frames [
        | [] ↦ goes_on r
        | frame ∷ [] ↦ goes_on (record r {
          session = record (r.session) { state = SessionState.processing };
          result = record (r.result) { status = SessionStatus.request_ready; request = some frame };
        })
        | _ ∷ _ ∷ _ ↦
            close_reading r SessionCloseReason.protocol_error SessionStatus.protocol_error
              multiple_requests
      ]
]

-- One round of the loop.
unfoldable pub read_round : Bool → Reading → ReadFlow
unfolding after_codec bytes_needed_by_codec buffered_input_bytes begin_close
read_round store r =
    let count = min (bytes_needed_by_codec r.session) (length r.rest) in
    if store
      && ltb (sub_size r.session.config.max_input_buffer_bytes (buffered_input_bytes r.session))
          count
    then close_reading r SessionCloseReason.input_limit_exceeded SessionStatus.input_limit_exceeded
        r.result.protocol_error
    else let (codec', out) = consume r.session.codec (take count r.rest) in
      after_codec
        (record r {
          session = record (r.session) { codec = codec' };
          rest = drop out.bytes_consumed r.rest;
        })
        out

-- `while (offset < input.size() && state_ == Reading)`
unfoldable pub read_rounds : ℕ → Bool → Reading → ReadFlow
unfolding read_round
read_rounds zero store r = goes_on r
read_rounds (suc fuel) store r = elim r.rest [
  | [] ↦ goes_on r
  | _ ∷ _ ↦ elim r.session.state [
    | reading ↦ elim (read_round store r) [
      | goes_on r' ↦ read_rounds fuel store r'
      | returns r' ↦ returns r'
    ]
    | _ ↦ goes_on r
  ]
]

-- `bytes_accepted = offset`
abbrev pub accepted : ℕ → Reading → Session × SessionResult
accepted size r = (r.session, record (r.result) { bytes_accepted = size - length r.rest })

-- What follows the loop.
unfoldable pub store_rest : Bool → ℕ → Reading → Session × SessionResult
unfolding buffered_input_bytes begin_close append_pending_input
store_rest false size r = accepted size r
store_rest true size r = elim r.rest [
  | [] ↦ accepted size r
  | _ ∷ _ ↦
      if ltb (sub_size r.session.config.max_input_buffer_bytes (buffered_input_bytes r.session))
        (length r.rest)
      then accepted size (record r {
        session = (begin_close r.session SessionCloseReason.input_limit_exceeded).0;
        result = record (r.result) { status = SessionStatus.input_limit_exceeded; request = none };
      })
      else accepted size (record r { session = append_pending_input r.session r.rest; rest = [] })
]

-- What becomes of the end of the loop.
unfoldable pub finish_reading : Bool → ℕ → ReadFlow → Session × SessionResult
unfolding store_rest
finish_reading store size f = elim f [
  | goes_on r ↦ store_rest store size r
  | returns r ↦ accepted size r
]

unfoldable pub consume_reading_bytes : Session → Bytes → Bool → Session × SessionResult
unfolding read_rounds finish_reading
consume_reading_bytes s input store = finish_reading store (length input) (
    read_rounds (length input) store
      (record { session = s; rest = input; result = result_with_status SessionStatus.buffered }))

unfoldable pub on_input : Session → Bytes → Session × SessionResult
unfolding consume_reading_bytes
on_input s input = elim s.state [
  | closing ↦ (s, result_with_status SessionStatus.closing)
  | closed ↦ (s, result_with_status SessionStatus.closed)
  | st ↦ elim input [
    | [] ↦ (s, result_with_status SessionStatus.buffered)
    | b ∷ bs ↦ elim st [
      | reading ↦ consume_reading_bytes s (b ∷ bs) true
      | _ ↦
          if ltb (sub_size s.config.max_input_buffer_bytes (buffered_input_bytes s))
            (length (b ∷ bs))
          then (
            (begin_close s SessionCloseReason.input_limit_exceeded).0,
            result_with_status SessionStatus.input_limit_exceeded,
          )
          else (
            append_pending_input s (b ∷ bs),
            record (result_with_status SessionStatus.buffered) { bytes_accepted = length (b ∷ bs) },
          )
    ]
  ]
]

unfoldable pub consume_pending_input : Session → Session × SessionResult
unfolding consume_reading_bytes pending_input_bytes clear_consumed_pending_input
consume_pending_input s = elim s.state [
  | reading ↦
      if pending_input_bytes s == 0
      then (s, result_with_status SessionStatus.buffered)
      else let (s', out) =
          consume_reading_bytes s (drop s.pending_input_offset s.pending_input) false in
        (
          clear_consumed_pending_input
              (record s' { pending_input_offset = s'.pending_input_offset + out.bytes_accepted }),
          out,
        )
  | _ ↦ (s, result_with_status SessionStatus.buffered)
]
