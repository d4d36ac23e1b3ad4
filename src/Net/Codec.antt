-- ===== src/Net/Codec.antt =====
-- length_prefixed_codec.hpp and .cpp (include/aegisflow/net, src/net): frames out of a byte stream.
pub mod Stream
pub mod Refinement
pub mod Framing
use aegis_flow.Prelude.{
  ℕ, zero, suc, ◌+◌, ◌-◌, List, [], ◌∷◌, ◌++◌, Bytes, ltb, ◌==◌, if◌then◌else◌, length, take, drop,
  min,
}
use aegis_flow.Net.Protocol.{
  ProtocolError, no_error, frame_header_size, decode_payload_length, validate_payload_length,
}

pub data CodecState : Type 0 where
  need_header need_body frame_ready error : CodecState

-- `header_` holds `header_bytes_` bytes that count: here the list of those.
pub record Codec : Type 0 where
  pub header : Bytes
  pub expected_payload_bytes : ℕ
  pub payload : Bytes
  pub next_state : CodecState
  pub error_code : ProtocolError

abbrev pub fresh_codec : Codec
fresh_codec = record {
  header = [];
  expected_payload_bytes = 0;
  payload = [];
  next_state = need_header;
  error_code = no_error;
}

pub record CodecConsumeResult : Type 0 where
  pub state : CodecState
  pub error_code : ProtocolError
  pub bytes_consumed : ℕ
  pub frames : List Bytes

unfoldable pub buffered_bytes : Codec → ℕ
buffered_bytes c = length c.header + length c.payload

unfoldable pub enter_error : Codec → ProtocolError → Codec
enter_error c e = record c {
  header = [];
  expected_payload_bytes = 0;
  payload = [];
  next_state = error;
  error_code = e;
}

-- The locals of `consume`: `rest` is the input from `offset` on.
pub record Progress : Type 0 where
  pub codec : Codec
  pub rest : Bytes
  pub frames : List Bytes

-- How a round of the loop ends.
pub data Flow : Type 0 where
  continues breaks : Progress → Flow

-- As many payload bytes as are there and wanted; a full payload is a frame.
unfoldable pub take_payload : Progress → Progress
take_payload p =
    let n = min (p.codec.expected_payload_bytes - length p.codec.payload) (length p.rest) in
    let payload' : Bytes = p.codec.payload ++ take n p.rest in
    if length payload' == p.codec.expected_payload_bytes
    then record {
      codec = record (p.codec) {
        payload = [];
        expected_payload_bytes = 0;
        next_state = need_header;
      };
      rest = drop n p.rest;
      frames = p.frames ++ (payload' ∷ []);
    }
    else record {
      codec = record (p.codec) { payload = payload' };
      rest = drop n p.rest;
      frames = p.frames;
    }

-- The second `if` of the loop body.
unfoldable pub body_part : Progress → Progress
unfolding take_payload
body_part p = elim p.codec.next_state [
  | need_body ↦ elim p.rest [ [] ↦ p | _ ∷ _ ↦ take_payload p ]
  | _ ↦ p
]

-- What follows the fourth byte of a header.
unfoldable pub header_done : Codec → Bytes → Bytes → List Bytes → Flow
unfolding enter_error body_part
header_done c header' rest' frames =
    let declared = decode_payload_length header' in
    elim (validate_payload_length declared) [
      | no_error ↦ continues (
          body_part (record {
            codec = record c {
              header = [];
              expected_payload_bytes = declared;
              next_state = need_body;
            };
            rest = rest';
            frames = frames;
          }))
      | e ↦ breaks (record {
        codec = enter_error (record c { header = [] }) e;
        rest = rest';
        frames = frames;
      })
    ]

-- One round of the loop of `consume`.
unfoldable pub round : Progress → Flow
unfolding header_done body_part
round p = elim p.codec.next_state [
  | need_header ↦
      let n = min (frame_header_size - length p.codec.header) (length p.rest) in
      let header' : Bytes = p.codec.header ++ take n p.rest in
      if ltb (length header') frame_header_size
      then continues (record {
        codec = record (p.codec) { header = header' };
        rest = drop n p.rest;
        frames = p.frames;
      })
      else header_done p.codec header' (drop n p.rest) p.frames
  | _ ↦ continues (body_part p)
]

-- `while (offset < input.size())`; every round takes at least one byte.
unfoldable pub rounds : ℕ → Progress → Progress
unfolding round
rounds zero p = p
rounds (suc fuel) p = elim p.rest [
  | [] ↦ p
  | _ ∷ _ ↦ elim (round p) [ continues q ↦ rounds fuel q | breaks q ↦ q ]
]

-- The state that a call reports: `FrameReady` where it delivers a frame.
unfoldable pub reported_state : CodecState → List Bytes → CodecState
reported_state error fs = error
reported_state s [] = s
reported_state s (f ∷ fs) = frame_ready

unfoldable pub result_of : ℕ → Progress → CodecConsumeResult
unfolding reported_state
result_of size p = record {
  state = reported_state p.codec.next_state p.frames;
  error_code = p.codec.error_code;
  bytes_consumed = size - length p.rest;
  frames = p.frames;
}

unfoldable pub consume : Codec → Bytes → Codec × CodecConsumeResult
unfolding rounds result_of
consume c input = elim c.next_state [
  | error ↦
      (c, record { state = error; error_code = c.error_code; bytes_consumed = 0; frames = [] })
  | _ ↦
      let p = rounds (length input) (record { codec = c; rest = input; frames = [] }) in
      (p.codec, result_of (length input) p)
]
