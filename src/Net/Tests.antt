-- ===== src/Net/Tests.antt =====
-- The network layer (src/net) at concrete inputs.
use aegis_flow.Prelude.{true, ◌+◌, ◌≡◌, refl, some, List, [], ◌∷◌, ◌++◌, Bytes, arith, pos, length}
use aegis_flow.Net.Protocol.{decode_payload_length, validate_payload_length}
use aegis_flow.Net.Token.{ConnectionToken}
use aegis_flow.Net.Codec.{consume, fresh_codec}
use aegis_flow.Net.Codec.Stream.{heading}
use aegis_flow.Net.Codec.Refinement.{codec_of}
use aegis_flow.Net.Codec.Framing.{
  Consumed, encode_frames, consume_refines, consume-append, consume-encode_frames,
}
use aegis_flow.Net.Session.State.{
  SessionCloseReason, SessionConfig, Session, create, fresh_session, valid_config,
}
use aegis_flow.Net.Session.Input.{on_input}
use aegis_flow.Net.Session.Output.{on_bytes_written, queue_response}
use aegis_flow.Net.Session.Invariant.{IsRoomy, IsValid, Delivery}
use aegis_flow.Net.Limits.{LimitsConfig, valid_limits, session_config, valid_limits-IsRoomy}
use aegis_flow.Net.Session.Creation.{Created, create-Created, fresh_session-IsValid}
use aegis_flow.Net.Session.Receiving.{on_input-Delivery}
use aegis_flow.Net.Session.Lifecycle.{
  Event, receives, responds, writes, begins_close, finalizes, run, is_closed, Reads, run-IsValid,
  run-Reads, run_closes,
}

abbrev token : ConnectionToken
token = record { loop_id = 0; fd = pos 7; generation = 1 }

abbrev config : SessionConfig
config = record {
  max_frame_payload_bytes = 16;
  input_soft_watermark_bytes = 8;
  max_input_buffer_bytes = 32;
  output_soft_watermark_bytes = 8;
  max_output_buffer_bytes = 32;
}

config-IsRoomy : IsRoomy config
config-IsRoomy = record {
  payload = omega arith;
  input = omega arith;
  input_size = omega arith;
  output_size = omega arith;
}

abbrev session : Session
session = fresh_session token config

session-IsValid : IsValid session
session-IsValid = fresh_session-IsValid token config config-IsRoomy

-- Two frames, cut in the middle of the first.
abbrev first_part : Bytes
first_part = 0 ∷ 0 ∷ 0 ∷ 2 ∷ 104 ∷ []

abbrev second_part : Bytes
second_part = 105 ∷ 0 ∷ 0 ∷ 0 ∷ 1 ∷ 33 ∷ []

-- Both frames come in, the first is answered in two writes, and the second is handed out.
abbrev exchange : List Event
exchange =
    receives first_part
    ∷ receives second_part
    ∷ responds token (1 ∷ 2 ∷ [])
    ∷ writes 1
    ∷ writes 1
    ∷ []

run-exchange : (run session exchange).1 ≡ (104 ∷ 105 ∷ []) ∷ (33 ∷ []) ∷ []
unfolding on_input queue_response on_bytes_written consume validate_payload_length
    decode_payload_length
run-exchange = refl

run-Reads_example : Reads session exchange (run session exchange).0 (run session exchange).1
unfolding on_input queue_response on_bytes_written consume validate_payload_length
    decode_payload_length
run-Reads_example = run-Reads session exchange session-IsValid (λ over. over)

run-IsValid_example : IsValid (run session exchange).0
run-IsValid_example = run-IsValid session exchange session-IsValid

abbrev ending : List Event
ending =
    receives first_part ∷ begins_close SessionCloseReason.idle_timeout ∷ finalizes ∷ finalizes ∷ []

run_closes_example :
    (run session ending).2 + is_closed session.state ≡ is_closed (run session ending).0.state
run_closes_example = run_closes session ending session-IsValid

on_input-Delivery_example :
    Delivery session
      (first_part ++ second_part)
      (on_input session (first_part ++ second_part)).0
      (on_input session (first_part ++ second_part)).1.request
on_input-Delivery_example = on_input-Delivery session (first_part ++ second_part) session-IsValid

abbrev answering : Session
answering =
    (run session (receives (first_part ++ second_part) ∷ responds token (1 ∷ 2 ∷ []) ∷ [])).0

create_session : create token config (some (pos 7)) ≡ some session
unfolding create
create_session = refl

create-Created_example : Created token config (some (pos 7)) (create token config (some (pos 7)))
create-Created_example = create-Created token config (some (pos 7)) config-IsRoomy

consume_refines_example :
    Consumed (heading []) first_part (consume (codec_of (heading [])) first_part)
consume_refines_example = consume_refines (heading []) first_part (omega arith)

consume-append_example :
    let (c1, r1) = consume fresh_codec first_part in
    let (c2, r2) = consume c1 second_part in
    let (c, r) = consume fresh_codec (first_part ++ second_part) in
    (c ≡ c2) × (r.frames ≡ r1.frames ++ r2.frames) × (r.error_code ≡ r2.error_code)
consume-append_example = consume-append (heading []) first_part second_part (omega arith)

abbrev two_frames : List Bytes
two_frames = (104 ∷ 105 ∷ []) ∷ (33 ∷ []) ∷ []

consume-encode_frames_example :
    let (c, r) = consume fresh_codec (encode_frames two_frames) in
    (r.frames ≡ two_frames)
    × (c ≡ fresh_codec)
    × (r.bytes_consumed ≡ length (encode_frames two_frames))
consume-encode_frames_example =
    consume-encode_frames two_frames (omega arith, omega arith, (omega arith, omega arith, tt))

-- The defaults of limits.hpp.
abbrev limits : LimitsConfig
limits = record {
  max_connections = 65536;
  max_connections_per_loop = 65536;
  connection_queue_capacity = 1024;
  business_queue_capacity = 1024;
  completion_queue_capacity = 2048;
  completion_queue_byte_capacity = 16777216;
  max_frame_payload_bytes = 1048576;
  input_soft_watermark_bytes = 65536;
  max_input_buffer_bytes = 1048580;
  output_soft_watermark_bytes = 65536;
  max_output_buffer_bytes = 1048580;
}

valid_limits-limits : valid_limits limits 4 8 ≡ true
unfolding valid_limits
valid_limits-limits = refl

valid_limits-IsRoomy_example :
    (valid_config (session_config limits) ≡ true) × IsRoomy (session_config limits)
valid_limits-IsRoomy_example = valid_limits-IsRoomy limits 4 8 valid_limits-limits
