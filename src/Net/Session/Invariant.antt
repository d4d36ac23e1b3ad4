-- ===== src/Net/Session/Invariant.antt =====
-- What holds of a session between two calls, and what a call that receives bytes leaves behind.
use aegis_flow.Prelude.{
  ℕ, ◌+◌, ◌^◌, ◌≤◌, ◌<◌, ◌≡◌, refl, ◌⊎◌, Bool, true, false, Option, none, some, List, [], ◌∷◌, ◌++◌,
  Bytes, arith, length, drop, length-drop,
}
use aegis_flow.Net.Protocol.{frame_header_size, max_payload_size}
use aegis_flow.Net.Codec.{Codec, need_body, error, buffered_bytes}
use aegis_flow.Net.Codec.Stream.{Position, heading, bodying, failed, feed_all, IsActive}
use aegis_flow.Net.Codec.Refinement.{codec_of}
use aegis_flow.Net.Codec.Framing.{IsReachable}
use aegis_flow.Net.Session.State.{
  SessionState, SessionCloseReason, SessionConfig, Session, pending_input_bytes,
  buffered_input_bytes,
}
use aegis_flow.Net.Session.Reads.{Fits}

abbrev pub position_of : Codec → Position
position_of c = elim c.next_state [
  | need_body ↦ bodying c.expected_payload_bytes c.payload
  | error ↦ failed c.error_code
  | _ ↦ heading c.header
]

pub position_of-codec_of : (p : Position) → position_of (codec_of p) ≡ p
position_of-codec_of (heading h) = refl
position_of-codec_of (bodying n q) = refl
position_of-codec_of (failed e) = refl

-- Bytes that the codec holds.
abbrev pub held : Position → ℕ
held (heading h) = length h
held (bodying n q) = length q
held (failed e) = 0

pub buffered_bytes-codec_of : (p : Position) → buffered_bytes (codec_of p) ≡ held p
unfolding buffered_bytes
buffered_bytes-codec_of (heading h) = omega arith
buffered_bytes-codec_of (bodying n q) = omega arith
buffered_bytes-codec_of (failed e) = omega arith

-- Input that waits behind the request in flight.
abbrev pub unread : Session → Bytes
unread s = drop s.pending_input_offset s.pending_input

-- What `limits.hpp` asks of the sizes that become a session's configuration.
pub record IsRoomy (c : SessionConfig) : Type 0 where
  pub payload : c.max_frame_payload_bytes ≤ max_payload_size
  pub input : frame_header_size + c.max_frame_payload_bytes ≤ c.max_input_buffer_bytes
  pub input_size : c.max_input_buffer_bytes < 2 ^ 64
  pub output_size : c.max_output_buffer_bytes < 2 ^ 64

-- A reason other than none, once the session is to close after its response.
abbrev pub HasReason : Bool → SessionCloseReason → Type 0
HasReason true SessionCloseReason.no_reason = ⊥
HasReason true _ = Unit
HasReason false _ = Unit

-- While a session reads, nothing waits; while a request is in flight, the codec is between frames.
abbrev pub IsReady : SessionState → Session → Position → Type 0
IsReady SessionState.reading s p =
    (unread s ≡ [])
    × IsActive p
    × Fits s.config.max_frame_payload_bytes p
    × (s.close_after_write ≡ false)
IsReady SessionState.processing s p = (p ≡ heading []) × (s.close_after_write ≡ false)
IsReady SessionState.writing s p = (p ≡ heading []) × HasReason s.close_after_write s.close_reason
IsReady SessionState.closing s p = Unit
IsReady SessionState.closed s p = Unit

-- The bytes held back stay within the limit. (A session that closes takes no more.)
abbrev pub IsBounded : SessionState → Session → Position → Type 0
IsBounded SessionState.closing s p = Unit
IsBounded SessionState.closed s p = Unit
IsBounded _ s p = held p + length (unread s) ≤ s.config.max_input_buffer_bytes

-- The handle is closed by `finalizeClose` only.
abbrev pub HandleFits : SessionState → Bool → Type 0
HandleFits SessionState.closed b = b ≡ true
HandleFits _ b = b ≡ false

pub record IsValid (s : Session) : Type 0 where
  pub at : Position
  pub codec_at : s.codec ≡ codec_of at
  pub reachable : IsReachable at
  pub roomy : IsRoomy s.config
  pub offset_in : s.pending_input_offset ≤ length s.pending_input
  pub pending_fits : length s.pending_input < 2 ^ 64
  pub bounded : IsBounded s.state s at
  pub output_in : s.output_offset ≤ length s.output
  pub output_fits : length s.output ≤ s.config.max_output_buffer_bytes
  pub ready : IsReady s.state s at
  pub handle : HandleFits s.state s.connection_closed

-- `bufferedInputBytes()`, without wrap-around.
pub buffered_input_bytes_lem :
    {s : Session} (v : IsValid s) → buffered_input_bytes s ≡ held v.at + length (unread s)
unfolding buffered_input_bytes pending_input_bytes
buffered_input_bytes_lem {s} v =
    rw (v.codec_at, buffered_bytes-codec_of)
      (omega
        (arith, length-drop s.pending_input_offset s.pending_input, v.offset_in, v.pending_fits))

-- A session that has stopped to serve.
abbrev pub IsOver : SessionState → Type 0
IsOver SessionState.closing = Unit
IsOver SessionState.closed = Unit
IsOver _ = ⊥

abbrev pub to_list {ℓ} : {A : Type ℓ} → Option A → List A
to_list none = []
to_list (some a) = a ∷ []

-- From `s` to `s'` the stream goes on: what waited and what came in, `input`, is read up to what
-- now waits, and the request handed out is the frame that completes on the way, if one does.
pub record Delivers (s : Session) (input : Bytes) (s' : Session) (request : Option Bytes)
    : Type 0 where
  pub taken : Bytes
  pub split : taken ++ unread s' ≡ unread s ++ input
  pub frames : feed_all (position_of s.codec) taken ≡ (position_of s'.codec, to_list request)

-- The contract of a call: a valid session, which delivers or is over.
pub record Delivery (s : Session) (input : Bytes) (s' : Session) (request : Option Bytes)
    : Type 0 where
  pub valid : IsValid s'
  pub ending : (IsOver s'.state × (request ≡ none)) ⊎ Delivers s input s' request
