-- ===== src/Benchmark/FrameCodec.antt =====
-- login_frame_codec.cpp (src/benchmark): requests and responses of the load generator. The messages'
-- own encoding is a parameter.
use aegis_flow.Prelude.{
  ℕ, ◌+◌, ◌-◌, ◌%◌, ◌^◌, ◌≤◌, ◌≡◌, refl, Bool, true, false, not, ◌||◌, Option, none, some, [], ◌∷◌,
  ◌++◌, arith, Bytes, length, take, drop, ltb, if◌then◌else◌,
}
use aegis_flow.Net.Protocol.{
  frame_header_size, max_payload_size, ProtocolError, no_error, empty_payload, payload_too_large,
  multiple_requests, encode_payload_length, decode_payload_length, validate_payload_length,
  decode-encode, validate_of_bounds,
}

pub data LoginFrameError : Type 0 where
  no_frame_error truncated_frame invalid_payload_length trailing_bytes protobuf_parse :
      LoginFrameError

abbrev is_empty : Bytes → Bool
is_empty [] = true
is_empty (b ∷ bs) = false

abbrev is_no_error : ProtocolError → Bool
is_no_error no_error = true
is_no_error empty_payload = false
is_no_error payload_too_large = false
is_no_error multiple_requests = false

-- `std::numeric_limits<int>::max()`
abbrev int_max : ℕ
int_max = 2 ^ 31 - 1

-- `serialize` is `SerializeToString`; none where it fails. none where the function throws.
abbrev frame_of : Option Bytes → Option Bytes
frame_of none = none
frame_of (some payload) =
    if is_empty payload || ltb max_payload_size (length payload)
    then none
    else some (encode_payload_length (length payload % 2 ^ 32) ++ payload)

unfoldable pub encode_login_request_frame {ℓ} :
    {Request : Type ℓ} → (Request → Option Bytes) → Request → Option Bytes
unfolding encode_payload_length
encode_login_request_frame serialize request = frame_of (serialize request)

-- The response, or what is wrong with its frame; `blank` is the message as it is made.
abbrev pub parsed_as {ℓ} : {Response : Type ℓ} → Response × Bool → Response × LoginFrameError
parsed_as (response, parsed) = (response, if parsed then no_frame_error else protobuf_parse)

-- From the payload's length on. `parse` is `ParseFromArray` of the response: what the message then is,
-- and whether it succeeds.
unfoldable pub decode_sized {ℓ} :
    {Response : Type ℓ}
    → Response
    → (Bytes → Response × Bool)
    → Bytes
    → ℕ
    → Response × LoginFrameError
decode_sized blank parse frame payload_size =
    if not (is_no_error (validate_payload_length payload_size))
    then (blank, invalid_payload_length)
    else if ltb (length frame) (frame_header_size + payload_size)
    then (blank, truncated_frame)
    else if ltb (frame_header_size + payload_size) (length frame)
    then (blank, trailing_bytes)
    else if ltb int_max payload_size
    then (blank, invalid_payload_length)
    else parsed_as (parse (drop frame_header_size frame))

unfoldable pub decode_login_response_frame {ℓ} :
    {Response : Type ℓ} → Response → (Bytes → Response × Bool) → Bytes → Response × LoginFrameError
unfolding decode_sized
decode_login_response_frame blank parse frame =
    if ltb (length frame) frame_header_size
    then (blank, truncated_frame)
    else decode_sized blank parse frame (decode_payload_length (take frame_header_size frame))

decode_sized-exact {ℓ} :
    {Response : Type ℓ} (blank : Response) (parse : Bytes → Response × Bool) (frame : Bytes) (n : ℕ)
    → 1 ≤ n
    → n ≤ max_payload_size
    → length frame ≡ frame_header_size + n
    → decode_sized blank parse frame n ≡ parsed_as (parse (drop frame_header_size frame))
unfolding decode_sized
decode_sized-exact blank parse frame n some_there short exact =
    let valid = validate_of_bounds n some_there short in
    let whole : ltb (length frame) (frame_header_size + n) ≡ false = ground (arith, exact) in
    let no_more : ltb (frame_header_size + n) (length frame) ≡ false = ground (arith, exact) in
    let small : ltb int_max n ≡ false = ground (arith, short) in
    rw (valid, whole, no_more, small) refl

-- From a frame of the server the generator parses just the payload.
pub decode-encode_frame {ℓ} :
    {Response : Type ℓ} (blank : Response) (parse : Bytes → Response × Bool) (payload : Bytes)
    → 1 ≤ length payload
    → length payload ≤ max_payload_size
    → decode_login_response_frame blank parse (encode_payload_length (length payload) ++ payload)
      ≡ parsed_as (parse payload)
unfolding decode_login_response_frame encode_payload_length
decode-encode_frame blank parse payload some_there short =
    let frame = encode_payload_length (length payload) ++ payload in
    let long : ltb (length frame) frame_header_size ≡ false = ground arith in
    rw (long, decode-encode (length payload) (omega arith))
      (decode_sized-exact blank parse frame (length payload) some_there short (omega arith))
