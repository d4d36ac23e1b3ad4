-- ===== src/Net/Protocol.antt =====
-- include/aegisflow/net/protocol_contract.hpp: the four-byte big-endian length in front of a payload.
use aegis_flow.Prelude.{
  ℕ, ◌+◌, ◌*◌, ◌/◌, ◌%◌, ◌^◌, ◌≤◌, ◌<◌, ◌≡◌, [], ◌∷◌, Bytes, arith, ltb, if◌then◌else◌,
}

abbrev pub frame_header_size : ℕ
frame_header_size = 4

abbrev pub min_payload_size : ℕ
min_payload_size = 1

abbrev pub max_payload_size : ℕ
max_payload_size = 1024 * 1024

-- A byte stands for itself; `x >> k & 0xff` is `x / 2 ^ k % 256`.
unfoldable pub encode_payload_length : ℕ → Bytes
encode_payload_length n =
    (n / 2 ^ 24 % 256) ∷ (n / 2 ^ 16 % 256) ∷ (n / 2 ^ 8 % 256) ∷ (n % 256) ∷ []

-- The four bytes occupy disjoint bits of the word, so that `|` adds them up. A header has four bytes;
-- of any other list the value is 0.
unfoldable pub decode_payload_length : Bytes → ℕ
decode_payload_length (a ∷ b ∷ c ∷ d ∷ []) = a * 2 ^ 24 + b * 2 ^ 16 + c * 2 ^ 8 + d
decode_payload_length _ = 0

pub data ProtocolError : Type 0 where
  no_error empty_payload payload_too_large multiple_requests : ProtocolError

unfoldable pub validate_payload_length : ℕ → ProtocolError
validate_payload_length n =
    if ltb n min_payload_size
    then empty_payload
    else if ltb max_payload_size n
    then payload_too_large
    else no_error

-- A length of at most 32 bits survives the header.
pub decode-encode : (n : ℕ) → n < 2 ^ 32 → decode_payload_length (encode_payload_length n) ≡ n
unfolding encode_payload_length decode_payload_length
decode-encode n h = omega arith

-- A header of four bytes is the encoding of its length.
pub encode-decode :
    (a b c d : ℕ)
    → a < 256
    → b < 256
    → c < 256
    → d < 256
    → encode_payload_length (decode_payload_length (a ∷ b ∷ c ∷ d ∷ [])) ≡ a ∷ b ∷ c ∷ d ∷ []
unfolding encode_payload_length decode_payload_length
encode-decode a b c d ha hb hc hd = ground arith

pub validate-no_error :
    (n : ℕ) → validate_payload_length n ≡ no_error → (1 ≤ n) × (n ≤ max_payload_size)
unfolding validate_payload_length
validate-no_error n h = ground arith

pub validate_of_bounds :
    (n : ℕ) → 1 ≤ n → n ≤ max_payload_size → validate_payload_length n ≡ no_error
unfolding validate_payload_length
validate_of_bounds n h k = ground arith
