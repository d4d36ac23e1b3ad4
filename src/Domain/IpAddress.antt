-- ===== src/Domain/IpAddress.antt =====
-- ip_address.hpp and ip_address.cpp (include/aegisflow/domain, src/domain): an address in one form.
use aegis_flow.Prelude.{
  ℕ, ◌-◌, Bool, true, false, not, ◌&&◌, ◌||◌, Option, none, some, [], ◌∷◌, ◌++◌, Bytes, ◌==◌,
  if◌then◌else◌, length, take, drop, replicate, get_or,
}
pub mod Mapped

pub data Family : Type 0 where
  inet inet6 : Family

pub record IpAddress : Type 0 where
  -- 16 bytes, the first `byte_count` of them in use.
  pub bytes : Bytes
  pub byte_count : ℕ
  pub canonical_text : Bytes

abbrev pub contains_null : Bytes → Bool
contains_null [] = false
contains_null (b ∷ bs) = (b == 0) || contains_null bs

abbrev is_empty : Bytes → Bool
is_empty [] = true
is_empty (b ∷ bs) = false

abbrev all_zero : Bytes → Bool
all_zero [] = true
all_zero (b ∷ bs) = (b == 0) && all_zero bs

unfoldable pub is_ipv4_mapped_ipv6 : Bytes → Bool
is_ipv4_mapped_ipv6 bytes =
    all_zero (take 10 bytes) && (get_or bytes 10 0 == 255) && (get_or bytes 11 0 == 255)

-- `bytes` padded to the array of 16.
abbrev padded : Bytes → Bytes
padded bytes = bytes ++ replicate (16 - length bytes) 0

-- `inet_pton` and `inet_ntop` are the C library's: the bytes of a text, if it is an address of the
-- family, and the text of an array of 16 bytes, read as an address of the family.
module _ (inet_pton : Family → Bytes → Option Bytes)
    (inet_ntop : Family → Bytes → Option Bytes) where
  -- The array and the count of bytes in use, after an IPv4-mapped address is folded to IPv4.
  unfoldable pub normalized : Bytes → Bytes × ℕ
  unfolding is_ipv4_mapped_ipv6
  normalized bytes =
      let all = padded bytes in
      if (length bytes == 16) && is_ipv4_mapped_ipv6 all
      then (drop 12 all ++ replicate 12 0, 4)
      else (all, length bytes)

  unfoldable pub from_bytes : Bytes → Option IpAddress
  unfolding normalized
  from_bytes bytes =
      if not (length bytes == 4) && not (length bytes == 16)
      then none
      else let (all, count) = normalized bytes in
        elim (inet_ntop (if count == 4 then inet else inet6) all) [
          | none ↦ none
          | some text ↦ some (record { bytes = all; byte_count = count; canonical_text = text })
        ]

  unfoldable pub parse : Bytes → Option IpAddress
  unfolding from_bytes
  parse text = if is_empty text || contains_null text then none else elim (inet_pton inet text) [
    | some bytes ↦ from_bytes bytes
    | none ↦ elim (inet_pton inet6 text) [ some bytes ↦ from_bytes bytes | none ↦ none ]
  ]
