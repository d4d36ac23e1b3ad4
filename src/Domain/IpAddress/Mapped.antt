-- ===== src/Domain/IpAddress/Mapped.antt =====
-- One address, one form: what `IpAddress::fromBytes` of ip_address.cpp (src/domain) makes of the two
-- ways to write an IPv4 address.
use aegis_flow.Prelude.{ℕ, ◌≡◌, refl, Option, [], ◌∷◌, ◌++◌, Bytes, replicate}
use aegis_flow.Domain.IpAddress.{Family, normalized, from_bytes, is_ipv4_mapped_ipv6}

-- `::ffff:` in front of the four bytes of an IPv4 address.
abbrev pub mapped : ℕ → ℕ → ℕ → ℕ → Bytes
mapped a b c d = replicate 10 0 ++ (255 ∷ 255 ∷ a ∷ b ∷ c ∷ d ∷ [])

module _ (inet_pton : Family → Bytes → Option Bytes)
    (inet_ntop : Family → Bytes → Option Bytes) where
  -- An IPv4 address and the IPv6 address that maps it are the same value, or both none, so that they
  -- cannot become two keys.
  pub from_bytes-mapped :
      (a b c d : ℕ)
      → from_bytes inet_pton inet_ntop (mapped a b c d)
        ≡ from_bytes inet_pton inet_ntop (a ∷ b ∷ c ∷ d ∷ [])
  unfolding from_bytes normalized is_ipv4_mapped_ipv6
  from_bytes-mapped a b c d = refl
