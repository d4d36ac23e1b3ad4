-- ===== src/Net/Token.antt =====
-- connection_token.hpp (include/aegisflow/net).
use aegis_flow.Prelude.{
  ℕ, Bool, true, ◌&&◌, not, ◌==◌, ◌≡◌, arith, ℤ, is_nonneg, ◌==ℤ◌, int_eq_refl, eq_of_int_eq,
}

pub record ConnectionToken : Type 0 where
  pub loop_id : ℕ
  pub fd : ℤ
  pub generation : ℕ

unfoldable pub valid : ConnectionToken → Bool
valid t = is_nonneg t.fd && not (t.generation == 0)

unfoldable pub token_eq : ConnectionToken → ConnectionToken → Bool
token_eq a b = (a.loop_id == b.loop_id) && (a.fd ==ℤ b.fd) && (a.generation == b.generation)

pub token_eq_refl : (a : ConnectionToken) → token_eq a a ≡ true
unfolding token_eq
token_eq_refl a = ground (arith, int_eq_refl a.fd)

pub eq_of_token_eq : (a b : ConnectionToken) → token_eq a b ≡ true → a ≡ b
unfolding token_eq
eq_of_token_eq a b h = ground (arith, eq_of_int_eq a.fd b.fd)
