-- ===== src/Net/Session/Creation.antt =====
-- What the constructor of a session promises.
use aegis_flow.Prelude.{
  ℕ, ◌≤◌, ◌<◌, ◌^◌, ◌≡◌, refl, ap, ◌∙◌, inl, inr, true, false, not, ◌||◌, Option, none, some, [],
  arith, Bool-cases, ℤ, pos, negsuc, is_nonneg, ◌==ℤ◌, int_eq_refl, eq_of_int_eq,
}
use aegis_flow.Net.Token
use aegis_flow.Net.Token.{ConnectionToken}
use aegis_flow.Net.Codec.Stream.{heading}
use mathlib.Core.Option.{some-injective, none-ne-some}
use aegis_flow.Net.Session.State.{SessionConfig, Session, valid_config, create, fresh_session}
use aegis_flow.Net.Session.Invariant.{IsRoomy, IsValid}

pub fresh_session-IsValid :
    (t : ConnectionToken) (c : SessionConfig) → IsRoomy c → IsValid (fresh_session t c)
fresh_session-IsValid t c roomy = record {
  at = heading [];
  codec_at = refl;
  reachable = omega arith;
  roomy = roomy;
  offset_in = omega arith;
  pending_fits = omega arith;
  bounded = omega arith;
  output_in = omega arith;
  output_fits = omega arith;
  ready = (refl, omega arith, tt, refl);
  handle = refl;
}

-- What the constructor asks for: a token that can name a connection, sizes that agree, and a handle
-- of the token's descriptor.
pub record IsAccepted (t : ConnectionToken) (c : SessionConfig) (handle : Option ℤ) : Type 0 where
  pub descriptor : (n : ℕ) × (t.fd ≡ pos n)
  pub generation : 0 < t.generation
  pub payload : (0 < c.max_frame_payload_bytes) × (c.max_frame_payload_bytes ≤ 2 ^ 20)
  pub input :
      (0 < c.input_soft_watermark_bytes) × (c.input_soft_watermark_bytes ≤ c.max_input_buffer_bytes)
  pub one_payload : c.max_frame_payload_bytes ≤ c.max_input_buffer_bytes
  pub output :
      (0 < c.output_soft_watermark_bytes)
      × (c.output_soft_watermark_bytes ≤ c.max_output_buffer_bytes)
  pub same : handle ≡ some t.fd

nonneg : (a : ℤ) → is_nonneg a ≡ true → (n : ℕ) × (a ≡ pos n)
nonneg (pos n) h = (n, refl)
nonneg (negsuc n) h = absurd (ground arith)

refuses :
    (t : ConnectionToken) (c : SessionConfig) (fd : ℤ)
    → not (Token.valid t) || not (valid_config c) || not (fd ==ℤ t.fd) ≡ true
    → ¬ IsAccepted t c (some fd)
unfolding valid_config Token.valid
refuses t c fd e a =
    let there : is_nonneg t.fd ≡ true = ap is_nonneg a.descriptor.1 in
    let equal : (fd ==ℤ t.fd) ≡ true =
      ap (λ x. x ==ℤ t.fd) (some-injective fd t.fd a.same) ∙ int_eq_refl t.fd in
    ground (
      arith, there, equal, a.generation, a.payload.0, a.payload.1, a.input.0, a.input.1,
      a.one_payload, a.output.0, a.output.1,
    )

takes :
    (t : ConnectionToken) (c : SessionConfig) (fd : ℤ)
    → not (Token.valid t) || not (valid_config c) || not (fd ==ℤ t.fd) ≡ false
    → IsAccepted t c (some fd)
unfolding valid_config Token.valid
takes t c fd e = record {
  descriptor = nonneg t.fd (ground arith);
  generation = ground arith;
  payload = (ground arith, ground arith);
  input = (ground arith, ground arith);
  one_payload = ground arith;
  output = (ground arith, ground arith);
  same = ap some (eq_of_int_eq fd t.fd (ground arith));
}

-- Either the constructor refuses what it may not take, or there is a valid session.
abbrev pub Created : ConnectionToken → SessionConfig → Option ℤ → Option Session → Type 0
Created t c handle none = ¬ IsAccepted t c handle
Created t c handle (some s) = IsAccepted t c handle × IsValid s × (s.token ≡ t) × (s.config ≡ c)

-- For a configuration with room for a frame, the constructor makes a session exactly if the token,
-- the sizes and the handle are those it asks for; the session then has that token and
-- configuration, and is valid.
pub create-Created :
    (t : ConnectionToken) (c : SessionConfig) (handle : Option ℤ)
    → IsRoomy c
    → Created t c handle (create t c handle)
unfolding create
create-Created t c none roomy = λ a. none-ne-some t.fd a.same
create-Created t c (some fd) roomy =
    elim (Bool-cases (not (Token.valid t) || not (valid_config c) || not (fd ==ℤ t.fd))) [
      | inl e ↦ rw e (refuses t c fd e)
      | inr e ↦ rw e (takes t c fd e, fresh_session-IsValid t c roomy, refl, refl)
    ]
