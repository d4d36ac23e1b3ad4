-- ===== src/Net/Codec/Stream.antt =====
-- What the codec is for: a byte-at-a-time reading of a stream of frames, without buffers or chunks.
use aegis_flow.Prelude.{
  ℕ, ◌+◌, ◌≤◌, ◌<◌, ◌≡◌, refl, List, [], ◌∷◌, ◌++◌, append_assoc, append-nil, Bytes, arith, ltb,
  ◌==◌, if◌then◌else◌, length, length-append,
}
use aegis_flow.Net.Protocol.{
  ProtocolError, no_error, frame_header_size, max_payload_size, decode_payload_length,
  validate_payload_length,
}

-- Where a stream stands: inside a header, inside a payload of a known length, or past a bad header.
pub data Position : Type 0 where
  heading : Bytes → Position
  bodying : ℕ → Bytes → Position
  failed : ProtocolError → Position

abbrev pub after_header : ℕ → Position
after_header n = elim (validate_payload_length n) [ no_error ↦ bodying n [] | e ↦ failed e ]

unfoldable pub feed : Position → ℕ → Position × List Bytes
feed (heading h) b =
    let h' : Bytes = h ++ (b ∷ []) in
    if length h' == frame_header_size
    then (after_header (decode_payload_length h'), [])
    else (heading h', [])
feed (bodying n p) b =
    let p' : Bytes = p ++ (b ∷ []) in
    if length p' == n then (heading [], p' ∷ []) else (bodying n p', [])
feed (failed e) b = (failed e, [])

unfoldable pub feed_all : Position → Bytes → Position × List Bytes
unfolding feed
feed_all s [] = (s, [])
feed_all s (b ∷ bs) = let (s1, f1) = feed s b in let (s2, f2) = feed_all s1 bs in (s2, f1 ++ f2)

-- A position at which a reading goes on.
abbrev pub IsActive : Position → Type 0
IsActive (heading h) = length h < frame_header_size
IsActive (bodying n p) = (length p < n) × (n ≤ max_payload_size)
IsActive (failed e) = ⊥

pub feed_all-failed : (e : ProtocolError) (bs : Bytes) → feed_all (failed e) bs ≡ (failed e, [])
unfolding feed_all
feed_all-failed e [] = refl
feed_all-failed e (b ∷ bs) = rw (feed_all-failed e bs)

pub feed_all-append :
    (s : Position) (xs ys : Bytes)
    → let (s1, f1) = feed_all s xs in
      let (s2, f2) = feed_all s1 ys in feed_all s (xs ++ ys) ≡ (s2, f1 ++ f2)
unfolding feed_all
feed_all-append s [] ys = refl
feed_all-append s (x ∷ xs) ys = rw (feed_all-append (feed s x).0 xs ys, append_assoc)

pub feed_all-header_part :
    (h ys : Bytes)
    → length h + length ys < frame_header_size
    → feed_all (heading h) ys ≡ (heading (h ++ ys), [])
unfolding feed_all
feed_all-header_part h [] k = rw append-nil
feed_all-header_part h (y ∷ ys) k = ground (
  arith,
  length-append h (y ∷ []),
  append_assoc h (y ∷ []) ys,
  feed_all-header_part (h ++ (y ∷ [])) ys,
)

pub feed_all-header :
    (h : Bytes) (y : ℕ) (ys : Bytes)
    → length h + length (y ∷ ys) ≡ frame_header_size
    → feed_all (heading h) (y ∷ ys) ≡ (after_header (decode_payload_length (h ++ (y ∷ ys))), [])
unfolding feed_all
feed_all-header h y [] k = ground (arith, length-append h (y ∷ []))
feed_all-header h y (z ∷ zs) k = ground (
  arith,
  length-append h (y ∷ []),
  append_assoc h (y ∷ []) (z ∷ zs),
  feed_all-header (h ++ (y ∷ [])) z zs,
)

pub feed_all-body_part :
    (n : ℕ) (p ys : Bytes)
    → length p + length ys < n
    → feed_all (bodying n p) ys ≡ (bodying n (p ++ ys), [])
unfolding feed_all
feed_all-body_part n p [] k = rw append-nil
feed_all-body_part n p (y ∷ ys) k = ground (
  arith,
  length-append p (y ∷ []),
  append_assoc p (y ∷ []) ys,
  feed_all-body_part n (p ++ (y ∷ [])) ys,
)

pub feed_all-body :
    (n : ℕ) (p : Bytes) (y : ℕ) (ys : Bytes)
    → length p + length (y ∷ ys) ≡ n
    → feed_all (bodying n p) (y ∷ ys) ≡ (heading [], (p ++ (y ∷ ys)) ∷ [])
unfolding feed_all
feed_all-body n p y [] k = ground (arith, length-append p (y ∷ []))
feed_all-body n p y (z ∷ zs) k = ground (
  arith,
  length-append p (y ∷ []),
  append_assoc p (y ∷ []) (z ∷ zs),
  feed_all-body n (p ++ (y ∷ [])) z zs,
)

-- Both cases at once, in the form in which the codec decides.
pub feed_all-heading :
    (h ys : Bytes)
    → length h < frame_header_size
    → length h + length ys ≤ frame_header_size
    → feed_all (heading h) ys ≡ (
        if ltb (length (h ++ ys)) frame_header_size
        then (heading (h ++ ys), [])
        else (after_header (decode_payload_length (h ++ ys)), []))
feed_all-heading h [] k l = ground (arith, feed_all-header_part h [], length-append h [])
feed_all-heading h (y ∷ ys) k l =
    ground
      (arith, length-append h (y ∷ ys), feed_all-header_part h (y ∷ ys), feed_all-header h y ys)

pub feed_all-bodying :
    (n : ℕ) (p ys : Bytes)
    → length p < n
    → length p + length ys ≤ n
    → feed_all (bodying n p) ys
      ≡ (if length (p ++ ys) == n then (heading [], (p ++ ys) ∷ []) else (bodying n (p ++ ys), []))
feed_all-bodying n p [] k l = ground (arith, feed_all-body_part n p [], length-append p [])
feed_all-bodying n p (y ∷ ys) k l =
    ground
      (arith, length-append p (y ∷ ys), feed_all-body_part n p (y ∷ ys), feed_all-body n p y ys)
