-- ===== src/Net/Codec/Framing.antt =====
-- What the users of the codec rely on: chunks do not matter, and frames come out as they were sent.
use aegis_flow.Prelude.{
  ℕ, ◌≤◌, ◌≡◌, refl, sym, ap, ◌∙◌, ◌⊎◌, inl, inr, List, [], ◌∷◌, ◌++◌, Bytes, arith, ◌==◌,
  Bool-cases, length, length-append,
}
use aegis_flow.Net.Protocol.{
  ProtocolError, no_error, empty_payload, payload_too_large, multiple_requests, validate-no_error,
  max_payload_size, encode_payload_length, decode_payload_length, decode-encode,
  validate_payload_length, validate_of_bounds,
}
use aegis_flow.Net.Codec.{
  Codec, CodecState, need_header, need_body, frame_ready, error, CodecConsumeResult, Progress,
  fresh_codec, reported_state, result_of, consume,
}
use aegis_flow.Net.Codec.Stream.{
  Position, heading, bodying, failed, after_header, feed, feed_all, IsActive, feed_all-append,
  feed_all-failed, feed_all-heading, feed_all-body,
}
use aegis_flow.Net.Codec.Refinement.{codec_of, Done, rounds-Done}

-- A position that a reading can come to.
abbrev pub IsReachable : Position → Type 0
IsReachable (heading h) = IsActive (heading h)
IsReachable (bodying n p) = IsActive (bodying n p)
IsReachable (failed e) = Unit

-- The state that `consume` reports at a position, with the frames of this call.
abbrev pub reported : Position → List Bytes → CodecState
reported (heading h) [] = need_header
reported (heading h) (f ∷ fs) = frame_ready
reported (bodying n p) [] = need_body
reported (bodying n p) (f ∷ fs) = frame_ready
reported (failed e) fs = error

-- The result of a call that reads `input` from position `s`.
pub record Consumed (s : Position) (input : Bytes) (out : Codec × CodecConsumeResult) : Type 0 where
  pub at : out.0 ≡ codec_of (feed_all s input).0
  pub frames : out.1.frames ≡ (feed_all s input).1
  pub state : out.1.state ≡ reported (feed_all s input).0 (feed_all s input).1
  pub error_code : out.1.error_code ≡ (codec_of (feed_all s input).0).error_code
  pub taken :
      (out.1.bytes_consumed ≡ length input)
      ⊎ ((e : ProtocolError) × ((feed_all s input).0 ≡ failed e))

reported_state-codec_of :
    (t : Position) (fs : List Bytes) → reported_state (codec_of t).next_state fs ≡ reported t fs
unfolding reported_state
reported_state-codec_of (heading h) [] = refl
reported_state-codec_of (heading h) (f ∷ fs) = refl
reported_state-codec_of (bodying n p) [] = refl
reported_state-codec_of (bodying n p) (f ∷ fs) = refl
reported_state-codec_of (failed e) [] = refl
reported_state-codec_of (failed e) (f ∷ fs) = refl

consumed :
    (s : Position) (input : Bytes) (q : Progress)
    → Done s input [] q
    → Consumed s input (q.codec, result_of (length input) q)
unfolding result_of
consumed s input q d = record {
  at = d.at;
  frames = d.out;
  state = rw (d.at, d.out) (reported_state-codec_of (feed_all s input).0 (feed_all s input).1);
  error_code = ap (λ c. c.error_code) d.at;
  taken = elim d.all [ inl e ↦ inl (rw e (omega arith)) | inr x ↦ inr x ];
}

-- A call of `consume` delivers exactly the frames that the byte-at-a-time reading completes, leaves
-- the codec where that reading stands, and takes the whole input unless a header is refused; after a
-- refused header every further call reports that error and delivers nothing.
pub consume_refines :
    (s : Position) (input : Bytes) → IsReachable s → Consumed s input (consume (codec_of s) input)
unfolding consume
consume_refines (heading h) input r =
    consumed _ _ _ (rounds-Done (length input) (heading h) input [] r (omega arith))
consume_refines (bodying n p) input r =
    consumed _ _ _ (rounds-Done (length input) (bodying n p) input [] r (omega arith))
consume_refines (failed e) input r = record {
  at = rw feed_all-failed;
  frames = rw feed_all-failed;
  state = rw feed_all-failed;
  error_code = rw feed_all-failed;
  taken = inr (e, rw feed_all-failed);
}

after_header-IsReachable : (n : ℕ) → IsReachable (after_header n)
after_header-IsReachable n = go (validate_payload_length n) refl
  where
    go : (v : ProtocolError) → validate_payload_length n ≡ v → IsReachable (after_header n)
    go no_error e = rw (e, after_header, IsReachable) (validate-no_error n e)
    go empty_payload e = rw (e, after_header, IsReachable) tt
    go payload_too_large e = rw (e, after_header, IsReachable) tt
    go multiple_requests e = rw (e, after_header, IsReachable) tt

feed-IsReachable : (s : Position) (b : ℕ) → IsReachable s → IsReachable (feed s b).0
unfolding feed
feed-IsReachable (heading h) b r = elim (Bool-cases (length (h ++ (b ∷ [])) == 4)) [
  | inl e ↦ rw (e) (after_header-IsReachable (decode_payload_length (h ++ (b ∷ []))))
  | inr e ↦ rw (e) (ground (arith, length-append h (b ∷ [])))
]
feed-IsReachable (bodying n p) b r = elim (Bool-cases (length (p ++ (b ∷ [])) == n)) [
  | inl e ↦ rw (e) (omega arith)
  | inr e ↦ rw (e) (ground (arith, length-append p (b ∷ [])), r.1)
]
feed-IsReachable (failed e) b r = tt

pub feed_all-IsReachable :
    (s : Position) (bs : Bytes) → IsReachable s → IsReachable (feed_all s bs).0
unfolding feed_all
feed_all-IsReachable s [] r = r
feed_all-IsReachable s (b ∷ bs) r = feed_all-IsReachable (feed s b).0 bs (feed-IsReachable s b r)

-- How a stream is cut into calls does not matter: two calls in a row end in the codec, and deliver
-- the frames, of one call on the whole.
pub consume-append :
    (s : Position) (xs ys : Bytes)
    → IsReachable s
    → let (c1, r1) = consume (codec_of s) xs in
      let (c2, r2) = consume c1 ys in
      let (c, r) = consume (codec_of s) (xs ++ ys) in
      (c ≡ c2) × (r.frames ≡ r1.frames ++ r2.frames) × (r.error_code ≡ r2.error_code)
consume-append s xs ys h =
    let (t, fs) = feed_all s xs in
    let first = consume_refines s xs h in
    let second = consume_refines t ys (feed_all-IsReachable s xs h) in
    let whole = consume_refines s (xs ++ ys) h in
    let e = feed_all-append s xs ys in
    rw (first.at) (
      whole.at ∙ ap (λ u. codec_of u.0) e ∙ sym second.at,
      whole.frames ∙ ap (λ u. u.1) e ∙ rw (first.frames, second.frames),
      whole.error_code ∙ ap (λ u. (codec_of u.0).error_code) e ∙ sym second.error_code,
    )

-- What a sender writes for a payload.
abbrev pub encode_frame : Bytes → Bytes
encode_frame payload = encode_payload_length (length payload) ++ payload

abbrev pub encode_frames : List Bytes → Bytes
encode_frames [] = []
encode_frames (p ∷ ps) = encode_frame p ++ encode_frames ps

abbrev pub AreSendable : List Bytes → Type 0
AreSendable [] = Unit
AreSendable (p ∷ ps) = (1 ≤ length p) × (length p ≤ max_payload_size) × AreSendable ps

feed_all-encode_frame :
    (p : Bytes)
    → 1 ≤ length p
    → length p ≤ max_payload_size
    → feed_all (heading []) (encode_frame p) ≡ (heading [], p ∷ [])
unfolding encode_payload_length
feed_all-encode_frame [] l k = absurd (omega arith)
feed_all-encode_frame (x ∷ xs) l k =
    feed_all-append (heading []) (encode_payload_length n) (x ∷ xs)
    ∙ rw (header, feed_all-body n [] x xs (omega arith))
  where
    n : ℕ
    n = length (x ∷ xs)

    header : feed_all (heading []) (encode_payload_length n) ≡ (bodying n [], [])
    header =
        feed_all-heading [] (encode_payload_length n) (omega arith) (omega arith)
        ∙ rw (decode-encode n (omega arith)) (rw (validate_of_bounds n l k, after_header))

feed_all-encode_frames :
    (ps : List Bytes) → AreSendable ps → feed_all (heading []) (encode_frames ps) ≡ (heading [], ps)
feed_all-encode_frames [] h = unfold feed_all in refl
feed_all-encode_frames (p ∷ ps) h =
    feed_all-append (heading []) (encode_frame p) (encode_frames ps)
    ∙ rw (feed_all-encode_frame p h.0 h.1, feed_all-encode_frames ps h.2)

heading-ne-failed : {h : Bytes} {e : ProtocolError} → ¬ (heading h ≡ failed e)
heading-ne-failed p = cc

-- Frames that are sent one after the other come out of one call as they went in, and the codec is
-- ready for the next header.
pub consume-encode_frames :
    (ps : List Bytes)
    → AreSendable ps
    → let (c, r) = consume fresh_codec (encode_frames ps) in
      (r.frames ≡ ps) × (c ≡ fresh_codec) × (r.bytes_consumed ≡ length (encode_frames ps))
consume-encode_frames ps h =
    let out = consume_refines (heading []) (encode_frames ps) (omega arith) in
    let e = feed_all-encode_frames ps h in
    (
      out.frames ∙ ap (λ u. u.1) e,
      out.at ∙ ap (λ u. codec_of u.0) e,
      elim out.taken [
        | inl all ↦ all
        | inr (f, stuck) ↦ absurd (heading-ne-failed (sym (ap (λ u. u.0) e) ∙ stuck))
      ],
    )

abbrev pub result_at : Position → List Bytes → ℕ → CodecConsumeResult
result_at p fs k = record {
  state = reported p fs;
  error_code = (codec_of p).error_code;
  bytes_consumed = k;
  frames = fs;
}

-- The outcome of a call, written out: for those who compute on with it.
pub consume-at :
    (p p' : Position) (t : Bytes) (fs : List Bytes)
    → IsReachable p
    → feed_all p t ≡ (p', fs)
    → (k : ℕ) × (consume (codec_of p) t ≡ (codec_of p', result_at p' fs k))
      × ((k ≡ length t) ⊎ ((e : ProtocolError) × (p' ≡ failed e)))
consume-at p p' t fs r e = (
  (consume (codec_of p) t).1.bytes_consumed,
  (λ i. (
    at i,
    record {
      state = state i;
      error_code = code i;
      bytes_consumed = (consume (codec_of p) t).1.bytes_consumed;
      frames = frames i;
    },
  )),
  elim c.taken [ inl all ↦ inl all | inr (x, stuck) ↦ inr (x, sym (ap (λ u. u.0) e) ∙ stuck) ],
)
  where
    c : Consumed p t (consume (codec_of p) t)
    c = consume_refines p t r

    at : (consume (codec_of p) t).0 ≡ codec_of p'
    at = c.at ∙ ap (λ u. codec_of u.0) e

    state : (consume (codec_of p) t).1.state ≡ reported p' fs
    state = c.state ∙ ap (λ u. reported u.0 u.1) e

    code : (consume (codec_of p) t).1.error_code ≡ (codec_of p').error_code
    code = c.error_code ∙ ap (λ u. (codec_of u.0).error_code) e

    frames : (consume (codec_of p) t).1.frames ≡ fs
    frames = c.frames ∙ ap (λ u. u.1) e
