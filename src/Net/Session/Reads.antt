-- ===== src/Net/Session/Reads.antt =====
-- The loop of `consumeReadingBytes`, seen through the position of its codec in the byte stream.
use aegis_flow.Prelude.{
  ℕ, zero, suc, ◌-◌, ◌≤◌, ◌<◌, ◌≡◌, refl, ap, ◌∙◌, inl, inr, Bool, ◌&&◌, none, some, [], ◌∷◌, ◌++◌,
  append_assoc, Bytes, arith, ltb, ◌==◌, Bool-cases, length, length-append, take, drop, min,
  take-append-drop, length-take, sub_size,
}
use aegis_flow.Net.Protocol.{
  ProtocolError, no_error, empty_payload, payload_too_large, multiple_requests, frame_header_size,
  decode_payload_length, validate_payload_length, validate-no_error,
}
use aegis_flow.Net.Codec.{fresh_codec, consume}
use aegis_flow.Net.Codec.Stream.{
  Position, heading, bodying, failed, after_header, feed_all, IsActive, feed_all-append,
  feed_all-heading, feed_all-bodying,
}
use aegis_flow.Net.Codec.Refinement.{codec_of}
use aegis_flow.Net.Codec.Framing.{IsReachable, consume-at}
use aegis_flow.Net.Session.State.{
  SessionState, SessionStatus, SessionCloseReason, Session, result_with_status,
  buffered_input_bytes, bytes_needed_by_codec, begin_close,
}
use aegis_flow.Net.Session.Input.{
  Reading, ReadFlow, goes_on, returns, after_codec, declares_too_much, read_round, read_rounds,
}

-- How many bytes a codec takes before it has something to say.
abbrev pub needed : Position → ℕ
needed (heading h) = frame_header_size - length h
needed (bodying n p) = n - length p
needed (failed e) = 0

-- A payload that the session allows.
abbrev pub Fits : ℕ → Position → Type 0
Fits m (heading h) = Unit
Fits m (bodying n p) = n ≤ m
Fits m (failed e) = ⊥

-- What the codec makes of so many bytes at most.
pub data Step (s : Position) (t : Bytes) : Type 0 where
  part : (s' : Position) → feed_all s t ≡ (s', []) → IsActive s' → Step s t
  full : (frame : Bytes) → feed_all s t ≡ (heading [], frame ∷ []) → Step s t
  bad : (e : ProtocolError) → feed_all s t ≡ (failed e, []) → Step s t

after_header-Step :
    (s : Position) (t : Bytes) (n : ℕ) → feed_all s t ≡ (after_header n, []) → Step s t
after_header-Step s t n reading = go (validate_payload_length n) refl
  where
    go : (v : ProtocolError) → validate_payload_length n ≡ v → Step s t
    go no_error e =
        let b = validate-no_error n e in
        part (bodying n []) (reading ∙ rw (e, after_header)) (b.0, b.1)
    go empty_payload e = bad empty_payload (reading ∙ rw (e, after_header))
    go payload_too_large e = bad payload_too_large (reading ∙ rw (e, after_header))
    go multiple_requests e = bad multiple_requests (reading ∙ rw (e, after_header))

pub step_cases : (s : Position) (t : Bytes) → IsActive s → length t ≤ needed s → Step s t
step_cases (heading h) t a l =
    let e = feed_all-heading h t a (omega arith) in
    elim (Bool-cases (ltb (length (h ++ t)) frame_header_size)) [
      | inl c ↦ part (heading (h ++ t)) (e ∙ rw c) (ground arith)
      | inr c ↦ after_header-Step (heading h) t (decode_payload_length (h ++ t)) (e ∙ rw c)
    ]
step_cases (bodying n p) t a l =
    let e = feed_all-bodying n p t a.0 (omega arith) in
    elim (Bool-cases (length (p ++ t) == n)) [
      | inl c ↦ full (p ++ t) (e ∙ rw c)
      | inr c ↦ part (bodying n (p ++ t)) (e ∙ rw c) (ground (arith, length-append p t), a.1)
    ]
step_cases (failed e) t a l = absurd a

-- The loop's locals while no request is there, and once one is.
abbrev pub reading_at : Session → Position → Bytes → Reading
reading_at s p rest = record {
  session = record s { codec = codec_of p; state = SessionState.reading };
  rest = rest;
  result = result_with_status SessionStatus.buffered;
}

abbrev pub request_at : Session → Bytes → Bytes → Reading
request_at s frame rest = record {
  session = record s { codec = fresh_codec; state = SessionState.processing };
  rest = rest;
  result = record {
    status = SessionStatus.request_ready;
    request = some frame;
    bytes_accepted = 0;
    protocol_error = no_error;
  };
}

-- An early return has closed the session, and delivers nothing.
pub record Stopped (s : Session) (r : Reading) : Type 0 where
  pub at : Position
  pub reason : SessionCloseReason
  pub reachable : IsReachable at
  pub request : r.result.request ≡ none
  pub session :
      r.session
      ≡ record s { codec = codec_of at; state = SessionState.closing; close_reason = reason }

abbrev pub stopped_at :
    Session → Position → SessionCloseReason → Bytes → SessionStatus → ProtocolError → Reading
stopped_at s p reason rest st e = record {
  session = record s { codec = codec_of p; state = SessionState.closing; close_reason = reason };
  rest = rest;
  result = record { status = st; request = none; bytes_accepted = 0; protocol_error = e };
}

stopped_at-Stopped :
    (s : Session) (p : Position) (reason : SessionCloseReason) (rest : Bytes) (st : SessionStatus)
    (e : ProtocolError)
    → IsReachable p
    → Stopped s (stopped_at s p reason rest st e)
stopped_at-Stopped s p reason rest st e r = record {
  at = p;
  reason = reason;
  reachable = r;
  request = refl;
  session = refl;
}

pub data RoundEnds (s : Session) (p : Position) (input : Bytes) (f : ReadFlow) : Type 0 where
  more :
      (t rest : Bytes) (p' : Position)
      → t ++ rest ≡ input
      → feed_all p t ≡ (p', [])
      → IsActive p'
      → Fits s.config.max_frame_payload_bytes p'
      → length rest < length input
      → f ≡ goes_on (reading_at s p' rest)
      → RoundEnds s p input f
  request :
      (t rest frame : Bytes)
      → t ++ rest ≡ input
      → feed_all p t ≡ (heading [], frame ∷ [])
      → f ≡ goes_on (request_at s frame rest)
      → RoundEnds s p input f
  stops : (r : Reading) → Stopped s r → f ≡ returns r → RoundEnds s p input f

pub active-IsReachable : (p : Position) → IsActive p → IsReachable p
active-IsReachable (heading h) a = a
active-IsReachable (bodying n q) a = a
active-IsReachable (failed e) a = absurd a

pub drop-append : (xs ys : Bytes) → drop (length xs) (xs ++ ys) ≡ ys
drop-append [] ys = refl
drop-append (x ∷ xs) ys = drop-append xs ys

needed_pos : (p : Position) → IsActive p → 0 < needed p
needed_pos (heading h) a = omega arith
needed_pos (bodying n q) a = omega arith
needed_pos (failed e) a = absurd a

needed_lem :
    (s : Session) (p : Position)
    → IsActive p
    → bytes_needed_by_codec (record s { codec = codec_of p; state = SessionState.reading })
      ≡ needed p
unfolding bytes_needed_by_codec
needed_lem s (heading h) a = omega arith
needed_lem s (bodying n q) a = omega arith
needed_lem s (failed e) a = absurd a

-- The call of the codec on the next `t`, and what follows it.
module _ (s : Session) (p : Position) (input t rest : Bytes) (active : IsActive p)
    (split : t ++ rest ≡ input) (some : 0 < length t) where
  call : ReadFlow
  call =
      let (codec', out) = consume (codec_of p) t in
      after_codec
        (record {
          session = record s { codec = codec'; state = SessionState.reading };
          rest = drop out.bytes_consumed input;
          result = result_with_status SessionStatus.buffered;
        })
        out

  shorter : length rest < length input
  shorter = omega (arith, length-append t rest, ap length split)

  at_end : (k : ℕ) → k ≡ length t → drop k input ≡ rest
  at_end k e = rw e (rw (← split) (drop-append t rest))

  call-ends : Step p t → RoundEnds s p input call
  unfolding call after_codec declares_too_much begin_close
  call-ends (part (heading h) e a) =
      let (k, c, l) = consume-at p (heading h) t [] (active-IsReachable p active) e in
      elim l [
        | inl l ↦ rw c (more t rest (heading h) split e a tt shorter (rw (at_end k l)))
        | inr (x, l) ↦ cc
      ]
  call-ends (part (bodying n q) e a) =
      let (k, c, l) = consume-at p (bodying n q) t [] (active-IsReachable p active) e in
      elim l [
        | inl l ↦ rw c (elim (Bool-cases (ltb s.config.max_frame_payload_bytes n)) [
          | inl big ↦
              stops
                (stopped_at s (bodying n q) SessionCloseReason.input_limit_exceeded (drop k input)
                  SessionStatus.input_limit_exceeded no_error)
                (stopped_at-Stopped s (bodying n q) _ _ _ _ a) (rw big)
          | inr fits ↦
              more t rest (bodying n q) split e a (ground arith) shorter (rw (fits, at_end k l))
        ])
        | inr (x, l) ↦ cc
      ]
  call-ends (part (failed x) e a) = absurd a
  call-ends (full frame e) =
      let (k, c, l) = consume-at p (heading []) t (frame ∷ []) (active-IsReachable p active) e in
      elim l [ inl l ↦ rw c (request t rest frame split e (rw (at_end k l))) | inr (x, l) ↦ cc ]
  call-ends (bad x e) =
      let (k, c, l) = consume-at p (failed x) t [] (active-IsReachable p active) e in
      rw c (
        stops
          (stopped_at s (failed x) SessionCloseReason.protocol_error (drop k input)
            SessionStatus.protocol_error x)
          (stopped_at-Stopped s (failed x) _ _ _ _ tt) refl)

-- A round on input that is there.
pub read_round-ends :
    (store : Bool) (s : Session) (p : Position) (input : Bytes)
    → IsActive p
    → 0 < length input
    → RoundEnds s p input (read_round store (reading_at s p input))
unfolding read_round begin_close
read_round-ends store s p input a l = rw (needed_lem s p a) (elim (Bool-cases limit) [
  | inl e ↦ rw e (
      stops
        (stopped_at s p SessionCloseReason.input_limit_exceeded input
          SessionStatus.input_limit_exceeded no_error)
        (stopped_at-Stopped s p _ _ _ _ (active-IsReachable p a)) refl)
  | inr e ↦ rw e (
      unfold call in
      call-ends s p input (take count input) (drop count input) a (take-append-drop count input) pos
        (step_cases p (take count input) a (omega (arith, length-take count input))))
])
  where
    count : ℕ
    count = min (needed p) (length input)

    limit : Bool
    limit =
        store
        && ltb
            (sub_size s.config.max_input_buffer_bytes
              (buffered_input_bytes (reading_at s p input).session))
            count

    pos : 0 < length (take count input)
    pos = omega (arith, length-take count input, needed_pos p a)

-- How the loop ends: with the input used up, with a request, or closed.
pub data LoopEnds (s : Session) (p : Position) (input : Bytes) (f : ReadFlow) : Type 0 where
  used_up :
      (p' : Position)
      → feed_all p input ≡ (p', [])
      → IsActive p'
      → Fits s.config.max_frame_payload_bytes p'
      → f ≡ goes_on (reading_at s p' [])
      → LoopEnds s p input f
  request :
      (t rest frame : Bytes)
      → t ++ rest ≡ input
      → feed_all p t ≡ (heading [], frame ∷ [])
      → f ≡ goes_on (request_at s frame rest)
      → LoopEnds s p input f
  stops : (r : Reading) → Stopped s r → f ≡ returns r → LoopEnds s p input f

after_round : ℕ → Bool → ReadFlow → ReadFlow
after_round fuel store f = elim f [ goes_on r ↦ read_rounds fuel store r | returns r ↦ returns r ]

feed_all_trans :
    (p p' : Position) (t rest input : Bytes)
    → t ++ rest ≡ input
    → feed_all p t ≡ (p', [])
    → feed_all p input ≡ feed_all p' rest
feed_all_trans p p' t rest input split e = rw (← split) (feed_all-append p t rest ∙ rw e)

LoopEnds-later :
    (s : Session) (p p' : Position) (t rest input : Bytes) (f : ReadFlow)
    → t ++ rest ≡ input
    → feed_all p t ≡ (p', [])
    → LoopEnds s p' rest f
    → LoopEnds s p input f
LoopEnds-later s p p' t rest input f split e (used_up q r a fits g) =
    used_up q (feed_all_trans p p' t rest input split e ∙ r) a fits g
LoopEnds-later s p p' t rest input f split e (request u after frame split' r g) =
    request (t ++ u) after frame (append_assoc t u after ∙ rw split' split)
      (feed_all_trans p p' t u (t ++ u) refl e ∙ r) g
LoopEnds-later s p p' t rest input f split e (stops r st g) = stops r st g

-- A loop that has its request does nothing more.
read_rounds-request :
    (fuel : ℕ) (store : Bool) (s : Session) (frame rest : Bytes)
    → read_rounds fuel store (request_at s frame rest) ≡ goes_on (request_at s frame rest)
unfolding read_rounds
read_rounds-request zero store s frame rest = refl
read_rounds-request (suc fuel) store s frame [] = refl
read_rounds-request (suc fuel) store s frame (x ∷ xs) = refl

pub read_rounds-ends :
    (fuel : ℕ) (store : Bool) (s : Session) (p : Position) (input : Bytes)
    → IsActive p
    → Fits s.config.max_frame_payload_bytes p
    → length input ≤ fuel
    → LoopEnds s p input (read_rounds fuel store (reading_at s p input))
unfolding read_rounds after_round feed_all
read_rounds-ends zero store s p [] a fits l = used_up p refl a fits refl
read_rounds-ends zero store s p (x ∷ xs) a fits l = absurd (omega arith)
read_rounds-ends (suc fuel) store s p [] a fits l = used_up p refl a fits refl
read_rounds-ends (suc fuel) store s p (x ∷ xs) a fits l =
    go (read_rounds-ends fuel store s) (read_round store (reading_at s p (x ∷ xs)))
      (read_round-ends store s p (x ∷ xs) a (omega arith))
  where
    go :
        ((p' : Position) (rest : Bytes)
          → IsActive p'
          → Fits s.config.max_frame_payload_bytes p'
          → length rest ≤ fuel
          → LoopEnds s p' rest (read_rounds fuel store (reading_at s p' rest)))
        → (f : ReadFlow) → RoundEnds s p (x ∷ xs) f
        → LoopEnds s p (x ∷ xs) (after_round fuel store f)
    go ih f (more t rest p' split e a' fits' shorter g) =
        rw (g, after_round)
          (LoopEnds-later s p p' t rest (x ∷ xs) _ split e (ih p' rest a' fits' (omega arith)))
    go ih f (request t rest frame split e g) =
        rw (g, after_round)
          (request t rest frame split e (read_rounds-request fuel store s frame rest))
    go ih f (stops r st g) = rw (g, after_round) (stops r st refl)
