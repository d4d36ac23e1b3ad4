-- ===== src/Net/Codec/Refinement.antt =====
-- `consume` takes a buffer at a time, the stream of Stream.antt a byte at a time: both agree.
use aegis_flow.Prelude.{
  ℕ, zero, suc, ◌+◌, ◌-◌, ◌≤◌, ◌<◌, ◌≡◌, refl, sym, ap, subst, ◌∙◌, ◌⊎◌, inl, inr, List, [], ◌∷◌,
  ◌++◌, append_assoc, append-nil, Bytes, arith, ◌==◌, ltb, Bool-cases, length, length-append, take,
  drop, min, take-append-drop, length-take, length-drop,
}
use aegis_flow.Net.Protocol.{
  ProtocolError, no_error, empty_payload, payload_too_large, multiple_requests, frame_header_size,
  max_payload_size, decode_payload_length, validate_payload_length, validate-no_error,
}
use aegis_flow.Net.Codec.{
  Codec, need_header, need_body, error, Progress, Flow, continues, breaks, enter_error,
  take_payload, body_part, header_done, round, rounds,
}
use aegis_flow.Net.Codec.Stream.{
  Position, heading, bodying, failed, after_header, feed_all, IsActive, feed_all-failed,
  feed_all-append, feed_all-heading, feed_all-bodying,
}

-- The codec at a position.
abbrev pub codec_of : Position → Codec
codec_of (heading h) = record {
  header = h;
  expected_payload_bytes = 0;
  payload = [];
  next_state = need_header;
  error_code = no_error;
}
codec_of (bodying n p) = record {
  header = [];
  expected_payload_bytes = n;
  payload = p;
  next_state = need_body;
  error_code = no_error;
}
codec_of (failed e) = record {
  header = [];
  expected_payload_bytes = 0;
  payload = [];
  next_state = error;
  error_code = e;
}

-- `q` follows from position `s` and frames `fs` by reading a prefix of `input`.
record Reads (s : Position) (input : Bytes) (fs : List Bytes) (q : Progress) : Type 0 where
  to : Position
  new : List Bytes
  taken : Bytes
  at : q.codec ≡ codec_of to
  out : q.frames ≡ fs ++ new
  split : taken ++ q.rest ≡ input
  reading : feed_all s taken ≡ (to, new)
  active : IsActive to

module _ (n : ℕ) (p : Bytes) (input : Bytes) (fs : List Bytes) (h : length p < n)
    (k : n ≤ max_payload_size) where
  taking : Progress
  taking = record { codec = codec_of (bodying n p); rest = input; frames = fs }

  take_payload-Reads : Reads (bodying n p) input fs (take_payload taking)
  unfolding taking take_payload
  take_payload-Reads =
      let m = min (n - length p) (length input) in
      let t : Bytes = take m input in
      let fit : length p + length t ≤ n = omega (arith, length-take m input) in
      let whole = take-append-drop m input in
      elim (Bool-cases (length (p ++ t) == n)) [
        | inl e ↦ rw (e) (record {
          to = heading [];
          new = (p ++ t) ∷ [];
          taken = t;
          at = refl;
          out = refl;
          split = whole;
          reading = feed_all-bodying n p t h fit ∙ rw e;
          active = omega arith;
        })
        | inr e ↦ rw (e) (record {
          to = bodying n (p ++ t);
          new = [];
          taken = t;
          at = refl;
          out = rw append-nil;
          split = whole;
          reading = feed_all-bodying n p t h fit ∙ rw e;
          active = (ground (arith, length-append p t), k);
        })
      ]

  take_payload-shorter : 0 < length input → length (take_payload taking).rest < length input
  unfolding taking take_payload
  take_payload-shorter l = ground (arith, length-drop (min (n - length p) (length input)) input)

Reads-none :
    (s : Position) (input : Bytes) (fs : List Bytes)
    → IsActive s
    → Reads s input fs (record { codec = codec_of s; rest = input; frames = fs })
unfolding feed_all
Reads-none s input fs r = record {
  to = s;
  new = [];
  taken = [];
  at = refl;
  out = rw append-nil;
  split = refl;
  reading = refl;
  active = r;
}

Reads-le :
    {s : Position} {input : Bytes} {fs : List Bytes} {q : Progress}
    → Reads s input fs q
    → length q.rest ≤ length input
Reads-le {q = q} r = omega (arith, length-append r.taken q.rest, ap length r.split)

Reads-trans :
    {s : Position} {input : Bytes} {fs : List Bytes} {q q' : Progress} (r : Reads s input fs q)
    → Reads r.to q.rest q.frames q'
    → Reads s input fs q'
Reads-trans {s} {fs = fs} {q' = q'} r r' = record {
  to = r'.to;
  new = r.new ++ r'.new;
  taken = r.taken ++ r'.taken;
  at = r'.at;
  out = r'.out ∙ rw (r.out) (append_assoc fs r.new r'.new);
  split = append_assoc r.taken r'.taken q'.rest ∙ rw (r'.split) (r.split);
  reading = feed_all-append s r.taken r'.taken ∙ rw (r.reading, r'.reading);
  active = r'.active;
}

body_part-Reads :
    (n : ℕ) (p : Bytes) (input : Bytes) (fs : List Bytes)
    → length p < n
    → n ≤ max_payload_size
    → Reads
        (bodying n p)
        input
        fs
        (body_part (record { codec = codec_of (bodying n p); rest = input; frames = fs }))
unfolding body_part
body_part-Reads n p [] fs h k = Reads-none (bodying n p) [] fs (h, k)
body_part-Reads n p (y ∷ ys) fs h k = unfold taking in take_payload-Reads n p (y ∷ ys) fs h k

-- What a round does from position `s`.
abbrev Outcome : Position → Bytes → List Bytes → Flow → Type 0
Outcome s input fs (continues q) = Reads s input fs q × (length q.rest < length input)
Outcome s input fs (breaks q) =
    (e : ProtocolError) × (taken : Bytes) × (q.codec ≡ codec_of (failed e))
    × (q.frames ≡ fs)
    × (taken ++ q.rest ≡ input)
    × (feed_all s taken ≡ (failed e, []))

-- A full header: `h` is what stood in the buffer, `t` what the input adds.
module _ (h t rest' input : Bytes) (fs : List Bytes) (split : t ++ rest' ≡ input)
    (some : 0 < length t) where
  header_accepted :
      (n : ℕ)
      → 0 < n
      → n ≤ max_payload_size
      → feed_all (heading h) t ≡ (bodying n [], [])
      → Outcome (heading h) input fs (
          continues
            (body_part (record { codec = codec_of (bodying n []); rest = rest'; frames = fs })))
  header_accepted n pos le reading =
      (Reads-trans first body, omega (arith, Reads-le body, length-append t rest', ap length split))
    where
      first :
          Reads
            (heading h)
            input
            fs
            (record { codec = codec_of (bodying n []); rest = rest'; frames = fs })
      first = record {
        to = bodying n [];
        new = [];
        taken = t;
        at = refl;
        out = rw append-nil;
        split = split;
        reading = reading;
        active = (pos, le);
      }

      body :
          Reads
            (bodying n [])
            rest'
            fs
            (body_part (record { codec = codec_of (bodying n []); rest = rest'; frames = fs }))
      body = body_part-Reads n [] rest' fs pos le

  header_done-Outcome :
      (v : ProtocolError)
      → validate_payload_length (decode_payload_length (h ++ t)) ≡ v
      → feed_all (heading h) t ≡ (after_header (decode_payload_length (h ++ t)), [])
      → Outcome (heading h) input fs (header_done (codec_of (heading h)) (h ++ t) rest' fs)
  unfolding header_done enter_error
  header_done-Outcome no_error e reading =
      let b = validate-no_error (decode_payload_length (h ++ t)) e in
      rw (e, Outcome)
        (header_accepted (decode_payload_length (h ++ t)) b.0 b.1 (reading ∙ rw (e, after_header)))
  header_done-Outcome empty_payload e reading =
      rw (e, Outcome) (empty_payload, t, refl, refl, split, reading ∙ rw (e, after_header))
  header_done-Outcome payload_too_large e reading =
      rw (e, Outcome) (payload_too_large, t, refl, refl, split, reading ∙ rw (e, after_header))
  header_done-Outcome multiple_requests e reading =
      rw (e, Outcome) (multiple_requests, t, refl, refl, split, reading ∙ rw (e, after_header))

round-Outcome :
    (s : Position) (input : Bytes) (fs : List Bytes)
    → IsActive s
    → 0 < length input
    → Outcome s input fs (round (record { codec = codec_of s; rest = input; frames = fs }))
unfolding round
round-Outcome (heading h) input fs a l =
    let m = min (frame_header_size - length h) (length input) in
    let t : Bytes = take m input in
    let fit : length h + length t ≤ frame_header_size = omega (arith, length-take m input) in
    let whole = take-append-drop m input in
    elim (Bool-cases (ltb (length (h ++ t)) frame_header_size)) [
      | inl e ↦
          rw (e, Outcome)
            (
              record {
                to = heading (h ++ t);
                new = [];
                taken = t;
                at = refl;
                out = rw append-nil;
                split = whole;
                reading = feed_all-heading h t a fit ∙ rw e;
                active = ground (arith, length-append h t);
              },
              omega (arith, length-drop m input),
            )
      | inr e ↦
          rw (e, Outcome)
            (header_done-Outcome h t (drop m input) input fs whole
              (omega (arith, length-take m input)) _ refl (feed_all-heading h t a fit ∙ rw e))
    ]
round-Outcome (bodying n p) [] fs a l = absurd (omega arith)
round-Outcome (bodying n p) (y ∷ ys) fs a l =
    unfold body_part taking in
    (take_payload-Reads n p (y ∷ ys) fs a.0 a.1, take_payload-shorter n p (y ∷ ys) fs a.0 a.1 l)
round-Outcome (failed e) input fs a l = absurd a

-- The loop from position `s`: it ends where the stream stands after the whole input.
pub record Done (s : Position) (input : Bytes) (fs : List Bytes) (q : Progress) : Type 0 where
  pub at : q.codec ≡ codec_of (feed_all s input).0
  pub out : q.frames ≡ fs ++ (feed_all s input).1
  pub all : (q.rest ≡ []) ⊎ ((e : ProtocolError) × ((feed_all s input).0 ≡ failed e))

Done-none :
    (s : Position) (fs : List Bytes)
    → Done s [] fs (record { codec = codec_of s; rest = []; frames = fs })
unfolding feed_all
Done-none s fs = record { at = refl; out = rw append-nil; all = inl refl }

Done-after :
    {s : Position} {input : Bytes} {fs : List Bytes} {q q' : Progress} (r : Reads s input fs q)
    → Done r.to q.rest q.frames q'
    → Done s input fs q'
Done-after {s} {input} {fs} {q} r d = record {
  at = d.at ∙ ap (λ u. codec_of u.0) (sym whole);
  out =
      d.out
      ∙ rw (r.out) (append_assoc fs r.new (feed_all r.to q.rest).1)
      ∙ ap (λ u. fs ++ u.1) (sym whole);
  all = elim d.all [ inl e ↦ inl e | inr (e, h) ↦ inr (e, ap (λ u. u.0) whole ∙ h) ];
}
  where
    whole : feed_all s input ≡ ((feed_all r.to q.rest).0, r.new ++ (feed_all r.to q.rest).1)
    whole = rw (← r.split) (feed_all-append s r.taken q.rest ∙ rw (r.reading))

Done-breaks :
    {s : Position} {input : Bytes} {fs : List Bytes} {q : Progress}
    → Outcome s input fs (breaks q)
    → Done s input fs q
Done-breaks {s} {input} {fs} {q} (e, taken, at, out, split, reading) = record {
  at = at ∙ ap (λ u. codec_of u.0) (sym whole);
  out = out ∙ sym (append-nil fs) ∙ ap (λ u. fs ++ u.1) (sym whole);
  all = inr (e, ap (λ u. u.0) whole);
}
  where
    whole : feed_all s input ≡ (failed e, [])
    whole = rw (← split) (feed_all-append s taken q.rest ∙ rw (reading, feed_all-failed e q.rest))

after_round : ℕ → Flow → Progress
after_round fuel f = elim f [ continues q ↦ rounds fuel q | breaks q ↦ q ]

pub rounds-Done :
    (fuel : ℕ) (s : Position) (input : Bytes) (fs : List Bytes)
    → IsActive s
    → length input ≤ fuel
    → Done s input fs (rounds fuel (record { codec = codec_of s; rest = input; frames = fs }))
unfolding rounds after_round
rounds-Done zero s [] fs a l = Done-none s fs
rounds-Done zero s (x ∷ xs) fs a l = absurd (omega arith)
rounds-Done (suc fuel) s [] fs a l = Done-none s fs
rounds-Done (suc fuel) s (x ∷ xs) fs a l =
    go (rounds-Done fuel) _ (round-Outcome s (x ∷ xs) fs a (omega arith))
  where
    go :
        ((t : Position) (input : Bytes) (gs : List Bytes)
          → IsActive t
          → length input ≤ fuel
          → Done t input gs
              (rounds fuel (record { codec = codec_of t; rest = input; frames = gs })))
        → (f : Flow) → Outcome s (x ∷ xs) fs f
        → Done s (x ∷ xs) fs (after_round fuel f)
    go ih (continues q) (r, shorter) = Done-after r (
        subst
          (λ c.
            Done r.to q.rest q.frames
              (rounds fuel (record { codec = c; rest = q.rest; frames = q.frames })))
          (sym r.at) (ih r.to q.rest q.frames r.active (omega arith)))
    go ih (breaks q) out = Done-breaks out
