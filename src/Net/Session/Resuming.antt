-- ===== src/Net/Session/Resuming.antt =====
-- What `consumePendingInput` of session.cpp (src/net) makes of the input that waited behind a response.
use aegis_flow.Prelude.{
  ℕ, zero, suc, ◌+◌, ◌-◌, ◌^◌, ◌≤◌, ◌<◌, ◌≡◌, refl, sym, ap, subst, ◌∙◌, inl, inr, true, false,
  Option, none, some, [], ◌∷◌, ◌++◌, append-nil, Bytes, arith, ◌==◌, Bool-cases, length,
  length-append, drop, length-drop, sub_size,
}
use aegis_flow.Net.Codec.{Codec}
use aegis_flow.Net.Codec.Stream.{Position, heading, feed_all}
use aegis_flow.Net.Codec.Refinement.{codec_of}
use aegis_flow.Net.Codec.Framing.{IsReachable}
use aegis_flow.Net.Session.State.{
  SessionState, SessionCloseReason, SessionResult, Session, pending_input_bytes,
  clear_consumed_pending_input,
}
use aegis_flow.Net.Session.Input.{
  ReadFlow, store_rest, finish_reading, consume_reading_bytes, consume_pending_input,
}
use aegis_flow.Net.Session.Reads.{
  drop-append, active-IsReachable, LoopEnds, used_up, request, stops, read_rounds-ends,
}
use aegis_flow.Net.Session.Invariant.{
  position_of, position_of-codec_of, unread, IsReady, IsBounded, HandleFits, IsValid, to_list,
  Delivery,
}
use aegis_flow.Net.Session.Progress.{HasResumed, Resumes}
use aegis_flow.Net.Session.Delivery.{moved, held_le}

drop-nil : (n : ℕ) → drop {A = ℕ} n [] ≡ []
drop-nil zero = refl
drop-nil (suc n) = refl

drop-drop : (m n : ℕ) (xs : Bytes) → drop (m + n) xs ≡ drop n (drop m xs)
drop-drop zero n xs = ap (λ k. drop k xs) (omega arith)
drop-drop (suc m) n [] = drop-nil (suc m + n) ∙ sym (drop-nil n)
drop-drop (suc m) n (x ∷ xs) = ap (λ k. drop k (x ∷ xs)) step ∙ drop-drop m n xs
  where
    step : suc m + n ≡ suc (m + n)
    step = omega arith

pub drop_all : (n : ℕ) (xs : Bytes) → n ≡ length xs → drop n xs ≡ []
drop_all n [] e = drop-nil n
drop_all zero (x ∷ xs) e = absurd (omega arith)
drop_all (suc n) (x ∷ xs) e = drop_all n xs (omega arith)

-- The prefix that is taken off leaves the rest.
drop-split : (t rest xs : Bytes) → t ++ rest ≡ xs → drop (length xs - length rest) xs ≡ rest
drop-split t rest xs e = subst (λ k. drop k xs ≡ rest) count (rw (← e) (drop-append t rest))
  where
    count : length t ≡ length xs - length rest
    count = omega (arith, ap length e, length-append t rest)

abbrev repending : Session → Bytes → ℕ → Session
repending s pending offset = record s { pending_input = pending; pending_input_offset = offset }

-- `pending_input_offset_ += k`, then `clearConsumedPendingInput`.
abbrev advance : Session → ℕ → Session
advance s k =
    clear_consumed_pending_input (record s { pending_input_offset = s.pending_input_offset + k })

record Advanced (s : Session) (k : ℕ) : Type 0 where
  pending : Bytes
  offset : ℕ
  same : advance s k ≡ repending s pending offset
  offset_in : offset ≤ length pending
  pending_fits : length pending < 2 ^ 64
  left : drop offset pending ≡ drop k (unread s)

advance-Advanced :
    (s : Session) (k : ℕ)
    → s.pending_input_offset ≤ length s.pending_input
    → length s.pending_input < 2 ^ 64
    → k ≤ length (unread s)
    → Advanced s k
unfolding clear_consumed_pending_input
advance-Advanced s k h l m =
    elim (Bool-cases (s.pending_input_offset + k == length s.pending_input)) [
      | inl e ↦ record {
        pending = [];
        offset = 0;
        same = rw e;
        offset_in = omega arith;
        pending_fits = omega arith;
        left = sym (
            drop_all k (unread s)
              (ground (arith, length-drop s.pending_input_offset s.pending_input)));
      }
      | inr e ↦ record {
        pending = s.pending_input;
        offset = s.pending_input_offset + k;
        same = rw e;
        offset_in = omega (arith, length-drop s.pending_input_offset s.pending_input);
        pending_fits = l;
        left = drop-drop s.pending_input_offset k s.pending_input;
      }
    ]

-- The session once a response is out, back to reading.
abbrev pub resumed : Session → Session
resumed s = record s { output = []; output_offset = 0; state = SessionState.reading }

-- What `consumePendingInput` makes of the end of the loop.
abbrev pub caught_up : Session → Session × SessionResult → Session × SessionResult
caught_up s r = (advance (r.0) (r.1.bytes_accepted), r.1)

module _ (s : Session) (v : IsValid (record s { state = SessionState.writing }))
    (stays : s.close_after_write ≡ false) where
  -- The session once the loop has ended at position `p`.
  abbrev after_loop : Position → SessionState → SessionCloseReason → Session
  after_loop p st why = moved (resumed s) p st why

  caught_up-IsValid :
      (p : Position) (st : SessionState) (why : SessionCloseReason) (k : ℕ)
      → k ≤ length (unread s)
      → IsReachable p
      → ((pending : Bytes) (offset : ℕ)
          → drop offset pending ≡ drop k (unread s)
          → IsBounded st (repending (after_loop p st why) pending offset) p
            × IsReady st (repending (after_loop p st why) pending offset) p)
      → HandleFits st s.connection_closed
      → IsValid (advance (after_loop p st why) k)
        × (unread (advance (after_loop p st why) k) ≡ drop k (unread s))
        × ((advance (after_loop p st why) k).codec ≡ codec_of p)
        × ((advance (after_loop p st why) k).state ≡ st)
        × ((advance (after_loop p st why) k).output ≡ [])
  caught_up-IsValid p st why k l reach fits handle =
      let adv = advance-Advanced (after_loop p st why) k v.offset_in v.pending_fits l in
      let (bounded, ready) = fits adv.pending adv.offset adv.left in
      rw adv.same (
        record {
          at = p;
          codec_at = refl;
          reachable = reach;
          roomy = v.roomy;
          offset_in = adv.offset_in;
          pending_fits = adv.pending_fits;
          bounded = bounded;
          output_in = omega arith;
          output_fits = omega arith;
          ready = ready;
          handle = handle;
        },
        adv.left,
        refl,
        refl,
        refl,
      )

  start : position_of s.codec ≡ heading []
  start = ap position_of v.codec_at ∙ position_of-codec_of v.at ∙ v.ready.0

  caught_up-delivers :
      (s' : Session) (p : Position) (out : Option Bytes) (taken : Bytes) (k : ℕ)
      → IsValid s'
      → unread s' ≡ drop k (unread s)
      → s'.codec ≡ codec_of p
      → taken ++ drop k (unread s) ≡ unread s
      → feed_all (heading []) taken ≡ (p, to_list out)
      → Delivery (record s { state = SessionState.writing }) [] s' out
  caught_up-delivers s' p out taken k valid left at split e = record {
    valid = valid;
    ending = inr (record {
      taken = taken;
      split = rw left (split ∙ sym (append-nil (unread s)));
      frames =
          rw start
            (e ∙ ap (λ q. (q, to_list out)) (sym (ap position_of at ∙ position_of-codec_of p)));
    });
  }

  resumed-Delivery :
      (f : ReadFlow)
      → LoopEnds (resumed s) (heading []) (unread s) f
      → let (s', out) = caught_up s (finish_reading false (length (unread s)) f) in
        Resumes s s' out.request
  unfolding finish_reading store_rest
  resumed-Delivery f (used_up p e a fits g) =
      let n = length (unread s) - 0 in
      let gone : drop n (unread s) ≡ [] = drop_all n (unread s) (omega arith) in
      let (valid, left, at, now, empty) =
        caught_up-IsValid p SessionState.reading s.close_reason n (omega arith)
          (active-IsReachable p a)
          (λ pending offset d.
            let none_left : drop offset pending ≡ [] = d ∙ gone in
            (
              rw none_left (omega (arith, held_le s.config p v.roomy a fits)),
              (none_left, a, fits, stays),
            ))
          v.handle in
      rw g (
        caught_up-delivers _ p none (unread s) n valid left at (rw gone (append-nil (unread s))) e,
        empty,
        subst HasResumed (sym now) tt,
      )
  resumed-Delivery f (request t rest frame split e g) =
      let n = length (unread s) - length rest in
      let tail = drop-split t rest (unread s) split in
      let (valid, left, at, now, empty) =
        caught_up-IsValid (heading []) SessionState.processing s.close_reason n (omega arith)
          (omega arith)
          (λ pending offset d. (
            rw (d ∙ tail) (omega (arith, length-append t rest, ap length split, v.bounded)),
            (refl, stays),
          ))
          v.handle in
      rw g (
        caught_up-delivers _ (heading []) (some frame) t n valid left at (rw tail split) e,
        empty,
        subst HasResumed (sym now) tt,
      )
  resumed-Delivery f (stops r st g) =
      let n = length (unread s) - length r.rest in
      let (valid, left, at, over, empty) =
        caught_up-IsValid st.at SessionState.closing st.reason n (omega arith) st.reachable
          (λ pending offset d. (tt, tt)) v.handle in
      rw g (
        rw (st.session, st.request)
          (
            record { valid = valid; ending = inl (rw over tt, refl) },
            empty,
            subst HasResumed (sym over) tt,
          ))

resumed_lem :
    (s : Session) (v : IsValid (record s { state = SessionState.writing }))
    → s.close_after_write ≡ false
    → let (s', out) = caught_up s (consume_reading_bytes (resumed s) (unread s) false) in
      Resumes s s' out.request
unfolding consume_reading_bytes
resumed_lem s v stays =
    subst
      (λ (c : Codec).
        let (s', out) =
          caught_up s (consume_reading_bytes (record (resumed s) { codec = c }) (unread s) false) in
        Resumes s s' out.request)
      (sym (v.codec_at ∙ ap codec_of v.ready.0))
      (resumed-Delivery s v stays _ (
        read_rounds-ends (length (unread s)) false (resumed s) (heading []) (unread s) (omega arith)
          tt (omega arith)))

pub pending_lem :
    (s : Session) (v : IsValid (record s { state = SessionState.writing }))
    → s.close_after_write ≡ false
    → let (s', out) = consume_pending_input (resumed s) in Resumes s s' out.request
unfolding consume_pending_input pending_input_bytes feed_all
pending_lem s v stays =
    elim (Bool-cases (sub_size (length s.pending_input) s.pending_input_offset == 0)) [
      | inl e ↦ rw e (
        record {
          valid = quiet e;
          ending = inr (record { taken = []; split = sym (append-nil (unread s)); frames = refl });
        },
        refl,
        tt,
      )
      | inr e ↦ rw e (resumed_lem s v stays)
    ]
  where
    quiet :
        (sub_size (length s.pending_input) s.pending_input_offset == 0) ≡ true → IsValid (resumed s)
    quiet e = record {
      at = heading [];
      codec_at = v.codec_at ∙ ap codec_of v.ready.0;
      reachable = omega arith;
      roomy = v.roomy;
      offset_in = v.offset_in;
      pending_fits = v.pending_fits;
      bounded = rw nothing (omega arith);
      output_in = omega arith;
      output_fits = omega arith;
      ready = (nothing, omega arith, tt, stays);
      handle = v.handle;
    }
      where
        nothing : unread s ≡ []
        nothing =
            drop_all s.pending_input_offset s.pending_input
              (ground (arith, v.offset_in, v.pending_fits))
