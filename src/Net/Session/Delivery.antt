-- ===== src/Net/Session/Delivery.antt =====
-- Bytes that come in while a session reads: what each end of the loop leaves behind.
use aegis_flow.Prelude.{
  ◌≤◌, ◌≡◌, refl, sym, ap, ◌∙◌, inl, inr, Bool, true, false, Option, none, some, [], ◌∷◌, ◌++◌,
  append-nil, Bytes, arith, ltb, Bool-cases, length, sub_size,
}
use aegis_flow.Net.Codec.Stream.{Position, heading, bodying, failed, feed_all, IsActive}
use aegis_flow.Net.Codec.Refinement.{codec_of}
use aegis_flow.Net.Codec.Framing.{IsReachable}
use aegis_flow.Net.Session.State.{
  SessionState, SessionCloseReason, SessionConfig, Session, buffered_input_bytes,
  append_pending_input,
}
use aegis_flow.Net.Session.Input.{Reading, ReadFlow, goes_on, returns, store_rest, finish_reading}
use aegis_flow.Net.Session.Reads.{
  Fits, active-IsReachable, reading_at, request_at, Stopped, LoopEnds, used_up, request, stops,
}
use aegis_flow.Net.Session.Invariant.{
  position_of, position_of-codec_of, held, unread, IsRoomy, IsReady, IsBounded, HandleFits, IsValid,
  buffered_input_bytes_lem, to_list, Delivery,
}

-- What an active session that allows it holds back fits in its input buffer.
pub held_le :
    (c : SessionConfig) (p : Position)
    → IsRoomy c
    → IsActive p
    → Fits c.max_frame_payload_bytes p
    → held p ≤ c.max_input_buffer_bytes
held_le c (heading h) r a f = omega arith
held_le c (bodying n q) r a f = omega arith
held_le c (failed e) r a f = absurd a

-- The session with another position, state and reason to close.
abbrev pub moved : Session → Position → SessionState → SessionCloseReason → Session
moved s p st why = record s { codec = codec_of p; state = st; close_reason = why }

module _ (s : Session) (v : IsValid s) where
  pub position_at : position_of s.codec ≡ v.at
  position_at = ap position_of v.codec_at ∙ position_of-codec_of v.at

  pub moved-IsValid :
      (p : Position) (st : SessionState) (why : SessionCloseReason)
      → IsReachable p
      → IsBounded st (moved s p st why) p
      → IsReady st (moved s p st why) p
      → HandleFits st s.connection_closed
      → IsValid (moved s p st why)
  moved-IsValid p st why reach bound ready handle = record {
    at = p;
    codec_at = refl;
    reachable = reach;
    roomy = v.roomy;
    offset_in = v.offset_in;
    pending_fits = v.pending_fits;
    bounded = bound;
    output_in = v.output_in;
    output_fits = v.output_fits;
    ready = ready;
    handle = handle;
  }

  pub over :
      (p : Position) (why : SessionCloseReason) (input : Bytes)
      → IsReachable p
      → s.connection_closed ≡ false
      → Delivery s input (moved s p SessionState.closing why) none
  over p why input reach handle = record {
    valid = moved-IsValid p SessionState.closing why reach tt tt handle;
    ending = inl (tt, refl);
  }

  module _ (input : Bytes) (open_handle : s.connection_closed ≡ false) where
    pub stopped :
        (store : Bool) (r : Reading)
        → Stopped s r
        → let (s', out) = finish_reading store (length input) (returns r) in
          Delivery s input s' out.request
    unfolding finish_reading
    stopped store r st =
        rw (st.session, st.request) (over st.at st.reason input st.reachable open_handle)

    -- Delivery, with what is read given for the position.
    pub delivers :
        (s' : Session) (p : Position) (out : Option Bytes) (taken : Bytes)
        → IsValid s'
        → s'.codec ≡ codec_of p
        → taken ++ unread s' ≡ unread s ++ input
        → feed_all v.at taken ≡ (p, to_list out)
        → Delivery s input s' out
    delivers s' p out taken valid at split e = record {
      valid = valid;
      ending = inr (record {
        taken = taken;
        split = split;
        frames =
            rw position_at
              (e ∙ ap (λ q. (q, to_list out)) (sym (ap position_of at ∙ position_of-codec_of p)));
      });
    }

    -- Bytes that come in while the session reads: what the loop leaves is stored.
    module _ (quiet : unread s ≡ []) (stays : s.close_after_write ≡ false) where
      stored :
          (frame rest : Bytes)
          → length rest ≤ s.config.max_input_buffer_bytes
          → IsValid (append_pending_input (request_at s frame rest).session rest)
      unfolding append_pending_input
      stored frame [] fits =
          moved-IsValid (heading []) SessionState.processing s.close_reason (omega arith)
            (rw quiet (omega arith)) (refl, stays) open_handle
      stored frame (b ∷ bs) fits = record {
        at = heading [];
        codec_at = refl;
        reachable = omega arith;
        roomy = v.roomy;
        offset_in = omega arith;
        pending_fits = rw quiet (omega (arith, v.roomy.input_size));
        bounded = rw quiet (omega arith);
        output_in = v.output_in;
        output_fits = v.output_fits;
        ready = (refl, stays);
        handle = open_handle;
      }

      store_rest-Delivery :
          (t rest frame : Bytes)
          → t ++ rest ≡ input
          → feed_all v.at t ≡ (heading [], frame ∷ [])
          → let (s', out) =
              finish_reading true (length input) (goes_on (request_at s frame rest)) in
            Delivery s input s' out.request
      unfolding finish_reading store_rest append_pending_input stored moved-IsValid
      store_rest-Delivery t [] frame split e =
          delivers (request_at s frame []).session (heading []) (some frame) t
            (stored frame [] (omega arith)) refl (rw quiet split) e
      store_rest-Delivery t (b ∷ bs) frame split e =
          elim (Bool-cases (
            ltb (sub_size s.config.max_input_buffer_bytes (buffered_input_bytes idle))
              (length (b ∷ bs)))) [
                | inl c ↦ rw c (
                    over (heading []) SessionCloseReason.input_limit_exceeded input (omega arith)
                      open_handle)
                | inr c ↦ rw c (
                    delivers (append_pending_input idle (b ∷ bs)) (heading []) (some frame) t
                      (stored frame (b ∷ bs) (ground (arith, empty, v.roomy.input_size))) refl
                      (rw quiet split) e)
              ]
        where
          idle : Session
          idle = moved s (heading []) SessionState.processing s.close_reason

          empty : buffered_input_bytes idle ≡ 0
          empty = buffered_input_bytes_lem (stored frame [] (omega arith)) ∙ rw quiet (omega arith)

      pub reads-Delivery :
          (f : ReadFlow)
          → LoopEnds s v.at input f
          → let (s', out) = finish_reading true (length input) f in Delivery s input s' out.request
      unfolding finish_reading store_rest
      reads-Delivery f (used_up p e a fits g) = rw g (
          delivers (reading_at s p []).session p none input
            (moved-IsValid p SessionState.reading s.close_reason (active-IsReachable p a)
              (rw quiet (omega (arith, held_le s.config p v.roomy a fits))) (quiet, a, fits, stays)
              open_handle)
            refl (rw quiet (append-nil input)) e)
      reads-Delivery f (request t rest frame split e g) =
          rw g (store_rest-Delivery t rest frame split e)
      reads-Delivery f (stops r st g) = rw g (stopped true r st)
