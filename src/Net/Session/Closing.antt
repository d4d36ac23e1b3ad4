-- ===== src/Net/Session/Closing.antt =====
-- The calls that answer, and those that end a session.
use aegis_flow.Prelude.{
  ℕ, ◌≤◌, ◌≡◌, refl, sym, subst, ◌∙◌, inl, inr, Bool, true, false, none, [], ◌∷◌, append-nil, Bytes,
  arith, ltb, ◌==◌, Bool-cases, length,
}
use aegis_flow.Net.Token.{ConnectionToken, token_eq}
use aegis_flow.Net.Codec.Stream.{feed_all}
use aegis_flow.Net.Session.State.{
  SessionState, SessionCloseReason, Session, buffered_input_bytes, begin_close, finalize_close,
}
use aegis_flow.Net.Session.Output.{
  accept_response, queue_response, close_after_writing, on_peer_read_closed,
}
use aegis_flow.Net.Session.Invariant.{
  unread, IsReady, IsBounded, HasReason, IsValid, IsOver, Delivery,
}
use aegis_flow.Net.Session.Receiving.{closing-IsValid, idle-Delivery}

-- A call that changes nothing that the stream depends on.
aside :
    (s s' : Session)
    → IsValid s'
    → s'.codec ≡ s.codec
    → unread s' ≡ unread s
    → Delivery s [] s' none
unfolding feed_all
aside s s' v e f = record {
  valid = v;
  ending = inr (record { taken = []; split = f ∙ sym (append-nil (unread s)); frames = rw e refl });
}

closes :
    (s : Session) (why : SessionCloseReason) (input : Bytes)
    → IsValid s
    → s.connection_closed ≡ false
    → Delivery s input (record s { state = SessionState.closing; close_reason = why }) none
closes s why input v h = record { valid = closing-IsValid s why v h; ending = inl (tt, refl) }

stays_over : (s : Session) (input : Bytes) → IsValid s → IsOver s.state → Delivery s input s none
stays_over s input v o = record { valid = v; ending = inl (o, refl) }

begin_close_at :
    (st : SessionState) (why : SessionCloseReason) (s : Session)
    (v : IsValid (record s { state = st }))
    → Delivery (record s { state = st }) [] (begin_close (record s { state = st }) why).0 none
unfolding begin_close
begin_close_at SessionState.closing why s v = stays_over _ [] v tt
begin_close_at SessionState.closed why s v = stays_over _ [] v tt
begin_close_at SessionState.reading SessionCloseReason.no_reason s v = idle-Delivery _ v
begin_close_at SessionState.processing SessionCloseReason.no_reason s v = idle-Delivery _ v
begin_close_at SessionState.writing SessionCloseReason.no_reason s v = idle-Delivery _ v
begin_close_at SessionState.reading _ s v = closes _ _ [] v v.handle
begin_close_at SessionState.processing _ s v = closes _ _ [] v v.handle
begin_close_at SessionState.writing _ s v = closes _ _ [] v v.handle

pub begin_close-Delivery :
    (s : Session) (why : SessionCloseReason) → IsValid s → Delivery s [] (begin_close s why).0 none
begin_close-Delivery s why v = begin_close_at s.state why s v

finalized :
    (s : Session) (why : SessionCloseReason)
    → IsValid s
    → IsValid
        (record s { state = SessionState.closed; close_reason = why; connection_closed = true })
finalized s why v = record {
  at = v.at;
  codec_at = v.codec_at;
  reachable = v.reachable;
  roomy = v.roomy;
  offset_in = v.offset_in;
  pending_fits = v.pending_fits;
  bounded = tt;
  output_in = v.output_in;
  output_fits = v.output_fits;
  ready = tt;
  handle = refl;
}

finalize_close_at :
    (st : SessionState) (s : Session) (v : IsValid (record s { state = st }))
    → Delivery (record s { state = st }) [] (finalize_close (record s { state = st })).0 none
unfolding finalize_close
finalize_close_at SessionState.closed s v = stays_over _ [] v tt
finalize_close_at SessionState.closing s v = record {
  valid = finalized _ s.close_reason v;
  ending = inl (tt, refl);
}
finalize_close_at _ s v = record {
  valid = finalized _ SessionCloseReason.local_shutdown v;
  ending = inl (tt, refl);
}

pub finalize_close-Delivery : (s : Session) → IsValid s → Delivery s [] (finalize_close s).0 none
finalize_close-Delivery s v = finalize_close_at s.state s v

close_after_writing_at :
    (st : SessionState) (why : SessionCloseReason) (s : Session)
    (v : IsValid (record s { state = st }))
    → Delivery
        (record s { state = st })
        []
        (close_after_writing (record s { state = st }) why).0
        none
unfolding close_after_writing
close_after_writing_at SessionState.closing why s v = stays_over _ [] v tt
close_after_writing_at SessionState.closed why s v = stays_over _ [] v tt
close_after_writing_at SessionState.reading why s v = idle-Delivery _ v
close_after_writing_at SessionState.processing why s v = idle-Delivery _ v
close_after_writing_at SessionState.writing SessionCloseReason.no_reason s v = idle-Delivery _ v
close_after_writing_at SessionState.writing why s v =
    aside _ _
      (record {
        at = v.at;
        codec_at = v.codec_at;
        reachable = v.reachable;
        roomy = v.roomy;
        offset_in = v.offset_in;
        pending_fits = v.pending_fits;
        bounded = v.bounded;
        output_in = v.output_in;
        output_fits = v.output_fits;
        ready = (v.ready.0, tt);
        handle = v.handle;
      })
      refl refl

pub close_after_writing-Delivery :
    (s : Session) (why : SessionCloseReason)
    → IsValid s
    → Delivery s [] (close_after_writing s why).0 none
close_after_writing-Delivery s why v = close_after_writing_at s.state why s v

half_closed :
    (s : Session) (why : SessionCloseReason) (st : SessionState)
    (v : IsValid (record s { state = st }))
    → IsReady st (record s { state = st; close_reason = why; peer_read_closed = true }) v.at
    → IsBounded st (record s { state = st; close_reason = why; peer_read_closed = true }) v.at
    → IsValid (record s { state = st; close_reason = why; peer_read_closed = true })
half_closed s why st v ready bounded = record {
  at = v.at;
  codec_at = v.codec_at;
  reachable = v.reachable;
  roomy = v.roomy;
  offset_in = v.offset_in;
  pending_fits = v.pending_fits;
  bounded = bounded;
  output_in = v.output_in;
  output_fits = v.output_fits;
  ready = ready;
  handle = v.handle;
}

HasReason-peer : (b : Bool) → HasReason b SessionCloseReason.peer_closed
HasReason-peer true = tt
HasReason-peer false = tt

on_peer_read_closed_at :
    (st : SessionState) (s : Session) (v : IsValid (record s { state = st }))
    → Delivery (record s { state = st }) [] (on_peer_read_closed (record s { state = st })).0 none
unfolding on_peer_read_closed begin_close
on_peer_read_closed_at SessionState.closing s v = stays_over _ [] v tt
on_peer_read_closed_at SessionState.closed s v = stays_over _ [] v tt
on_peer_read_closed_at SessionState.processing s v =
    aside _ _
      (half_closed s SessionCloseReason.peer_closed SessionState.processing v v.ready v.bounded)
      refl refl
on_peer_read_closed_at SessionState.writing s v =
    aside _ _
      (half_closed s SessionCloseReason.peer_closed SessionState.writing v
        (v.ready.0, HasReason-peer s.close_after_write) v.bounded)
      refl refl
on_peer_read_closed_at SessionState.reading s v =
    elim (Bool-cases (
      buffered_input_bytes (record s { state = SessionState.reading; peer_read_closed = true })
      == 0)) [
        | inl e ↦ rw e (gone SessionCloseReason.peer_closed)
        | inr e ↦ rw e (gone SessionCloseReason.peer_truncated_frame)
      ]
  where
    gone :
        (why : SessionCloseReason)
        → Delivery
            (record s { state = SessionState.reading })
            []
            (record s { state = SessionState.closing; peer_read_closed = true; close_reason = why })
            none
    gone why = record {
      valid =
          closing-IsValid _ why
            (half_closed s s.close_reason SessionState.reading v v.ready v.bounded) v.handle;
      ending = inl (tt, refl);
    }

pub on_peer_read_closed-Delivery :
    (s : Session) → IsValid s → Delivery s [] (on_peer_read_closed s).0 none
on_peer_read_closed-Delivery s v = on_peer_read_closed_at s.state s v

responds :
    (s : Session) (b : ℕ) (bs : Bytes) (v : IsValid (record s { state = SessionState.processing }))
    → length (b ∷ bs) ≤ s.config.max_output_buffer_bytes
    → IsValid (record s { output = b ∷ bs; output_offset = 0; state = SessionState.writing })
responds s b bs v l = record {
  at = v.at;
  codec_at = v.codec_at;
  reachable = v.reachable;
  roomy = v.roomy;
  offset_in = v.offset_in;
  pending_fits = v.pending_fits;
  bounded = v.bounded;
  output_in = omega arith;
  output_fits = l;
  ready = (v.ready.0, subst (λ c. HasReason c s.close_reason) (sym v.ready.1) tt);
  handle = v.handle;
}

accept_response_at :
    (st : SessionState) (response : Bytes) (s : Session) (v : IsValid (record s { state = st }))
    → Delivery
        (record s { state = st })
        []
        (accept_response (record s { state = st }) response).0
        none
unfolding accept_response begin_close
accept_response_at SessionState.closing response s v = stays_over _ [] v tt
accept_response_at SessionState.closed response s v = stays_over _ [] v tt
accept_response_at SessionState.reading response s v = idle-Delivery _ v
accept_response_at SessionState.writing response s v = idle-Delivery _ v
accept_response_at SessionState.processing [] s v = idle-Delivery _ v
accept_response_at SessionState.processing (b ∷ bs) s v =
    elim (Bool-cases (ltb s.config.max_output_buffer_bytes (length (b ∷ bs)))) [
      | inl e ↦ rw e (closes _ SessionCloseReason.output_limit_exceeded [] v v.handle)
      | inr e ↦ rw e (aside _ _ (responds s b bs v (ground arith)) refl refl)
    ]

pub queue_response-Delivery :
    (s : Session) (t : ConnectionToken) (response : Bytes)
    → IsValid s
    → Delivery s [] (queue_response s t response).0 none
unfolding queue_response
queue_response-Delivery s t response v = elim (Bool-cases (token_eq s.token t)) [
  | inl e ↦ rw e (accept_response_at s.state response s v)
  | inr e ↦ rw e (idle-Delivery s v)
]
