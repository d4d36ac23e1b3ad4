-- ===== src/Net/Session/Receiving.antt =====
-- `onInput` keeps a session valid and goes on with the stream.
use aegis_flow.Prelude.{
  ℕ, ◌+◌, ◌≤◌, ◌≡◌, refl, sym, subst, inl, inr, Bool, true, false, none, [], ◌∷◌, append-nil, Bytes,
  arith, ltb, Bool-cases, length, length-append, sub_size,
}
use aegis_flow.Net.Codec.{Codec}
use aegis_flow.Net.Codec.Stream.{feed_all}
use aegis_flow.Net.Session.State.{
  SessionState, SessionCloseReason, Session, buffered_input_bytes, begin_close,
  append_pending_input,
}
use aegis_flow.Net.Session.Input.{consume_reading_bytes, on_input}
use aegis_flow.Net.Session.Reads.{read_rounds-ends}
use aegis_flow.Net.Session.Invariant.{
  held, unread, IsReady, IsBounded, IsValid, buffered_input_bytes_lem, Delivery,
}
use aegis_flow.Net.Session.Delivery.{reads-Delivery}

consume_reading_bytes_lem :
    (s : Session) (input : Bytes) (v : IsValid (record s { state = SessionState.reading }))
    → let (s', out) =
        consume_reading_bytes (record s { state = SessionState.reading }) input true in
      Delivery (record s { state = SessionState.reading }) input s' out.request
unfolding consume_reading_bytes
consume_reading_bytes_lem s input v =
    subst
      (λ (c : Codec).
        let (s', out) =
          consume_reading_bytes (record s { codec = c; state = SessionState.reading }) input true in
        Delivery now input s' out.request)
      (sym v.codec_at)
      (reads-Delivery now v input v.handle v.ready.0 v.ready.3 _
        (read_rounds-ends (length input) true now v.at input v.ready.1 v.ready.2 (omega arith)))
  where
    now : Session
    now = record s { state = SessionState.reading }

-- A session that closes.
pub closing-IsValid :
    (s : Session) (why : SessionCloseReason)
    → IsValid s
    → s.connection_closed ≡ false
    → IsValid (record s { state = SessionState.closing; close_reason = why })
closing-IsValid s why v h = record {
  at = v.at;
  codec_at = v.codec_at;
  reachable = v.reachable;
  roomy = v.roomy;
  offset_in = v.offset_in;
  pending_fits = v.pending_fits;
  bounded = tt;
  output_in = v.output_in;
  output_fits = v.output_fits;
  ready = tt;
  handle = h;
}

-- A call that leaves the stream alone.
pub idle-Delivery : (s : Session) → IsValid s → Delivery s [] s none
unfolding feed_all
idle-Delivery s v = record {
  valid = v;
  ending = inr (record { taken = []; split = sym (append-nil (unread s)); frames = refl });
}

-- Input that is held back while a request is in flight, where the limit leaves room for it.
module _ (s : Session) (st : SessionState) (b : ℕ) (bs : Bytes)
    (v : IsValid (record s { state = st })) where
  abbrev HasRoom : Type 0
  HasRoom = held v.at + length (unread s) + length (b ∷ bs) ≤ s.config.max_input_buffer_bytes

  room :
      held v.at + length (unread s) ≤ s.config.max_input_buffer_bytes
      → ltb
          (sub_size s.config.max_input_buffer_bytes
            (buffered_input_bytes (record s { state = st })))
          (length (b ∷ bs))
        ≡ false
      → HasRoom
  room l e = ground (arith, buffered_input_bytes_lem v, v.roomy.input_size)

  held_back :
      HasRoom
      → IsBounded st (append_pending_input (record s { state = st }) (b ∷ bs)) v.at
      → IsReady st (append_pending_input (record s { state = st }) (b ∷ bs)) v.at
      → Delivery
          (record s { state = st })
          (b ∷ bs)
          (append_pending_input (record s { state = st }) (b ∷ bs))
          none
  unfolding append_pending_input feed_all
  held_back fits bounded ready = record {
    valid = record {
      at = v.at;
      codec_at = v.codec_at;
      reachable = v.reachable;
      roomy = v.roomy;
      offset_in = omega arith;
      pending_fits = omega (arith, length-append (unread s) (b ∷ bs), v.roomy.input_size);
      bounded = bounded;
      output_in = v.output_in;
      output_fits = v.output_fits;
      ready = ready;
      handle = v.handle;
    };
    ending = inr (record { taken = []; split = refl; frames = refl });
  }

-- A session with a request in flight.
module _ (s : Session) (b : ℕ) (bs : Bytes) where
  full : SessionState → Bool
  full st =
      ltb
        (sub_size s.config.max_input_buffer_bytes (buffered_input_bytes (record s { state = st })))
        (length (b ∷ bs))

  processing_input :
      (v : IsValid (record s { state = SessionState.processing }))
      → let (s', out) = on_input (record s { state = SessionState.processing }) (b ∷ bs) in
        Delivery (record s { state = SessionState.processing }) (b ∷ bs) s' out.request
  unfolding on_input begin_close full append_pending_input
  processing_input v = elim (Bool-cases (full SessionState.processing)) [
    | inl e ↦ rw e (record { valid = closing-IsValid _ _ v v.handle; ending = inl (tt, refl) })
    | inr e ↦
        let fits = room s _ b bs v v.bounded e in
        rw e (
          held_back s SessionState.processing b bs v fits
            (omega (arith, length-append (unread s) (b ∷ bs))) v.ready)
  ]

  writing_input :
      (v : IsValid (record s { state = SessionState.writing }))
      → let (s', out) = on_input (record s { state = SessionState.writing }) (b ∷ bs) in
        Delivery (record s { state = SessionState.writing }) (b ∷ bs) s' out.request
  unfolding on_input begin_close full append_pending_input
  writing_input v = elim (Bool-cases (full SessionState.writing)) [
    | inl e ↦ rw e (record { valid = closing-IsValid _ _ v v.handle; ending = inl (tt, refl) })
    | inr e ↦
        let fits = room s _ b bs v v.bounded e in
        rw e (
          held_back s SessionState.writing b bs v fits
            (omega (arith, length-append (unread s) (b ∷ bs))) v.ready)
  ]

on_input_at :
    (st : SessionState) (s : Session) (input : Bytes) (v : IsValid (record s { state = st }))
    → let (s', out) = on_input (record s { state = st }) input in
      Delivery (record s { state = st }) input s' out.request
unfolding on_input
on_input_at SessionState.closing s input v = record { valid = v; ending = inl (tt, refl) }
on_input_at SessionState.closed s input v = record { valid = v; ending = inl (tt, refl) }
on_input_at SessionState.reading s [] v = idle-Delivery _ v
on_input_at SessionState.reading s (b ∷ bs) v = consume_reading_bytes_lem s (b ∷ bs) v
on_input_at SessionState.processing s [] v = idle-Delivery _ v
on_input_at SessionState.writing s [] v = idle-Delivery _ v
on_input_at SessionState.processing s (b ∷ bs) v = processing_input s b bs v
on_input_at SessionState.writing s (b ∷ bs) v = writing_input s b bs v

-- `onInput` keeps a valid session valid, and unless the session is over afterwards it goes on with
-- the byte stream: nothing is lost, repeated or reordered, and a request that it hands out is the
-- next frame of the stream.
pub on_input-Delivery :
    (s : Session) (input : Bytes)
    → IsValid s
    → let (s', out) = on_input s input in Delivery s input s' out.request
on_input-Delivery s input v = on_input_at s.state s input v
