-- ===== src/Net/Session/Writing.antt =====
-- `onBytesWritten`: a response that is written out lets the input that waited be read.
use aegis_flow.Prelude.{
  ℕ, ◌+◌, ◌-◌, ◌≤◌, ◌<◌, ◌≡◌, refl, sym, inl, inr, Bool, true, false, Option, none, [], append-nil,
  Bytes, arith, ltb, ◌==◌, Bool-cases, length, sub_size,
}
use aegis_flow.Net.Codec.Stream.{feed_all}
use aegis_flow.Net.Session.State.{
  SessionState, SessionStatus, SessionCloseReason, SessionResult, Session, begin_close,
}
use aegis_flow.Net.Session.Input.{consume_pending_input}
use aegis_flow.Net.Session.Invariant.{unread, HasReason, IsValid, Delivery}
use aegis_flow.Net.Session.State.{remaining_output_bytes}
use aegis_flow.Net.Session.Output.{ok_if_buffered, output_done, on_bytes_written}
use aegis_flow.Net.Session.Receiving.{closing-IsValid, idle-Delivery}
use aegis_flow.Net.Session.Progress.{Ends, Progress, Written}
use aegis_flow.Net.Session.Resuming.{resumed, pending_lem}

-- Written in part: more is left of the output.
partly :
    (s : Session) (n : ℕ)
    → IsValid (record s { state = SessionState.writing })
    → s.output_offset + n ≤ length s.output
    → Delivery
        (record s { state = SessionState.writing })
        []
        (record s { state = SessionState.writing; output_offset = s.output_offset + n })
        none
unfolding feed_all
partly s n v l = record {
  valid = record {
    at = v.at;
    codec_at = v.codec_at;
    reachable = v.reachable;
    roomy = v.roomy;
    offset_in = v.offset_in;
    pending_fits = v.pending_fits;
    bounded = v.bounded;
    output_in = l;
    output_fits = v.output_fits;
    ready = v.ready;
    handle = v.handle;
  };
  ending = inr (record { taken = []; split = sym (append-nil (unread s)); frames = refl });
}

-- Without output left.
emptied :
    (s : Session)
    → IsValid (record s { state = SessionState.writing })
    → IsValid (record s { state = SessionState.writing; output = []; output_offset = 0 })
emptied s v = record {
  at = v.at;
  codec_at = v.codec_at;
  reachable = v.reachable;
  roomy = v.roomy;
  offset_in = v.offset_in;
  pending_fits = v.pending_fits;
  bounded = v.bounded;
  output_in = omega arith;
  output_fits = omega arith;
  ready = v.ready;
  handle = v.handle;
}

-- A session that is not over closes for a reason.
pub begin_close_writing :
    (s : Session) (why : SessionCloseReason)
    → HasReason true why
    → (begin_close (record s { state = SessionState.writing }) why).0
      ≡ record s { state = SessionState.closing; close_reason = why }
unfolding begin_close
begin_close_writing s SessionCloseReason.no_reason h = absurd h
begin_close_writing s SessionCloseReason.local_shutdown h = refl
begin_close_writing s _ h = refl

over_after :
    (s : Session) (why : SessionCloseReason)
    → IsValid (record s { state = SessionState.writing })
    → HasReason true why
    → let s' =
        (begin_close
          (record s { state = SessionState.writing; output = []; output_offset = 0 })
          why).0 in
      Delivery (record s { state = SessionState.writing }) [] s' none
      × (s'.output ≡ [])
      × ((s'.state ≡ SessionState.closing) × (s'.close_reason ≡ why))
over_after s why v h =
    let s1 = record s { output = []; output_offset = 0 } in
    rw (begin_close_writing s1 why h) (
      record {
        valid =
            closing-IsValid (record s1 { state = SessionState.writing }) why (emptied s v) v.handle;
        ending = inl (tt, refl);
      },
      refl,
      (refl, refl),
    )

ok_if_buffered-request :
    (st : SessionStatus) (out : SessionResult)
    → (ok_if_buffered (record out { status = st })).request ≡ out.request
ok_if_buffered-request SessionStatus.ok out = refl
ok_if_buffered-request SessionStatus.buffered out = refl
ok_if_buffered-request _ out = refl

output_done_at :
    (c p : Bool) (s : Session)
    → IsValid
        (record s { state = SessionState.writing; close_after_write = c; peer_read_closed = p })
    → let (s', out) =
        output_done (record s {
          state = SessionState.writing;
          close_after_write = c;
          peer_read_closed = p;
        }) in
      Delivery
        (record s { state = SessionState.writing; close_after_write = c; peer_read_closed = p })
        []
        s'
        out.request
      × (s'.output ≡ [])
      × Ends c p s.close_reason s'
unfolding output_done
output_done_at true p s v =
    over_after (record s { close_after_write = true; peer_read_closed = p }) s.close_reason v
      v.ready.1
output_done_at false true s v =
    over_after (record s { close_after_write = false; peer_read_closed = true })
      SessionCloseReason.peer_closed v tt
output_done_at false false s v =
    let now = record s { close_after_write = false; peer_read_closed = false } in
    let out = (consume_pending_input (resumed now)).1 in
    rw (ok_if_buffered-request out.status out) (pending_lem now v refl)

-- The output of a session counts for nothing in its stream.
Delivery-moved :
    (s : Session) (k : ℕ) (s' : Session) (out : Option Bytes)
    → Delivery (record s { output_offset = k }) [] s' out
    → Delivery s [] s' out
Delivery-moved s k s' out d = record {
  valid = d.valid;
  ending = elim d.ending [
    | inl o ↦ inl o
    | inr e ↦ inr (record { taken = e.taken; split = e.split; frames = e.frames })
  ];
}

written :
    (s : Session) (n : ℕ) (v : IsValid (record s { state = SessionState.writing }))
    → let (s', out) = on_bytes_written (record s { state = SessionState.writing }) n in
      Delivery (record s { state = SessionState.writing }) [] s' out.request
      × Progress (record s { state = SessionState.writing }) n s' out
unfolding on_bytes_written remaining_output_bytes begin_close
written s n v = elim (Bool-cases (ltb (sub_size (length s.output) s.output_offset) n)) [
  | inl e ↦ rw e (
    record {
      valid =
          closing-IsValid (record s { state = SessionState.writing })
            SessionCloseReason.write_invariant_violation v v.handle;
      ending = inl (tt, refl);
    },
    inr (inr (over e, refl, refl, refl)),
  )
  | inr e ↦ rw e (elim (Bool-cases (sub_size (length s.output) (s.output_offset + n) == 0)) [
    | inl f ↦ rw f (
        let (d, empty, next) =
          output_done_at s.close_after_write s.peer_read_closed
            (record s { output_offset = s.output_offset + n }) (partly s n v (within e)).valid in
        (
          Delivery-moved (record s { state = SessionState.writing }) (s.output_offset + n) _ _ d,
          inr (inl (all (within e) f, empty, next)),
        ))
    | inr f ↦ rw f (partly s n v (within e), inl (some_left (within e) f, refl, refl, refl))
  ])
]
  where
    within :
        ltb (sub_size (length s.output) s.output_offset) n ≡ false
        → s.output_offset + n ≤ length s.output
    within e = ground (arith, v.output_in, v.output_fits, v.roomy.output_size)

    over :
        ltb (sub_size (length s.output) s.output_offset) n ≡ true
        → length s.output - s.output_offset < n
    over e = ground (arith, v.output_in, v.output_fits, v.roomy.output_size)

    all :
        s.output_offset + n ≤ length s.output
        → (sub_size (length s.output) (s.output_offset + n) == 0) ≡ true
        → n ≡ length s.output - s.output_offset
    all l f = ground (arith, v.output_fits, v.roomy.output_size)

    some_left :
        s.output_offset + n ≤ length s.output
        → (sub_size (length s.output) (s.output_offset + n) == 0) ≡ false
        → n < length s.output - s.output_offset
    some_left l f = ground (arith, v.output_fits, v.roomy.output_size)

on_bytes_written_at :
    (st : SessionState) (s : Session) (n : ℕ) (v : IsValid (record s { state = st }))
    → let (s', out) = on_bytes_written (record s { state = st }) n in
      Delivery (record s { state = st }) [] s' out.request
      × Written st (record s { state = st }) n s' out
unfolding on_bytes_written
on_bytes_written_at SessionState.closing s n v =
    (record { valid = v; ending = inl (tt, refl) }, (refl, refl))
on_bytes_written_at SessionState.closed s n v =
    (record { valid = v; ending = inl (tt, refl) }, (refl, refl))
on_bytes_written_at SessionState.reading s n v = (idle-Delivery _ v, (refl, refl))
on_bytes_written_at SessionState.processing s n v = (idle-Delivery _ v, (refl, refl))
on_bytes_written_at SessionState.writing s n v = written s n v

pub on_bytes_written-Delivery :
    (s : Session) (n : ℕ)
    → IsValid s
    → let (s', out) = on_bytes_written s n in
      Delivery s [] s' out.request × Written s.state s n s' out
on_bytes_written-Delivery s n v = on_bytes_written_at s.state s n v
