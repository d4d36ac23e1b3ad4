-- ===== src/Net/Session/Lifecycle.antt =====
-- A session from its creation on, under any sequence of calls.
use aegis_flow.Prelude.{
  ℕ, ◌+◌, ◌≡◌, refl, sym, ap, ◌∙◌, inl, inr, Bool, true, false, Option, none, List, [], ◌∷◌, ◌++◌,
  append_assoc, append-nil, Bytes, arith, Bool-cases,
}
use aegis_flow.Net.Token.{ConnectionToken, token_eq}
use aegis_flow.Net.Codec.Stream.{feed_all, feed_all-append}
use aegis_flow.Net.Session.State.{
  SessionState, SessionCloseReason, Session, begin_close, finalize_close,
}
use aegis_flow.Net.Session.Input.{on_input}
use aegis_flow.Net.Session.Output.{
  queue_response, on_bytes_written, close_after_writing, on_peer_read_closed,
}
use aegis_flow.Net.Session.Invariant.{
  position_of, unread, HandleFits, IsValid, IsOver, to_list, Delivers, Delivery,
}
use aegis_flow.Net.Session.Receiving.{on_input-Delivery}
use aegis_flow.Net.Session.Writing.{on_bytes_written-Delivery}
use aegis_flow.Net.Session.Closing.{
  begin_close-Delivery, finalize_close-Delivery, close_after_writing-Delivery,
  on_peer_read_closed-Delivery, queue_response-Delivery,
}
use aegis_flow.Net.Session.Handle.{
  begin_close-handle, on_input-handle, on_bytes_written-handle, queue_response-handle,
  close_after_writing-handle, on_peer_read_closed-handle,
}

-- The calls of the event loop.
pub data Event : Type 0 where
  receives : Bytes → Event
  responds : ConnectionToken → Bytes → Event
  writes : ℕ → Event
  closes_after_write : SessionCloseReason → Event
  peer_closes_read : Event
  begins_close : SessionCloseReason → Event
  finalizes : Event

-- What a call leaves: the session, a request for the business, and calls of `connection_->close()`.
pub record After : Type 0 where
  pub session : Session
  pub request : Option Bytes
  pub handle_closes : ℕ

abbrev pub step : Session → Event → After
step s (receives input) =
    let (s', out) = on_input s input in
    record { session = s'; request = out.request; handle_closes = 0 }
step s (responds t response) = record {
  session = (queue_response s t response).0;
  request = none;
  handle_closes = 0;
}
step s (writes n) =
    let (s', out) = on_bytes_written s n in
    record { session = s'; request = out.request; handle_closes = 0 }
step s (closes_after_write why) = record {
  session = (close_after_writing s why).0;
  request = none;
  handle_closes = 0;
}
step s peer_closes_read = record {
  session = (on_peer_read_closed s).0;
  request = none;
  handle_closes = 0;
}
step s (begins_close why) = record {
  session = (begin_close s why).0;
  request = none;
  handle_closes = 0;
}
step s finalizes =
    let (s', n, _) = finalize_close s in record { session = s'; request = none; handle_closes = n }

abbrev pub input_of : Event → Bytes
input_of (receives input) = input
input_of _ = []

-- A run: the last session, all requests in order, and all calls of `close`.
abbrev pub run : Session → List Event → Session × List Bytes × ℕ
run s [] = (s, [], 0)
run s (e ∷ es) =
    let a = step s e in
    let (s', requests, closes) = run a.session es in
    (s', to_list a.request ++ requests, a.handle_closes + closes)

abbrev pub received : List Event → Bytes
received [] = []
received (e ∷ es) = input_of e ++ received es

step-Delivery :
    (s : Session) (e : Event)
    → IsValid s
    → Delivery s (input_of e) (step s e).session (step s e).request
step-Delivery s (receives input) v = on_input-Delivery s input v
step-Delivery s (responds t response) v = queue_response-Delivery s t response v
step-Delivery s (writes n) v = (on_bytes_written-Delivery s n v).0
step-Delivery s (closes_after_write why) v = close_after_writing-Delivery s why v
step-Delivery s peer_closes_read v = on_peer_read_closed-Delivery s v
step-Delivery s (begins_close why) v = begin_close-Delivery s why v
step-Delivery s finalizes v = finalize_close-Delivery s v

responds-IsOver :
    (st : SessionState) (s : Session) (t : ConnectionToken) (response : Bytes)
    → IsOver st
    → IsOver (queue_response (record s { state = st }) t response).0.state
unfolding queue_response
responds-IsOver SessionState.closing s t response o = elim (Bool-cases (token_eq s.token t)) [
  | inl e ↦ rw e tt
  | inr e ↦ rw e tt
]
responds-IsOver SessionState.closed s t response o = elim (Bool-cases (token_eq s.token t)) [
  | inl e ↦ rw e tt
  | inr e ↦ rw e tt
]
responds-IsOver SessionState.reading s t response o = absurd o
responds-IsOver SessionState.processing s t response o = absurd o
responds-IsOver SessionState.writing s t response o = absurd o

step-IsOver :
    (st : SessionState) (e : Event) (s : Session)
    → IsOver st
    → IsOver (step (record s { state = st }) e).session.state
unfolding on_input on_bytes_written close_after_writing on_peer_read_closed begin_close
    finalize_close
step-IsOver st (responds t response) s o = responds-IsOver st s t response o
step-IsOver SessionState.closing (receives input) s o = tt
step-IsOver SessionState.closing _ s o = tt
step-IsOver SessionState.closed (receives input) s o = tt
step-IsOver SessionState.closed _ s o = tt
step-IsOver _ (receives input) s o = absurd o
step-IsOver _ _ s o = absurd o

run-IsOver : (s : Session) (es : List Event) → IsOver s.state → IsOver (run s es).0.state
run-IsOver s [] o = o
run-IsOver s (e ∷ es) o = run-IsOver (step s e).session es (step-IsOver s.state e s o)

-- No sequence of calls breaks a session: its buffers stay within their limits, nothing waits while
-- it reads, and its handle is open until it is closed.
pub run-IsValid : (s : Session) (es : List Event) → IsValid s → IsValid (run s es).0
run-IsValid s [] v = v
run-IsValid s (e ∷ es) v = run-IsValid (step s e).session es (step-Delivery s e v).valid

-- What a run reads: a prefix of what waited and came in, up to what waits at the end.
pub record Reads (s : Session) (es : List Event) (s' : Session) (requests : List Bytes)
    : Type 0 where
  pub taken : Bytes
  pub split : taken ++ unread s' ≡ unread s ++ received es
  pub frames : feed_all (position_of s.codec) taken ≡ (position_of s'.codec, requests)

Reads-step :
    {s t u : Session} {e : Event} {es : List Event} {request : Option Bytes} {requests : List Bytes}
    → Delivers s (input_of e) t request
    → Reads t es u requests
    → Reads s (e ∷ es) u (to_list request ++ requests)
Reads-step {s} {t} {u} {e} {es} d r = record {
  taken = d.taken ++ r.taken;
  split =
      append_assoc d.taken r.taken (unread u)
      ∙ ap (λ w. d.taken ++ w) r.split
      ∙ sym (append_assoc d.taken (unread t) (received es))
      ∙ ap (λ w. w ++ received es) d.split
      ∙ append_assoc (unread s) (input_of e) (received es);
  frames = feed_all-append (position_of s.codec) d.taken r.taken ∙ rw (d.frames, r.frames);
}

-- As long as a session is not over, the requests that it has handed out are, in order, the frames of
-- the bytes received, however these were cut into calls and whatever else was called in between.
pub run-Reads :
    (s : Session) (es : List Event)
    → IsValid s
    → ¬ IsOver (run s es).0.state
    → Reads s es (run s es).0 (run s es).1
unfolding feed_all
run-Reads s [] v o = record { taken = []; split = sym (append-nil (unread s)); frames = refl }
run-Reads s (e ∷ es) v o = elim (step-Delivery s e v).ending [
  | inl over ↦ absurd (o (run-IsOver (step s e).session es over.0))
  | inr d ↦ Reads-step d (run-Reads (step s e).session es (step-Delivery s e v).valid o)
]

abbrev one_if : Bool → ℕ
one_if true = 1
one_if false = 0

-- 1 for a session whose flag says that its handle is closed.
abbrev flagged : Session → ℕ
flagged s = one_if s.connection_closed

-- 1 for the state of a session that is closed.
abbrev pub is_closed : SessionState → ℕ
is_closed SessionState.closed = 1
is_closed _ = 0

flagged-is_closed : (st : SessionState) (b : Bool) → HandleFits st b → one_if b ≡ is_closed st
flagged-is_closed SessionState.closed b h = ap one_if h
flagged-is_closed SessionState.reading b h = ap one_if h
flagged-is_closed SessionState.processing b h = ap one_if h
flagged-is_closed SessionState.writing b h = ap one_if h
flagged-is_closed SessionState.closing b h = ap one_if h

finalize_closes :
    (st : SessionState) (s : Session)
    → HandleFits st s.connection_closed
    → let (s', n, _) = finalize_close (record s { state = st }) in n + flagged s ≡ flagged s'
unfolding finalize_close begin_close
finalize_closes st s h = ground arith

step_closes :
    (s : Session) (e : Event)
    → IsValid s
    → (step s e).handle_closes + flagged s ≡ flagged (step s e).session
step_closes s (receives input) v = omega (arith, ap one_if (on_input-handle s input))
step_closes s (responds t response) v =
    omega (arith, ap one_if (queue_response-handle s t response))
step_closes s (writes n) v = omega (arith, ap one_if (on_bytes_written-handle s n))
step_closes s (closes_after_write why) v =
    omega (arith, ap one_if (close_after_writing-handle s why))
step_closes s peer_closes_read v = omega (arith, ap one_if (on_peer_read_closed-handle s))
step_closes s (begins_close why) v = omega (arith, ap one_if (begin_close-handle s why))
step_closes s finalizes v = finalize_closes s.state s v.handle

run-flagged :
    (s : Session) (es : List Event) → IsValid s → (run s es).2 + flagged s ≡ flagged (run s es).0
run-flagged s [] v = omega arith
run-flagged s (e ∷ es) v =
    omega (arith, step_closes s e v, run-flagged (step s e).session es (step-Delivery s e v).valid)

-- For a valid session and any calls, the handle has been closed once if the session is then in the
-- closed state and was not before, and not at all otherwise.
pub run_closes :
    (s : Session) (es : List Event)
    → IsValid s
    → (run s es).2 + is_closed s.state ≡ is_closed (run s es).0.state
run_closes s es v = omega (
  arith,
  run-flagged s es v,
  flagged-is_closed s.state s.connection_closed v.handle,
  flagged-is_closed (run s es).0.state (run s es).0.connection_closed (run-IsValid s es v).handle,
)
