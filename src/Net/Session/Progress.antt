-- ===== src/Net/Session/Progress.antt =====
-- What `onBytesWritten` of session.cpp (src/net) makes of a response: how much of it is left, and
-- what follows when nothing is.
use aegis_flow.Prelude.{
  ℕ, ◌+◌, ◌-◌, ◌<◌, ◌≡◌, ◌⊎◌, Bool, true, false, Option, none, [], Bytes, length,
}
use aegis_flow.Net.Session.State.{
  SessionState, SessionStatus, SessionCloseReason, SessionResult, Session,
}
use aegis_flow.Net.Session.Invariant.{Delivery}

-- It reads, has the next request, or closes because what it reads is refused.
abbrev pub HasResumed : SessionState → Type 0
HasResumed SessionState.writing = ⊥
HasResumed SessionState.closed = ⊥
HasResumed _ = Unit

-- The session reads on, without output.
abbrev pub Resumes : Session → Session → Option Bytes → Type 0
Resumes s s' request =
    Delivery (record s { state = SessionState.writing }) [] s' request
    × (s'.output ≡ [])
    × HasResumed s'.state

-- It closes: the caller's reason comes before that of the peer. Or it goes on.
abbrev pub Ends : Bool → Bool → SessionCloseReason → Session → Type 0
Ends true peer_closed why s' = (s'.state ≡ SessionState.closing) × (s'.close_reason ≡ why)
Ends false true why s' =
    (s'.state ≡ SessionState.closing) × (s'.close_reason ≡ SessionCloseReason.peer_closed)
Ends false false why s' = HasResumed s'.state

-- Some of the response is left, nothing is left, or more was written than there was.
abbrev pub Progress : Session → ℕ → Session → SessionResult → Type 0
Progress s n s' out =
    let left = length s.output - s.output_offset in
    ((n < left)
      × (s' ≡ record s { output_offset = s.output_offset + n })
      × (out.status ≡ SessionStatus.ok)
      × (out.request ≡ none))
    ⊎ ((n ≡ left)
        × (s'.output ≡ [])
        × Ends s.close_after_write s.peer_read_closed s.close_reason s')
    ⊎ ((left < n)
        × (s'.state ≡ SessionState.closing)
        × (s'.close_reason ≡ SessionCloseReason.write_invariant_violation)
        × (out.status ≡ SessionStatus.write_progress_exceeded))

-- Only a session that writes makes progress.
abbrev pub Written : SessionState → Session → ℕ → Session → SessionResult → Type 0
Written SessionState.writing s n s' out = Progress s n s' out
Written SessionState.closing s n s' out = (s' ≡ s) × (out.status ≡ SessionStatus.closing)
Written SessionState.closed s n s' out = (s' ≡ s) × (out.status ≡ SessionStatus.closed)
Written SessionState.reading s n s' out = (s' ≡ s) × (out.status ≡ SessionStatus.invalid_state)
Written SessionState.processing s n s' out = (s' ≡ s) × (out.status ≡ SessionStatus.invalid_state)
