-- ===== src/Timer/Core/Fired.antt =====
-- What keeps a timer active: a reservation leaves timer_core.cpp (src/timer) for another only.
use aegis_flow.Prelude.{
  ℕ, ◌≡◌, refl, sym, ap, ◌∙◌, ◌⊎◌, inl, inr, Bool, true, false, Option, none, some, List, [], ◌∷◌,
  arith, ◌==◌, Bool-cases,
}
use aegis_flow.Timer.Types.{TimerId}
use aegis_flow.Timer.State.{
  Reservation, HeapNode, Command, schedule, stop, TimerCore, find, erase, active_in, cancelled_in,
  is_active, is_cancelled,
}
use aegis_flow.Timer.Core.{process_command, process_all, clean}
use aegis_flow.Timer.Core.Reservations.{find-erase_other}
use aegis_flow.Timer.Core.Heap.{same_id, find-active}

one_generation :
    (o : Option Reservation) (g h : ℕ)
    → active_in o g ≡ true
    → active_in o h ≡ true
    → (g == h) ≡ true
one_generation none g h a b = absurd (ground arith)
one_generation (some r) g h a b = ground arith

-- Two active timers of one number are one timer.
same_value-same_id :
    (m : List (ℕ × Reservation)) (a b : TimerId)
    → is_active m a ≡ true
    → is_active m b ≡ true
    → (a.value == b.value) ≡ true
    → same_id a b ≡ true
unfolding is_active
same_value-same_id m a b on other e =
    let same : a.value ≡ b.value = ground arith in
    let g : (a.generation == b.generation) ≡ true =
      one_generation (find m b.value) a.generation b.generation
        (ap (λ v. active_in (find m v) a.generation) (sym same) ∙ on) other in
    ground arith

active_or_cancelled :
    (o : Option Reservation) (g h : ℕ) → cancelled_in o g ≡ true → active_in o h ≡ true → ⊥
active_or_cancelled none g h a b = ground arith
active_or_cancelled (some r) g h a b = ground arith

cancelled-other :
    (m : List (ℕ × Reservation)) (a b : TimerId)
    → is_cancelled m a ≡ true
    → is_active m b ≡ true
    → (a.value == b.value) ≡ false
unfolding is_active is_cancelled
cancelled-other m a b off on = elim (Bool-cases (a.value == b.value)) [
  | inr e ↦ e
  | inl e ↦
      let same : a.value ≡ b.value = ground arith in
      absurd (
        active_or_cancelled (find m b.value) a.generation b.generation
          (ap (λ v. cancelled_in (find m v) a.generation) (sym same) ∙ off) on)
]

erase-keeps :
    (m : List (ℕ × Reservation)) (v : ℕ) (id : TimerId)
    → (v == id.value) ≡ false
    → is_active m id ≡ true
    → is_active (erase m v) id ≡ true
erase-keeps m v id other on = find-active _ _ id (find-erase_other m v id.value other) ∙ on

pub clean-keeps :
    (heap : List HeapNode) (m : List (ℕ × Reservation)) (id : TimerId)
    → is_active m id ≡ true
    → is_active (clean heap m).1 id ≡ true
unfolding clean
clean-keeps [] m id on = on
clean-keeps (node ∷ rest) m id on = elim (Bool-cases (is_active m node.id)) [
  | inl e ↦ rw e on
  | inr e ↦ rw e (
      clean-keeps rest _ id (elim (Bool-cases (is_cancelled m node.id)) [
        | inl c ↦ rw c (erase-keeps m node.id.value id (cancelled-other m node.id id c on) on)
        | inr c ↦ rw c on
      ]))
]

-- The reservation of an active timer goes, and no other timer's.
pub fired_or_active :
    (m : List (ℕ × Reservation)) (a id : TimerId)
    → is_active m a ≡ true
    → is_active m id ≡ true
    → (same_id a id ≡ true) ⊎ (is_active (erase m a.value) id ≡ true)
fired_or_active m a id on other = elim (Bool-cases (a.value == id.value)) [
  | inl e ↦ inl (same_value-same_id m a id on other e)
  | inr e ↦ inr (erase-keeps m a.value id e other)
]

-- Somebody has asked the timers to stop.
abbrev pub has_stop : List Command → Bool
has_stop [] = false
has_stop (schedule node ∷ cs) = has_stop cs
has_stop (stop ∷ cs) = true

process_command-reservations :
    (s : TimerCore) (node : HeapNode)
    → (process_command s (schedule node)).reservations ≡ s.reservations
unfolding process_command
process_command-reservations s node = ground arith

pub process_all-reservations :
    (s : TimerCore) (cs : List Command)
    → has_stop cs ≡ false
    → (process_all s cs).reservations ≡ s.reservations
unfolding process_all
process_all-reservations s [] h = refl
process_all-reservations s (schedule node ∷ cs) h =
    process_all-reservations (process_command s (schedule node)) cs h
    ∙ process_command-reservations s node
process_all-reservations s (stop ∷ cs) h = absurd (ground arith)
