-- ===== src/Timer/Core/Reservations.antt =====
-- The reservations of timer_core.cpp (src/timer), and how every call follows on them.
use aegis_flow.Prelude.{
  ℕ, ◌≤◌, ◌<◌, ◌≡◌, refl, ◌∙◌, ◌⊎◌, inl, inr, true, false, Option, none, some, List, [], ◌∷◌, arith,
  ◌==◌, Bool-cases,
}
use aegis_flow.Timer.Types.{TimerId}
use aegis_flow.Timer.State.{
  Reservation, HeapNode, TimerCore, find, erase, cancel_all, is_active, is_cancelled,
}
use aegis_flow.Timer.Core.{clean}

pub find-erase_self : (m : List (ℕ × Reservation)) (v : ℕ) → find (erase m v) v ≡ none
unfolding find erase
find-erase_self [] v = refl
find-erase_self ((k, r) ∷ m) v = elim (Bool-cases (k == v)) [
  | inl e ↦ rw e (find-erase_self m v)
  | inr e ↦ rw (e, e) (find-erase_self m v)
]

pub find-erase_other :
    (m : List (ℕ × Reservation)) (v w : ℕ) → (v == w) ≡ false → find (erase m v) w ≡ find m w
unfolding find erase
find-erase_other [] v w h = refl
find-erase_other ((k, r) ∷ m) v w h = elim (Bool-cases (k == v)) [
  | inl e ↦ let other : (k == w) ≡ false = ground arith in rw (e, other) (find-erase_other m v w h)
  | inr e ↦ elim (Bool-cases (k == w)) [
    | inl f ↦ rw (e, f)
    | inr f ↦ rw (e, f) (find-erase_other m v w h)
  ]
]

-- What is gone stays gone.
pub find-erase_gone :
    (m : List (ℕ × Reservation)) (v w : ℕ) → find m w ≡ none → find (erase m v) w ≡ none
find-erase_gone m v w h = elim (Bool-cases (v == w)) [
  | inl e ↦ let same : v ≡ w = ground arith in rw same (find-erase_self m w)
  | inr e ↦ find-erase_other m v w e ∙ h
]

abbrev pub cancelled_of : Option Reservation → Option Reservation
cancelled_of none = none
cancelled_of (some r) = some (record r { cancelled = true })

pub find-cancel_all :
    (m : List (ℕ × Reservation)) (v : ℕ) → find (cancel_all m) v ≡ cancelled_of (find m v)
unfolding find cancel_all
find-cancel_all [] v = refl
find-cancel_all ((k, r) ∷ m) v = elim (Bool-cases (k == v)) [
  | inl e ↦ rw e
  | inr e ↦ rw e (find-cancel_all m v)
]

pub find-clean_gone :
    (heap : List HeapNode) (m : List (ℕ × Reservation)) (v : ℕ)
    → find m v ≡ none
    → find (clean heap m).1 v ≡ none
unfolding clean
find-clean_gone [] m v h = h
find-clean_gone (node ∷ rest) m v h = elim (Bool-cases (is_active m node.id)) [
  | inl e ↦ rw e h
  | inr e ↦ rw e (
      find-clean_gone rest _ v (elim (Bool-cases (is_cancelled m node.id)) [
        | inl c ↦ rw c (find-erase_gone m node.id.value v h)
        | inr c ↦ rw c h
      ]))
]

pub is_active-gone :
    (m : List (ℕ × Reservation)) (id : TimerId) → find m id.value ≡ none → is_active m id ≡ false
unfolding is_active
is_active-gone m id h = rw (h, is_active)

-- From `s` to `s'` no id comes back: an id without a reservation gets none, unless it is new.
pub record Follows (s s' : TimerCore) : Type 0 where
  pub later : s.next_id_value ≤ s'.next_id_value
  pub gone :
      (v : ℕ)
      → find s.reservations v ≡ none
      → (v < s.next_id_value) ⊎ (s'.next_id_value ≤ v)
      → find s'.reservations v ≡ none

pub Follows-refl : (s : TimerCore) → Follows s s
Follows-refl s = record { later = omega arith; gone = λ v h o. h }

pub Follows-trans : {s t u : TimerCore} → Follows s t → Follows t u → Follows s u
Follows-trans f g = record {
  later = omega (arith, f.later, g.later);
  gone = λ v h o. elim o [
    | inl old ↦ g.gone v (f.gone v h (inl old)) (inl (omega (arith, f.later)))
    | inr new ↦ g.gone v (f.gone v h (inr (omega (arith, g.later)))) (inr new)
  ];
}

-- A step that only takes reservations away.
pub Follows-drop :
    (s s' : TimerCore)
    → s'.next_id_value ≡ s.next_id_value
    → ((v : ℕ) → find s.reservations v ≡ none → find s'.reservations v ≡ none)
    → Follows s s'
Follows-drop s s' same gone = record { later = omega arith; gone = λ v h o. gone v h }
