-- ===== src/Timer/Core/Heap.antt =====
-- The heap of timer_core.cpp (src/timer): in the order of the deadlines, with a node for every
-- timer that is active and no longer waits as a command.
use aegis_flow.Prelude.{
  ℕ, ◌≤◌, ◌≡◌, refl, sym, ap, subst, ◌∙◌, inl, inr, Bool, true, false, ◌&&◌, ◌||◌, Option, none,
  some, List, [], ◌∷◌, ◌++◌, arith, ◌==◌, if◌then◌else◌, Bool-cases,
}
use aegis_flow.Timer.Types.{TimerId}
use aegis_flow.Timer.State.{
  Reservation, HeapNode, Command, schedule, stop, TimerCore, later_deadline, push, find, erase,
  cancel_all, active_in, is_active, is_cancelled,
}
use aegis_flow.Timer.Core.{process_command, process_all, clean}
use aegis_flow.Timer.Core.Reservations.{
  find-erase_self, find-erase_other, is_active-gone, find-cancel_all, cancelled_of,
}

-- No deadline is before `at`.
abbrev pub AllFrom : ℕ → List HeapNode → Type 0
AllFrom at [] = Unit
AllFrom at (node ∷ nodes) = (at ≤ node.deadline) × AllFrom at nodes

abbrev pub IsSorted : List HeapNode → Type 0
IsSorted [] = Unit
IsSorted (node ∷ nodes) = AllFrom node.deadline nodes × IsSorted nodes

pub AllFrom-le : {a b : ℕ} (nodes : List HeapNode) → a ≤ b → AllFrom b nodes → AllFrom a nodes
AllFrom-le [] l h = tt
AllFrom-le (node ∷ nodes) l h = (omega (arith, h.0), AllFrom-le nodes l h.1)

push-AllFrom :
    (at : ℕ) (node : HeapNode) (heap : List HeapNode)
    → at ≤ node.deadline
    → AllFrom at heap
    → AllFrom at (push node heap)
unfolding push
push-AllFrom at node [] l h = (l, tt)
push-AllFrom at node (top ∷ rest) l h = elim (Bool-cases (later_deadline node top)) [
  | inl e ↦ rw e (h.0, push-AllFrom at node rest l h.1)
  | inr e ↦ rw e (l, h)
]

later_deadline-le : (a b : HeapNode) → later_deadline a b ≡ true → b.deadline ≤ a.deadline
unfolding later_deadline
later_deadline-le a b h = ground arith

not_later-le : (a b : HeapNode) → later_deadline a b ≡ false → a.deadline ≤ b.deadline
unfolding later_deadline
not_later-le a b h = ground arith

pub push-IsSorted :
    (node : HeapNode) (heap : List HeapNode) → IsSorted heap → IsSorted (push node heap)
unfolding push
push-IsSorted node [] h = (tt, tt)
push-IsSorted node (top ∷ rest) h = elim (Bool-cases (later_deadline node top)) [
  | inl e ↦ rw e (
    push-AllFrom top.deadline node rest (later_deadline-le node top e) h.0,
    push-IsSorted node rest h.1,
  )
  | inr e ↦ let l = not_later-le node top e in rw e ((l, AllFrom-le rest l h.0), h)
]

pub clean-IsSorted :
    (heap : List HeapNode) (m : List (ℕ × Reservation)) → IsSorted heap → IsSorted (clean heap m).0
unfolding clean
clean-IsSorted [] m h = tt
clean-IsSorted (node ∷ rest) m h = elim (Bool-cases (is_active m node.id)) [
  | inl e ↦ rw e h
  | inr e ↦ rw e (clean-IsSorted rest _ h.1)
]

abbrev pub same_id : TimerId → TimerId → Bool
same_id a b = (a.value == b.value) && (a.generation == b.generation)

abbrev pub has_node : List HeapNode → TimerId → Bool
has_node [] id = false
has_node (node ∷ nodes) id = same_id node.id id || has_node nodes id

abbrev pub has_command : List Command → TimerId → Bool
has_command [] id = false
has_command (schedule node ∷ cs) id = same_id node.id id || has_command cs id
has_command (stop ∷ cs) id = has_command cs id

push-has_node :
    (node : HeapNode) (heap : List HeapNode) (id : TimerId)
    → has_node (push node heap) id ≡ same_id node.id id || has_node heap id
unfolding push
push-has_node node [] id = refl
push-has_node node (top ∷ rest) id = elim (Bool-cases (later_deadline node top)) [
  | inl e ↦ rw e (ground (arith, push-has_node node rest id))
  | inr e ↦ rw e
]

pub has_command-append :
    (xs ys : List Command) (id : TimerId)
    → has_command (xs ++ ys) id ≡ has_command xs id || has_command ys id
has_command-append [] ys id = refl
has_command-append (schedule node ∷ xs) ys id = ground (arith, has_command-append xs ys id)
has_command-append (stop ∷ xs) ys id = has_command-append xs ys id

same_id-eq : (a b : TimerId) → same_id a b ≡ true → a ≡ b
same_id-eq a b h =
    let value : a.value ≡ b.value = ground arith in
    let generation : a.generation ≡ b.generation = ground arith in
    λ i. record { value = value i; generation = generation i }

-- Every active timer has its node in the heap or waits as a command.
abbrev pub IsBacked : List Command → List HeapNode → List (ℕ × Reservation) → Type 0
IsBacked cs heap m =
    (id : TimerId) → is_active m id ≡ true → has_node heap id || has_command cs id ≡ true

pub find-active :
    (m m' : List (ℕ × Reservation)) (id : TimerId)
    → find m id.value ≡ find m' id.value
    → is_active m id ≡ is_active m' id
unfolding is_active
find-active m m' id h = ap (λ o. active_in o id.generation) h

pub erase-active :
    (m : List (ℕ × Reservation)) (v : ℕ) (id : TimerId)
    → is_active (erase m v) id ≡ true
    → (is_active m id ≡ true) × ((v == id.value) ≡ false)
erase-active m v id h = elim (Bool-cases (v == id.value)) [
  | inl e ↦
      let same : v ≡ id.value = ground arith in
      let off =
        is_active-gone (erase m v) id
          (ap (λ w. find (erase m w) id.value) same ∙ find-erase_self m id.value) in
      ground arith
  | inr e ↦ (sym (find-active _ _ id (find-erase_other m v id.value e)) ∙ h, e)
]

-- An active timer has another node than one that is not active.
inactive-ne :
    (m : List (ℕ × Reservation)) (node : HeapNode) (id : TimerId)
    → is_active m node.id ≡ false
    → is_active m id ≡ true
    → same_id node.id id ≡ false
inactive-ne m node id off on = elim (Bool-cases (same_id node.id id)) [
  | inl e ↦
      let k : is_active m node.id ≡ is_active m id = ap (is_active m) (same_id-eq node.id id e) in
      ground arith
  | inr e ↦ e
]

pub skip-IsBacked :
    (cs : List Command) (node : HeapNode) (rest : List HeapNode) (m : List (ℕ × Reservation))
    → is_active m node.id ≡ false
    → IsBacked cs (node ∷ rest) m
    → IsBacked cs rest m
skip-IsBacked cs node rest m off b id on = ground (arith, b id on, inactive-ne m node id off on)

pub erase-IsBacked :
    (cs : List Command) (heap : List HeapNode) (m : List (ℕ × Reservation)) (v : ℕ)
    → IsBacked cs heap m
    → IsBacked cs heap (erase m v)
erase-IsBacked cs heap m v b id on = b id (erase-active m v id on).0

pub clean-IsBacked :
    (cs : List Command) (heap : List HeapNode) (m : List (ℕ × Reservation))
    → IsBacked cs heap m
    → let (heap', m') = clean heap m in IsBacked cs heap' m'
unfolding clean
clean-IsBacked cs [] m b = b
clean-IsBacked cs (node ∷ rest) m b = elim (Bool-cases (is_active m node.id)) [
  | inl e ↦ rw e b
  | inr e ↦ rw e (
      clean-IsBacked cs rest _ (elim (Bool-cases (is_cancelled m node.id)) [
        | inl c ↦ rw c (erase-IsBacked cs rest m node.id.value (skip-IsBacked cs node rest m e b))
        | inr c ↦ rw c (skip-IsBacked cs node rest m e b)
      ]))
]

-- After the first command the rest backs what it backed.
push-IsBacked :
    (cs : List Command) (node : HeapNode) (heap : List HeapNode) (m : List (ℕ × Reservation))
    → IsBacked (schedule node ∷ cs) heap m
    → IsBacked cs (if is_active m node.id then push node heap else heap) m
push-IsBacked cs node heap m b = elim (Bool-cases (is_active m node.id)) [
  | inl e ↦ rw e (λ id on. ground (arith, b id on, push-has_node node heap id))
  | inr e ↦ rw e (λ id on. ground (arith, b id on, inactive-ne m node id e on))
]

cancelled_of-inactive :
    (o : Option Reservation) (generation : ℕ) → active_in (cancelled_of o) generation ≡ false
cancelled_of-inactive none generation = refl
cancelled_of-inactive (some r) generation = ground arith

cancel_all-inactive :
    (m : List (ℕ × Reservation)) (id : TimerId) → is_active (cancel_all m) id ≡ false
unfolding is_active
cancel_all-inactive m id =
    ap (λ o. active_in o id.generation) (find-cancel_all m id.value)
    ∙ cancelled_of-inactive (find m id.value) id.generation

-- Sorted, and backed by the commands that are left.
pub record IsKept (cs : List Command) (s : TimerCore) : Type 0 where
  pub sorted : IsSorted s.heap
  pub backed : IsBacked cs s.heap s.reservations

process_command-IsKept :
    (s : TimerCore) (c : Command) (cs : List Command)
    → IsKept (c ∷ cs) s
    → IsKept cs (process_command s c)
unfolding process_command
process_command-IsKept s (schedule node) cs k =
    elim (Bool-cases (is_active s.reservations node.id)) [
      | inl e ↦ rw e (record {
        sorted = push-IsSorted node s.heap k.sorted;
        backed =
            subst (λ b. IsBacked cs (if b then push node s.heap else s.heap) s.reservations) e
              (push-IsBacked cs node s.heap s.reservations k.backed);
      })
      | inr e ↦ rw e (record {
        sorted = k.sorted;
        backed =
            subst (λ b. IsBacked cs (if b then push node s.heap else s.heap) s.reservations) e
              (push-IsBacked cs node s.heap s.reservations k.backed);
      })
    ]
process_command-IsKept s stop cs k = record {
  sorted = k.sorted;
  backed = λ id on. let off = cancel_all-inactive s.reservations id in ground arith;
}

pub process_all-IsKept :
    (s : TimerCore) (cs : List Command) → IsKept cs s → IsKept [] (process_all s cs)
unfolding process_all
process_all-IsKept s [] k = k
process_all-IsKept s (c ∷ cs) k =
    process_all-IsKept (process_command s c) cs (process_command-IsKept s c cs k)
