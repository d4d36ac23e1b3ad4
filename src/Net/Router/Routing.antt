-- ===== src/Net/Router/Routing.antt =====
-- Where `tryRoute` of completion_router.cpp (src/net) takes a completion.
use aegis_flow.Prelude.{
  ℕ, zero, suc, ◌-◌, ◌≤◌, ◌<◌, ◌≡◌, ◌≢◌, refl, sym, ap, subst, ◌∙◌, ◌⊎◌, inl, inr, Bool, true,
  false, not, Option, none, some, List, [], ◌∷◌, arith, length, get_elem?, ◌==◌, if◌then◌else◌,
  Bool-cases,
}
use aegis_flow.Net.Completion.{BusinessCompletion, valid_completion}
use aegis_flow.Net.Mailbox.Wake.{WakeWrite}
use aegis_flow.Net.Mailbox.Completions.{LoopMailbox, try_post}
use aegis_flow.Net.Router.{
  LoopSlot, CompletionRouter, Mailboxes, index_for, lock_some, current, target, route, posted_to,
  try_route, lock, deliver,
}
use mathlib.Core.Option.{some-injective, none-ne-some}
use aegis_flow.Net.Router.Binding.{same, differ, slot_of}

get_elem?-lt :
    (slots : List LoopSlot) (i : ℕ) (slot : LoopSlot)
    → get_elem? slots i ≡ some slot
    → i < length slots
get_elem?-lt [] i slot h = absurd (none-ne-some slot h)
get_elem?-lt (s ∷ slots) zero slot h = omega arith
get_elem?-lt (s ∷ slots) (suc i) slot h = omega (arith, get_elem?-lt slots i slot h)

-- The slot is bound to a mailbox that is alive.
abbrev pub Holds : Mailboxes → LoopSlot → ℕ → LoopMailbox → Type 0
Holds boxes slot name box =
    (slot.bound ≡ true) × (slot.mailbox ≡ some name) × (boxes name ≡ some box)

-- The loop's slot, that many after the first loop's, is bound to a mailbox that is alive.
abbrev pub Serves : CompletionRouter → Mailboxes → ℕ → ℕ → LoopMailbox → Type 0
Serves r boxes loop_id name box =
    (r.first_loop_id ≤ loop_id)
    × ((slot : LoopSlot) × (get_elem? r.loops (loop_id - r.first_loop_id) ≡ some slot)
        × Holds boxes slot name box)

abbrev HoldsNone : Mailboxes → LoopSlot → Type 0
HoldsNone boxes slot = (name : ℕ) (box : LoopMailbox) → ¬ Holds boxes slot name box

abbrev pub ServesNone : CompletionRouter → Mailboxes → ℕ → Type 0
ServesNone r boxes loop_id = (name : ℕ) (box : LoopMailbox) → ¬ Serves r boxes loop_id name box

abbrev HeldBy : Mailboxes → LoopSlot → Option ℕ → Type 0
HeldBy boxes slot none = HoldsNone boxes slot
HeldBy boxes slot (some name) = (box : LoopMailbox) × Holds boxes slot name box

lock_some-HeldBy :
    (boxes : Mailboxes) (slot : LoopSlot) (name : ℕ) (o : Option LoopMailbox)
    → slot.bound ≡ true
    → slot.mailbox ≡ some name
    → boxes name ≡ o
    → HeldBy boxes slot (lock_some name o)
lock_some-HeldBy boxes slot name none on at alive = λ other box h.
    let same : name ≡ other = some-injective name other (sym at ∙ h.1) in
    none-ne-some box (sym alive ∙ ap boxes same ∙ h.2)
lock_some-HeldBy boxes slot name (some box) on at alive = (box, (on, at, alive))

lock-HeldBy :
    (boxes : Mailboxes) (slot : LoopSlot) (o : Option ℕ)
    → slot.bound ≡ true
    → slot.mailbox ≡ o
    → HeldBy boxes slot (lock boxes o)
lock-HeldBy boxes slot none on at = λ name box h. none-ne-some name (sym at ∙ h.1)
lock-HeldBy boxes slot (some name) on at = lock_some-HeldBy boxes slot name (boxes name) on at refl

current-HeldBy : (boxes : Mailboxes) (slot : LoopSlot) → HeldBy boxes slot (current boxes slot)
current-HeldBy boxes slot = elim (Bool-cases slot.bound) [
  | inl e ↦
      subst (λ b. HeldBy boxes slot (if b then lock boxes slot.mailbox else none)) (sym e)
        (lock-HeldBy boxes slot slot.mailbox e refl)
  | inr e ↦
      subst (λ b. HeldBy boxes slot (if b then lock boxes slot.mailbox else none)) (sym e)
        (λ name box h. true_not_false (sym h.0 ∙ e))
]
  where
    true_not_false : ¬ (true ≡ false)
    true_not_false e = ground arith

abbrev ServedBy : CompletionRouter → Mailboxes → ℕ → Option ℕ → Type 0
ServedBy r boxes loop_id none = ServesNone r boxes loop_id
ServedBy r boxes loop_id (some name) = (box : LoopMailbox) × Serves r boxes loop_id name box

slot-ServedBy :
    (r : CompletionRouter) (boxes : Mailboxes) (loop_id : ℕ) (slot : LoopSlot) (o : Option ℕ)
    → r.first_loop_id ≤ loop_id
    → get_elem? r.loops (loop_id - r.first_loop_id) ≡ some slot
    → HeldBy boxes slot o
    → ServedBy r boxes loop_id o
slot-ServedBy r boxes loop_id slot none le at h = λ name box served. h name box (
    subst (λ s. Holds boxes s name box) (some-injective served.1.0 slot (sym served.1.1 ∙ at))
      served.1.2)
slot-ServedBy r boxes loop_id slot (some name) le at h = (h.0, (le, (slot, at, h.1)))

target-ServedBy :
    (r : CompletionRouter) (boxes : Mailboxes) (loop_id : ℕ)
    → ServedBy r boxes loop_id (target r boxes loop_id)
unfolding target
target-ServedBy r boxes loop_id = elim (Bool-cases (index_for r loop_id == length r.loops)) [
  | inl e ↦ rw e (λ name box served.
      let within = get_elem?-lt r.loops (loop_id - r.first_loop_id) served.1.0 served.1.1 in
      ground (arith, within, served.0))
  | inr e ↦
      let (slot, at) = slot_of r loop_id e in
      let le : r.first_loop_id ≤ loop_id = ground arith in
      let same : index_for r loop_id ≡ loop_id - r.first_loop_id = ground arith in
      rw (e, at)
        (slot-ServedBy r boxes loop_id slot (current boxes slot) le
          (ap (get_elem? r.loops) (sym same) ∙ at) (current-HeldBy boxes slot))
]

-- What becomes of the mailboxes: a completion that is valid, while the router accepts, is posted to
-- the mailbox that serves its loop and to no other; any other completion changes nothing.
abbrev pub Routes :
    CompletionRouter → Mailboxes → BusinessCompletion → WakeWrite → Mailboxes → Type 0
Routes r boxes c wake boxes' =
    ((valid_completion c ≡ true)
      × (r.accepting ≡ true)
      × ((name : ℕ) × (box : LoopMailbox) × Serves r boxes c.token.loop_id name box
          × (boxes' name ≡ some (try_post box c wake).0)
          × ((other : ℕ) → other ≢ name → boxes' other ≡ boxes other)))
    ⊎ ((boxes' ≡ boxes)
        × ((valid_completion c ≡ false)
            ⊎ (r.accepting ≡ false)
            ⊎ ServesNone r boxes c.token.loop_id))

deliver-Routes :
    (r : CompletionRouter) (boxes : Mailboxes) (c : BusinessCompletion) (wake : WakeWrite)
    (o : Option ℕ)
    → valid_completion c ≡ true
    → r.accepting ≡ true
    → ServedBy r boxes c.token.loop_id o
    → Routes r boxes c wake (deliver boxes c wake o)
deliver-Routes r boxes c wake none good opened h = inr (refl, inr (inr h))
deliver-Routes r boxes c wake (some name) good opened h = inl (
  good,
  opened,
  (
    name,
    h.0,
    h.1,
    same name (posted_to c wake (boxes name)) (boxes name) ∙ ap (posted_to c wake) h.1.1.2.2,
    λ other ne. differ other name (posted_to c wake (boxes other)) (boxes other) ne,
  ),
)

-- A completion that is valid goes, while the router accepts, to the mailbox that is alive and bound
-- to the slot of its loop, which is as far from the first slot as the loop's number is from the
-- first; it is posted there and no other mailbox is touched. Where there is no such mailbox, the
-- router is closed or the completion is not valid, no mailbox is touched.
pub try_route-Routes :
    (r : CompletionRouter) (boxes : Mailboxes) (c : BusinessCompletion) (wake : WakeWrite)
    → Routes r boxes c wake (try_route r boxes c wake)
unfolding try_route route
try_route-Routes r boxes c wake = elim (Bool-cases (valid_completion c)) [
  | inr e ↦
      subst (λ b. Routes r boxes c wake (deliver boxes c wake (routed b r.accepting))) (sym e)
        (inr (refl, inl e))
  | inl e ↦ elim (Bool-cases r.accepting) [
    | inr f ↦
        subst (λ b. Routes r boxes c wake (deliver boxes c wake (routed b r.accepting))) (sym e)
          (subst (λ b. Routes r boxes c wake (deliver boxes c wake (routed true b))) (sym f)
            (inr (refl, inr (inl f))))
    | inl f ↦
        subst (λ b. Routes r boxes c wake (deliver boxes c wake (routed b r.accepting))) (sym e)
          (subst (λ b. Routes r boxes c wake (deliver boxes c wake (routed true b))) (sym f)
            (deliver-Routes r boxes c wake (target r boxes c.token.loop_id) e f
              (target-ServedBy r boxes c.token.loop_id)))
  ]
]
  where
    routed : Bool → Bool → Option ℕ
    routed good opened =
        if not good then none else if not opened then none else target r boxes c.token.loop_id
