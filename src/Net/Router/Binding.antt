-- ===== src/Net/Router/Binding.antt =====
-- What `bind` and `unbind` of completion_router.cpp (src/net) do to where completions go.
use aegis_flow.Prelude.{
  ℕ, zero, suc, ◌≤◌, ◌<◌, ◌≡◌, ◌≢◌, refl, sym, ap, subst, ◌∙◌, ◌⊎◌, inl, inr, Bool, true, false,
  not, none, some, List, [], ◌∷◌, arith, length, length-set, get_elem?, set, get_elem?-set_self,
  get_elem?-set_ne, ◌==◌, if◌then◌else◌, Bool-cases, Option-cases,
}
use aegis_flow.Net.Mailbox.Completions.{LoopMailbox}
use aegis_flow.Net.Router.{
  LoopSlot, CompletionRouter, Mailboxes, index_for, lock_some, current, bind_slot, bind, target,
}

-- What `bind` promises: a mailbox that is bound and alive stays; otherwise the new one gets the
-- completions of the loop; no other loop is touched.
pub record Binds (r : CompletionRouter) (boxes : Mailboxes) (loop_id mailbox : ℕ)
    (result : CompletionRouter × Bool) : Type 0 where
  pub refused : result.1 ≡ false → result.0 ≡ r
  pub kept : (name : ℕ) → target r boxes loop_id ≡ some name → result.0 ≡ r
  pub bound :
      (box : LoopMailbox)
      → boxes mailbox ≡ some box
      → result.1 ≡ true
      → target result.0 boxes loop_id ≡ some mailbox
  pub others : (other : ℕ) → other ≢ loop_id → target result.0 boxes other ≡ target r boxes other

-- The router with another slot at an index.
abbrev replaced : CompletionRouter → ℕ → LoopSlot → CompletionRouter
replaced r index slot = record r { loops = set r.loops index slot }

replaced-index :
    (r : CompletionRouter) (index : ℕ) (slot : LoopSlot) (loop_id : ℕ)
    → index_for (replaced r index slot) loop_id ≡ index_for r loop_id
replaced-index r index slot loop_id = rw (length-set r.loops index slot) refl

pub index_for-le : (r : CompletionRouter) (loop_id : ℕ) → index_for r loop_id ≤ length r.loops
index_for-le r loop_id = ground arith

index_for-eq :
    (r : CompletionRouter) (a b : ℕ)
    → index_for r a ≡ index_for r b
    → index_for r a < length r.loops
    → a ≡ b
index_for-eq r a b e h = ground (arith, e, h)

replaced-target_self :
    (r : CompletionRouter) (boxes : Mailboxes) (loop_id : ℕ) (slot : LoopSlot)
    → index_for r loop_id < length r.loops
    → target (replaced r (index_for r loop_id) slot) boxes loop_id ≡ current boxes slot
unfolding target
replaced-target_self r boxes loop_id slot h =
    let index = index_for r loop_id in
    let within : (index == length r.loops) ≡ false = ground (arith, h) in
    rw (length-set r.loops index slot, within, get_elem?-set_self r.loops index slot h) refl

replaced-target_other :
    (r : CompletionRouter) (boxes : Mailboxes) (loop_id other : ℕ) (slot : LoopSlot)
    → index_for r loop_id < length r.loops
    → other ≢ loop_id
    → target (replaced r (index_for r loop_id) slot) boxes other ≡ target r boxes other
unfolding target
replaced-target_other r boxes loop_id other slot h ne =
    let index = index_for r loop_id in
    let apart : index ≢ index_for r other = λ e. ne (sym (index_for-eq r loop_id other e h)) in
    rw (length-set r.loops index slot, get_elem?-set_ne r.loops slot apart) refl

none_is_some : {name : ℕ} → ¬ (none ≡ some name)
none_is_some e = ground arith

pub same : {A : Type 0} (n : ℕ) (x y : A) → (if n == n then x else y) ≡ x
same n x y = let e : (n == n) ≡ true = ground arith in rw e refl

pub differ : {A : Type 0} (n m : ℕ) (x y : A) → n ≢ m → (if n == m then x else y) ≡ y
differ n m x y ne = let e : (n == m) ≡ false = ground arith in rw e refl

not_bound :
    (r : CompletionRouter) (boxes : Mailboxes) (loop_id mailbox : ℕ)
    → Binds r boxes loop_id mailbox (r, false)
not_bound r boxes loop_id mailbox = record {
  refused = λ h. refl;
  kept = λ name h. refl;
  bound = λ box alive h. ground arith;
  others = λ other ne. refl;
}

some_at :
    (slots : List LoopSlot) (i : ℕ)
    → i < length slots
    → (slot : LoopSlot) × (get_elem? slots i ≡ some slot)
some_at [] i h = elim h [ ]
some_at (s ∷ slots) zero h = (s, refl)
some_at (s ∷ slots) (suc i) h = some_at slots i (omega arith)

-- The slot that a loop has.
pub slot_of :
    (r : CompletionRouter) (loop_id : ℕ)
    → (index_for r loop_id == length r.loops) ≡ false
    → (slot : LoopSlot) × (get_elem? r.loops (index_for r loop_id) ≡ some slot)
slot_of r loop_id e = some_at r.loops (index_for r loop_id) (ground (arith, index_for-le r loop_id))

bind_slot-Binds :
    (r : CompletionRouter) (boxes : Mailboxes) (loop_id mailbox : ℕ) (slot : LoopSlot)
    → index_for r loop_id < length r.loops
    → target r boxes loop_id ≡ current boxes slot
    → Binds r boxes loop_id mailbox
        (bind_slot r (index_for r loop_id) slot mailbox (current boxes slot))
bind_slot-Binds r boxes loop_id mailbox slot h here = elim (Option-cases (current boxes slot)) [
  | inl e ↦
      subst (λ o. Binds r boxes loop_id mailbox (bind_slot r (index_for r loop_id) slot mailbox o))
        (sym e)
        (record {
          refused = λ f. ground arith;
          kept = λ name t. absurd (none_is_some (sym e ∙ sym here ∙ t));
          bound = λ box alive t.
              replaced-target_self r boxes loop_id
                (record slot { mailbox = some mailbox; bound = true }) h
              ∙ ap (lock_some mailbox) alive;
          others = λ other ne.
              replaced-target_other r boxes loop_id other
                (record slot { mailbox = some mailbox; bound = true }) h ne;
        })
  | inr (name, e) ↦
      subst (λ o. Binds r boxes loop_id mailbox (bind_slot r (index_for r loop_id) slot mailbox o))
        (sym e)
        (record {
          refused = λ f. refl;
          kept = λ other t. refl;
          bound = λ box alive same. here ∙ e ∙ ap some (ground (arith, same));
          others = λ other ne. refl;
        })
]

bind-cases :
    (r : CompletionRouter) (boxes : Mailboxes) (loop_id mailbox : ℕ)
    → (bind r boxes loop_id (some mailbox) ≡ (r, false))
      ⊎ ((slot : LoopSlot) × (index_for r loop_id < length r.loops)
          × (target r boxes loop_id ≡ current boxes slot)
          × (bind r boxes loop_id (some mailbox)
              ≡ bind_slot r (index_for r loop_id) slot mailbox (current boxes slot)))
unfolding bind target
bind-cases r boxes loop_id mailbox = elim (Bool-cases (index_for r loop_id == length r.loops)) [
  | inl e ↦ inl (rw e refl)
  | inr e ↦
      let (slot, at) = slot_of r loop_id e in
      elim (Bool-cases r.accepting) [
        | inr f ↦ inl (
            rw (e, at)
              (ap
                (λ b.
                  if not b
                  then (r, false)
                  else bind_slot r (index_for r loop_id) slot mailbox (current boxes slot))
                f))
        | inl f ↦ inr (
          slot,
          ground (arith, index_for-le r loop_id),
          rw (e, at) refl,
          rw (e, at)
              (ap
                (λ b.
                  if not b
                  then (r, false)
                  else bind_slot r (index_for r loop_id) slot mailbox (current boxes slot))
                f),
        )
      ]
]

-- A successful `bind` sends the completions of the loop to its mailbox, one that is refused changes
-- nothing; a mailbox that is bound and alive stays; the other loops keep theirs.
pub bind-Binds :
    (r : CompletionRouter) (boxes : Mailboxes) (loop_id mailbox : ℕ)
    → Binds r boxes loop_id mailbox (bind r boxes loop_id (some mailbox))
bind-Binds r boxes loop_id mailbox = elim (bind-cases r boxes loop_id mailbox) [
  | inl e ↦ subst (Binds r boxes loop_id mailbox) (sym e) (not_bound r boxes loop_id mailbox)
  | inr (slot, h, here, e) ↦
      subst (Binds r boxes loop_id mailbox) (sym e)
        (bind_slot-Binds r boxes loop_id mailbox slot h here)
]
