-- ===== src/Runtime/Ring.antt =====
-- The bounded queue that bounded_worker_pool.cpp (src/runtime) and the mailboxes of loop_mailbox.cpp
-- (src/net) spell out in their members: a vector of slots, a head, a tail and a size.
use aegis_flow.Prelude.{
  ℕ, zero, suc, ◌+◌, ◌-◌, ◌%◌, ◌≡◌, Option, none, some, List, [], ◌∷◌, get_elem?, set, length,
  replicate,
}
pub mod Order

-- An empty slot is `nullptr` or `std::nullopt`. A vector has fewer than 2 ^ 64 slots, so no index
-- wraps around before the remainder is taken.
pub record Ring {ℓ} (A : Type ℓ) : Type ℓ where
  pub slots : List (Option A)
  pub head : ℕ
  pub tail : ℕ
  pub size : ℕ

module _ {ℓ} {A : Type ℓ} where
  abbrev pub new_ring : ℕ → Ring A
  new_ring capacity = record { slots = replicate capacity none; head = 0; tail = 0; size = 0 }

  -- What a slot holds; one out of range holds nothing.
  abbrev pub in_slot : Option (Option A) → Option A
  in_slot none = none
  in_slot (some o) = o

  abbrev pub slot : Ring A → ℕ → Option A
  slot r i = in_slot (get_elem? r.slots i)

  -- Into the slot at the tail.
  unfoldable pub put : Ring A → A → Ring A
  put r x = record r {
    slots = set r.slots r.tail (some x);
    tail = (r.tail + 1) % length r.slots;
    size = suc r.size;
  }

  -- After a `put` at index `tail`: the slot, the tail and the size are set back.
  unfoldable pub unput : Ring A → ℕ → Ring A
  unput r index = record r { slots = set r.slots index none; tail = index; size = r.size - 1 }

  abbrev pub front : Ring A → Option A
  front r = slot r r.head

  -- The slot at the head is emptied and the head moves on; the size is left to the caller.
  abbrev pub advance : Ring A → Ring A
  advance r = record r { slots = set r.slots r.head none; head = (r.head + 1) % length r.slots }

  -- Out of the slot at the head.
  unfoldable pub take_front : Ring A → Ring A
  take_front r = record (advance r) { size = r.size - 1 }
