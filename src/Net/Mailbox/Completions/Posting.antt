-- ===== src/Net/Mailbox/Completions/Posting.antt =====
-- `LoopMailbox` of loop_mailbox.cpp (src/net) is a bounded queue of completions.
use aegis_flow.Prelude.{
  ℕ, suc, zero, ◌+◌, ◌^◌, ◌≤◌, ◌<◌, ◌≡◌, refl, sym, ap, subst, ◌⊎◌, inl, inr, Bool, true, false,
  ◌&&◌, none, some, List, [], ◌∷◌, ◌++◌, arith, length, ltb, leb, ◌==◌, if◌then◌else◌, Bool-cases,
  sub_size,
}
use aegis_flow.Runtime.Ring.{front}
use aegis_flow.Runtime.Ring.Order.{Holds, put-Holds, unput-Holds, take_front-Holds}
use aegis_flow.Net.Completion.{BusinessCompletion, valid_completion}
use aegis_flow.Net.Mailbox.Wake.{WakeWrite, signal_wake_fd}
use aegis_flow.Net.Mailbox.Completions.{
  LoopMailbox, completion_bytes, inserted, rolled_back, try_post, front_bytes, popped, try_pop,
  clear, close,
}

abbrev pub total_bytes : List BusinessCompletion → ℕ
total_bytes [] = 0
total_bytes (c ∷ cs) = completion_bytes c + total_bytes cs

-- The mailbox is the queue of these completions, and its bytes are theirs, within the capacity.
pub record IsKept (m : LoopMailbox) (cs : List BusinessCompletion) : Type 0 where
  pub holds : Holds m.queue cs
  pub counted : m.buffered_bytes ≡ total_bytes cs
  pub within : total_bytes cs ≤ m.byte_capacity
  pub room : m.byte_capacity < 2 ^ 64

-- When a completion is taken in: what the queue says of it.
abbrev pub admits : LoopMailbox → List BusinessCompletion → BusinessCompletion → WakeWrite → Bool
admits m cs c wake =
    valid_completion c
    && leb (completion_bytes c) m.max_completion_bytes
    && m.accepting
    && ltb (length cs) (length m.queue.slots)
    && leb (total_bytes cs + completion_bytes c) m.byte_capacity
    && signal_wake_fd wake

pub total_bytes-append :
    (xs ys : List BusinessCompletion) → total_bytes (xs ++ ys) ≡ total_bytes xs + total_bytes ys
total_bytes-append [] ys = omega arith
total_bytes-append (x ∷ xs) ys = omega (arith, total_bytes-append xs ys)

-- The mailbox has a free slot and room for the bytes.
record HasRoom (m : LoopMailbox) (c : BusinessCompletion) : Type 0 where
  free : (m.queue.size == length m.queue.slots) ≡ false
  bytes : completion_bytes c ≤ sub_size m.byte_capacity m.buffered_bytes

try_post-cases :
    (m : LoopMailbox) (c : BusinessCompletion) (wake : WakeWrite)
    → (try_post m c wake ≡ (m, false))
      ⊎ (HasRoom m c
          × ((try_post m c wake ≡ (inserted m c, true))
              ⊎ (try_post m c wake ≡ (rolled_back (inserted m c) m.queue.tail c, false))))
unfolding try_post
try_post-cases m c wake = elim (Bool-cases (valid_completion c)) [
  | inr e ↦ inl (rw e refl)
  | inl e ↦ elim (Bool-cases (ltb m.max_completion_bytes (completion_bytes c))) [
    | inl f ↦ inl (rw (e, f) refl)
    | inr f ↦ elim (Bool-cases m.accepting) [
      | inr g ↦ inl (rw (e, f, g) refl)
      | inl g ↦ elim (Bool-cases (m.queue.size == length m.queue.slots)) [
        | inl h ↦ inl (rw (e, f, g, h) refl)
        | inr h ↦
            elim (Bool-cases
              (ltb (sub_size m.byte_capacity m.buffered_bytes) (completion_bytes c))) [
                | inl i ↦ inl (rw (e, f, g, h, i) refl)
                | inr i ↦ inr (
                  record { free = h; bytes = ground arith },
                  elim (Bool-cases (signal_wake_fd wake)) [
                    | inl j ↦ inl (rw (e, f, g, h, i, j) refl)
                    | inr j ↦ inr (rw (e, f, g, h, i, j) refl)
                  ],
                )
              ]
      ]
    ]
  ]
]

inserted-IsKept :
    (m : LoopMailbox) (c : BusinessCompletion) (cs : List BusinessCompletion)
    → HasRoom m c
    → IsKept m cs
    → IsKept (inserted m c) (cs ++ (c ∷ []))
inserted-IsKept m c cs space k =
    let more = total_bytes-append cs (c ∷ []) in
    record {
      holds =
          put-Holds m.queue c cs k.holds (ground (arith, space.free, k.holds.sized, k.holds.fits));
      counted = omega (arith, more, k.counted, k.within, k.room, space.bytes);
      within = omega (arith, more, k.counted, k.within, k.room, space.bytes);
      room = k.room;
    }

rolled_back-IsKept :
    (m : LoopMailbox) (c : BusinessCompletion) (cs : List BusinessCompletion)
    → HasRoom m c
    → IsKept m cs
    → IsKept (rolled_back (inserted m c) m.queue.tail c) cs
rolled_back-IsKept m c cs space k = record {
  holds =
      unput-Holds m.queue c cs k.holds (ground (arith, space.free, k.holds.sized, k.holds.fits));
  counted = omega (arith, k.counted, k.within, k.room, space.bytes);
  within = k.within;
  room = k.room;
}

-- The queue after a call of `tryPost`.
abbrev pub KeptAfter : List BusinessCompletion → BusinessCompletion → LoopMailbox × Bool → Type 0
KeptAfter cs c (m, posted) = IsKept m (if posted then cs ++ (c ∷ []) else cs)

-- `tryPost` takes a completion in exactly if it is valid and not too large, the mailbox is open and
-- has a slot and the bytes for it, and the loop can be woken; then it comes last, and otherwise the
-- queue is as it was.
pub try_post-refines :
    (m : LoopMailbox) (c : BusinessCompletion) (cs : List BusinessCompletion) (wake : WakeWrite)
    → IsKept m cs
    → ((try_post m c wake).1 ≡ admits m cs c wake) × KeptAfter cs c (try_post m c wake)
unfolding try_post
try_post-refines m c cs wake k = (
  ground (arith, k.holds.sized, k.holds.fits, k.counted, k.within, k.room),
  elim (try_post-cases m c wake) [
    | inl e ↦ subst (KeptAfter cs c) (sym e) k
    | inr (space, inl e) ↦ subst (KeptAfter cs c) (sym e) (inserted-IsKept m c cs space k)
    | inr (space, inr e) ↦ subst (KeptAfter cs c) (sym e) (rolled_back-IsKept m c cs space k)
  ],
)

pub popped-IsKept :
    (m : LoopMailbox) (c : BusinessCompletion) (cs : List BusinessCompletion)
    → IsKept m (c ∷ cs)
    → (front m.queue ≡ some c) × IsKept (popped m) cs
unfolding popped
popped-IsKept m c cs k =
    let (first, rest) = take_front-Holds m.queue c cs k.holds in
    (
      first,
      record {
        holds = rest;
        counted = omega (arith, ap front_bytes first, k.counted, k.within, k.room);
        within = omega (arith, k.within);
        room = k.room;
      },
    )

-- `tryPop` hands out the oldest completion, if there is one.
pub try_pop-refines :
    (m : LoopMailbox) (c : BusinessCompletion) (cs : List BusinessCompletion)
    → IsKept m (c ∷ cs)
    → ((try_pop m).1 ≡ some c) × IsKept (try_pop m).0 cs
unfolding try_pop
try_pop-refines m c cs k =
    let some_there : (m.queue.size == 0) ≡ false = ground (arith, k.holds.sized) in
    rw some_there (popped-IsKept m c cs k)

pub try_pop_empty : (m : LoopMailbox) → IsKept m [] → try_pop m ≡ (m, none)
unfolding try_pop
try_pop_empty m k = let none_there : m.queue.size ≡ 0 = k.holds.sized in rw none_there refl

clear-IsKept :
    (m : LoopMailbox) (cs : List BusinessCompletion) → IsKept m cs → IsKept (clear (length cs) m) []
unfolding clear
clear-IsKept m [] k = k
clear-IsKept m (c ∷ cs) k = clear-IsKept (popped m) cs (popped-IsKept m c cs k).1

clear_closed : (n : ℕ) (m : LoopMailbox) → (clear n m).accepting ≡ m.accepting
unfolding clear popped
clear_closed zero m = refl
clear_closed (suc n) m = clear_closed n (popped m)

-- A closed mailbox is empty.
pub close-IsKept :
    (m : LoopMailbox) (cs : List BusinessCompletion)
    → IsKept m cs
    → IsKept (close m) [] × ((close m).accepting ≡ false)
unfolding close
close-IsKept m cs k = rw k.holds.sized (
    let shut : LoopMailbox = record m {
      queue = record m.queue { size = length cs };
      accepting = false;
    } in
    let kept : IsKept shut cs = record {
      holds = subst (λ n. Holds (record m.queue { size = n }) cs) k.holds.sized k.holds;
      counted = k.counted;
      within = k.within;
      room = k.room;
    } in
    let empty = clear-IsKept shut cs kept in
    (
      record {
        holds = record {
          some_slots = empty.holds.some_slots;
          head_fits = empty.holds.head_fits;
          fits = empty.holds.fits;
          sized = empty.holds.sized;
          tail_at = ground (arith, empty.holds.head_fits);
          held = empty.holds.held;
        };
        counted = refl;
        within = omega arith;
        room = empty.room;
      },
      clear_closed (length cs) shut,
    ))
