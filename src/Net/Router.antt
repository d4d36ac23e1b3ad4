-- ===== src/Net/Router.antt =====
-- `CompletionRouter` of completion_router.cpp (src/net): it hands completions to the mailbox of their
-- loop.
use aegis_flow.Prelude.{
  ℕ, zero, suc, ◌+◌, ◌-◌, ◌%◌, ◌^◌, Bool, true, false, not, ◌&&◌, ◌||◌, Option, none, some, List,
  [], ◌∷◌, length, get_elem?, set, ltb, leb, ◌==◌, if◌then◌else◌, u32_max,
}
use aegis_flow.Net.Completion.{BusinessCompletion, valid_completion}
use aegis_flow.Net.Mailbox.Wake.{WakeWrite}
use aegis_flow.Net.Mailbox.Completions.{LoopMailbox, try_post}
pub mod Binding
pub mod Routing

-- A mailbox has a number; a slot's weak pointer is the number, or `none` when it is reset.
pub record LoopSlot : Type 0 where
  pub loop_id : ℕ
  pub mailbox : Option ℕ
  pub bound : Bool

pub record CompletionRouter : Type 0 where
  pub loops : List LoopSlot
  pub first_loop_id : ℕ
  pub accepting : Bool

-- The mailboxes that are alive.
abbrev pub Mailboxes : Type 0
Mailboxes = ℕ → Option LoopMailbox

abbrev pub slots_from : ℕ → ℕ → List LoopSlot
slots_from first zero = []
slots_from first (suc count) =
    record { loop_id = first % 2 ^ 32; mailbox = none; bound = false }
    ∷ slots_from (first + 1) count

-- `first_id` has 32 bits.
unfoldable pub new_router : ℕ → ℕ → Option CompletionRouter
new_router first_id count =
    if (count == 0) || ltb (u32_max - first_id + 1) count
    then none
    else some
        (record { loops = slots_from first_id count; first_loop_id = first_id; accepting = true })

abbrev pub index_for : CompletionRouter → ℕ → ℕ
index_for r loop_id =
    if ltb loop_id r.first_loop_id
    then length r.loops
    else if leb (length r.loops) (loop_id - r.first_loop_id)
    then length r.loops
    else loop_id - r.first_loop_id

-- `lock` of a weak pointer.
abbrev pub lock_some : ℕ → Option LoopMailbox → Option ℕ
lock_some name none = none
lock_some name (some box) = some name

abbrev pub lock : Mailboxes → Option ℕ → Option ℕ
lock boxes none = none
lock boxes (some name) = lock_some name (boxes name)

-- The mailbox that is bound to a slot and alive.
abbrev pub current : Mailboxes → LoopSlot → Option ℕ
current boxes slot = if slot.bound then lock boxes slot.mailbox else none

abbrev pub bind_slot : CompletionRouter → ℕ → LoopSlot → ℕ → Option ℕ → CompletionRouter × Bool
bind_slot r index slot mailbox (some other) = (r, other == mailbox)
bind_slot r index slot mailbox none = (
  record r { loops = set r.loops index (record slot { mailbox = some mailbox; bound = true }) },
  true,
)

-- The slot at an index within the range.
abbrev pub with_slot {ℓ} : {A : Type ℓ} → Option LoopSlot → A → (LoopSlot → A) → A
with_slot none missing f = missing
with_slot (some slot) missing f = f slot

unfoldable pub bind : CompletionRouter → Mailboxes → ℕ → Option ℕ → CompletionRouter × Bool
bind r boxes loop_id none = (r, false)
bind r boxes loop_id (some mailbox) =
    let index = index_for r loop_id in
    if index == length r.loops
    then (r, false)
    else if not r.accepting
    then (r, false)
    else with_slot (get_elem? r.loops index) (r, false)
        (λ slot. bind_slot r index slot mailbox (current boxes slot))

abbrev pub is_other : Option ℕ → ℕ → Bool
is_other none expected = false
is_other (some name) expected = not (name == expected)

unfoldable pub unbind : CompletionRouter → Mailboxes → ℕ → Option ℕ → CompletionRouter
unbind r boxes loop_id none = r
unbind r boxes loop_id (some expected) =
    let index = index_for r loop_id in
    if index == length r.loops
    then r
    else with_slot (get_elem? r.loops index) r (λ slot.
      if not slot.bound
      then r
      else if is_other (lock boxes slot.mailbox) expected
      then r
      else record r { loops = set r.loops index (record slot { mailbox = none; bound = false }) })

-- The mailbox that is bound to a loop.
unfoldable pub target : CompletionRouter → Mailboxes → ℕ → Option ℕ
target r boxes loop_id =
    let index = index_for r loop_id in
    if index == length r.loops
    then none
    else with_slot (get_elem? r.loops index) none (λ slot. current boxes slot)

-- The mailbox that a completion is posted to.
unfoldable pub route : CompletionRouter → Mailboxes → BusinessCompletion → Option ℕ
unfolding target valid_completion
route r boxes completion =
    if not (valid_completion completion)
    then none
    else if not r.accepting
    then none
    else target r boxes completion.token.loop_id

abbrev pub posted_to : BusinessCompletion → WakeWrite → Option LoopMailbox → Option LoopMailbox
posted_to completion wake none = none
posted_to completion wake (some box) = some (try_post box completion wake).0

abbrev pub deliver : Mailboxes → BusinessCompletion → WakeWrite → Option ℕ → Mailboxes
deliver boxes completion wake none = boxes
deliver boxes completion wake (some name) =
    λ other. if other == name then posted_to completion wake (boxes other) else boxes other

unfoldable pub try_route : CompletionRouter → Mailboxes → BusinessCompletion → WakeWrite → Mailboxes
unfolding route
try_route r boxes completion wake = deliver boxes completion wake (route r boxes completion)

unfoldable pub close : CompletionRouter → CompletionRouter
close r = record r { accepting = false }
