-- ===== src/Runtime/Ring/Order.antt =====
-- The ring of bounded_worker_pool.cpp and loop_mailbox.cpp is a queue: first in, first out.
use aegis_flow.Prelude.{
  ℕ, zero, suc, ◌+◌, ◌-◌, ◌%◌, ◌≤◌, ◌<◌, ◌≡◌, ◌≢◌, refl, sym, ap, subst, ◌∙◌, inl, inr, Option,
  none, some, List, [], ◌∷◌, ◌++◌, arith, ltb, if◌then◌else◌, Bool-cases, get_elem?, set, length,
  length-set, length-append, length-replicate, get_elem?-set_self, get_elem?-set_ne,
}
use native.Mathlib.Nat.{mod_self, mod-eq_of_lt}
use aegis_flow.Runtime.Ring.{Ring, in_slot, new_ring, put, unput, front, take_front}

-- An index of two rounds, brought back into the first.
abbrev pub wrap : ℕ → ℕ → ℕ
wrap n a = if ltb a n then a else a - n

next-wrap : (n a : ℕ) → a < n → (a + 1) % n ≡ wrap n (a + 1)
next-wrap n a h = elim (Bool-cases (ltb (a + 1) n)) [
  | inl e ↦ rw e (mod-eq_of_lt (ground arith))
  | inr e ↦ let full : a + 1 ≡ n = ground arith in rw (e, full) (mod_self n ∙ omega arith)
]

tail_away :
    (n head len i : ℕ) → head < n → i < len → len < n → wrap n (head + len) ≢ wrap n (head + i)
tail_away n head len i h short room = ground arith

head_away :
    (n head i : ℕ) → head < n → suc i < n + 1 → suc i < n → head ≢ wrap n (wrap n (head + 1) + i)
head_away n head i h room short = ground arith

wrap-suc :
    (n head len tail : ℕ)
    → head < n
    → len < n
    → tail ≡ wrap n (head + len)
    → wrap n (tail + 1) ≡ wrap n (head + (len + 1))
wrap-suc n head len tail h room at = ground (arith, at)

wrap-wrap :
    (n head i : ℕ) → head < n → i < n → wrap n (wrap n (head + 1) + i) ≡ wrap n (head + suc i)
wrap-wrap n head i h short = ground arith

wrap_fits : (n a : ℕ) → a < n + n → wrap n a < n
wrap_fits n a h = ground arith

module _ {ℓ} {A : Type ℓ} where
  -- The slots from the index `a` on hold the elements in order.
  abbrev pub HoldsFrom : List (Option A) → ℕ → List A → Type ℓ
  HoldsFrom slots a xs =
      (i : ℕ)
      → i < length xs
      → in_slot (get_elem? slots (wrap (length slots) (a + i))) ≡ get_elem? xs i

  -- The ring is the queue of these elements, the oldest first.
  pub record Holds (r : Ring A) (xs : List A) : Type ℓ where
    pub some_slots : 0 < length r.slots
    pub head_fits : r.head < length r.slots
    pub fits : length xs ≤ length r.slots
    pub sized : r.size ≡ length xs
    pub tail_at : r.tail ≡ wrap (length r.slots) (r.head + length xs)
    pub held : HoldsFrom r.slots r.head xs

  get_elem?-append_left :
      (xs ys : List A) (i : ℕ) → i < length xs → get_elem? (xs ++ ys) i ≡ get_elem? xs i
  get_elem?-append_left [] ys i h = elim h [ ]
  get_elem?-append_left (x ∷ xs) ys zero h = refl
  get_elem?-append_left (x ∷ xs) ys (suc i) h = get_elem?-append_left xs ys i (omega arith)

  get_elem?-append_last : (xs : List A) (y : A) → get_elem? (xs ++ (y ∷ [])) (length xs) ≡ some y
  get_elem?-append_last [] y = refl
  get_elem?-append_last (x ∷ xs) y = get_elem?-append_last xs y

  -- A write outside of the held slots changes none of them.
  HoldsFrom-set :
      (slots : List (Option A)) (a index : ℕ) (o : Option A) (xs : List A)
      → ((i : ℕ) → i < length xs → index ≢ wrap (length slots) (a + i))
      → HoldsFrom slots a xs
      → HoldsFrom (set slots index o) a xs
  HoldsFrom-set slots a index o xs away held i h =
      ap (λ n. in_slot (get_elem? (set slots index o) (wrap n (a + i)))) (length-set slots index o)
      ∙ ap in_slot (get_elem?-set_ne slots o (away i h))
      ∙ held i h

  pub new_ring-Holds : (capacity : ℕ) → 0 < capacity → Holds (new_ring {A = A} capacity) []
  new_ring-Holds capacity h =
      let len = length-replicate {A = Option A} capacity none in
      record {
        some_slots = omega (arith, len);
        head_fits = omega (arith, len);
        fits = omega arith;
        sized = refl;
        tail_at = ground (arith, len);
        held = λ i short. elim short [ ];
      }

  put-held :
      (r : Ring A) (x : A) (xs : List A)
      → Holds r xs
      → r.size < length r.slots
      → HoldsFrom (set r.slots r.tail (some x)) r.head (xs ++ (x ∷ []))
  put-held r x xs k room i short = elim (Bool-cases (ltb i (length xs))) [
    | inl e ↦
        let old : i < length xs = ground arith in
        HoldsFrom-set r.slots r.head r.tail (some x) xs
          (λ j h.
            subst (λ t. t ≢ wrap (length r.slots) (r.head + j)) (sym k.tail_at)
              (tail_away (length r.slots) r.head (length xs) j k.head_fits h
                (omega (arith, k.sized))))
          k.held i old
        ∙ sym (get_elem?-append_left xs (x ∷ []) i old)
    | inr e ↦
        let last : i ≡ length xs = ground (arith, length-append xs (x ∷ [])) in
        let here : wrap (length (set r.slots r.tail (some x))) (r.head + i) ≡ r.tail =
          rw (length-set r.slots r.tail (some x), last) (sym k.tail_at) in
        let tail_fits : r.tail < length r.slots =
          ground (arith, k.tail_at, k.head_fits, k.fits, k.sized) in
        ap (λ j. in_slot (get_elem? (set r.slots r.tail (some x)) j)) here
        ∙ ap in_slot (get_elem?-set_self r.slots r.tail (some x) tail_fits)
        ∙ sym (get_elem?-append_last xs x)
        ∙ ap (get_elem? (xs ++ (x ∷ []))) (sym last)
  ]

  -- What is put comes last.
  pub put-Holds :
      (r : Ring A) (x : A) (xs : List A)
      → Holds r xs
      → r.size < length r.slots
      → Holds (put r x) (xs ++ (x ∷ []))
  unfolding put
  put-Holds r x xs k room =
      let n = length r.slots in
      let len = length-set r.slots r.tail (some x) in
      let more = length-append xs (x ∷ []) in
      let tail_fits : r.tail < n = ground (arith, k.tail_at, k.head_fits, k.fits, k.sized) in
      record {
        some_slots = omega (arith, len, k.some_slots);
        head_fits = omega (arith, len, k.head_fits);
        fits = omega (arith, len, more, k.sized);
        sized = omega (arith, k.sized, more);
        tail_at =
            next-wrap n r.tail tail_fits
            ∙ wrap-suc n r.head (length xs) r.tail k.head_fits (omega (arith, k.sized)) k.tail_at
            ∙ sym (rw (len, more) refl);
        held = put-held r x xs k room;
      }

  take_front-held :
      (r : Ring A) (x : A) (xs : List A)
      → Holds r (x ∷ xs)
      → HoldsFrom (set r.slots r.head none) ((r.head + 1) % length r.slots) xs
  take_front-held r x xs k =
      let n = length r.slots in
      subst (λ a. HoldsFrom (set r.slots r.head none) a xs) (sym (next-wrap n r.head k.head_fits))
        (HoldsFrom-set r.slots (wrap n (r.head + 1)) r.head none xs
          (λ i h. head_away n r.head i k.head_fits (omega (arith, k.fits)) (omega (arith, k.fits)))
          (λ i h.
            ap (λ j. in_slot (get_elem? r.slots j))
              (wrap-wrap n r.head i k.head_fits (omega (arith, k.fits)))
            ∙ k.held (suc i) (omega arith)))

  -- The front is the oldest, and goes first.
  pub take_front-Holds :
      (r : Ring A) (x : A) (xs : List A)
      → Holds r (x ∷ xs)
      → (front r ≡ some x) × Holds (take_front r) xs
  unfolding take_front
  take_front-Holds r x xs k =
      let n = length r.slots in
      let len = length-set r.slots r.head none in
      let next = next-wrap n r.head k.head_fits in
      let wrapped = wrap_fits n (r.head + 1) (omega (arith, k.head_fits)) in
      let first = k.held 0 (omega arith) in
      (
        ap (λ j. in_slot (get_elem? r.slots j)) (ground (arith, k.head_fits)) ∙ first,
        record {
          some_slots = omega (arith, len, k.some_slots);
          head_fits = rw (len, next) wrapped;
          fits = omega (arith, len, k.fits);
          sized = omega (arith, k.sized);
          tail_at =
              k.tail_at
              ∙ sym (
                  rw (len, next)
                    (wrap-wrap n r.head (length xs) k.head_fits (omega (arith, k.fits))));
          held = take_front-held r x xs k;
        },
      )

  -- What was put last is taken back as if it had not been put.
  pub unput-Holds :
      (r : Ring A) (x : A) (xs : List A)
      → Holds r xs
      → r.size < length r.slots
      → Holds (unput (put r x) r.tail) xs
  unfolding put unput
  unput-Holds r x xs k room =
      let n = length r.slots in
      let len = length-set r.slots r.tail (some x) in
      let len2 = length-set (set r.slots r.tail (some x)) r.tail none in
      let away : (j : ℕ) → j < length xs → r.tail ≢ wrap n (r.head + j) = λ j h.
        subst (λ t. t ≢ wrap n (r.head + j)) (sym k.tail_at)
          (tail_away n r.head (length xs) j k.head_fits h (omega (arith, k.sized))) in
      record {
        some_slots = omega (arith, len, len2, k.some_slots);
        head_fits = omega (arith, len, len2, k.head_fits);
        fits = omega (arith, len, len2, k.fits);
        sized = omega (arith, k.sized);
        tail_at = k.tail_at ∙ sym (rw (len2, len) refl);
        held =
            HoldsFrom-set (set r.slots r.tail (some x)) r.head r.tail none xs
              (λ j h. subst (λ m. r.tail ≢ wrap m (r.head + j)) (sym len) (away j h))
              (HoldsFrom-set r.slots r.head r.tail (some x) xs away k.held);
      }
