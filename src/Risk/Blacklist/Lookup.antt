-- ===== src/Risk/Blacklist/Lookup.antt =====
-- What a published blacklist (blacklist_manager.cpp, blacklist_snapshot.cpp in src/risk) answers.
use aegis_flow.Prelude.{
  ℕ, ◌≤◌, ◌≡◌, refl, sym, ◌∙◌, inl, inr, Bool, true, false, not, ◌&&◌, ◌||◌, Option, none, some,
  List, [], ◌∷◌, Bytes, ◌==ᵇ◌, bytes_eq_sym, bytes_eq_trans, arith, ltb, ◌==◌, Bool-cases,
  Option-cases,
}
use aegis_flow.Risk.Types.{EntityType, user, ip, device, BlacklistEntry}
use aegis_flow.Risk.Blacklist.{
  EntryMap, find, BlacklistSnapshot, is_empty, contains, snapshot_matches, later, merge_expiry,
  is_expired, merge_into, add_entry, add_entries, count_entries, empty_snapshot, prepare_candidate,
  BlacklistManager, publish, manager_matches,
}

-- An expiry in force at a time: permanent, or later.
abbrev pub in_force : ℕ → ℕ → Bool
in_force expire_at_ms now_ms = (expire_at_ms == 0) || ltb now_ms expire_at_ms

abbrev same_type : EntityType → EntityType → Bool
same_type user user = true
same_type ip ip = true
same_type device device = true
same_type _ _ = false

abbrev pub concerns : BlacklistEntry → EntityType → Bytes → ℕ → Bool
concerns e type id now_ms = same_type e.type type && (e.id ==ᵇ id) && in_force e.expire_at_ms now_ms

-- Some entry of the list names the entity and is in force.
abbrev pub is_listed : List BlacklistEntry → EntityType → Bytes → ℕ → Bool
is_listed [] type id now_ms = false
is_listed (e ∷ es) type id now_ms = concerns e type id now_ms || is_listed es type id now_ms

abbrev pub all_have_ids : List BlacklistEntry → Bool
all_have_ids [] = true
all_have_ids (e ∷ es) = not (is_empty e.id) && all_have_ids es

abbrev holds_at : Option ℕ → ℕ → Bool
holds_at none now_ms = false
holds_at (some e) now_ms = in_force e now_ms

abbrev holds : EntryMap → Bytes → ℕ → Bool
holds m id now_ms = holds_at (find m id) now_ms

in_force-later : (a b t : ℕ) → in_force (later a b) t ≡ in_force b t || in_force a t
in_force-later a b t = ground arith

not_here : (key k id : Bytes) → (key ==ᵇ k) ≡ false → (key ==ᵇ id) ≡ true → (k ==ᵇ id) ≡ false
not_here key k id differ here = bytes_eq_sym k id ∙ bytes_eq_trans key id k here ∙ differ

holds-merge :
    (m : EntryMap) (k : Bytes) (e : ℕ) (id : Bytes) (t : ℕ)
    → holds (merge_expiry m k e) id t ≡ ((k ==ᵇ id) && in_force e t) || holds m id t
unfolding merge_expiry find
holds-merge [] k e id t = ground arith
holds-merge ((key, at) ∷ rest) k e id t = elim (Bool-cases (key ==ᵇ k)) [
  | inl same ↦ elim (Bool-cases (key ==ᵇ id)) [
    | inl here ↦ rw (same, here) (in_force-later at e t ∙ rw (bytes_eq_trans key k id same ∙ here))
    | inr other ↦ rw (same, other, bytes_eq_trans key k id same ∙ other)
  ]
  | inr differ ↦ elim (Bool-cases (key ==ᵇ id)) [
    | inl here ↦ rw (differ, here, not_here key k id differ here)
    | inr other ↦ rw (differ, other) (holds-merge rest k e id t)
  ]
]

abbrev map_of : BlacklistSnapshot → EntityType → EntryMap
map_of s user = s.users
map_of s ip = s.ips
map_of s device = s.devices

-- An entry that is out of date when the list is taken is never in force again.
concerns-expired :
    (e : BlacklistEntry) (type : EntityType) (id : Bytes) (now t : ℕ)
    → is_expired e now ≡ true
    → now ≤ t
    → concerns e type id t ≡ false
concerns-expired e type id now t h l = ground arith

merge_into-holds :
    (u type : EntityType) (s : BlacklistSnapshot) (k : Bytes) (e : ℕ) (id : Bytes) (t : ℕ)
    → holds (map_of (merge_into u s k e) type) id t
      ≡ (same_type u type && (k ==ᵇ id) && in_force e t) || holds (map_of s type) id t
unfolding merge_into
merge_into-holds user user s k e id t = holds-merge s.users k e id t
merge_into-holds user ip s k e id t = refl
merge_into-holds user device s k e id t = refl
merge_into-holds ip user s k e id t = refl
merge_into-holds ip ip s k e id t = holds-merge s.ips k e id t
merge_into-holds ip device s k e id t = refl
merge_into-holds device user s k e id t = refl
merge_into-holds device ip s k e id t = refl
merge_into-holds device device s k e id t = holds-merge s.devices k e id t

-- From `s` to `s'`, what holds is what held or what `added` says.
abbrev Grows : BlacklistSnapshot → (EntityType → Bytes → Bool) → ℕ → BlacklistSnapshot → Type 0
Grows s added t s' =
    (type : EntityType) (id : Bytes)
    → holds (map_of s' type) id t ≡ added type id || holds (map_of s type) id t

add_entry-Grows :
    (s : BlacklistSnapshot) (e : BlacklistEntry) (now t : ℕ)
    → now ≤ t
    → is_empty e.id ≡ false
    → (s' : BlacklistSnapshot) × (add_entry s e now ≡ some s')
      × Grows s (λ type id. concerns e type id t) t s'
unfolding add_entry
add_entry-Grows s e now t l full = elim (Bool-cases (is_expired e now)) [
  | inl over ↦ rw (full, over) (s, refl, λ type id. rw (concerns-expired e type id now t over l))
  | inr live ↦
      rw (full, live)
        (
          merge_into e.type s e.id e.expire_at_ms,
          refl,
          λ type id. merge_into-holds e.type type s e.id e.expire_at_ms id t,
        )
]

or_swap : (a b c : Bool) → a || (b || c) ≡ (b || a) || c
or_swap true true c = refl
or_swap true false c = refl
or_swap false true c = refl
or_swap false false c = refl

add_entries-cons :
    (s s1 : BlacklistSnapshot) (e : BlacklistEntry) (es : List BlacklistEntry) (now : ℕ)
    → add_entry s e now ≡ some s1
    → add_entries s (e ∷ es) now ≡ add_entries s1 es now
unfolding add_entries
add_entries-cons s s1 e es now h = rw (h, add_entries) refl

-- Adding a list whose entries all have ids succeeds, and what holds is what held or is listed.
add_entries-Grows :
    (s : BlacklistSnapshot) (es : List BlacklistEntry) (now t : ℕ)
    → now ≤ t
    → all_have_ids es ≡ true
    → (s' : BlacklistSnapshot) × (add_entries s es now ≡ some s')
      × Grows s (λ type id. is_listed es type id t) t s'
unfolding add_entries
add_entries-Grows s [] now t l full = (s, refl, λ type id. refl)
add_entries-Grows s (e ∷ es) now t l full =
    let (s1, e1, h1) = add_entry-Grows s e now t l (ground arith) in
    let (s2, e2, h2) = add_entries-Grows s1 es now t l (ground arith) in
    (
      s2,
      add_entries-cons s s1 e es now e1 ∙ e2,
      λ type id.
          h2 type id
          ∙ rw (h1 type id) (
              or_swap (is_listed es type id t) (concerns e type id t) (holds (map_of s type) id t)),
    )

abbrev is_some : Option (ℕ × ℕ × ℕ) → Bool
is_some none = false
is_some (some n) = true

count_entries-all_have_ids :
    (es : List BlacklistEntry) (now : ℕ) → is_some (count_entries es now) ≡ all_have_ids es
unfolding count_entries
count_entries-all_have_ids [] now = refl
count_entries-all_have_ids (e ∷ es) now = ground (arith, count_entries-all_have_ids es now)

prepare_candidate-full :
    (es : List BlacklistEntry) (now : ℕ)
    → all_have_ids es ≡ true
    → prepare_candidate es now ≡ add_entries empty_snapshot es now
unfolding prepare_candidate
prepare_candidate-full es now full = ground (arith, count_entries-all_have_ids es now)

prepare_candidate-missing :
    (es : List BlacklistEntry) (now : ℕ) → all_have_ids es ≡ false → prepare_candidate es now ≡ none
unfolding prepare_candidate
prepare_candidate-missing es now missing = ground (arith, count_entries-all_have_ids es now)

is_listed-empty :
    (es : List BlacklistEntry) (type : EntityType) (t : ℕ)
    → all_have_ids es ≡ true
    → is_listed es type [] t ≡ false
unfolding ◌==ᵇ◌
is_listed-empty [] type t full = refl
is_listed-empty (e ∷ es) type t full = ground (arith, is_listed-empty es type t)

empty_hit :
    (type : EntityType) (id : Bytes) (t : ℕ) → holds (map_of empty_snapshot type) id t ≡ false
unfolding find
empty_hit user id t = refl
empty_hit ip id t = refl
empty_hit device id t = refl

or_none : (b : Bool) → b || false ≡ b
or_none true = refl
or_none false = refl

contains-holds :
    (m : EntryMap) (b : ℕ) (bs : Bytes) (t : ℕ) → contains m (b ∷ bs) t ≡ holds m (b ∷ bs) t
unfolding contains
contains-holds m b bs t = elim (Option-cases (find m (b ∷ bs))) [
  | inl e ↦ rw e
  | inr (at, e) ↦ rw e
]

contains-listed :
    (es : List BlacklistEntry) (s : BlacklistSnapshot) (t : ℕ)
    → all_have_ids es ≡ true
    → Grows empty_snapshot (λ type id. is_listed es type id t) t s
    → (type : EntityType) (id : Bytes) → contains (map_of s type) id t ≡ is_listed es type id t
unfolding contains
contains-listed es s t full h type [] = sym (is_listed-empty es type t full)
contains-listed es s t full h type (b ∷ bs) =
    contains-holds (map_of s type) b bs t
    ∙ h type (b ∷ bs)
    ∙ rw (empty_hit type (b ∷ bs) t) (or_none (is_listed es type (b ∷ bs) t))

module _ (m : BlacklistManager) (es : List BlacklistEntry) (now : ℕ) where
  -- After a list of entries that all have ids is published, an entity is reported at any later time
  -- exactly if some entry of the list names it and is then in force, whatever the order of the
  -- entries and however often they name it.
  pub publish-matches :
      (user_id ip_text device_id : Bytes) (t : ℕ)
      → now ≤ t
      → all_have_ids es ≡ true
      → let (m', published) = publish m es now in
        (published ≡ true)
        × (manager_matches m' user_id ip_text device_id t ≡ record {
          user_hit = is_listed es user user_id t;
          ip_hit = is_listed es ip ip_text t;
          device_hit = is_listed es device device_id t;
        })
  unfolding publish manager_matches snapshot_matches
  publish-matches user_id ip_text device_id t l full =
      let (s, e, grows) = add_entries-Grows empty_snapshot es now t l full in
      let hit = contains-listed es s t full grows in
      rw (prepare_candidate-full es now full ∙ e)
        (refl, rw (hit user user_id, hit ip ip_text, hit device device_id))

  -- A list with an entry without an id is refused whole: what was published stays.
  pub publish-refused : all_have_ids es ≡ false → publish m es now ≡ (m, false)
  unfolding publish
  publish-refused missing = rw (prepare_candidate-missing es now missing)
