-- ===== src/App/Maintenance/Folding.antt =====
-- The entries that blacklist_maintenance.cpp (src/app) folds and sorts out before it publishes them.
use aegis_flow.Prelude.{
  ℕ, ◌≤◌, ◌≡◌, refl, sym, ap, subst, ◌∙◌, inl, inr, Bool, true, false, not, ◌&&◌, ◌||◌, Option,
  none, some, List, [], ◌∷◌, Bytes, ◌==ᵇ◌, eq_of_bytes_eq, arith, leb, ◌==◌, Bool-cases,
  Option-cases,
}
use aegis_flow.Risk.Types.{EntityType, user, ip, device, BlacklistEntry}
use aegis_flow.Risk.Blacklist.{is_expired}
use aegis_flow.Risk.Blacklist.Lookup.{in_force, concerns, is_listed}
use aegis_flow.App.Maintenance.{same_type, fold_in, fold_unique, active_entries}

eq_of_same_type : (a b : EntityType) → same_type a b ≡ true → a ≡ b
eq_of_same_type user user h = refl
eq_of_same_type ip ip h = refl
eq_of_same_type device device h = refl
eq_of_same_type user ip h = ground arith
eq_of_same_type user device h = ground arith
eq_of_same_type ip user h = ground arith
eq_of_same_type ip device h = ground arith
eq_of_same_type device user h = ground arith
eq_of_same_type device ip h = ground arith

again : (a b : Bool) → (a || b) || a ≡ a || b
again true b = refl
again false true = refl
again false false = refl

swap : (a b c : Bool) → a || (b || c) ≡ (a || b) || c
swap true b c = refl
swap false b c = refl

or_false : (b : Bool) → b || false ≡ b
or_false true = refl
or_false false = refl

abbrev of_some : Option (List BlacklistEntry) → List BlacklistEntry
of_some none = []
of_some (some es) = es

none_is_some : {es : List BlacklistEntry} → ¬ (none ≡ some es)
none_is_some e = ground arith

same_concerns :
    (x e : BlacklistEntry) (type : EntityType) (id : Bytes) (t : ℕ)
    → same_type x.type e.type && (x.id ==ᵇ e.id) ≡ true
    → (x.expire_at_ms == e.expire_at_ms) ≡ true
    → concerns e type id t ≡ concerns x type id t
same_concerns x e type id t h k =
    let p : x.type ≡ e.type = eq_of_same_type x.type e.type (ground (arith, h)) in
    let q : x.id ≡ e.id = eq_of_bytes_eq x.id e.id (ground (arith, h)) in
    let r : x.expire_at_ms ≡ e.expire_at_ms = ground (arith, k) in rw (p, q, r) refl

-- What folding an entry in makes of the list.
abbrev Adds :
    List BlacklistEntry → BlacklistEntry → EntityType → Bytes → ℕ → List BlacklistEntry → Type 0
Adds unique e type id t unique' =
    is_listed unique' type id t ≡ is_listed unique type id t || concerns e type id t

fold_in-listed :
    (unique : List BlacklistEntry) (e : BlacklistEntry) (unique' : List BlacklistEntry)
    (type : EntityType) (id : Bytes) (t : ℕ)
    → fold_in unique e ≡ some unique'
    → Adds unique e type id t unique'
unfolding fold_in
fold_in-listed [] e unique' type id t h =
    subst (Adds [] e type id t) (ap of_some h) (or_false (concerns e type id t))
fold_in-listed (x ∷ unique) e unique' type id t h =
    elim (Bool-cases (same_type x.type e.type && (x.id ==ᵇ e.id))) [
      | inl s ↦ elim (Bool-cases (x.expire_at_ms == e.expire_at_ms)) [
        | inl k ↦ subst (Adds (x ∷ unique) e type id t) (ap of_some (rw (s, k) at h)) (
            sym (
              ap (λ b. (concerns x type id t || is_listed unique type id t) || b)
                (same_concerns x e type id t s k)
              ∙ again (concerns x type id t) (is_listed unique type id t)))
        | inr k ↦ absurd (none_is_some (rw (s, k) at h))
      ]
      | inr s ↦ elim (Option-cases (fold_in unique e)) [
        | inl n ↦ absurd (none_is_some (rw (s, n) at h))
        | inr (u, n) ↦ subst (Adds (x ∷ unique) e type id t) (ap of_some (rw (s, n) at h)) (
            ap (λ b. concerns x type id t || b) (fold_in-listed unique e u type id t n)
            ∙ swap (concerns x type id t) (is_listed unique type id t) (concerns e type id t))
      ]
    ]

pub fold_unique-listed :
    (unique entries : List BlacklistEntry) (unique' : List BlacklistEntry) (type : EntityType)
    (id : Bytes) (t : ℕ)
    → fold_unique unique entries ≡ some unique'
    → is_listed unique' type id t ≡ is_listed unique type id t || is_listed entries type id t
unfolding fold_unique
fold_unique-listed unique [] unique' type id t h =
    subst (λ u. is_listed u type id t ≡ is_listed unique type id t || false) (ap of_some h)
      (sym (or_false _))
fold_unique-listed unique (e ∷ entries) unique' type id t h =
    elim (Option-cases (fold_in unique e)) [
      | inl n ↦ absurd (none_is_some (rw n at h))
      | inr (u, n) ↦
          fold_unique-listed u entries unique' type id t (rw n at h)
          ∙ ap (λ b. b || is_listed entries type id t) (fold_in-listed unique e u type id t n)
          ∙ sym (
              swap (is_listed unique type id t) (concerns e type id t)
                (is_listed entries type id t))
    ]

-- An entry that has expired is in force at no later time.
expired_gone : (at now t : ℕ) → now ≤ t → not (at == 0) && leb at now ≡ true → in_force at t ≡ false
expired_gone at now t l h = ground arith

and_false : (a b : Bool) → a && b && false ≡ false
and_false true true = refl
and_false true false = refl
and_false false b = refl

expired-concerns :
    (e : BlacklistEntry) (now t : ℕ) (type : EntityType) (id : Bytes)
    → now ≤ t
    → is_expired e now ≡ true
    → concerns e type id t ≡ false
expired-concerns e now t type id l x =
    rw (expired_gone e.expire_at_ms now t l x) (and_false _ (e.id ==ᵇ id))

pub active-listed :
    (es : List BlacklistEntry) (now t : ℕ) (type : EntityType) (id : Bytes)
    → now ≤ t
    → is_listed (active_entries es now) type id t ≡ is_listed es type id t
unfolding active_entries
active-listed [] now t type id l = refl
active-listed (e ∷ es) now t type id l = elim (Bool-cases (is_expired e now)) [
  | inl x ↦ rw x (
      active-listed es now t type id l
      ∙ ap (λ b. b || is_listed es type id t) (sym (expired-concerns e now t type id l x)))
  | inr x ↦ rw x (ap (λ b. concerns e type id t || b) (active-listed es now t type id l))
]
