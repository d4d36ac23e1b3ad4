-- ===== src/Feature/Maps.antt =====
-- `std::unordered_map<std::string, A>` as an association list with distinct keys.
use aegis_flow.Prelude.{
  ◌≡◌, sym, ◌∙◌, inl, inr, Bool, false, Option, none, some, List, [], ◌∷◌, Bytes, ◌==ᵇ◌,
  if◌then◌else◌, Bool-cases, bytes_eq_refl, bytes_eq_trans,
}

abbrev pub Map {ℓ} : Type ℓ → Type ℓ
Map A = List (Bytes × A)

module _ {ℓ} {A : Type ℓ} where
  unfoldable pub find : Map A → Bytes → Option A
  find [] key = none
  find ((k, a) ∷ rest) key = if k ==ᵇ key then some a else find rest key

  -- The value of a key, put in its place or in front.
  unfoldable pub put : Map A → Bytes → A → Map A
  put [] key a = (key, a) ∷ []
  put ((k, b) ∷ rest) key a =
      let rest' = put rest key a in if k ==ᵇ key then (k, a) ∷ rest else (k, b) ∷ rest'

  -- The values that pass, as a loop of `erase` leaves them.
  unfoldable pub keep_if : (A → Bool) → Map A → Map A
  keep_if test [] = []
  keep_if test ((k, a) ∷ rest) =
      let rest' = keep_if test rest in if test a then (k, a) ∷ rest' else rest'

  pub find-put_self : (m : Map A) (key : Bytes) (a : A) → find (put m key a) key ≡ some a
  unfolding find put
  find-put_self [] key a = rw (bytes_eq_refl key)
  find-put_self ((k, b) ∷ rest) key a = elim (Bool-cases (k ==ᵇ key)) [
    | inl e ↦ rw (e, e)
    | inr e ↦ rw (e, e) (find-put_self rest key a)
  ]

  pub find-put_other :
      (m : Map A) (key other : Bytes) (a : A)
      → (key ==ᵇ other) ≡ false
      → find (put m key a) other ≡ find m other
  unfolding find put
  find-put_other [] key other a h = rw h
  find-put_other ((k, b) ∷ rest) key other a h = elim (Bool-cases (k ==ᵇ key)) [
    | inl e ↦ rw (e, sym (bytes_eq_trans k key other e) ∙ h)
    | inr e ↦ elim (Bool-cases (k ==ᵇ other)) [
      | inl f ↦ rw (e, f)
      | inr f ↦ rw (e, f) (find-put_other rest key other a h)
    ]
  ]
