-- ===== src/Prelude/Strings.antt =====
-- Byte strings, as `std::string`.
use Prim.Native.Nat.{ℕ}
use Prim.Native.Char.{code}
use Prim.Native.String.{String}
use mathlib.Core.Path.{◌≡◌, refl, sym, ap}
use mathlib.Core.Bool.{Bool, true, false, ◌&&◌}
use mathlib.Core.List.{List, [], ◌∷◌}
use native.Mathlib.Omega.{arith}
use aegis_flow.Prelude.Tests.{◌==◌}

-- `std::string`: a sequence of bytes.
abbrev pub Bytes : Type 0
Bytes = List ℕ

-- The bytes of an ASCII literal.
abbrev pub codes : String → Bytes
codes String.[] = []
codes (String.◌∷◌ c s) = code c ∷ codes s

infix 50 ◌==ᵇ◌
unfoldable pub ◌==ᵇ◌ : Bytes → Bytes → Bool
[] ==ᵇ [] = true
[] ==ᵇ (y ∷ ys) = false
(x ∷ xs) ==ᵇ [] = false
(x ∷ xs) ==ᵇ (y ∷ ys) = (x == y) && (xs ==ᵇ ys)

pub bytes_eq_refl : (a : Bytes) → (a ==ᵇ a) ≡ true
unfolding ◌==ᵇ◌
bytes_eq_refl [] = refl
bytes_eq_refl (x ∷ xs) = ground (arith, bytes_eq_refl xs)

pub eq_of_bytes_eq : (a b : Bytes) → (a ==ᵇ b) ≡ true → a ≡ b
unfolding ◌==ᵇ◌
eq_of_bytes_eq [] [] h = refl
eq_of_bytes_eq [] (y ∷ ys) h = ground arith
eq_of_bytes_eq (x ∷ xs) [] h = ground arith
eq_of_bytes_eq (x ∷ xs) (y ∷ ys) h = ground (arith, eq_of_bytes_eq xs ys)

pub bytes_eq_sym : (a b : Bytes) → (a ==ᵇ b) ≡ (b ==ᵇ a)
unfolding ◌==ᵇ◌
bytes_eq_sym [] [] = refl
bytes_eq_sym [] (y ∷ ys) = refl
bytes_eq_sym (x ∷ xs) [] = refl
bytes_eq_sym (x ∷ xs) (y ∷ ys) = ground (arith, bytes_eq_sym xs ys)

-- Equal keys are equal to the same ones.
pub bytes_eq_trans : (a b c : Bytes) → (a ==ᵇ b) ≡ true → (b ==ᵇ c) ≡ (a ==ᵇ c)
bytes_eq_trans a b c h = ap (λ z. z ==ᵇ c) (sym (eq_of_bytes_eq a b h))
