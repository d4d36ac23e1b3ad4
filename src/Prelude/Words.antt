-- ===== src/Prelude/Words.antt =====
-- Machine integers: `int`, and unsigned words of 32 and 64 bits with their wrap-around.
use Prim.Native.Nat.{ℕ, ◌+◌, ◌-◌, ◌^◌, ◌%◌, ◌≤◌, ◌<◌}
use mathlib.Core.Path.{◌≡◌}
use mathlib.Core.Bool.{Bool, true, false}
use native.Mathlib.Omega.{arith}
use aegis_flow.Prelude.Tests.{◌==◌}

abbrev pub u64_max : ℕ
u64_max = 2 ^ 64 - 1

abbrev pub u32_max : ℕ
u32_max = 2 ^ 32 - 1

-- `std::size_t` and `std::uint64_t`
abbrev pub add_size : ℕ → ℕ → ℕ
add_size a b = (a + b) % 2 ^ 64

abbrev pub sub_size : ℕ → ℕ → ℕ
sub_size a b = (a + 2 ^ 64 - b) % 2 ^ 64

pub sub_size_of_le : (a b : ℕ) → b ≤ a → a < 2 ^ 64 → sub_size a b ≡ a - b
sub_size_of_le a b h k = omega arith

-- `int`: `negsuc n` is -(n + 1).
pub data ℤ : Type 0 where
  pos : ℕ → ℤ
  negsuc : ℕ → ℤ

abbrev pub is_nonneg : ℤ → Bool
is_nonneg (pos n) = true
is_nonneg (negsuc n) = false

infix 50 ◌==ℤ◌
abbrev pub ◌==ℤ◌ : ℤ → ℤ → Bool
pos a ==ℤ pos b = a == b
negsuc a ==ℤ negsuc b = a == b
pos a ==ℤ negsuc b = false
negsuc a ==ℤ pos b = false

pub int_eq_refl : (a : ℤ) → (a ==ℤ a) ≡ true
int_eq_refl (pos n) = ground arith
int_eq_refl (negsuc n) = ground arith

pub eq_of_int_eq : (a b : ℤ) → (a ==ℤ b) ≡ true → a ≡ b
eq_of_int_eq (pos a) (pos b) h = ground arith
eq_of_int_eq (negsuc a) (negsuc b) h = ground arith
eq_of_int_eq (pos a) (negsuc b) h = ground arith
eq_of_int_eq (negsuc a) (pos b) h = ground arith
