-- ===== src/Base/Integers.antt =====
-- A Go int64 that a document gives: zero or more, or below zero.
use Prim.Native.Nat.{ℕ, ◌-◌, ◌%◌, ◌^◌}
use mathlib.Core.Bool.{Bool, true, false}
use mathlib.Core.Path.{◌≡◌, refl, ap}
use mathlib.Core.Logic.{◌⊎◌, inl, inr}
use native.Mathlib.Omega.{arith}
use kiss_protocol.Base.Tests.{ltb, ◌==◌}

-- `negsuc n` is `- (n + 1)`.
pub data ℤ : Type 0 where
  pos : ℕ → ℤ
  negsuc : ℕ → ℤ

abbrev pub is_negative : ℤ → Bool
is_negative (pos n) = false
is_negative (negsuc n) = true

abbrev pub lt_int : ℤ → ℤ → Bool
lt_int (pos m) (pos n) = ltb m n
lt_int (pos m) (negsuc n) = false
lt_int (negsuc m) (pos n) = true
lt_int (negsuc m) (negsuc n) = ltb n m

abbrev pub eq_int : ℤ → ℤ → Bool
eq_int (pos m) (pos n) = m == n
eq_int (pos m) (negsuc n) = false
eq_int (negsuc m) (pos n) = false
eq_int (negsuc m) (negsuc n) = m == n

-- `uint64(n)`
abbrev pub uint64_of : ℤ → ℕ
uint64_of (pos n) = n % 2 ^ 64
uint64_of (negsuc n) = (2 ^ 64 - 1) - n % 2 ^ 64

pub eq_int_sound : (a b : ℤ) → eq_int a b ≡ true → a ≡ b
eq_int_sound (pos m) (pos n) h = ap pos (ground (arith, h))
eq_int_sound (pos m) (negsuc n) h = cc
eq_int_sound (negsuc m) (pos n) h = cc
eq_int_sound (negsuc m) (negsuc n) h = ap negsuc (ground (arith, h))

pub ℤ-cases : (z : ℤ) → ((a : ℕ) × (z ≡ pos a)) ⊎ ((a : ℕ) × (z ≡ negsuc a))
ℤ-cases (pos a) = inl (a, refl)
ℤ-cases (negsuc a) = inr (a, refl)
