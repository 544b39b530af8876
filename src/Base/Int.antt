-- ===== src/Base/Int.antt =====
-- Integers over the native numbers: the signed fields and parameters, and 64-bit wrap-around.
use Prim.Native.Nat.{ℕ, suc, ◌+◌, ◌-◌, ◌%◌, ◌^◌}
use mathlib.Core.Path.{◌≡◌}
use mathlib.Core.Bool.{Bool, true, false}
use mathlib.Core.Logic.{◌↔◌}
use native.Mathlib.Omega.{arith}
use cni_plugins.Base.Tests.{ltb, leb, ◌==◌, if◌then◌else◌}

-- `negsuc n` is -(n + 1).
pub data ℤ : Type 0 where
  pos : ℕ → ℤ
  negsuc : ℕ → ℤ

abbrev pub pos_part : ℤ → ℕ
pos_part (pos n) = n
pos_part (negsuc n) = 0

abbrev pub neg_part : ℤ → ℕ
neg_part (pos n) = 0
neg_part (negsuc n) = suc n

abbrev pub sub_ℕ : ℕ → ℕ → ℤ
sub_ℕ a b = if leb b a then pos (a - b) else negsuc (b - a - 1)

infixl 65 ◌+ℤ◌ ◌-ℤ◌
abbrev pub ◌+ℤ◌ : ℤ → ℤ → ℤ
a +ℤ b = sub_ℕ (pos_part a + pos_part b) (neg_part a + neg_part b)

abbrev pub ◌-ℤ◌ : ℤ → ℤ → ℤ
a -ℤ b = sub_ℕ (pos_part a + neg_part b) (neg_part a + pos_part b)

infix 50 ◌==ℤ◌
abbrev pub ◌==ℤ◌ : ℤ → ℤ → Bool
pos m ==ℤ pos n = m == n
negsuc m ==ℤ negsuc n = m == n
_ ==ℤ _ = false

abbrev pub is_negative : ℤ → Bool
is_negative (pos n) = false
is_negative (negsuc n) = true

-- The 64-bit pattern of an integer, and the integer of a pattern: Go's `int` arithmetic wraps.
abbrev pub bits_64 : ℤ → ℕ
bits_64 (pos n) = n % 2 ^ 64
bits_64 (negsuc n) = 2 ^ 64 - 1 - n % 2 ^ 64

abbrev pub signed_64 : ℕ → ℤ
signed_64 b = if ltb b (2 ^ 63) then pos b else negsuc (2 ^ 64 - 1 - b)

abbrev pub wrap_64 : ℤ → ℤ
wrap_64 z = signed_64 (bits_64 z)

pub ==ℤ_iff : (a b : ℤ) → ((a ==ℤ b) ≡ true) ↔ (a ≡ b)
==ℤ_iff (pos m) (pos n) = ground arith
==ℤ_iff (pos m) (negsuc n) = ground arith
==ℤ_iff (negsuc m) (pos n) = ground arith
==ℤ_iff (negsuc m) (negsuc n) = ground arith
