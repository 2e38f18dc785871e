-- ===== src/Base/Int.antt =====
-- Go's `int` and `int64` as integers over the native numbers, with the wrap-around of 64 bits at
-- an increment. `negsuc n` is -(n + 1).
use Prim.Native.Nat.{ℕ, zero, suc, ◌+◌, ◌-◌, ◌^◌}
use mathlib.Core.Path.{◌≡◌, refl}
use mathlib.Core.Logic.{◌↔◌}
use mathlib.Core.Bool.{Bool, true, false}
use native.Mathlib.Omega.{arith}
use mihomo_tui.Base.Tests.{ltb, leb, nat_eq, if◌then◌else◌}

pub data ℤ : Type 0 where
  pos : ℕ → ℤ
  negsuc : ℕ → ℤ

-- `a == b`
abbrev pub int_eq : ℤ → ℤ → Bool
int_eq (pos a) (pos b) = nat_eq a b
int_eq (negsuc a) (negsuc b) = nat_eq a b
int_eq (pos a) (negsuc b) = false
int_eq (negsuc a) (pos b) = false

-- `a < b`
abbrev pub int_lt : ℤ → ℤ → Bool
int_lt (pos a) (pos b) = ltb a b
int_lt (negsuc a) (negsuc b) = ltb b a
int_lt (pos a) (negsuc b) = false
int_lt (negsuc a) (pos b) = true

-- `a <= b`
abbrev pub int_le : ℤ → ℤ → Bool
int_le (pos a) (pos b) = leb a b
int_le (negsuc a) (negsuc b) = leb b a
int_le (pos a) (negsuc b) = false
int_le (negsuc a) (pos b) = true

-- `a + 1` on 64 bits
unfoldable pub increment : ℤ → ℤ
increment (pos n) = if nat_eq (n + 1) (2 ^ 63) then negsuc (2 ^ 63 - 1) else pos (n + 1)
increment (negsuc zero) = pos 0
increment (negsuc (suc n)) = negsuc n

pub int_eq_iff : (a b : ℤ) → (int_eq a b ≡ true) ↔ (a ≡ b)
int_eq_iff a b = ground arith

-- An increment always changes the value, at the wrap-around too.
pub increment_ne : (a : ℤ) → int_eq a (increment a) ≡ false
unfolding increment
increment_ne (pos n) = ground arith
increment_ne (negsuc zero) = refl
increment_ne (negsuc (suc n)) = ground arith
