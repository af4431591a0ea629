-- ===== src/Prelude/Int.antt =====
-- Go's signed integers: unbounded integers, and the wrap-around of 64 bits where the code adds or
-- multiplies.
use Prim.Native.Nat.{ℕ, suc, ◌+◌, ◌-◌, ◌*◌, ◌/◌, ◌%◌, ◌^◌, ◌≤◌}
use mathlib.Core.Path.{◌≡◌}
use mathlib.Core.Logic.{◌↔◌}
use mathlib.Core.Bool.{Bool, true}
use native.Mathlib.Omega.{arith}
use nocturne_atlas_event_str.Prelude.Tests.{ltb, leb, eqb, if◌then◌else◌}

-- `negsuc n` is -(n + 1).
pub data ℤ : Type 0 where
  pos : ℕ → ℤ
  negsuc : ℕ → ℤ

abbrev pub pos_part : ℤ → ℕ
pos_part (pos n) = n
pos_part (negsuc n) = 0

abbrev pub neg_part : ℤ → ℕ
neg_part (pos n) = 0
neg_part (negsuc n) = suc n

abbrev pub sub_ℕ : ℕ → ℕ → ℤ
sub_ℕ a b = if leb b a then pos (a - b) else negsuc (b - a - 1)

infix 50 ◌≤ℤ◌
abbrev pub ◌≤ℤ◌ : ℤ → ℤ → Type 0
a ≤ℤ b = pos_part a + neg_part b ≤ pos_part b + neg_part a

abbrev pub ltb_ℤ : ℤ → ℤ → Bool
ltb_ℤ a b = ltb (pos_part a + neg_part b) (pos_part b + neg_part a)

abbrev pub leb_ℤ : ℤ → ℤ → Bool
leb_ℤ a b = leb (pos_part a + neg_part b) (pos_part b + neg_part a)

abbrev pub eqb_ℤ : ℤ → ℤ → Bool
eqb_ℤ a b = eqb (pos_part a + neg_part b) (pos_part b + neg_part a)

-- The 64 bits of an integer, as a number below 2 ^ 64, and the int64 that they stand for.
abbrev pub to_bits : ℤ → ℕ
to_bits (pos n) = n % 2 ^ 64
to_bits (negsuc n) = 2 ^ 64 - 1 - n % 2 ^ 64

abbrev pub of_bits : ℕ → ℤ
of_bits m = if ltb m (2 ^ 63) then pos m else negsuc (2 ^ 64 - 1 - m)

-- The next integer, with no wrap-around.
abbrev pub int_succ : ℤ → ℤ
int_succ a = sub_ℕ (pos_part a + 1) (neg_part a)

-- The sum, with no wrap-around.
abbrev pub int_add : ℤ → ℤ → ℤ
int_add a b = sub_ℕ (pos_part a + pos_part b) (neg_part a + neg_part b)

-- Division of an integer that is not negative.
abbrev pub div_pos : ℤ → ℕ → ℤ
div_pos a d = pos (pos_part a / d)

-- `int64` addition and multiplication.
unfoldable pub int64_add : ℤ → ℤ → ℤ
int64_add a b = of_bits ((to_bits a + to_bits b) % 2 ^ 64)

unfoldable pub int64_mul : ℤ → ℤ → ℤ
int64_mul a b = of_bits (to_bits a * to_bits b % 2 ^ 64)

-- Below the largest int64 the successor does not wrap.
pub int64_add_one : (n : ℕ) → suc n ≤ 2 ^ 63 - 1 → int64_add (pos n) (pos 1) ≡ pos (n + 1)
unfolding int64_add
int64_add_one n h = ground arith

pub eqb_ℤ_iff : (a b : ℤ) → (eqb_ℤ a b ≡ true) ↔ (a ≡ b)
eqb_ℤ_iff a b = ground arith
