-- ===== src/Base/Int.antt =====
-- Signed integers over the native numbers, and Go's int32 arithmetic on them.
use Prim.Native.Nat.{ℕ, suc, ◌+◌, ◌-◌, ◌≤◌, ◌<◌, ◌%◌, ◌^◌}
use mathlib.Core.Path.{◌≡◌}
use mathlib.Core.Bool.{Bool}
use native.Mathlib.Omega.{arith}
use hal_agent_operator.Base.Tests.{ltb, leb, ◌==◌, if◌then◌else◌}

-- `negsuc n` is -(n + 1).
pub data ℤ : Type 0 where
  pos : ℕ → ℤ
  negsuc : ℕ → ℤ

abbrev pub pos_part : ℤ → ℕ
pos_part (pos n) = n
pos_part (negsuc n) = 0

abbrev pub neg_part : ℤ → ℕ
neg_part (pos n) = 0
neg_part (negsuc n) = suc n

-- a - b, as an integer.
abbrev pub sub_ℕ : ℕ → ℕ → ℤ
sub_ℕ a b = if leb b a then pos (a - b) else negsuc (b - a - 1)

infixl 65 ◌+ℤ◌
infix 50 ◌≤ℤ◌ ◌<ℤ◌
unfoldable pub ◌+ℤ◌ : ℤ → ℤ → ℤ
a +ℤ b = sub_ℕ (pos_part a + pos_part b) (neg_part a + neg_part b)

abbrev pub ◌≤ℤ◌ : ℤ → ℤ → Type 0
a ≤ℤ b = pos_part a + neg_part b ≤ pos_part b + neg_part a

abbrev pub ◌<ℤ◌ : ℤ → ℤ → Type 0
a <ℤ b = pos_part a + neg_part b < pos_part b + neg_part a

abbrev pub ltb_ℤ : ℤ → ℤ → Bool
ltb_ℤ a b = ltb (pos_part a + neg_part b) (pos_part b + neg_part a)

abbrev pub eqb_ℤ : ℤ → ℤ → Bool
eqb_ℤ a b = (pos_part a + neg_part b) == (pos_part b + neg_part a)

-- Two's complement on 32 bits: the int32 that a sum wraps to.
unfoldable pub wrap32 : ℤ → ℤ
wrap32 a =
    let bits = (pos_part a + (2 ^ 32 - neg_part a % 2 ^ 32)) % 2 ^ 32 in
    if ltb bits (2 ^ 31) then pos bits else negsuc (2 ^ 32 - bits - 1)

-- `a + b` at type int32.
unfoldable pub add32 : ℤ → ℤ → ℤ
unfolding ◌+ℤ◌ wrap32
add32 a b = wrap32 (a +ℤ b)

abbrev pub IsInt32 : ℤ → Type 0
IsInt32 a = (negsuc (2 ^ 31 - 1) ≤ℤ a) × (a ≤ℤ pos (2 ^ 31 - 1))

-- The increment of an int32 that is below another int32 does not wrap.
pub add32-one : (a b : ℤ) → IsInt32 a → IsInt32 b → a <ℤ b → add32 a (pos 1) ≡ a +ℤ pos 1
unfolding add32
add32-one a b ha hb h = ground arith

pub add32-one_parts :
    (a b : ℤ)
    → IsInt32 a
    → IsInt32 b
    → a <ℤ b
    → pos_part (add32 a (pos 1)) + neg_part a ≡ neg_part (add32 a (pos 1)) + pos_part a + 1
unfolding add32
add32-one_parts a b ha hb h = ground arith

pub add32-pos : (a : ℕ) → a + 1 < 2 ^ 31 → add32 (pos a) (pos 1) ≡ pos (a + 1)
unfolding add32
add32-pos a h = ground arith
