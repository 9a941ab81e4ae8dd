-- ===== src/Base/Int.antt =====
-- Go's int64: integers over the native numbers, and the words of 64 bits that hold them.
use Prim.Native.Nat.{ℕ, suc, ◌+◌, ◌-◌, ◌*◌, ◌%◌, ◌≤◌, ◌<◌}
use mathlib.Core.Path.{◌≡◌}
use mathlib.Core.Bool.{Bool, false}
use mathlib.Core.List.{◌∷◌}
use native.Mathlib.Omega.{arith}
use iot_ephemeral_value_stor.Base.Strings.{Text, decimal}
use iot_ephemeral_value_stor.Base.Tests.{ltb, ◌==◌, if◌then◌else◌}

-- `negsuc n` is -(n + 1).
pub data ℤ : Type 0 where
  pos : ℕ → ℤ
  negsuc : ℕ → ℤ

abbrev pub pos_part : ℤ → ℕ
pos_part (pos n) = n
pos_part (negsuc n) = 0

abbrev pub neg_part : ℤ → ℕ
neg_part (pos n) = 0
neg_part (negsuc n) = suc n

infix 50 ◌≤ℤ◌
abbrev pub ◌≤ℤ◌ : ℤ → ℤ → Type 0
a ≤ℤ b = pos_part a + neg_part b ≤ pos_part b + neg_part a

abbrev pub ltb_ℤ : ℤ → ℤ → Bool
ltb_ℤ a b = ltb (pos_part a + neg_part b) (pos_part b + neg_part a)

abbrev pub is_zero : ℤ → Bool
is_zero (pos n) = n == 0
is_zero (negsuc n) = false

-- `%d`
abbrev pub decimal_ℤ : ℤ → Text
decimal_ℤ (pos n) = decimal n
decimal_ℤ (negsuc n) = b'-' ∷ decimal (suc n)

-- The number of words of 64 bits, and half of it.
abbrev pub word : ℕ
word = 0x1_0000_0000_0000_0000

abbrev pub half_word : ℕ
half_word = 0x8000_0000_0000_0000

-- `int64(w)` of a word keeps its bits.
unfoldable pub int64 : ℕ → ℤ
int64 w = if ltb w half_word then pos w else negsuc (word - w - 1)

abbrev pub bits : ℤ → ℕ
bits (pos n) = n
bits (negsuc n) = word - n - 1

-- The product of two int64 wraps around.
unfoldable pub mul_int64 : ℤ → ℤ → ℤ
unfolding int64
mul_int64 a b = int64 ((bits a * bits b) % word)

pub bits-int64 : (w : ℕ) → w < word → bits (int64 w) ≡ w
unfolding int64
bits-int64 w h = ground arith
