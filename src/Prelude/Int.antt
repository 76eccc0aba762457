-- ===== src/Prelude/Int.antt =====
-- Signed integers over the native numbers, and the machine words that they are read from.
use Prim.Native.Nat.{ℕ, suc, ◌+◌, ◌-◌, ◌/◌, ◌%◌, ◌^◌, ◌≤◌, ◌<◌}
use mathlib.Core.Bool.{Bool}
use mathlib.Core.List.{◌++◌}
use rustc_codegen_c.Prelude.Tests.{ltb, leb, ◌==◌, if◌then◌else◌}
use rustc_codegen_c.Prelude.Text.{Text, str}
use rustc_codegen_c.Prelude.Decimal.{show}

-- `negsuc n` is -(n + 1).
pub data ℤ : Type 0 where
  pos : ℕ → ℤ
  negsuc : ℕ → ℤ

abbrev pub pos_part : ℤ → ℕ
pos_part (pos n) = n
pos_part (negsuc n) = 0

abbrev pub neg_part : ℤ → ℕ
neg_part (pos n) = 0
neg_part (negsuc n) = suc n

infix 50 ◌≤ℤ◌
abbrev pub ◌≤ℤ◌ : ℤ → ℤ → Type 0
a ≤ℤ b = pos_part a + neg_part b ≤ pos_part b + neg_part a

abbrev pub ltb_ℤ : ℤ → ℤ → Bool
ltb_ℤ a b = ltb (pos_part a + neg_part b) (pos_part b + neg_part a)

abbrev pub leb_ℤ : ℤ → ℤ → Bool
leb_ℤ a b = leb (pos_part a + neg_part b) (pos_part b + neg_part a)

abbrev pub eq_ℤ : ℤ → ℤ → Bool
eq_ℤ a b = (pos_part a + neg_part b) == (pos_part b + neg_part a)

-- `Display` of a signed integer.
unfoldable pub show_ℤ : ℤ → Text
show_ℤ (pos n) = show n
show_ℤ (negsuc n) = str "-" ++ show (suc n)

-- `z as u128`: two's complement.
abbrev pub to_u128 : ℤ → ℕ
to_u128 (pos n) = n % 2 ^ 128
to_u128 (negsuc n) = (2 ^ 128 - 1) - n % 2 ^ 128

-- `n as i128`
abbrev pub to_i128 : ℕ → ℤ
to_i128 n = if ltb n (2 ^ 127) then pos n else negsuc (2 ^ 128 - 1 - n)

-- `z >> k` on a signed word rounds down.
abbrev pub shift_right : ℤ → ℕ → ℤ
shift_right (pos n) k = pos (n / 2 ^ k)
shift_right (negsuc n) k = negsuc (n / 2 ^ k)

-- The values of an `i128`.
abbrev pub IsI128 : ℤ → Type 0
IsI128 (pos n) = n < 2 ^ 127
IsI128 (negsuc n) = n < 2 ^ 127
