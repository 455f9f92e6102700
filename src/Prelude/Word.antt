-- ===== src/Prelude/Word.antt =====
-- A `cell` is a 32-bit word, kept as its bit pattern below 2 ^ 32. Signed comparisons shift both
-- sides by 2 ^ 31.
use Prim.Native.Nat.{ℕ, ◌+◌, ◌-◌, ◌*◌, ◌/◌, ◌%◌, ◌^◌, ◌<◌}
use mathlib.Core.Bool.{Bool}
use samp_plugin_crashdetect.Prelude.Tests.{ltb, leb, if◌then◌else◌}

abbrev pub word_mod : ℕ
word_mod = 4294967296

abbrev pub sign_bit : ℕ
sign_bit = 2147483648

abbrev pub IsCell : ℕ → Type 0
IsCell x = x < word_mod

-- `a + b`, `a - b`, `a * b`, `-a` and `~a` on cells
abbrev pub add32 : ℕ → ℕ → ℕ
add32 a b = (a + b) % word_mod

abbrev pub sub32 : ℕ → ℕ → ℕ
sub32 a b = (a + (word_mod - b % word_mod)) % word_mod

abbrev pub mul32 : ℕ → ℕ → ℕ
mul32 a b = a * b % word_mod

abbrev pub neg32 : ℕ → ℕ
neg32 a = sub32 0 a

abbrev pub not32 : ℕ → ℕ
not32 a = word_mod - 1 - a % word_mod

-- `(cell)a < (cell)b` and `(cell)a <= (cell)b`
abbrev pub bias : ℕ → ℕ
bias a = (a + sign_bit) % word_mod

abbrev pub slt : ℕ → ℕ → Bool
slt a b = ltb (bias a) (bias b)

abbrev pub sle : ℕ → ℕ → Bool
sle a b = leb (bias a) (bias b)

abbrev pub is_neg : ℕ → Bool
is_neg a = leb sign_bit (a % word_mod)

-- the magnitude of a signed cell
abbrev pub abs32 : ℕ → ℕ
abs32 a = if is_neg a then word_mod - a % word_mod else a % word_mod

-- C's `a / b` and `a % b` on `int`: the quotient is truncated, the remainder has the sign of `a`.
unfoldable pub quot32 : ℕ → ℕ → ℕ
quot32 a b =
    if is_neg a
    then (if is_neg b then abs32 a / abs32 b else neg32 (abs32 a / abs32 b))
    else (if is_neg b then neg32 (abs32 a / abs32 b) else abs32 a / abs32 b)

unfoldable pub rem32 : ℕ → ℕ → ℕ
rem32 a b = if is_neg a then neg32 (abs32 a % abs32 b) else abs32 a % abs32 b

-- The shifts of a cell. The count is taken modulo 32, as the x86 shift instructions do.
abbrev pub shl32 : ℕ → ℕ → ℕ
shl32 a k = a * 2 ^ (k % 32) % word_mod

abbrev pub shr32 : ℕ → ℕ → ℕ
shr32 a k = a / 2 ^ (k % 32)

-- An arithmetic right shift of a negative cell fills with ones.
abbrev pub sshr32 : ℕ → ℕ → ℕ
sshr32 a k = if is_neg a then not32 (not32 a / 2 ^ (k % 32)) else a / 2 ^ (k % 32)
