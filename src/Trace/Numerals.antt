-- ===== src/Trace/Numerals.antt =====
-- How the standard library's streams print cells, and the texts that the stack trace puts together
-- (src/amxstacktrace.cpp, lines 447 to 451).
use samp_plugin_crashdetect.Prelude.{
  ℕ, zero, suc, ◌+◌, ◌/◌, ◌%◌, ◌==◌, ltb, if◌then◌else◌, is_neg, abs32, List, [], ◌∷◌, ◌++◌,
}

-- A digit, in lower case
unfoldable pub digit : ℕ → ℕ
digit d = if ltb d 10 then 48 + d else 87 + d

-- The last `width` digits in a base, with leading zeros
unfoldable pub digits : ℕ → ℕ → ℕ → List ℕ
unfolding digit
digits base zero n = []
digits base (suc width) n = digits base width (n / base) ++ digit (n % base) ∷ []

-- A decimal without leading zeros, of at most `width` digits
unfoldable pub decimal : ℕ → ℕ → List ℕ
unfolding digit
decimal zero n = []
decimal (suc width) n =
    let rest = decimal width (n / 10) in
    if n / 10 == 0 then digit (n % 10) ∷ [] else rest ++ digit (n % 10) ∷ []

-- `<<` of a `cell`
unfoldable pub print_cell : ℕ → List ℕ
unfolding decimal
print_cell v = if is_neg v then 45 ∷ decimal 10 (abs32 v) else decimal 10 v

-- `PrintAddress`
unfoldable pub print_address : ℕ → List ℕ
unfolding digits
print_address address = digits 16 8 address
