-- ===== src/Debug/Load/Fuel.antt =====
-- The fuel of the loop that looks for more lines (src/amx/amxdbg.c, lines 162 to 176).
use samp_plugin_crashdetect.Prelude.{
  ℕ, zero, suc, ◌+◌, ◌≤◌, ◌≡◌, ◌≢◌, refl, arith, Bool, true, false, Bool-cases, inl, inr, ◌&&◌, ltb,
  if◌then◌else◌, List, [], ◌∷◌, Option, none, some, length,
}
use samp_plugin_crashdetect.Debug.Load.{read_u32}
use samp_plugin_crashdetect.Debug.Load.Block.{drop_first, overflows, skip_lines}

drop-past : (n : ℕ) (s : List ℕ) → length s ≤ n → drop_first n s ≡ []
unfolding drop_first
drop-past zero [] h = refl
drop-past zero (c ∷ s) h = absurd (omega (arith, h))
drop-past (suc n) [] h = refl
drop-past (suc n) (c ∷ s) h = drop-past n s (omega (arith, h))

round :
    (again : Option Bool) (at : ℕ) (r r' : Option ℕ)
    → (again ≡ some true → r ≡ r')
    → let x : Option ℕ = elim again [ none ↦ none | some b ↦ if b then r else some at ] in
      let x' : Option ℕ = elim again [ none ↦ none | some b ↦ if b then r' else some at ] in x ≡ x'
round none at r r' h = refl
round (some true) at r r' h = h refl
round (some false) at r r' h = refl

-- Behind the block no address is read.
past :
    (block : List ℕ) (limit codesize at : ℕ)
    → length block ≤ at
    → overflows block limit codesize at ≢ some true
unfolding overflows read_u32
past block limit codesize at h = elim (Bool-cases (ltb at limit && ltb (at + 65536) limit)) [
  | inl e ↦ rw (overflows, e, drop-past at block h) (λ k. cc)
  | inr e ↦ rw (overflows, e) (λ k. cc)
]

-- With one unit of fuel more than there are bytes behind the place, further fuel makes no difference.
skip_lines-enough :
    (fuel : ℕ) (block : List ℕ) (limit codesize at : ℕ)
    → length block ≤ at + fuel
    → skip_lines (suc fuel) block limit codesize at
      ≡ skip_lines (suc (suc fuel)) block limit codesize at
unfolding skip_lines
skip_lines-enough zero block limit codesize at h =
    round (overflows block limit codesize at) at _ _
      (λ again. absurd (past block limit codesize at (omega (arith, h)) again))
skip_lines-enough (suc fuel) block limit codesize at h =
    round (overflows block limit codesize at) at _ _
      (λ again. skip_lines-enough fuel block limit codesize (at + 524288) (omega (arith, h)))
