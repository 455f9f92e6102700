-- ===== src/Plugin/Options/Flags.antt =====
-- Which functions are traced for an option (src/options.cpp, lines 31 to 44).
use samp_plugin_crashdetect.Prelude.{
  ℕ, ◌≡◌, refl, arith, Bool, true, false, ◌==◌, ◌||◌, if◌then◌else◌, List, [], ◌∷◌,
}
use samp_plugin_crashdetect.Plugin.Options.{trace_flag, trace_flags_loop, trace_flags_from_string}

-- The string has the character.
unfoldable pub has : ℕ → List ℕ → Bool
has c [] = false
has c (d ∷ s) = (d == c) || has c s

-- What the flags are worth from least to most: none, functions, publics too, natives too.
abbrev pub level : Bool → Bool → Bool → ℕ
level n p f = if n then 7 else if p then 6 else if f then 4 else 0

flag-level :
    (c : ℕ) (n p f : Bool)
    → trace_flag c (level n p f) ≡ level (n || (c == 110)) (p || (c == 112)) (f || (c == 102))
unfolding trace_flag
flag-level c true true true = ground arith
flag-level c true true false = ground arith
flag-level c true false true = ground arith
flag-level c true false false = ground arith
flag-level c false true true = ground arith
flag-level c false true false = ground arith
flag-level c false false true = ground arith
flag-level c false false false = ground arith

or_assoc : (a b c : Bool) → (a || b) || c ≡ a || (b || c)
or_assoc true b c = refl
or_assoc false b c = refl

or_false : (a : Bool) → a || false ≡ a
or_false true = refl
or_false false = refl

loop-level :
    (s : List ℕ) (n p f : Bool)
    → trace_flags_loop (level n p f) s ≡ level (n || has 110 s) (p || has 112 s) (f || has 102 s)
unfolding trace_flags_loop has
loop-level [] n p f = rw (or_false n, or_false p, or_false f) refl
loop-level (c ∷ s) n p f =
    rw
      (
        flag-level c n p f,
        loop-level s (n || (c == 110)) (p || (c == 112)) (f || (c == 102)),
        or_assoc n (c == 110) (has 110 s),
        or_assoc p (c == 112) (has 112 s),
        or_assoc f (c == 102) (has 102 s),
      )
      refl

-- The flags of a string: with an `n` in it all three, otherwise with a `p` publics and functions,
-- otherwise with an `f` functions, otherwise none, whatever else it holds and in whatever order.
pub trace_flags-level :
    (s : List ℕ) → trace_flags_from_string s ≡ level (has 110 s) (has 112 s) (has 102 s)
unfolding trace_flags_from_string
trace_flags-level s = loop-level s false false false
