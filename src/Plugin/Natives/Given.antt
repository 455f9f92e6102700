-- ===== src/Plugin/Natives/Given.antt =====
-- The text that a script gets from `GetBacktrace` (src/natives.cpp, lines 44 to 57).
use samp_plugin_crashdetect.Prelude.{
  ℕ, ◌+◌, ◌-◌, ◌*◌, ◌<◌, ◌≤◌, ◌≡◌, ◌∙◌, ap, sym, refl, arith, true, false, ◌==◌, Option, none, some,
  List, [], ◌∷◌, ◌++◌, add32, Bool-cases, inl, inr, ltb, word_mod, codes,
}
use samp_plugin_crashdetect.Amx.Memory.{read32}
use samp_plugin_crashdetect.Amx.Error.{err_none}
use samp_plugin_crashdetect.Amx.Stack.{amx_get_addr}
use samp_plugin_crashdetect.Amx.CellText.{
  first, amx_set_string, set_unpacked, amx_get_string, unlimited,
}
use samp_plugin_crashdetect.Amx.CellText.Unpacked.{IsText, StartsLow, kept, length-kept, get-set}
use samp_plugin_crashdetect.Strings.{part}
use samp_plugin_crashdetect.Plugin.CallStack.{AmxCallStack}
use samp_plugin_crashdetect.Plugin.Instance.{Plugin}
use samp_plugin_crashdetect.Plugin.Natives.{give_text, get_backtrace}
use samp_plugin_crashdetect.Trace.Backtrace.{Surroundings, prepend, print_amx_backtrace}

-- The characters of a text are bytes.
abbrev pub Bytes : List ℕ → Type 0
Bytes [] = Unit
Bytes (c ∷ s) = (c < 256) × Bytes s

part-IsText : (s : List ℕ) → Bytes s → IsText (part 0 s)
unfolding part
part-IsText [] b = tt
part-IsText (c ∷ s) (h, b) = elim (Bool-cases (c == 0)) [
  | inl e ↦ rw e tt
  | inr e ↦ rw e (ground (arith, e), h, part-IsText s b)
]

titled :
    (o : Option (List ℕ)) (t : List ℕ)
    → prepend (codes "AMX backtrace:") o ≡ some t
    → StartsLow (part 0 t)
unfolding prepend part
titled none t e = absurd (ground (arith, e))
titled (some rest) t e =
    let same : codes "AMX backtrace:" ++ rest ≡ t = cc in rw (sym same) (omega arith)

starts :
    (s : Surroundings) (calls : AmxCallStack) (w : Plugin) (t : List ℕ)
    → (print_amx_backtrace s calls w).0 ≡ some t
    → StartsLow (part 0 t)
unfolding print_amx_backtrace part
starts s [] w t e = let same : [] ≡ t = cc in rw (sym same) tt
starts s (call ∷ calls) w t e = elim (Bool-cases (w.amx.cip == 0)) [
  | inl z ↦ let same : [] ≡ t = ground (arith, e, z) in rw (sym same) tt
  | inr z ↦ titled _ t (rw z at e)
]

given :
    (p size size' : ℕ) (t : List ℕ) (w : Plugin)
    → IsText (part 0 t)
    → StartsLow (part 0 t)
    → 0 < size
    → size < unlimited
    → p + 4 * size ≤ word_mod
    → ((give_text p size t w).0 ≡ 1)
      × (amx_get_string (give_text p size t w).1.mem p size'
          ≡ first (size' - 1) (first (size - 1) (part 0 t)))
unfolding give_text amx_set_string kept
given p size size' t w text low h u room =
    let cut : ltb size unlimited ≡ true = ground arith in
    let end = length-kept size (part 0 t) h u in
    let same : kept size (part 0 t) ≡ first (size - 1) (part 0 t) = rw cut refl in
    (
      refl,
      get-set w.mem (set_unpacked w.mem p (part 0 t) false size) p (part 0 t) size size' text low h
            (omega (arith, end, room)) refl
          ∙ ap (first (size' - 1)) same,
    )

-- A script that calls `GetBacktrace` with an address in its data section and a positive size that its
-- place in the address space has room for finds there, as `amx_GetString` reads it, the text of the
-- backtrace up to its first zero, cut to one character less than the size; the native's result is 1.
-- The characters of the backtrace are bytes.
pub get_backtrace-given :
    (s : Surroundings) (params p size' : ℕ) (w : Plugin) (t : List ℕ)
    → let size = read32 w.mem (add32 params 8) in
      amx_get_addr (read32 w.mem (add32 params 4)) w.amx ≡ (err_none, some p)
      → (print_amx_backtrace s w.host.static.call_stack w).0 ≡ some t
      → Bytes t
      → 0 < size
      → size < unlimited
      → p + 4 * size ≤ word_mod
      → let r = get_backtrace s params w in
        (r.0 ≡ 1)
        × (amx_get_string r.1.mem p size' ≡ first (size' - 1) (first (size - 1) (part 0 t)))
unfolding get_backtrace
get_backtrace-given s params p size' w t at e b h u room =
    let v = (print_amx_backtrace s w.host.static.call_stack w).1 in
    rw (get_backtrace, at, e)
      (given p (read32 w.mem (add32 params 8)) size' t v (part-IsText t b)
        (starts s w.host.static.call_stack w t e) h u room)
