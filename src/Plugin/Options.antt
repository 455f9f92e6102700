-- ===== src/Plugin/Options.antt =====
-- The option `trace` (src/options.cpp, lines 31 to 44, and src/options.h).
pub mod Flags
use samp_plugin_crashdetect.Prelude.{ℕ, ◌==◌, bit_or, if◌then◌else◌, List, [], ◌∷◌}
use samp_plugin_crashdetect.Plugin.Handler.{trace_natives, trace_publics, trace_functions}

-- The body of the `switch`: a case falls through to those below it.
unfoldable pub trace_flag : ℕ → ℕ → ℕ
trace_flag c flags =
    if c == 110
    then bit_or (bit_or (bit_or flags trace_natives) trace_publics) trace_functions
    else if c == 112
    then bit_or (bit_or flags trace_publics) trace_functions
    else if c == 102
    then bit_or flags trace_functions
    else flags

-- The loop over the string
unfoldable pub trace_flags_loop : ℕ → List ℕ → ℕ
unfolding trace_flag
trace_flags_loop flags [] = flags
trace_flags_loop flags (c ∷ s) = trace_flags_loop (trace_flag c flags) s

-- `TraceFlagsFromString`
unfoldable pub trace_flags_from_string : List ℕ → ℕ
unfolding trace_flags_loop
trace_flags_from_string s = trace_flags_loop 0 s
