-- ===== src/Strings.antt =====
-- `SplitString` (src/stringutils.cpp, lines 37 to 49). A string is its bytes, and the place `begin` the
-- rest of the string from there on.
pub mod Joined
use samp_plugin_crashdetect.Prelude.{ℕ, zero, suc, ◌==◌, if◌then◌else◌, List, [], ◌∷◌, length}

-- The part up to the delimiter, or up to the end if there is none
unfoldable pub part : ℕ → List ℕ → List ℕ
part delim [] = []
part delim (c ∷ s) = let rest = part delim s in if c == delim then [] else c ∷ rest

-- `begin = end + 1`
unfoldable pub behind : ℕ → List ℕ → List ℕ
behind delim [] = []
behind delim (c ∷ s) = let rest = behind delim s in if c == delim then s else rest

-- The loop; each round takes at least one character off.
unfoldable pub split_loop : ℕ → ℕ → List ℕ → List (List ℕ)
unfolding part behind
split_loop delim zero s = []
split_loop delim (suc fuel) [] = []
split_loop delim (suc fuel) (c ∷ s) =
    part delim (c ∷ s) ∷ split_loop delim fuel (behind delim (c ∷ s))

unfoldable pub split_string : ℕ → List ℕ → List (List ℕ)
unfolding split_loop
split_string delim s = split_loop delim (length s) s
