-- ===== src/Amx/Find.antt =====
-- The binary search for a public or native function by its name (src/amx/amx.c, lines 1277 to 1385).
pub mod Sound
pub mod Complete
pub mod Agree
use samp_plugin_crashdetect.Prelude.{
  ℕ, zero, suc, ◌+◌, ◌-◌, ◌/◌, Bool, true, false, ◌==◌, ltb, if◌then◌else◌, List, [], ◌∷◌, Option,
  none, some, get_elem?, length,
}
use samp_plugin_crashdetect.Amx.Error.{err_none, err_notfound}
use samp_plugin_crashdetect.Amx.State.{Stub, Amx}

-- `strcmp(a,b) < 0`, on unsigned bytes
unfoldable pub name_lt : List ℕ → List ℕ → Bool
name_lt [] [] = false
name_lt [] (b ∷ q) = true
name_lt (a ∷ p) [] = false
name_lt (a ∷ p) (b ∷ q) = let rest = name_lt p q in if a == b then rest else ltb a b

-- How the loop ends; `overrun` is a read outside the table or more than `fuel` rounds.
pub data Search : Type 0 where
  found : ℕ → Search
  absent : Search
  overrun : Search

-- The loop. `past` is `last + 1`, so that `last` may be -1.
unfoldable pub bisect : ℕ → List ℕ → List Stub → ℕ → ℕ → Search
unfolding name_lt
bisect zero name stubs first past = if ltb first past then overrun else absent
bisect (suc fuel) name stubs first past =
    let mid = (first + (past - 1)) / 2 in
    let lower = bisect fuel name stubs first mid in
    let upper = bisect fuel name stubs (mid + 1) past in
    if ltb first past
    then (elim (get_elem? stubs mid) [
      | none ↦ overrun
      | some f ↦
          if name_lt name f.name then lower else if name_lt f.name name then upper else found mid
    ])
    else absent

-- The search in a table, with the table's length as fuel.
unfoldable pub find_stub : List ℕ → List Stub → Search
unfolding bisect
find_stub name stubs = bisect (length stubs) name stubs 0 (length stubs)

-- `amx_FindPublic` and `amx_FindNative`: the code, and the index, INT_MAX where there is none. `none` is
-- an overrun.
abbrev pub search_result : Search → Option (ℕ × ℕ)
search_result (found i) = some (err_none, i)
search_result absent = some (err_notfound, 2147483647)
search_result overrun = none

unfoldable pub amx_find_public : List ℕ → Amx → Option (ℕ × ℕ)
amx_find_public name a = search_result (find_stub name a.header.publics)

unfoldable pub amx_find_native : List ℕ → Amx → Option (ℕ × ℕ)
amx_find_native name a = search_result (find_stub name a.header.natives)
