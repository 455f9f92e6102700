-- ===== src/Tests/AmxTests.antt =====
-- The theorems on the host's interface, applied.
use samp_plugin_crashdetect.Prelude.{
  refl, ℕ, ◌+◌, ◌*◌, ◌≤◌, ◌<◌, ◌≡◌, ◌⊎◌, ◌↔◌, arith, none, some, [], ◌∷◌, if◌then◌else◌, ◌==◌,
}
use samp_plugin_crashdetect.Amx.Error.{err_none, err_index}
use samp_plugin_crashdetect.Amx.State.{World, Stub}
use samp_plugin_crashdetect.Debug.Table.{same_name}
use samp_plugin_crashdetect.Amx.Find.{name_lt, found, find_stub}
use samp_plugin_crashdetect.Amx.Find.Complete.{all_after, strictly_sorted, find_stub_finds}
use samp_plugin_crashdetect.Amx.Stack.{amx_push_array, amx_allot}
use samp_plugin_crashdetect.Amx.Stack.Argument.{Passed, amx_push_array-Passed}
use samp_plugin_crashdetect.Amx.Stack.Allot.{amx_allot_iff}
use samp_plugin_crashdetect.Amx.UserData.{amx_get_user_data, amx_set_user_data, find_slot}
use samp_plugin_crashdetect.Amx.UserData.Lookup.{get-set_user_data}
use samp_plugin_crashdetect.Tests.Samples.{idle}

get-set_user_data_example :
    let (err, s') = amx_set_user_data 5 77 ((3, 9) ∷ (0, 0) ∷ []) in
    ((err ≡ err_none)
      × (amx_get_user_data 3 s'
          ≡ (if 3 == 5 then (err_none, some 77) else amx_get_user_data 3 ((3, 9) ∷ (0, 0) ∷ []))))
    ⊎ ((find_slot 5 ((3, 9) ∷ (0, 0) ∷ []) ≡ none)
        × (find_slot 0 ((3, 9) ∷ (0, 0) ∷ []) ≡ none)
        × (err ≡ err_index)
        × (s' ≡ (3, 9) ∷ (0, 0) ∷ []))
get-set_user_data_example = get-set_user_data 5 77 3 ((3, 9) ∷ (0, 0) ∷ []) (omega arith)

amx_push_array-Passed_example :
    (addr : ℕ) × (w' : World ℕ) × (amx_push_array (42 ∷ []) idle ≡ (err_none, some addr, w'))
    × Passed 42 idle addr w'
amx_push_array-Passed_example = amx_push_array-Passed 42 idle (omega arith) (omega arith)

amx_allot_example :
    ((amx_allot 1000 idle).0 ≡ err_none) ↔ ((256 + 4 * 1000 + 64 ≤ 4000) ⊎ (4000 < 256 + 4 * 1000))
amx_allot_example = amx_allot_iff 1000 idle (omega arith) (omega arith) (omega arith)

-- Two functions, `a` and `c`
abbrev pub a_stub : Stub
a_stub = record { name = 97 ∷ []; address = 0 }

abbrev pub c_stub : Stub
c_stub = record { name = 99 ∷ []; address = 40 }

find_stub_finds_example : find_stub (99 ∷ []) (a_stub ∷ c_stub ∷ []) ≡ found 1
unfolding strictly_sorted all_after name_lt same_name
find_stub_finds_example = find_stub_finds (99 ∷ []) (a_stub ∷ c_stub ∷ []) 1 c_stub refl refl refl
