-- ===== src/Amx/UserData.antt =====
-- The user-data slots (src/amx/amx.c, lines 1536 to 1571), and the slot that holds the plugin's hooks
-- (lines 1709 to 1723). The table has `AMX_USERNUM` entries; a free entry has tag 0.
pub mod Lookup
use samp_plugin_crashdetect.Prelude.{
  ℕ, suc, Option, none, some, List, [], ◌∷◌, ◌==◌, if◌then◌else◌, set,
}
use samp_plugin_crashdetect.Amx.Error.{err_none, err_userdata, err_index}

abbrev pub Slots : Type 0
Slots = List (ℕ × ℕ)

-- The first slot whose tag is `tag`, as `for (index=0; index<AMX_USERNUM && ...; index++)` finds it.
unfoldable pub find_slot : ℕ → Slots → Option ℕ
find_slot tag [] = none
find_slot tag ((t, p) ∷ s) =
    if t == tag then some 0 else elim (find_slot tag s) [ none ↦ none | some i ↦ some (suc i) ]

-- `amx_GetUserData`
unfoldable pub amx_get_user_data : ℕ → Slots → ℕ × Option ℕ
amx_get_user_data tag [] = (err_userdata, none)
amx_get_user_data tag ((t, p) ∷ s) =
    if t == tag then (err_none, some p) else amx_get_user_data tag s

-- `amx_SetUserData`: the slot of the tag, or the first free one.
unfoldable pub amx_set_user_data : ℕ → ℕ → Slots → ℕ × Slots
unfolding find_slot
amx_set_user_data tag ptr s = elim (find_slot tag s) [
  | some i ↦ (err_none, set s i (tag, ptr))
  | none ↦ elim (find_slot 0 s) [ some i ↦ (err_none, set s i (tag, ptr)) | none ↦ (err_index, s) ]
]

-- `AMX_USERTAG('c','d','e','h')`
abbrev pub hooks_tag : ℕ
hooks_tag = 0x68656463

-- `amx_GetExtHooks`, `amx_SetExtHooks`
unfoldable pub amx_get_ext_hooks : Slots → ℕ × Option ℕ
unfolding amx_get_user_data
amx_get_ext_hooks s = amx_get_user_data hooks_tag s

unfoldable pub amx_set_ext_hooks : ℕ → Slots → ℕ × Slots
unfolding amx_set_user_data
amx_set_ext_hooks hooks s = amx_set_user_data hooks_tag hooks s
