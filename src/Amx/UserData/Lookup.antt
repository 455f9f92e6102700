-- ===== src/Amx/UserData/Lookup.antt =====
-- What a lookup finds after a store in the user-data table (src/amx/amx.c, lines 1537 to 1571).
use samp_plugin_crashdetect.Prelude.{
  ℕ, zero, suc, ◌≡◌, ◌≢◌, arith, none, some, [], ◌∷◌, ◌==◌, if◌then◌else◌, set, inl, inr, ◌⊎◌,
  Option-cases,
}
use samp_plugin_crashdetect.Amx.Error.{err_none, err_index}
use samp_plugin_crashdetect.Amx.UserData.{Slots, find_slot, amx_get_user_data, amx_set_user_data}

find_slot-cons_ne :
    (tag t p : ℕ) (s : Slots) (i : ℕ)
    → t ≢ tag
    → find_slot tag ((t, p) ∷ s) ≡ some (suc i)
    → find_slot tag s ≡ some i
unfolding find_slot
find_slot-cons_ne tag t p s i ne h = ground arith

get-set_found :
    (tag ptr k : ℕ) (s : Slots) (i : ℕ)
    → find_slot tag s ≡ some i
    → amx_get_user_data k (set s i (tag, ptr))
      ≡ (if k == tag then (err_none, some ptr) else amx_get_user_data k s)
unfolding find_slot amx_get_user_data
get-set_found tag ptr k [] i h = cc
get-set_found tag ptr k ((t, p) ∷ s) zero h = ground (arith)
get-set_found tag ptr k ((t, p) ∷ s) (suc i) h =
    ground (arith, find_slot-cons_ne tag t p s i, get-set_found tag ptr k s i)

get-set_free :
    (tag ptr k : ℕ) (s : Slots) (i : ℕ)
    → k ≢ 0
    → find_slot tag s ≡ none
    → find_slot 0 s ≡ some i
    → amx_get_user_data k (set s i (tag, ptr))
      ≡ (if k == tag then (err_none, some ptr) else amx_get_user_data k s)
unfolding find_slot amx_get_user_data
get-set_free tag ptr k [] i k0 n h = cc
get-set_free tag ptr k ((t, p) ∷ s) zero k0 n h = ground (arith)
get-set_free tag ptr k ((t, p) ∷ s) (suc i) k0 n h =
    ground (arith, find_slot-cons_ne 0 t p s i, get-set_free tag ptr k s i k0)

-- Storing a pointer under a non-zero tag in a table with room for it succeeds, the pointer is read
-- back under that tag, and every other non-zero tag reads as before. In a table with neither the tag
-- nor a free slot the store fails with AMX_ERR_INDEX and changes nothing.
pub get-set_user_data :
    (tag ptr k : ℕ) (s : Slots)
    → k ≢ 0
    → let (err, s') = amx_set_user_data tag ptr s in
      ((err ≡ err_none)
        × (amx_get_user_data k s'
            ≡ (if k == tag then (err_none, some ptr) else amx_get_user_data k s)))
      ⊎ ((find_slot tag s ≡ none) × (find_slot 0 s ≡ none) × (err ≡ err_index) × (s' ≡ s))
unfolding amx_set_user_data
get-set_user_data tag ptr k s k0 = elim (Option-cases (find_slot tag s)) [
  | inr (i, found) ↦ inl (ground arith, ground (arith, get-set_found tag ptr k s i found))
  | inl absent ↦ elim (Option-cases (find_slot 0 s)) [
    | inr (i, free) ↦ inl (ground arith, ground (arith, get-set_free tag ptr k s i k0 absent free))
    | inl full ↦ inr (absent, full, ground arith, ground arith)
  ]
]
