-- ===== src/Amx/Ref.antt =====
-- What the plugin asks a machine about its tables and its stack (src/amxref.cpp, lines 63 to 168).
use samp_plugin_crashdetect.Prelude.{
  ℕ, suc, Bool, ◌==◌, ◌&&◌, sle, if◌then◌else◌, List, [], ◌∷◌, Option, none, some, get_elem?, codes,
}
use samp_plugin_crashdetect.Amx.Error.{exec_main}
use samp_plugin_crashdetect.Amx.State.{Stub, Amx}
use samp_plugin_crashdetect.Debug.Table.{same_name, find}

-- The loop of `GetPublicIndex` and `GetNativeIndex`: the first entry of the name; `none` is -1.
unfoldable pub index_of : List ℕ → List Stub → Option ℕ
unfolding same_name
index_of name [] = none
index_of name (f ∷ fs) =
    let rest = index_of name fs in
    if same_name f.name name then some 0 else elim rest [ none ↦ none | some i ↦ some (suc i) ]

unfoldable pub get_public_index : List ℕ → Amx → Option ℕ
unfolding index_of
get_public_index name a = index_of name a.header.publics

unfoldable pub get_native_index : List ℕ → Amx → Option ℕ
unfolding index_of
get_native_index name a = index_of name a.header.natives

-- `GetNativeAddress`: 0 for an index out of range, a negative one included.
unfoldable pub get_native_address : ℕ → Amx → ℕ
get_native_address index a = elim (get_elem? a.header.natives index) [
  | none ↦ 0
  | some f ↦ f.address
]

-- `GetPublicAddress`: the index -1 stands for `main`.
unfoldable pub get_public_address : ℕ → Amx → ℕ
get_public_address index a = elim (get_elem? a.header.publics index) [
  | some f ↦ f.address
  | none ↦ if index == exec_main then a.header.entry else 0
]

-- `GetNativeName`: `none` is the null pointer.
unfoldable pub get_native_name : ℕ → Amx → Option (List ℕ)
get_native_name index a = elim (get_elem? a.header.natives index) [
  | none ↦ none
  | some f ↦ some f.name
]

-- `FindPublic` and `FindNative`: the name of the first entry at the address
unfoldable pub find_public : Amx → ℕ → Option (List ℕ)
unfolding find
find_public a address = elim (find (λ f. Stub.address f == address) a.header.publics) [
  | none ↦ none
  | some f ↦ some f.name
]

unfoldable pub find_native : Amx → ℕ → Option (List ℕ)
unfolding find
find_native a address = elim (find (λ f. Stub.address f == address) a.header.natives) [
  | none ↦ none
  | some f ↦ some f.name
]

-- `GetPublicName`
unfoldable pub get_public_name : ℕ → Amx → Option (List ℕ)
get_public_name index a = elim (get_elem? a.header.publics index) [
  | some f ↦ some f.name
  | none ↦ if index == exec_main then some (codes "main") else none
]

-- `CheckStack`
unfoldable pub check_stack : Amx → Bool
check_stack a = sle a.hea a.stk && sle a.stk a.stp
