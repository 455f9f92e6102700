-- ===== src/Amx/Find/Agree.antt =====
-- The two searches for a function by its name: `amx_FindPublic` (src/amx/amx.c, lines 1333 to 1385) and
-- `AMXRef::GetPublicIndex` (src/amxref.cpp, lines 95 to 115).
use samp_plugin_crashdetect.Prelude.{
  ℕ, zero, suc, ◌≡◌, ◌≢◌, refl, arith, true, Bool-cases, inl, inr, List, [], ◌∷◌, none, some,
  Option-cases, get_elem?,
}
use samp_plugin_crashdetect.Amx.State.{Stub}
use samp_plugin_crashdetect.Amx.Ref.{index_of}
use samp_plugin_crashdetect.Debug.Table.{same_name}
use samp_plugin_crashdetect.Amx.Find.{Search, found, absent, find_stub}
use samp_plugin_crashdetect.Amx.Find.Complete.{strictly_sorted, find_stub_finds}
use samp_plugin_crashdetect.Amx.Find.Sound.{Sound, hit, miss, find_stub-Sound}

-- An entry of the name, at an index.
record At (name : List ℕ) (stubs : List Stub) (i : ℕ) : Type 0 where
  entry : Stub
  there : get_elem? stubs i ≡ some entry
  named : same_name entry.name name ≡ true

index_of-At :
    (name : List ℕ) (stubs : List Stub) (i : ℕ) → index_of name stubs ≡ some i → At name stubs i
unfolding index_of
index_of-At name [] i e = cc
index_of-At name (f ∷ fs) i e = elim (Bool-cases (same_name f.name name)) [
  | inl y ↦
      let at_0 : i ≡ 0 = ground (arith, e, y) in
      rw at_0 (record { entry = f; there = refl; named = y })
  | inr n ↦ elim (Option-cases (index_of name fs)) [
    | inl none_there ↦ absurd (ground (arith, e, n, none_there))
    | inr (j, there) ↦
        let r = index_of-At name fs j there in
        let at_suc : i ≡ suc j = ground (arith, e, n, there) in
        rw at_suc (record { entry = r.entry; there = r.there; named = r.named })
  ]
]

index_of-present :
    (name : List ℕ) (stubs : List Stub) (i : ℕ) (f : Stub)
    → get_elem? stubs i ≡ some f
    → same_name f.name name ≡ true
    → index_of name stubs ≢ none
unfolding index_of
index_of-present name [] i f e n h = cc
index_of-present name (g ∷ gs) zero f e n h =
    let here : g ≡ f = cc in
    let y : same_name g.name name ≡ true = rw here n in ground (arith, h, y)
index_of-present name (g ∷ gs) (suc i) f e n h = elim (Option-cases (index_of name gs)) [
  | inl none_there ↦ index_of-present name gs i f e n none_there
  | inr (j, there) ↦ ground (arith, h, there)
]

absent_lem :
    (name : List ℕ) (stubs : List Stub) (s : Search)
    → Sound name stubs s
    → index_of name stubs ≡ none
    → s ≡ absent
absent_lem name stubs s (hit {i} {f} e n) h = absurd (index_of-present name stubs i f e n h)
absent_lem name stubs s miss h = refl

-- In a table whose names are in ascending order, `amx_FindPublic` and `AMXRef::GetPublicIndex` agree on
-- every name: both find the same index, or neither finds one.
pub find_stub-index_of :
    (name : List ℕ) (stubs : List Stub)
    → strictly_sorted stubs ≡ true
    → find_stub name stubs ≡ (elim (index_of name stubs) [ some i ↦ found i | none ↦ absent ])
find_stub-index_of name stubs s = elim (Option-cases (index_of name stubs)) [
  | inl missing ↦ rw missing (absent_lem name stubs _ (find_stub-Sound name stubs) missing)
  | inr (i, e) ↦
      let r = index_of-At name stubs i e in
      rw e (find_stub_finds name stubs i r.entry s r.there r.named)
]
