-- ===== src/Amx/Register/Resolved.antt =====
-- What a registration of natives does to the table (src/amx/amx.c, lines 1575 to 1615).
use samp_plugin_crashdetect.Prelude.{
  ℕ, ◌+◌, ◌<◌, ◌≡◌, refl, arith, Bool, true, Bool-cases, inl, inr, not, ◌==◌, ◌&&◌, ◌||◌, slt,
  neg32, sign_bit, bit_or, if◌then◌else◌, List, [], ◌∷◌, Option, none, some, length, map,
}
use samp_plugin_crashdetect.Amx.Error.{err_none, err_notfound, flag_ntvreg}
use samp_plugin_crashdetect.Amx.State.{Stub, Amx}
use samp_plugin_crashdetect.Amx.Register.{
  NativeInfo, findfunction, register_stub, register_stubs, amx_register,
}
use samp_plugin_crashdetect.Debug.Table.{same_name}

-- The first function of that name in a list that ends at its first null name, 0 if there is none
unfoldable pub named : List NativeInfo → List ℕ → ℕ
named [] name = 0
named (e ∷ list) name = elim e.name [
  | none ↦ 0
  | some n ↦ if same_name name n then e.func else named list name
]

-- A native that had no address gets that of the function; the others keep theirs.
unfoldable pub resolve : List NativeInfo → Stub → Stub
resolve list s = if s.address == 0 then record s { address = named list s.name } else s

unfoldable pub all_found : List Stub → Bool
all_found [] = true
all_found (s ∷ stubs) = not (s.address == 0) && all_found stubs

findfunction_lem :
    (name : List ℕ) (list : List NativeInfo) (number i : ℕ)
    → i + length list ≡ number
    → number < sign_bit
    → findfunction name list number i ≡ some (named list name)
unfolding findfunction named
findfunction_lem name [] number i e h = let k : i == number ≡ true = ground (arith, e) in rw k refl
findfunction_lem name (e ∷ list) number i total h =
    at_name e.name (findfunction_lem name list number (i + 1) (omega (arith, total)) h)
  where
    inside : (slt i number || (number == neg32 1)) ≡ true
    inside = ground (arith, total)

    rest : Option ℕ
    rest = findfunction name list number (i + 1)

    at_name :
        (o : Option (List ℕ))
        → rest ≡ some (named list name)
        → let r : Option ℕ = elim o [
          | none ↦ some 0
          | some n ↦
              if not (slt i number || (number == neg32 1))
              then some 0
              else if same_name name n
              then some e.func
              else rest
        ] in
          let v : ℕ = elim o [
            | none ↦ 0
            | some n ↦ if same_name name n then e.func else named list name
          ] in
          r ≡ some v
    at_name none found = refl
    at_name (some n) found = elim (Bool-cases (same_name name n)) [
      | inl same ↦ rw (inside, same) refl
      | inr other ↦ rw (inside, other) found
    ]

register_stub_lem :
    (list : List NativeInfo) (s : Stub)
    → length list < sign_bit
    → register_stub (some list) (length list) s ≡ some (resolve list s)
unfolding register_stub resolve
register_stub_lem list s h = elim (Bool-cases (s.address == 0)) [
  | inl missing ↦
      rw (register_stub, missing, findfunction_lem s.name list (length list) 0 (omega arith) h) refl
  | inr kept ↦ rw kept refl
]

register_stubs_lem :
    (list : List NativeInfo) (stubs : List Stub)
    → length list < sign_bit
    → register_stubs (some list) (length list) stubs
      ≡ some (
        map (resolve list) stubs,
        (if all_found (map (resolve list) stubs) then err_none else err_notfound),
      )
unfolding register_stubs all_found
register_stubs_lem list [] h = refl
register_stubs_lem list (s ∷ stubs) h =
    rw (register_stubs, register_stub_lem list s h, register_stubs_lem list stubs h)
      (elim (Bool-cases ((resolve list s).address == 0)) [
        | inl missing ↦ rw missing refl
        | inr found ↦ rw found refl
      ])

-- Natives are registered from a list, with its length as the number: each native without an address gets
-- that of the first function of its name, the others keep theirs, and nothing else of the machine
-- changes but its flags. There is no error exactly when all natives have an address then, and in that
-- case the flag says so.
pub amx_register_lem :
    (list : List NativeInfo) (a : Amx)
    → length list < sign_bit
    → let stubs = map (resolve list) a.header.natives in
      amx_register (some list) (length list) a
      ≡ some (
        (if all_found stubs then err_none else err_notfound),
        record a {
          header = record (a.header) { natives = stubs };
          flags = if all_found stubs then bit_or a.flags flag_ntvreg else a.flags;
        },
      )
unfolding amx_register
amx_register_lem list a h =
    rw (amx_register, register_stubs_lem list a.header.natives h)
      (elim (Bool-cases (all_found (map (resolve list) a.header.natives))) [
        | inl all ↦ rw all refl
        | inr some_missing ↦ rw some_missing refl
      ])
