-- ===== src/Amx/Register.antt =====
-- The registration of native functions and their first call (src/amx/amx.c, lines 452 to 516 and 1574 to
-- 1615).
pub mod Resolved
use samp_plugin_crashdetect.Prelude.{
  ℕ, zero, suc, ◌+◌, Bool, true, false, not, ◌==◌, ◌&&◌, ◌||◌, slt, neg32, add32, sub32, bit_or,
  if◌then◌else◌, List, [], ◌∷◌, Option, none, some, get_elem?,
}
use samp_plugin_crashdetect.Amx.Memory.{Mem, read32, write32}
use samp_plugin_crashdetect.Amx.Error.{err_none, err_notfound, flag_ntvreg}
use samp_plugin_crashdetect.Amx.State.{Stub, Amx, World}
use samp_plugin_crashdetect.Debug.Table.{same_name}

-- `AMX_NATIVE_INFO`; the name may be a null pointer.
pub record NativeInfo : Type 0 where
  pub name : Option (List ℕ)
  pub func : ℕ

-- `findfunction` from the entry `i` on; 0 is the null pointer. Where the array ends at `number` and has no
-- null name, the entry behind it is read, but makes no difference; where it ends earlier, `none`.
unfoldable pub findfunction : List ℕ → List NativeInfo → ℕ → ℕ → Option ℕ
unfolding same_name
findfunction name [] number i = if i == number then some 0 else none
findfunction name (e ∷ list) number i =
    let rest = findfunction name list number (i + 1) in
    elim e.name [
      | none ↦ some 0
      | some n ↦
          if not (slt i number || (number == neg32 1))
          then some 0
          else if same_name name n
          then some e.func
          else rest
    ]

-- One native: its entry afterwards
unfoldable pub register_stub : Option (List NativeInfo) → ℕ → Stub → Option Stub
unfolding findfunction
register_stub list number s = if not (s.address == 0) then some s else elim list [
  | none ↦ some s
  | some l ↦ elim (findfunction s.name l number 0) [
    | none ↦ none
    | some func ↦ some (record s { address = func })
  ]
]

-- The loop: the table afterwards, and the error
unfoldable pub register_stubs : Option (List NativeInfo) → ℕ → List Stub → Option (List Stub × ℕ)
unfolding register_stub
register_stubs list number [] = some ([], err_none)
register_stubs list number (s ∷ stubs) = elim (register_stub list number s) [
  | none ↦ none
  | some s' ↦ elim (register_stubs list number stubs) [
    | none ↦ none
    | some (stubs', err) ↦ some (s' ∷ stubs', (if s'.address == 0 then err_notfound else err))
  ]
]

-- `amx_Register`; `none` where `findfunction` reads far behind the list.
unfoldable pub amx_register : Option (List NativeInfo) → ℕ → Amx → Option (ℕ × Amx)
unfolding register_stubs
amx_register list number a = elim (register_stubs list number a.header.natives) [
  | none ↦ none
  | some (stubs, err) ↦ some (
    err,
    record a {
      header = record (a.header) { natives = stubs };
      flags = if err == err_none then bit_or a.flags flag_ntvreg else a.flags;
    },
  )
]

module _ {W : Type 0} where
  -- The instruction that called, patched so that it calls the function itself
  unfoldable pub patch_call : ℕ → ℕ → World W → World W
  unfolding read32 write32
  patch_call index f w =
      let at = sub32 (add32 w.amx.code w.amx.cip) 4 in
      if not (w.amx.sysreq_d == 0) && (read32 w.mem at == index)
      then record w { mem = write32 (write32 w.mem (sub32 at 4) w.amx.sysreq_d) at f }
      else w

  -- `amx_Callback`, in a build with GCC or the assembler core: the error, `*result`, and the state. `call`
  -- is the call of a function; an index out of range or a function that was not registered is undefined.
  unfoldable pub amx_callback : (ℕ → World W → ℕ × World W) → ℕ → World W → Option (ℕ × ℕ × World W)
  unfolding patch_call
  amx_callback call index w = elim (get_elem? w.amx.header.natives index) [
    | none ↦ none
    | some s ↦
        let w₁ = patch_call index s.address w in
        let (result, w₂) =
          call s.address (record w₁ { amx = record (w₁.amx) { error = err_none } }) in
        if s.address == 0 then none else some (w₂.amx.error, result, w₂)
  ]
