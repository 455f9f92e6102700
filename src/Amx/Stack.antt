-- ===== src/Amx/Stack.antt =====
-- The heap and stack functions of the host API (src/amx/amx.c, lines 1630 to 1664 and 3826 to 3876).
-- The assertions and null checks of pointers that every caller passes are left out.
pub mod Argument
pub mod Allot
use samp_plugin_crashdetect.Prelude.{
  ℕ, ◌+◌, ◌&&◌, ◌||◌, Option, none, some, List, [], ◌∷◌, ltb, if◌then◌else◌, add32, sub32, slt, sle,
  length, is_neg, mul32,
}
use samp_plugin_crashdetect.Amx.Memory.{Mem, write32}
use samp_plugin_crashdetect.Amx.Error.{err_none, err_stackerr, err_memory, err_memaccess}
use samp_plugin_crashdetect.Amx.State.{Amx, World}

-- `STKMARGIN`, 16 cells
abbrev pub stkmargin : ℕ
stkmargin = 64

-- `memcpy(paddr,array,numcells*sizeof(cell))`
unfoldable pub copy_cells : Mem → ℕ → List ℕ → Mem
copy_cells m p [] = m
copy_cells m p (v ∷ vs) = copy_cells (write32 m p v) (add32 p 4) vs

-- `amx_GetAddr`: the physical address, or AMX_ERR_MEMACCESS for the gap between heap and stack
-- and for what lies outside the data section.
unfoldable pub amx_get_addr : ℕ → Amx → ℕ × Option ℕ
amx_get_addr addr a =
    if (sle a.hea addr && slt addr a.stk) || (is_neg addr || sle a.stp addr)
    then (err_memaccess, none)
    else (err_none, some (add32 a.data_ptr addr))

module _ {W : Type 0} where
  -- The comparison is one of signed cells.
  unfoldable pub amx_push : ℕ → World W → ℕ × World W
  amx_push value w =
      let a = w.amx in
      let stk = sub32 a.stk 4 in
      if slt a.stk (add32 a.hea stkmargin) then (err_stackerr, w) else (
        err_none,
        record w {
          amx = record a { stk = stk; paramcount = a.paramcount + 1 };
          mem = write32 w.mem (add32 a.data_ptr stk) value;
        },
      )

  -- `amx_Allot`: the second component is `*amx_addr`, unset on an error. The size `cells*sizeof(cell)`
  -- is unsigned, so the whole comparison is one of unsigned numbers.
  unfoldable pub amx_allot : ℕ → World W → ℕ × Option ℕ × World W
  amx_allot cells w =
      let a = w.amx in
      if ltb (sub32 (sub32 a.stk a.hea) (mul32 cells 4)) stkmargin
      then (err_memory, none, w)
      else (err_none, some a.hea, record w { amx = record a { hea = add32 a.hea (mul32 cells 4) } })

  -- `amx_Release`
  unfoldable pub amx_release : ℕ → World W → World W
  amx_release addr w =
      let a = w.amx in if slt addr a.hea then record w { amx = record a { hea = addr } } else w

  -- `amx_PushArray`: the address of the copy is unset where `amx_Allot` fails.
  unfoldable pub amx_push_array : List ℕ → World W → ℕ × Option ℕ × World W
  unfolding copy_cells
  amx_push_array array w =
      let (err, addr, w₁) = amx_allot (length array) w in
      elim addr [
        | none ↦ (err, none, w₁)
        | some p ↦
            let w₂ : World W = record w₁ {
              mem = copy_cells w₁.mem (add32 w₁.amx.data_ptr p) array;
            } in
            let (err', w₃) = amx_push p w₂ in (err', some p, w₃)
      ]
