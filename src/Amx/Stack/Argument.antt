-- ===== src/Amx/Stack/Argument.antt =====
-- An array that the host passes by reference (src/amx/amx.c, lines 1630 to 1664 and 3848 to 3876).
use samp_plugin_crashdetect.Prelude.{
  ℕ, ◌+◌, ◌%◌, ◌<◌, ◌≤◌, ◌≡◌, refl, arith, some, [], ◌∷◌, sign_bit, word_mod, add32, sub32, ◌∙◌,
}
use samp_plugin_crashdetect.Amx.Memory.{read32, write32, read32-write32, read32-write32_ne}
use samp_plugin_crashdetect.Amx.Error.{err_none}
use samp_plugin_crashdetect.Amx.State.{World}
use samp_plugin_crashdetect.Amx.Stack.{amx_push, amx_push_array, amx_allot, amx_release, copy_cells}

module _ {W : Type 0} where
  -- What a call of `amx_PushArray` for one cell `v` has done to `w`: the address it gives is the old top
  -- of the heap, the cell there is `v`, the address is on the stack, and stack and heap have each grown
  -- by a cell.
  pub record Passed (v : ℕ) (w : World W) (addr : ℕ) (w' : World W) : Type 0 where
    pub at_heap : addr ≡ w.amx.hea
    pub cell : read32 w'.mem (add32 w.amx.data_ptr addr) ≡ v % word_mod
    pub argument : read32 w'.mem (add32 w.amx.data_ptr w'.amx.stk) ≡ addr % word_mod
    pub stack : w'.amx.stk + 4 ≡ w.amx.stk
    pub heap : w'.amx.hea ≡ w.amx.hea + 4
    pub counted : w'.amx.paramcount ≡ w.amx.paramcount + 1
    pub undone : (amx_release addr w').amx.hea ≡ w.amx.hea

  -- Stack and heap are in the lower half of the address space and at least 68 bytes apart: then a cell
  -- is passed by reference, and releasing its address restores the heap.
  pub amx_push_array-Passed :
      (v : ℕ) (w : World W)
      → w.amx.hea + 68 ≤ w.amx.stk
      → w.amx.stk < sign_bit
      → (addr : ℕ) × (w' : World W) × (amx_push_array (v ∷ []) w ≡ (err_none, some addr, w'))
        × Passed v w addr w'
  unfolding amx_push_array amx_allot amx_push amx_release copy_cells
  amx_push_array-Passed v w apart low =
      let a = w.amx in
      let p = add32 a.data_ptr a.hea in
      let q = add32 a.data_ptr (sub32 a.stk 4) in
      let m = write32 w.mem p v in
      let w' : World W = record w {
        amx = record a { hea = add32 a.hea 4; stk = sub32 a.stk 4; paramcount = a.paramcount + 1 };
        mem = write32 m q a.hea;
      } in
      let kept : read32 (write32 m q a.hea) p ≡ read32 m p =
        read32-write32_ne m q p a.hea (omega arith, omega arith) in
      (
        a.hea,
        w',
        ground arith,
        record {
          at_heap = refl;
          cell = kept ∙ read32-write32 w.mem p v;
          argument = read32-write32 m q a.hea;
          stack = omega arith;
          heap = omega arith;
          counted = refl;
          undone = ground arith;
        },
      )
