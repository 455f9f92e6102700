-- ===== src/Vm/Block.antt =====
-- Block moves, comparisons and fills (src/amx/amx.c, lines 3602 to 3641).
use samp_plugin_crashdetect.Prelude.{
  ℕ, zero, suc, ◌+◌, ◌-◌, ◌/◌, ◌%◌, Bool, ◌&&◌, ◌||◌, ltb, if◌then◌else◌, add32, slt, word_mod,
}
use samp_plugin_crashdetect.Amx.Memory.{Mem, read8, write32}
use samp_plugin_crashdetect.Amx.Error.{err_memaccess}
use samp_plugin_crashdetect.Amx.State.{World}
use samp_plugin_crashdetect.Vm.Opcode.{BlockOp, movs, cmps, fill}
use samp_plugin_crashdetect.Vm.Machine.{
  Regs, Activation, Next, running, param, skip, abort, bad_address,
}

-- `memcpy(dst,src,n)`: the byte at `dst + d`, for `d` below `n`, is the one that was at `src + d`.
unfoldable pub memcpy : Mem → ℕ → ℕ → ℕ → Mem
memcpy m dst src n q =
    let d = (q + (word_mod - dst % word_mod)) % word_mod in
    if ltb d n then read8 m (src + d) else m q

-- `for (i=(int)alt; (size_t)offs>=sizeof(cell); i+=sizeof(cell), offs-=sizeof(cell))`, with the number
-- of rounds
unfoldable pub fill_cells : ℕ → Mem → ℕ → ℕ → Mem
fill_cells zero m p v = m
fill_cells (suc n) m p v = fill_cells n (write32 m p v) (add32 p 4) v

module _ {W : Type 0} where
  -- The tests of a block's first byte and of the byte behind its last.
  unfoldable pub bad_block : Regs → World W → ℕ → ℕ → Bool
  unfolding bad_address
  bad_block r w addr offs =
      let top = add32 addr offs in
      bad_address r w addr || ((slt r.hea top && slt top r.stk) || ltb w.amx.stp top)

  unfoldable pub exec_block : BlockOp → Activation W → Regs → World W → Next W
  unfolding bad_block memcpy fill_cells
  exec_block movs c r w =
      let offs = param r w in
      let r' = skip 1 r in
      let at = λ (p : ℕ). add32 w.amx.data_ptr p in
      if bad_block r w r.pri offs || bad_block r w r.alt offs
      then abort c err_memaccess r' w
      else running r' (record w { mem = memcpy w.mem (at r.alt) (at r.pri) offs })
  exec_block cmps c r w =
      let offs = param r w in
      let r' = skip 1 r in
      let at = λ (p : ℕ). add32 w.amx.data_ptr p in
      if bad_block r w r.pri offs || bad_block r w r.alt offs
      then abort c err_memaccess r' w
      else running (record r' { pri = c.hooks.memcmp w.mem (at r.alt) (at r.pri) offs }) w
  exec_block fill c r w =
      let offs = param r w in
      let r' = skip 1 r in
      if bad_block r w r.alt offs
      then abort c err_memaccess r' w
      else running r'
          (record w { mem = fill_cells (offs / 4) w.mem (add32 w.amx.data_ptr r.alt) r.pri })
