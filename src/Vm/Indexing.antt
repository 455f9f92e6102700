-- ===== src/Vm/Indexing.antt =====
-- Array indexing and alignment (src/amx/amx.c, lines 3115 to 3150), on a little-endian machine.
use samp_plugin_crashdetect.Prelude.{ℕ, ◌-◌, ltb, if◌then◌else◌, add32, mul32, shl32, bit_xor}
use samp_plugin_crashdetect.Amx.Error.{err_memaccess}
use samp_plugin_crashdetect.Amx.State.{World}
use samp_plugin_crashdetect.Vm.Opcode.{
  IndexOp, lidx, lidx_b, idxaddr, idxaddr_b, align_pri, align_alt,
}
use samp_plugin_crashdetect.Vm.Machine.{
  Regs, Activation, Next, running, param, load, skip, abort, bad_address,
}

-- `if ((size_t)offs<sizeof(cell)) v ^= sizeof(cell)-offs;`
unfoldable pub align : ℕ → ℕ → ℕ
align v offs = if ltb offs 4 then bit_xor v (4 - offs) else v

module _ {W : Type 0} where
  -- `offs` is verified, and the cell there loaded.
  unfoldable pub load_element : Activation W → ℕ → Regs → World W → Next W
  load_element c offs r w =
      if bad_address r w offs
      then abort c err_memaccess r w
      else running (record r { pri = load w offs }) w

  unfoldable pub exec_index : IndexOp → Activation W → Regs → World W → Next W
  unfolding align load_element
  exec_index lidx c r w = load_element c (add32 (mul32 r.pri 4) r.alt) r w
  exec_index lidx_b c r w = load_element c (add32 (shl32 r.pri (param r w)) r.alt) (skip 1 r) w
  exec_index idxaddr c r w = running (record r { pri = add32 (mul32 r.pri 4) r.alt }) w
  exec_index idxaddr_b c r w =
      running (record (skip 1 r) { pri = add32 (shl32 r.pri (param r w)) r.alt }) w
  exec_index align_pri c r w = running (record (skip 1 r) { pri = align r.pri (param r w) }) w
  exec_index align_alt c r w = running (record (skip 1 r) { alt = align r.alt (param r w) }) w
