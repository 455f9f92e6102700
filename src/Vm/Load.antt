-- ===== src/Vm/Load.antt =====
-- Loads and constants (src/amx/amx.c, lines 2955 to 3031).
use samp_plugin_crashdetect.Prelude.{ℕ, ◌==◌, if◌then◌else◌, add32}
use samp_plugin_crashdetect.Amx.Memory.{read8, read16}
use samp_plugin_crashdetect.Amx.Error.{err_memaccess}
use samp_plugin_crashdetect.Amx.State.{World}
use samp_plugin_crashdetect.Vm.Opcode.{
  LoadOp, load_pri, load_alt, load_s_pri, load_s_alt, lref_pri, lref_alt, lref_s_pri, lref_s_alt,
  load_i, lodb_i, const_pri, const_alt, addr_pri, addr_alt,
}
use samp_plugin_crashdetect.Vm.Machine.{
  Regs, Activation, Next, running, param, load, skip, abort, bad_address,
}

module _ {W : Type 0} where
  -- `LREF.S` stores `frm` and `stk` in the AMX structure before the access.
  abbrev pub sync_frame : Regs → World W → World W
  sync_frame r w = record w { amx = record (w.amx) { frm = r.frm; stk = r.stk } }

  -- The width of `LODB.I`; another width leaves `pri` alone.
  unfoldable pub load_width : ℕ → Regs → World W → ℕ
  load_width n r w =
      if n == 1
      then read8 w.mem (add32 w.amx.data_ptr r.pri)
      else if n == 2
      then read16 w.mem (add32 w.amx.data_ptr r.pri)
      else if n == 4
      then load w r.pri
      else r.pri

  unfoldable pub exec_load : LoadOp → Activation W → Regs → World W → Next W
  unfolding load_width
  exec_load load_pri c r w = running (record (skip 1 r) { pri = load w (param r w) }) w
  exec_load load_alt c r w = running (record (skip 1 r) { alt = load w (param r w) }) w
  exec_load load_s_pri c r w =
      running (record (skip 1 r) { pri = load w (add32 r.frm (param r w)) }) w
  exec_load load_s_alt c r w =
      running (record (skip 1 r) { alt = load w (add32 r.frm (param r w)) }) w
  exec_load lref_pri c r w = running (record (skip 1 r) { pri = load w (load w (param r w)) }) w
  exec_load lref_alt c r w = running (record (skip 1 r) { alt = load w (load w (param r w)) }) w
  exec_load lref_s_pri c r w =
      running (record (skip 1 r) { pri = load w (load w (add32 r.frm (param r w))) })
        (sync_frame r w)
  exec_load lref_s_alt c r w =
      running (record (skip 1 r) { alt = load w (load w (add32 r.frm (param r w))) })
        (sync_frame r w)
  exec_load load_i c r w =
      if bad_address r w r.pri
      then abort c err_memaccess r w
      else running (record r { pri = load w r.pri }) w
  exec_load lodb_i c r w =
      let r' = skip 1 r in
      if bad_address r w r.pri
      then abort c err_memaccess r' w
      else running (record r' { pri = load_width (param r w) r w }) w
  exec_load const_pri c r w = running (record (skip 1 r) { pri = param r w }) w
  exec_load const_alt c r w = running (record (skip 1 r) { alt = param r w }) w
  exec_load addr_pri c r w = running (record (skip 1 r) { pri = add32 (param r w) r.frm }) w
  exec_load addr_alt c r w = running (record (skip 1 r) { alt = add32 (param r w) r.frm }) w
