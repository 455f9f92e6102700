-- ===== src/Vm/Store.antt =====
-- Stores (src/amx/amx.c, lines 3032 to 3114). Each of them looks for address naught first.
use samp_plugin_crashdetect.Prelude.{ℕ, ◌==◌, if◌then◌else◌, add32}
use samp_plugin_crashdetect.Amx.Memory.{write8, write16}
use samp_plugin_crashdetect.Amx.Error.{err_memaccess}
use samp_plugin_crashdetect.Amx.State.{World}
use samp_plugin_crashdetect.Vm.Opcode.{
  StoreOp, stor_pri, stor_alt, stor_s_pri, stor_s_alt, sref_pri, sref_alt, sref_s_pri, sref_s_alt,
  stor_i, strb_i,
}
use samp_plugin_crashdetect.Vm.Machine.{
  Regs, Activation, Next, running, param, load, store, skip, abort, bad_address, chknaught,
}
use samp_plugin_crashdetect.Vm.Load.{sync_frame}

module _ {W : Type 0} where
  -- The width of `STRB.I`; another width stores nothing.
  unfoldable pub store_width : ℕ → Regs → World W → World W
  store_width n r w =
      if n == 1
      then record w { mem = write8 w.mem (add32 w.amx.data_ptr r.alt) r.pri }
      else if n == 2
      then record w { mem = write16 w.mem (add32 w.amx.data_ptr r.alt) r.pri }
      else if n == 4
      then store w r.alt r.pri
      else w

  -- `if (offs==0) CHKNAUGHT(); *(cell *)(data+offs)=v;`
  unfoldable pub checked_store : Activation W → ℕ → ℕ → Regs → World W → Next W
  unfolding chknaught
  checked_store c offs v r w = chknaught c offs r w (λ w'. running r (store w' offs v))

  unfoldable pub exec_store : StoreOp → Activation W → Regs → World W → Next W
  unfolding checked_store store_width
  exec_store stor_pri c r w = checked_store c (param r w) r.pri (skip 1 r) w
  exec_store stor_alt c r w = checked_store c (param r w) r.alt (skip 1 r) w
  exec_store stor_s_pri c r w = checked_store c (add32 r.frm (param r w)) r.pri (skip 1 r) w
  exec_store stor_s_alt c r w = checked_store c (add32 r.frm (param r w)) r.alt (skip 1 r) w
  exec_store sref_pri c r w = checked_store c (load w (param r w)) r.pri (skip 1 r) (sync_frame r w)
  exec_store sref_alt c r w = checked_store c (load w (param r w)) r.alt (skip 1 r) (sync_frame r w)
  exec_store sref_s_pri c r w =
      checked_store c (load w (add32 r.frm (param r w))) r.pri (skip 1 r) w
  exec_store sref_s_alt c r w =
      checked_store c (load w (add32 r.frm (param r w))) r.alt (skip 1 r) w
  exec_store stor_i c r w =
      if bad_address r w r.alt then abort c err_memaccess r w else checked_store c r.alt r.pri r w
  exec_store strb_i c r w =
      let r' = skip 1 r in
      if bad_address r w r.alt
      then abort c err_memaccess r' w
      else chknaught c r.alt r' w (λ w'. running r' (store_width (param r w) r w'))
