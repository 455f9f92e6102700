-- ===== src/Vm/Cells.antt =====
-- Zeroing, incrementing and decrementing (src/amx/amx.c, lines 3514 to 3521 and 3568 to 3601). None of
-- these stores looks for address naught.
use samp_plugin_crashdetect.Prelude.{ℕ, add32, sub32}
use samp_plugin_crashdetect.Amx.State.{World}
use samp_plugin_crashdetect.Vm.Opcode.{
  CellOp, zero, zero_s, inc_pri, inc_alt, inc, inc_s, inc_i, dec_pri, dec_alt, dec, dec_s, dec_i,
}
use samp_plugin_crashdetect.Vm.Machine.{Regs, Next, running, param, load, store, skip}

module _ {W : Type 0} where
  -- `*(cell *)(data+offs) += 1;` and `-= 1;`
  abbrev pub increment : World W → ℕ → World W
  increment w offs = store w offs (add32 (load w offs) 1)

  abbrev pub decrement : World W → ℕ → World W
  decrement w offs = store w offs (sub32 (load w offs) 1)

  unfoldable pub exec_cell : CellOp → Regs → World W → Next W
  exec_cell zero r w = running (skip 1 r) (store w (param r w) 0)
  exec_cell zero_s r w = running (skip 1 r) (store w (add32 r.frm (param r w)) 0)
  exec_cell inc_pri r w = running (record r { pri = add32 r.pri 1 }) w
  exec_cell inc_alt r w = running (record r { alt = add32 r.alt 1 }) w
  exec_cell inc r w = running (skip 1 r) (increment w (param r w))
  exec_cell inc_s r w = running (skip 1 r) (increment w (add32 r.frm (param r w)))
  exec_cell inc_i r w = running r (increment w r.pri)
  exec_cell dec_pri r w = running (record r { pri = sub32 r.pri 1 }) w
  exec_cell dec_alt r w = running (record r { alt = sub32 r.alt 1 }) w
  exec_cell dec r w = running (skip 1 r) (decrement w (param r w))
  exec_cell dec_s r w = running (skip 1 r) (decrement w (add32 r.frm (param r w)))
  exec_cell dec_i r w = running r (decrement w r.pri)
