-- ===== src/Vm/StackOps.antt =====
-- Register moves, the stack, the heap, and calls (src/amx/amx.c, lines 3246 to 3326 and 3744 to 3757).
use samp_plugin_crashdetect.Prelude.{ℕ, zero, suc, leb, if◌then◌else◌, add32, sub32}
use samp_plugin_crashdetect.Amx.Memory.{read32}
use samp_plugin_crashdetect.Amx.Error.{err_memaccess}
use samp_plugin_crashdetect.Amx.State.{World}
use samp_plugin_crashdetect.Vm.Opcode
use samp_plugin_crashdetect.Vm.Opcode.{
  StackOp, move_pri, move_alt, xchg, push_pri, push_alt, push_c, push_r, push_s, pop_pri, pop_alt,
  stack, heap, proc, ret, retn, call, swap_pri, swap_alt, pushaddr,
}
use samp_plugin_crashdetect.Vm.Machine.{
  Regs, Activation, Next, running, param, load, store, skip, drop, abort, chkmargin, chkstack,
  chkheap,
}
use samp_plugin_crashdetect.Vm.Machine.{push as push_cell}

module _ {W : Type 0} where
  -- `while (offs--) PUSH(pri);`
  unfoldable pub push_repeat : ℕ → Regs → World W → Next W
  push_repeat zero r w = running r w
  push_repeat (suc n) r w =
      let stk = sub32 r.stk 4 in push_repeat n (record r { stk = stk }) (store w stk r.pri)

  -- `RET` up to the jump: `POP(frm); POP(offs);` and the check of the return address against
  -- `codesize`.
  unfoldable pub leave : Activation W → Regs → World W → (Regs → Next W) → Next W
  leave c r w k =
      let frm = load w r.stk in
      let offs = load w (add32 r.stk 4) in
      let r' = record r { frm = frm; stk = add32 r.stk 8 } in
      if leb (sub32 w.amx.header.dat w.amx.header.cod) offs
      then abort c err_memaccess r' w
      else k (record r' { cip = add32 w.amx.code offs })

  -- The stack pointer of `RETN`, past the argument count and the arguments.
  abbrev pub past_arguments : Regs → World W → ℕ
  past_arguments r w = add32 r.stk (add32 (load w r.stk) 4)

  unfoldable pub exec_stack : StackOp → Activation W → Regs → World W → Next W
  unfolding push_cell push_repeat leave chkmargin chkstack chkheap
  exec_stack move_pri c r w = running (record r { pri = r.alt }) w
  exec_stack move_alt c r w = running (record r { alt = r.pri }) w
  exec_stack xchg c r w = running (record r { pri = r.alt; alt = r.pri }) w
  exec_stack push_pri c r w = push_cell r.pri r w
  exec_stack push_alt c r w = push_cell r.alt r w
  exec_stack push_c c r w = push_cell (param r w) (skip 1 r) w
  exec_stack push_r c r w = push_repeat (param r w) (skip 1 r) w
  exec_stack Opcode.push c r w = push_cell (load w (param r w)) (skip 1 r) w
  exec_stack push_s c r w = push_cell (load w (add32 r.frm (param r w))) (skip 1 r) w
  exec_stack pop_pri c r w = running (record (drop r) { pri = load w r.stk }) w
  exec_stack pop_alt c r w = running (record (drop r) { alt = load w r.stk }) w
  exec_stack stack c r w =
      let r' = record (skip 1 r) { alt = r.stk; stk = add32 r.stk (param r w) } in
      chkmargin c r' w (chkstack c r' w (running r' w))
  exec_stack heap c r w =
      let r' = record (skip 1 r) { alt = r.hea; hea = add32 r.hea (param r w) } in
      chkmargin c r' w (chkheap c r' w (running r' w))
  exec_stack proc c r w =
      let stk = sub32 r.stk 4 in
      let w' = store w stk r.frm in
      let r' = record r { stk = stk; frm = stk } in chkmargin c r' w' (running r' w')
  exec_stack ret c r w = leave c r w (λ r'. running r' w)
  exec_stack retn c r w = leave c r w (λ r'.
      let stk = past_arguments r' w in
      running (record r' { stk = stk }) (record w { amx = record (w.amx) { stk = stk } }))
  exec_stack call c r w =
      let stk = sub32 r.stk 4 in
      let w' = store w stk (add32 (sub32 r.cip w.amx.code) 4) in
      running (record r { stk = stk; cip = read32 w'.mem r.cip }) w'
  exec_stack swap_pri c r w = running (record r { pri = load w r.stk }) (store w r.stk r.pri)
  exec_stack swap_alt c r w = running (record r { alt = load w r.stk }) (store w r.stk r.alt)
  exec_stack pushaddr c r w = push_cell (add32 r.frm (param r w)) (skip 1 r) w
