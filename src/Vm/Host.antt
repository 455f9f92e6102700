-- ===== src/Vm/Host.antt =====
-- `amx_Exec` and the host's own state (src/amx/amx.c, lines 2770 to 3792).
pub mod Instructions
use samp_plugin_crashdetect.Prelude.{
  ℕ, zero, suc, Bool, true, false, if◌then◌else◌, ◌==◌, not, bit_and, Option, none, some,
}
use samp_plugin_crashdetect.Amx.Error.{err_index, exec_cont}
use samp_plugin_crashdetect.Amx.State.{World}
use samp_plugin_crashdetect.Vm.Opcode
use samp_plugin_crashdetect.Vm.Opcode.{Opcode}
use samp_plugin_crashdetect.Vm.Machine.{
  Regs, Hooks, Activation, Next, running, stopped, trap, chkmargin, chkstack, chkheap,
}
use samp_plugin_crashdetect.Vm.Step.{
  dispatch, step, run, start, amx_exec, entry_registers, push_entry, checking, activation,
}
use Instructions.{
  Keeps, goes, stops, traps, HooksKeep, if-Keeps, abort-Keeps, exec_load-Keeps, exec_store-Keeps,
  exec_index-Keeps, exec_control-Keeps, exec_stack-Keeps, exec_jump-Keeps, exec_compare-Keeps,
  exec_cell-Keeps, exec_alu-Keeps, exec_block-Keeps, exec_system-Keeps,
}

module _ {W : Type 0} (P : W → Type 0) where
  dispatch-Keeps :
      (op : Opcode) (c : Activation W) (r : Regs) (w : World W)
      → HooksKeep P c.hooks
      → P w.host
      → Keeps P (dispatch op c r w)
  unfolding dispatch
  dispatch-Keeps (Opcode.load_op op) c r w k h = exec_load-Keeps P op c r w k h
  dispatch-Keeps (Opcode.store_op op) c r w k h = exec_store-Keeps P op c r w k h
  dispatch-Keeps (Opcode.index_op op) c r w k h = exec_index-Keeps P op c r w k h
  dispatch-Keeps (Opcode.control_op op) c r w k h = exec_control-Keeps P op c r w k h
  dispatch-Keeps (Opcode.stack_op op) c r w k h = exec_stack-Keeps P op c r w k h
  dispatch-Keeps (Opcode.jump_op op) c r w k h = exec_jump-Keeps P op r w h
  dispatch-Keeps (Opcode.alu_op op) c r w k h = exec_alu-Keeps P op c r w k h
  dispatch-Keeps (Opcode.compare_op op) c r w k h = exec_compare-Keeps P op r w h
  dispatch-Keeps (Opcode.cell_op op) c r w k h = exec_cell-Keeps P op r w h
  dispatch-Keeps (Opcode.block_op op) c r w k h = exec_block-Keeps P op c r w k h
  dispatch-Keeps (Opcode.system_op op) c r w k h = exec_system-Keeps P op c r w k h
  dispatch-Keeps Opcode.invalid c r w k h = abort-Keeps P c _ r w k h

  step-Keeps :
      (c : Activation W) (r : Regs) (w : World W)
      → HooksKeep P c.hooks
      → P w.host
      → Keeps P (step c r w)
  unfolding step
  step-Keeps c r w k h = dispatch-Keeps _ c _ _ k h

  run-Keeps :
      (fuel : ℕ) (c : Activation W) (r : Regs) (w : World W)
      → HooksKeep P c.hooks
      → P w.host
      → Keeps P (run fuel c r w)
  unfolding run
  run-Keeps zero c r w k h = goes h
  run-Keeps (suc fuel) c r w k h =
      after (step c r w) (step-Keeps c r w k h) (λ r' w' h'. run-Keeps fuel c r' w' k h')
    where
      after :
          (n : Next W)
          → Keeps P n
          → ((r' : Regs) (w' : World W) → P w'.host → Keeps P (run fuel c r' w'))
          → Keeps P (elim n [
            | running r' w' ↦ run fuel c r' w'
            | stopped err w' ↦ stopped err w'
            | trap ↦ trap
          ])
      after (running r' w') (goes h') on = on r' w' h'
      after (stopped err w') h' on = h'
      after trap h' on = traps

  chkmargin-Keeps :
      (c : Activation W) (r : Regs) (w : World W) (n : Next W)
      → HooksKeep P c.hooks
      → P w.host
      → Keeps P n
      → Keeps P (chkmargin c r w n)
  unfolding chkmargin
  chkmargin-Keeps c r w n k h next = if-Keeps P _ _ _ (abort-Keeps P c _ r w k h) next

  chkstack-Keeps :
      (c : Activation W) (r : Regs) (w : World W) (n : Next W)
      → HooksKeep P c.hooks
      → P w.host
      → Keeps P n
      → Keeps P (chkstack c r w n)
  unfolding chkstack
  chkstack-Keeps c r w n k h next = if-Keeps P _ _ _ (abort-Keeps P c _ r w k h) next

  chkheap-Keeps :
      (c : Activation W) (r : Regs) (w : World W) (n : Next W)
      → HooksKeep P c.hooks
      → P w.host
      → Keeps P n
      → Keeps P (chkheap c r w n)
  unfolding chkheap
  chkheap-Keeps c r w n k h next = if-Keeps P _ _ _ (abort-Keeps P c _ r w k h) next

  start-Keeps :
      (fuel : ℕ) (hooks : Hooks W) (index : ℕ) (r : Regs) (w : World W)
      → HooksKeep P hooks
      → P w.host
      → Keeps P (start fuel hooks index r w)
  unfolding start push_entry checking activation
  start-Keeps fuel hooks index r w k h =
      let c₀ = checking index hooks w.amx in
      let c₁ = activation index hooks w.amx in
      let s = if index == exec_cont then (r, w) else push_entry r w in
      let h₁ : P s.1.host = entered (index == exec_cont) in
      chkstack-Keeps c₀ r w _ k h (
        chkheap-Keeps c₀ r w _ k h
          (chkmargin-Keeps c₁ s.0 s.1 _ k h₁ (run-Keeps fuel c₁ s.0 s.1 k h₁)))
    where
      entered : (b : Bool) → P (if b then (r, w) else push_entry r w).1.host
      entered true = h
      entered false = h

  -- If every hook keeps a property of the host's state, and it holds when `amx_Exec` is called, then it
  -- holds when `amx_Exec` returns, and after any number of instructions.
  pub amx_exec-Keeps :
      (fuel : ℕ) (hooks : Hooks W) (num index : ℕ) (w : World W)
      → HooksKeep P hooks
      → P w.host
      → Keeps P (amx_exec fuel hooks num index w)
  unfolding amx_exec
  amx_exec-Keeps fuel hooks num index w k h =
      let refused : (err : ℕ) → Keeps P (stopped err w) = λ err. stops h in
      search (if-Keeps, refused, begun (entry_registers index num w.amx))
    where
      begun :
          (o : Option Regs)
          → Keeps P (elim o [ none ↦ stopped err_index w | some r ↦ start fuel hooks index r w ])
      begun none = stops h
      begun (some r) = start-Keeps fuel hooks index r w k h
