-- ===== src/Vm/Exit.antt =====
-- How `amx_Exec` leaves the machine (src/amx/amx.c, lines 2770 to 2910 and 3642 to 3718).
pub mod Instructions
use samp_plugin_crashdetect.Prelude.{
  ℕ, zero, suc, Bool-cases, Option-cases, ◌≡◌, ◌≢◌, ◌⊎◌, inl, inr, refl, Bool, true, false, ◌∙◌,
  not, ◌==◌, if◌then◌else◌, arith, Option, none, some, bit_and,
}
use samp_plugin_crashdetect.Amx.Error.{
  err_sleep, err_stacklow, err_heaplow, err_callback, err_notfound, err_init, err_index, exec_cont,
  flag_ntvreg, flag_reloc,
}
use samp_plugin_crashdetect.Amx.State.{Amx, World}
use samp_plugin_crashdetect.Vm.Opcode
use samp_plugin_crashdetect.Vm.Opcode.{Opcode}
use samp_plugin_crashdetect.Vm.Machine.{
  Regs, Hooks, Activation, Next, running, stopped, trap, abort, chkmargin, chkstack, chkheap,
}
use samp_plugin_crashdetect.Vm.Step.{
  dispatch, step, run, start, amx_exec, entry_registers, push_entry, exit_values, checking,
  activation,
}
use Instructions.{
  Restores, goes, traps, sleeps, restores, NativesAwake, abort-Restores, if-Restores,
  exec_load-Restores, exec_store-Restores, exec_index-Restores, exec_control-Restores,
  exec_stack-Restores, exec_jump-Restores, exec_compare-Restores, exec_cell-Restores,
  exec_alu-Restores, exec_block-Restores, exec_halt-Restores, exec_system-Restores,
}

-- How a call of `amx_Exec` can end that began in state `w`.
pub data Exits {W : Type 0} (index : ℕ) (w : World W) : Next W → Type 0 where
  -- not within the fuel, or by a trap
  unfinished : {r : Regs} {w' : World W} → Exits index w (running r w')
  trapped : Exits index w trap
  -- an error before anything has been changed
  refused : {err : ℕ} → Exits index w (stopped err w)
  -- to be continued
  asleep : {err : ℕ} {w' : World W} → err ≡ err_sleep → Exits index w (stopped err w')
  -- stack and heap as the host had them before it pushed the parameters
  popped :
      {err : ℕ} {w' : World W}
      → w'.amx.stk ≡ (exit_values index w.amx).0
      → w'.amx.hea ≡ (exit_values index w.amx).1
      → Exits index w (stopped err w')
  -- the pointers were found broken, and the parameters are still on the stack
  broken :
      {err : ℕ} {w' : World W}
      → (err ≡ err_stacklow) ⊎ (err ≡ err_heaplow)
      → w'.amx.stk ≡ w.amx.stk
      → w'.amx.hea ≡ w.amx.hea
      → Exits index w (stopped err w')

module _ {W : Type 0} where
  -- Every instruction goes on, traps, sleeps, or has restored the pointers.
  dispatch-Restores :
      (op : Opcode) (c : Activation W) (r : Regs) (w : World W)
      → NativesAwake c
      → Restores c (dispatch op c r w)
  unfolding dispatch
  dispatch-Restores (Opcode.load_op op) c r w awake = exec_load-Restores op c r w
  dispatch-Restores (Opcode.store_op op) c r w awake = exec_store-Restores op c r w
  dispatch-Restores (Opcode.index_op op) c r w awake = exec_index-Restores op c r w
  dispatch-Restores (Opcode.control_op op) c r w awake = exec_control-Restores op c r w
  dispatch-Restores (Opcode.stack_op op) c r w awake = exec_stack-Restores op c r w
  dispatch-Restores (Opcode.jump_op op) c r w awake = exec_jump-Restores op c r w
  dispatch-Restores (Opcode.alu_op op) c r w awake = exec_alu-Restores op c r w
  dispatch-Restores (Opcode.compare_op op) c r w awake = exec_compare-Restores op c r w
  dispatch-Restores (Opcode.cell_op op) c r w awake = exec_cell-Restores op c r w
  dispatch-Restores (Opcode.block_op op) c r w awake = exec_block-Restores op c r w
  dispatch-Restores (Opcode.system_op op) c r w awake = exec_system-Restores op c r w awake
  dispatch-Restores Opcode.invalid c r w awake = abort-Restores c _ r w

  step-Restores :
      (c : Activation W) (r : Regs) (w : World W) → NativesAwake c → Restores c (step c r w)
  unfolding step
  step-Restores c r w awake = dispatch-Restores _ c _ _ awake

  run-Restores :
      (fuel : ℕ) (c : Activation W) (r : Regs) (w : World W)
      → NativesAwake c
      → Restores c (run fuel c r w)
  unfolding run
  run-Restores zero c r w awake = goes
  run-Restores (suc fuel) c r w awake =
      after (step c r w) (step-Restores c r w awake) (run-Restores fuel c)
    where
      after :
          (n : Next W)
          → Restores c n
          → ((r' : Regs) (w' : World W) → NativesAwake c → Restores c (run fuel c r' w'))
          → Restores c (elim n [
            | running r' w' ↦ run fuel c r' w'
            | stopped err w' ↦ stopped err w'
            | trap ↦ trap
          ])
      after (running r' w') h ih = ih r' w' awake
      after (stopped err w') h ih = h
      after trap h ih = traps

  if-Exits :
      (index : ℕ) (w : World W) (b : Bool) (x y : Next W)
      → Exits index w x
      → Exits index w y
      → Exits index w (if b then x else y)
  if-Exits index w true x y hx hy = hx
  if-Exits index w false x y hx hy = hy

  Restores-Exits :
      (index : ℕ) (w : World W) (c : Activation W) {n : Next W}
      → Restores c n
      → c.reset_stk ≡ (exit_values index w.amx).0
      → c.reset_hea ≡ (exit_values index w.amx).1
      → Exits index w n
  Restores-Exits index w c goes p q = unfinished
  Restores-Exits index w c traps p q = trapped
  Restores-Exits index w c (sleeps e) p q = asleep e
  Restores-Exits index w c (restores s h) p q = popped (s ∙ p) (h ∙ q)

  -- The pointer checks before the parameters are counted.
  early-Exits :
      (index err : ℕ) (hooks : Hooks W) (w : World W) (r : Regs)
      → (err ≡ err_stacklow) ⊎ (err ≡ err_heaplow)
      → Exits index w (abort (checking index hooks w.amx) err r w)
  unfolding abort exit_values checking
  early-Exits index err hooks w r low = elim (Bool-cases (index == exec_cont)) [
    | inl cont ↦ popped (ground (arith, cont)) (ground (arith, cont))
    | inr fresh ↦ broken low (ground (arith, fresh)) (ground (arith, fresh))
  ]

  chkmargin-Restores :
      (c : Activation W) (r : Regs) (w : World W) (n : Next W)
      → Restores c n
      → Restores c (chkmargin c r w n)
  unfolding chkmargin
  chkmargin-Restores c r w n h = if-Restores c _ _ _ (abort-Restores c _ r w) h

  checks-Exits :
      (index : ℕ) (hooks : Hooks W) (r : Regs) (w : World W) (n : Next W)
      → Exits index w n
      → let c = checking index hooks w.amx in Exits index w (chkstack c r w (chkheap c r w n))
  unfolding chkstack chkheap
  checks-Exits index hooks r w n h =
      if-Exits index w _ _ _ (early-Exits index _ hooks w r (inl refl))
        (if-Exits index w _ _ _ (early-Exits index _ hooks w r (inr refl)) h)

  start-Exits :
      (fuel : ℕ) (hooks : Hooks W) (index : ℕ) (r : Regs) (w : World W)
      → ((address : ℕ) (w' : World W) → (hooks.native address w').1.amx.error ≢ err_sleep)
      → Exits index w (start fuel hooks index r w)
  unfolding start
  start-Exits fuel hooks index r w awake =
      let c = activation index hooks w.amx in
      let s = if index == exec_cont then (r, w) else push_entry r w in
      checks-Exits index hooks r w _ (
        Restores-Exits index w c
          (chkmargin-Restores c s.0 s.1 _ (run-Restores fuel c s.0 s.1 awake)) refl refl)

  -- A call of `amx_Exec`, with natives that do not sleep under SYSREQ.D, is unfinished, traps, is
  -- refused with the state unchanged, goes to sleep, or ends with the stack and heap pointers as they
  -- were before its parameters were pushed; only a stack or heap pointer that is out of range at the
  -- start leaves the parameters where they are.
  pub amx_exec-Exits :
      (fuel : ℕ) (hooks : Hooks W) (num index : ℕ) (w : World W)
      → ((address : ℕ) (w' : World W) → (hooks.native address w').1.amx.error ≢ err_sleep)
      → Exits index w (amx_exec fuel hooks num index w)
  unfolding amx_exec
  amx_exec-Exits fuel hooks num index w awake =
      search (if-Exits, refused, begun (entry_registers index num w.amx))
    where
      begun :
          (o : Option Regs)
          → Exits index w
              (elim o [ none ↦ stopped err_index w | some r ↦ start fuel hooks index r w ])
      begun none = refused
      begun (some r) = start-Exits fuel hooks index r w awake
