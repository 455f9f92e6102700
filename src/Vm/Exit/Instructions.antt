-- ===== src/Vm/Exit/Instructions.antt =====
-- How each instruction can leave `amx_Exec` (src/amx/amx.c, `ABORT` in lines 1730 to 1737 and the sleep
-- branches of `HALT`, `SYSREQ` and `BREAK`).
use samp_plugin_crashdetect.Prelude.{
  ℕ, zero, suc, Bool-cases, ==_iff, ◌≡◌, ◌≢◌, inl, inr, refl, Bool, true, false, ◌==◌,
  if◌then◌else◌,
}
use samp_plugin_crashdetect.Amx.Error.{err_sleep, err_none}
use samp_plugin_crashdetect.Amx.State.{World}
use samp_plugin_crashdetect.Vm.Opcode.{
  LoadOp, StoreOp, IndexOp, ControlOp, StackOp, JumpOp, AluOp, CompareOp, CellOp, BlockOp, SystemOp,
}
use samp_plugin_crashdetect.Vm.Machine.{
  Regs, Activation, Next, running, stopped, trap, abort, param, skip, chknaught, address_naught,
}
use samp_plugin_crashdetect.Vm.Load.{exec_load}
use samp_plugin_crashdetect.Vm.Store.{exec_store, checked_store}
use samp_plugin_crashdetect.Vm.Indexing.{exec_index}
use samp_plugin_crashdetect.Vm.Control.{exec_control, write_control}
use samp_plugin_crashdetect.Vm.StackOps.{exec_stack, push_repeat}
use samp_plugin_crashdetect.Vm.Jump.{exec_jump}
use samp_plugin_crashdetect.Vm.Alu.{exec_alu}
use samp_plugin_crashdetect.Vm.Compare.{exec_compare}
use samp_plugin_crashdetect.Vm.Cells.{exec_cell}
use samp_plugin_crashdetect.Vm.Block.{exec_block}
use samp_plugin_crashdetect.Vm.System.{exec_system, exec_halt, sysreq, after_call, sleep, sync}

-- A stop is a sleep, or it has put back the stack and heap pointers of the activation.
pub data Restores {W : Type 0} (c : Activation W) : Next W → Type 0 where
  goes : {r : Regs} {w : World W} → Restores c (running r w)
  traps : Restores c trap
  sleeps : {err : ℕ} {w : World W} → err ≡ err_sleep → Restores c (stopped err w)
  restores :
      {err : ℕ} {w : World W}
      → w.amx.stk ≡ c.reset_stk
      → w.amx.hea ≡ c.reset_hea
      → Restores c (stopped err w)

module _ {W : Type 0} where
  pub if-Restores :
      (c : Activation W) (b : Bool) (x y : Next W)
      → Restores c x
      → Restores c y
      → Restores c (if b then x else y)
  if-Restores c true x y hx hy = hx
  if-Restores c false x y hx hy = hy

  pub abort-Restores :
      (c : Activation W) (err : ℕ) (r : Regs) (w : World W) → Restores c (abort c err r w)
  unfolding abort
  abort-Restores c err r w = restores refl refl

  chknaught-Restores :
      (c : Activation W) (offs : ℕ) (r : Regs) (w : World W) (k : World W → Next W)
      → ((w' : World W) → Restores c (k w'))
      → Restores c (chknaught c offs r w k)
  unfolding chknaught
  chknaught-Restores c offs r w k h =
      if-Restores c (offs == 0) _ _
        (if-Restores c (address_naught c w).0 _ _ (abort-Restores c _ r _) (h _)) (h w)

  pub exec_load-Restores :
      (op : LoadOp) (c : Activation W) (r : Regs) (w : World W) → Restores c (exec_load op c r w)
  unfolding exec_load
  exec_load-Restores LoadOp.load_i c r w = if-Restores c _ _ _ (abort-Restores c _ r w) goes
  exec_load-Restores LoadOp.lodb_i c r w = if-Restores c _ _ _ (abort-Restores c _ _ w) goes
  exec_load-Restores LoadOp.load_pri c r w = goes
  exec_load-Restores _ c r w = goes

  checked_store-Restores :
      (c : Activation W) (offs v : ℕ) (r : Regs) (w : World W)
      → Restores c (checked_store c offs v r w)
  unfolding checked_store
  checked_store-Restores c offs v r w = search (chknaught-Restores, goes)

  ruleset exits =
      (goes, traps, if-Restores, abort-Restores, chknaught-Restores, checked_store-Restores)

  pub exec_store-Restores :
      (op : StoreOp) (c : Activation W) (r : Regs) (w : World W) → Restores c (exec_store op c r w)
  unfolding exec_store
  exec_store-Restores StoreOp.stor_i c r w = search exits
  exec_store-Restores StoreOp.strb_i c r w = search exits
  exec_store-Restores StoreOp.stor_pri c r w = search exits
  exec_store-Restores StoreOp.sref_pri c r w = search exits
  exec_store-Restores StoreOp.sref_alt c r w = search exits
  exec_store-Restores _ c r w = search exits

  pub exec_index-Restores :
      (op : IndexOp) (c : Activation W) (r : Regs) (w : World W) → Restores c (exec_index op c r w)
  unfolding exec_index
  exec_index-Restores IndexOp.lidx c r w = if-Restores c _ _ _ (abort-Restores c _ r w) goes
  exec_index-Restores IndexOp.lidx_b c r w = if-Restores c _ _ _ (abort-Restores c _ _ w) goes
  exec_index-Restores _ c r w = goes

  pub exec_control-Restores :
      (op : ControlOp) (c : Activation W) (r : Regs) (w : World W)
      → Restores c (exec_control op c r w)
  unfolding exec_control write_control
  exec_control-Restores ControlOp.lctrl c r w = goes
  exec_control-Restores ControlOp.sctrl c r w = search (if-Restores, goes) depth 8

  push_repeat-Restores :
      (n : ℕ) (c : Activation W) (r : Regs) (w : World W) → Restores c (push_repeat n r w)
  unfolding push_repeat
  push_repeat-Restores zero c r w = goes
  push_repeat-Restores (suc n) c r w = push_repeat-Restores n c _ _

  pub exec_stack-Restores :
      (op : StackOp) (c : Activation W) (r : Regs) (w : World W) → Restores c (exec_stack op c r w)
  unfolding exec_stack
  exec_stack-Restores StackOp.push_r c r w = search (exits, push_repeat-Restores)
  exec_stack-Restores StackOp.stack c r w = search exits
  exec_stack-Restores StackOp.heap c r w = search exits
  exec_stack-Restores StackOp.proc c r w = search exits
  exec_stack-Restores StackOp.ret c r w = search exits
  exec_stack-Restores StackOp.retn c r w = search exits
  exec_stack-Restores StackOp.move_pri c r w = search exits
  exec_stack-Restores _ c r w = search exits

  pub exec_jump-Restores :
      (op : JumpOp) (c : Activation W) (r : Regs) (w : World W) → Restores c (exec_jump op r w)
  unfolding exec_jump
  exec_jump-Restores JumpOp.jump c r w = goes
  exec_jump-Restores _ c r w = goes

  pub exec_compare-Restores :
      (op : CompareOp) (c : Activation W) (r : Regs) (w : World W)
      → Restores c (exec_compare op r w)
  unfolding exec_compare
  exec_compare-Restores op c r w = goes

  pub exec_cell-Restores :
      (op : CellOp) (c : Activation W) (r : Regs) (w : World W) → Restores c (exec_cell op r w)
  unfolding exec_cell
  exec_cell-Restores CellOp.zero c r w = goes
  exec_cell-Restores _ c r w = goes

  pub exec_alu-Restores :
      (op : AluOp) (c : Activation W) (r : Regs) (w : World W) → Restores c (exec_alu op c r w)
  unfolding exec_alu
  exec_alu-Restores AluOp.sdiv c r w =
      if-Restores c _ _ _ (abort-Restores c _ r w) (if-Restores c _ _ _ traps goes)
  exec_alu-Restores AluOp.sdiv_alt c r w =
      if-Restores c _ _ _ (abort-Restores c _ r w) (if-Restores c _ _ _ traps goes)
  exec_alu-Restores AluOp.udiv c r w = if-Restores c _ _ _ (abort-Restores c _ r w) goes
  exec_alu-Restores AluOp.udiv_alt c r w = if-Restores c _ _ _ (abort-Restores c _ r w) goes
  exec_alu-Restores AluOp.shl c r w = goes
  exec_alu-Restores _ c r w = goes

  pub exec_block-Restores :
      (op : BlockOp) (c : Activation W) (r : Regs) (w : World W) → Restores c (exec_block op c r w)
  unfolding exec_block
  exec_block-Restores BlockOp.movs c r w = if-Restores c _ _ _ (abort-Restores c _ _ w) goes
  exec_block-Restores BlockOp.cmps c r w = if-Restores c _ _ _ (abort-Restores c _ _ w) goes
  exec_block-Restores BlockOp.fill c r w = if-Restores c _ _ _ (abort-Restores c _ _ w) goes

  -- A call that comes back, or whose sleep is reported as one.
  after_call-Restores :
      (c : Activation W) (num result : ℕ) (r : Regs) (w : World W)
      → (num ≡ err_sleep → result ≡ err_sleep)
      → Restores c (after_call c num result r w)
  unfolding after_call sleep
  after_call-Restores c num result r w h = elim (Bool-cases (num == err_none)) [
    | inl e ↦ rw e goes
    | inr e ↦ rw e (elim (Bool-cases (num == err_sleep)) [
      | inl s ↦ rw s (sleeps (h ((==_iff num err_sleep).0 s)))
      | inr s ↦ rw s (abort-Restores c num r w)
    ])
  ]

  -- A native that `SYSREQ.D` calls does not go to sleep.
  abbrev pub NativesAwake : Activation W → Type 0
  NativesAwake c = (address : ℕ) (w : World W) → (c.hooks.native address w).1.amx.error ≢ err_sleep

  pub exec_halt-Restores :
      (c : Activation W) (offs : ℕ) (r : Regs) (w : World W) → Restores c (exec_halt c offs r w)
  unfolding exec_halt
  exec_halt-Restores c offs r w = elim (Bool-cases (offs == err_sleep)) [
    | inl s ↦ rw s (sleeps ((==_iff offs err_sleep).0 s))
    | inr s ↦ rw s (abort-Restores c offs r _)
  ]

  returned-Restores :
      (c : Activation W) (num : ℕ) (r : Regs) (w : World W) → Restores c (after_call c num num r w)
  returned-Restores c num r w = after_call-Restores c num num r w (λ e. e)

  sysreq-Restores :
      (c : Activation W) (index : ℕ) (r : Regs) (w : World W) → Restores c (sysreq c index r w)
  unfolding sysreq
  sysreq-Restores c index r w = search returned-Restores

  native-Restores :
      (c : Activation W) (address : ℕ) (w : World W) (result : ℕ) (r : Regs)
      → NativesAwake c
      → let w' = (c.hooks.native address w).1 in Restores c (after_call c w'.amx.error result r w')
  native-Restores c address w result r awake =
      after_call-Restores c _ result r _ (λ e. absurd (awake address w e))

  ruleset system_exits = (exits, exec_halt-Restores, sysreq-Restores, returned-Restores)

  pub exec_system-Restores :
      (op : SystemOp) (c : Activation W) (r : Regs) (w : World W)
      → NativesAwake c
      → Restores c (exec_system op c r w)
  unfolding exec_system
  exec_system-Restores SystemOp.sysreq_d c r w awake =
      native-Restores c (param r w) (sync (skip 1 r) w) r.num _ awake
  exec_system-Restores SystemOp.halt c r w awake = search system_exits
  exec_system-Restores _ c r w awake = search system_exits
