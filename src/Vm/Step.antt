-- ===== src/Vm/Step.antt =====
-- One round of the interpreter's loop, the loop, and `amx_Exec` around it (src/amx/amx.c, lines 2770 to
-- 2957 and 3783 to 3792).
use samp_plugin_crashdetect.Prelude.{
  ℕ, zero, suc, ◌%◌, mul32, ◌+◌, true, false, not, ◌==◌, if◌then◌else◌, Option, none, some,
  get_elem?, add32, sub32, is_neg, word_mod, bit_and,
}
use samp_plugin_crashdetect.Amx.Memory.{read32}
use samp_plugin_crashdetect.Amx.Error.{
  err_callback, err_notfound, err_init, err_index, err_invinstr, exec_main, exec_cont, flag_ntvreg,
  flag_reloc,
}
use samp_plugin_crashdetect.Amx.State.{Amx, World}
use samp_plugin_crashdetect.Amx.UserData.{amx_get_ext_hooks}
use samp_plugin_crashdetect.Vm.Opcode.{
  Opcode, load_op, store_op, index_op, control_op, stack_op, jump_op, alu_op, compare_op, cell_op,
  block_op, system_op, invalid, decode,
}
use samp_plugin_crashdetect.Vm.Machine.{
  Regs, Hooks, Activation, Next, running, stopped, trap, store, abort, chkstack, chkheap, chkmargin,
}
use samp_plugin_crashdetect.Vm.Load.{exec_load}
use samp_plugin_crashdetect.Vm.Store.{exec_store}
use samp_plugin_crashdetect.Vm.Indexing.{exec_index}
use samp_plugin_crashdetect.Vm.Control.{exec_control}
use samp_plugin_crashdetect.Vm.StackOps.{exec_stack}
use samp_plugin_crashdetect.Vm.Jump.{exec_jump}
use samp_plugin_crashdetect.Vm.Alu.{exec_alu}
use samp_plugin_crashdetect.Vm.Compare.{exec_compare}
use samp_plugin_crashdetect.Vm.Cells.{exec_cell}
use samp_plugin_crashdetect.Vm.Block.{exec_block}
use samp_plugin_crashdetect.Vm.System.{exec_system}

-- The registers at the start: those of the entry point, of `main`, or the ones kept by a sleep. `none`
-- is AMX_ERR_INDEX.
unfoldable pub entry_registers : ℕ → ℕ → Amx → Option Regs
entry_registers index num a =
    let fresh : Regs = record {
      pri = 0;
      alt = 0;
      stk = a.stk;
      frm = 0;
      hea = a.hea;
      cip = 0;
      num = num;
    } in
    if index == exec_main
    then (if is_neg a.header.entry
        then none
        else some (record fresh { cip = add32 a.code a.header.entry }))
    else if index == exec_cont
    then some (record fresh { pri = a.pri; alt = a.alt; frm = a.frm; cip = add32 a.code a.cip })
    else if is_neg index
    then none
    else (elim (get_elem? a.header.publics index) [
      | none ↦ none
      | some f ↦ some (record fresh { cip = add32 a.code f.address })
    ])

-- The values that an exit restores: the stack without the parameters.
unfoldable pub exit_values : ℕ → Amx → ℕ × ℕ
exit_values index a =
    if index == exec_cont
    then (a.reset_stk, a.reset_hea)
    else (add32 a.stk (mul32 a.paramcount 4), a.hea)

module _ {W : Type 0} where
  -- The `switch`. `r.cip` is past the opcode.
  unfoldable pub dispatch : Opcode → Activation W → Regs → World W → Next W
  dispatch (load_op op) c r w = exec_load op c r w
  dispatch (store_op op) c r w = exec_store op c r w
  dispatch (index_op op) c r w = exec_index op c r w
  dispatch (control_op op) c r w = exec_control op c r w
  dispatch (stack_op op) c r w = exec_stack op c r w
  dispatch (jump_op op) c r w = exec_jump op r w
  dispatch (alu_op op) c r w = exec_alu op c r w
  dispatch (compare_op op) c r w = exec_compare op r w
  dispatch (cell_op op) c r w = exec_cell op r w
  dispatch (block_op op) c r w = exec_block op c r w
  dispatch (system_op op) c r w = exec_system op c r w
  dispatch invalid c r w = abort c err_invinstr r w

  -- One round: `amx->cip` is set, the instruction counted, the opcode fetched.
  unfoldable pub step : Activation W → Regs → World W → Next W
  unfolding dispatch
  step c r w =
      let w₁ : World W = record w {
        amx = record (w.amx) { cip = sub32 r.cip w.amx.code };
        long_call_delay = (w.long_call_delay + 1) % word_mod;
      } in
      dispatch (decode (read32 w.mem r.cip)) c (record r { cip = add32 r.cip 4 }) w₁

  -- `for (;;)`, at most `fuel` rounds
  unfoldable pub run : ℕ → Activation W → Regs → World W → Next W
  run zero c r w = running r w
  run (suc fuel) c r w = elim (step c r w) [
    | running r' w' ↦ run fuel c r' w'
    | stopped err w' ↦ stopped err w'
    | trap ↦ trap
  ]

  -- The parameter count and a zero return address are pushed, and the count is reset.
  unfoldable pub push_entry : Regs → World W → Regs × World W
  push_entry r w =
      let w₁ : World W = store w (sub32 r.stk 4) (mul32 w.amx.paramcount 4) in
      let w₂ : World W = store w₁ (sub32 (sub32 r.stk 4) 4) 0 in
      (
        record r { stk = sub32 (sub32 r.stk 4) 4 },
        record w₂ { amx = record (w₂.amx) { paramcount = 0 } },
      )

  -- The activation while the registers are checked: the parameters are not counted, and the hooks not
  -- looked up yet.
  unfoldable pub checking : ℕ → Hooks W → Amx → Activation W
  unfolding exit_values
  checking index hooks a = record {
    hooks = hooks;
    ext_hooks = false;
    index = index;
    reset_stk = if index == exec_cont then a.reset_stk else a.stk;
    reset_hea = (exit_values index a).1;
  }

  -- The activation that runs.
  unfoldable pub activation : ℕ → Hooks W → Amx → Activation W
  unfolding exit_values
  activation index hooks a = record {
    hooks = hooks;
    ext_hooks = elim (amx_get_ext_hooks a.user_data).1 [ none ↦ false | some _ ↦ true ];
    index = index;
    reset_stk = (exit_values index a).0;
    reset_hea = (exit_values index a).1;
  }

  -- From the register checks on.
  unfoldable pub start : ℕ → Hooks W → ℕ → Regs → World W → Next W
  unfolding run push_entry checking activation
  start fuel hooks index r w =
      let c₀ = checking index hooks w.amx in
      let c₁ = activation index hooks w.amx in
      let (r₁, w₁) = if index == exec_cont then (r, w) else push_entry r w in
      chkstack c₀ r w (chkheap c₀ r w (chkmargin c₁ r₁ w₁ (run fuel c₁ r₁ w₁)))

  -- `amx_Exec`, with at most `fuel` instructions. `num` is what the local variable of that name holds
  -- before its first assignment.
  unfoldable pub amx_exec : ℕ → Hooks W → ℕ → ℕ → World W → Next W
  unfolding start entry_registers
  amx_exec fuel hooks num index w =
      let a = w.amx in
      if not a.callback
      then stopped err_callback w
      else if bit_and a.flags flag_ntvreg == 0
      then stopped err_notfound w
      else if bit_and a.flags flag_reloc == 0
      then stopped err_init w
      else (elim (entry_registers index num a) [
        | none ↦ stopped err_index w
        | some r ↦ start fuel hooks index r w
      ])
