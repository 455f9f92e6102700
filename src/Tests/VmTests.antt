-- ===== src/Tests/VmTests.antt =====
-- The theorems on the interpreter, applied.
use samp_plugin_crashdetect.Prelude.{
  ℕ, ◌+◌, ◌≡◌, refl, arith, add32, abs32, is_neg, true, false, neg32, ◌*◌, ◌<◌,
}
use samp_plugin_crashdetect.Amx.Memory.{read32, write32, read8, write8}
use samp_plugin_crashdetect.Amx.State.{World}
use samp_plugin_crashdetect.Amx.Error.{exec_main}
use samp_plugin_crashdetect.Vm.Opcode
use samp_plugin_crashdetect.Vm.Opcode.{cell_op}
use samp_plugin_crashdetect.Vm.Machine.{Regs, running, load, chkmargin}
use samp_plugin_crashdetect.Vm.StackOps.{exec_stack}
use samp_plugin_crashdetect.Vm.Step.{amx_exec, dispatch}
use samp_plugin_crashdetect.Vm.Jump.{switch_target}
use samp_plugin_crashdetect.Vm.Alu.{floor_div}
use samp_plugin_crashdetect.Vm.Exit.{Exits, amx_exec-Exits}
use samp_plugin_crashdetect.Vm.Calls.{called, entered, call_return}
use samp_plugin_crashdetect.Vm.Cases.{switch_target_lem, case_or, lookup_case, case_records}
use samp_plugin_crashdetect.Vm.Naught.{Stores, naught_unchecked, cell_effect}
use samp_plugin_crashdetect.Vm.Division.{floor_div_lem}
use samp_plugin_crashdetect.Tests.Samples.{idle, halting, hooks, activation, regs}

amx_exec-Exits_example : Exits exec_main halting (amx_exec 3 hooks 0 exec_main halting)
amx_exec-Exits_example = amx_exec-Exits 3 hooks 0 exec_main halting (λ a w h. omega (arith, h))

switch_target_example :
    (switch_target idle.mem 4100 5).1
    ≡ case_or (read32 idle.mem 8) (lookup_case 5 (case_records (read32 idle.mem 4) idle.mem 12))
unfolding read32 read8
switch_target_example = switch_target_lem idle.mem 4100 5 refl

naught_unchecked_example :
    Stores idle 0
      (cell_effect Opcode.CellOp.inc (load idle 0))
      (dispatch (cell_op Opcode.CellOp.inc) activation regs idle)
unfolding read32 read8
naught_unchecked_example = naught_unchecked Opcode.CellOp.inc activation regs idle refl

-- A call of 64, and RETN at once.
abbrev callee : Regs
callee = record regs { stk = 2992; frm = 2992; cip = 4160 }

call_return_example :
    (w' : World ℕ) × (exec_stack Opcode.StackOp.retn activation callee (entered regs idle)
      ≡ running
          (record callee {
            frm = 3100;
            cip = 4104;
            stk = add32 3000 (add32 (load (entered regs idle) 3000) 4);
          })
          w')
    × (w'.mem ≡ (entered regs idle).mem)
unfolding exec_stack read32 read8 write32 write8 chkmargin
call_return_example =
    call_return activation regs idle (omega arith) (omega arith) (omega arith) refl 4160
      {r₁ = record regs { stk = 2996; cip = 0 }} {r₂ = callee} {r₃ = callee} {w₁ = called regs idle}
      {w₂ = entered regs idle} {w₃ = entered regs idle} refl refl
      (record {
        same_stk = refl;
        same_code = refl;
        same_data = refl;
        same_cod = refl;
        same_dat = refl;
        saved_frm = refl;
        saved_cip = refl;
      })

-- -7 by 2 is -4, remainder 1.
floor_div_example :
    let (q, m) = floor_div 4294967289 2 in
    (m < 2)
    × ((is_neg 4294967289 ≡ false → q * 2 + m ≡ 4294967289)
        × (is_neg 4294967289 ≡ true → (k : ℕ) × (q ≡ neg32 k) × (k * 2 ≡ abs32 4294967289 + m)))
floor_div_example = floor_div_lem 4294967289 2 (omega arith) (omega arith) (omega arith)
