-- ===== src/Vm/Compare.antt =====
-- Comparisons (src/amx/amx.c, lines 3530 to 3567), unsigned and signed.
use samp_plugin_crashdetect.Prelude.{ℕ, Bool, not, ltb, leb, ◌==◌, if◌then◌else◌, slt, sle}
use samp_plugin_crashdetect.Amx.State.{World}
use samp_plugin_crashdetect.Vm.Opcode.{
  CompareOp, eq, neq, less, leq, grtr, geq, sless, sleq, sgrtr, sgeq, eq_c_pri, eq_c_alt,
}
use samp_plugin_crashdetect.Vm.Machine.{Regs, Next, running, param, skip}

-- The test of an instruction, of `pri`, `alt` and its parameter.
unfoldable pub compare_test : CompareOp → ℕ → ℕ → ℕ → Bool
compare_test eq pri alt offs = pri == alt
compare_test neq pri alt offs = not (pri == alt)
compare_test less pri alt offs = ltb pri alt
compare_test leq pri alt offs = leb pri alt
compare_test grtr pri alt offs = ltb alt pri
compare_test geq pri alt offs = leb alt pri
compare_test sless pri alt offs = slt pri alt
compare_test sleq pri alt offs = sle pri alt
compare_test sgrtr pri alt offs = slt alt pri
compare_test sgeq pri alt offs = sle alt pri
compare_test eq_c_pri pri alt offs = pri == offs
compare_test eq_c_alt pri alt offs = alt == offs

-- The instruction's number of parameters
abbrev pub compare_params : CompareOp → ℕ
compare_params eq_c_pri = 1
compare_params eq_c_alt = 1
compare_params _ = 0

module _ {W : Type 0} where
  -- `pri= test ? 1 : 0;`
  unfoldable pub exec_compare : CompareOp → Regs → World W → Next W
  unfolding compare_test
  exec_compare op r w =
      running
        (record (skip (compare_params op) r) {
          pri = if compare_test op r.pri r.alt (param r w) then 1 else 0;
        })
        w
