-- ===== src/Vm/System.antt =====
-- Halting, array bounds, native calls, the statement hook, and the instructions without effect
-- (src/amx/amx.c, lines 77 to 98, 3642 to 3731 and 3758 to 3782).
use samp_plugin_crashdetect.Prelude.{ℕ, ltb, leb, ◌==◌, if◌then◌else◌, none, some, add32, sub32}
use samp_plugin_crashdetect.Amx.Error.{err_none, err_sleep, err_bounds, lct_check}
use samp_plugin_crashdetect.Amx.State.{World}
use samp_plugin_crashdetect.Vm.Opcode.{
  SystemOp, halt, bounds, sysreq_pri, sysreq_c, sysreq_d, line, symbol, srange, symtag, nop, break,
}
use samp_plugin_crashdetect.Vm.Machine.{
  Regs, Activation, Next, running, stopped, param, skip, abort,
}

module _ {W : Type 0} where
  -- `checkLongCallTime`: every 5000 instructions the hook runs with the registers in the AMX structure,
  -- which gets its own values back.
  unfoldable pub check_long_call_time : Activation W → Regs → World W → World W
  check_long_call_time c r w =
      if leb 5000 w.long_call_delay
      then record (if c.ext_hooks
          then (let a = w.amx in
              let w₁ : World W = record w {
                amx = record a { frm = r.frm; hea = r.hea; stk = r.stk };
              } in
              let w₂ = (c.hooks.long_call_ctl lct_check 0 w₁).1 in
              record w₂ { amx = record (w₂.amx) { frm = a.frm; hea = a.hea; stk = a.stk } })
          else w) { long_call_delay = 0 }
      else w

  -- The registers that a call out of the machine finds in the AMX structure.
  abbrev pub sync : Regs → World W → World W
  sync r w = record w {
    amx = record (w.amx) { cip = sub32 r.cip w.amx.code; hea = r.hea; frm = r.frm; stk = r.stk };
  }

  -- Going to sleep: `pri`, `alt` and the exit values are kept for `AMX_EXEC_CONT`.
  unfoldable pub sleep : Activation W → ℕ → Regs → World W → Next W
  sleep c err r w = stopped err (record w {
    amx = record (w.amx) {
      pri = r.pri;
      alt = r.alt;
      reset_stk = c.reset_stk;
      reset_hea = c.reset_hea;
    };
  })

  -- After a call that returned `num`: on, asleep, or aborted. `result` is what the function returns
  -- when it goes to sleep.
  unfoldable pub after_call : Activation W → ℕ → ℕ → Regs → World W → Next W
  unfolding sleep abort
  after_call c num result r w =
      if num == err_none
      then running r w
      else if num == err_sleep
      then sleep c result r w
      else abort c num r w

  -- `SYSREQ.PRI` and `SYSREQ.C`, with the native's index
  unfoldable pub sysreq : Activation W → ℕ → Regs → World W → Next W
  unfolding after_call
  sysreq c index r w =
      let (num, pri, w') = c.hooks.callback index r.pri (sync r w) in
      after_call c num num (record r { pri = pri; num = num }) w'

  -- `HALT`. Only `frm`, `pri` and `alt` are stored before the branch, and only `cip` and the exit
  -- values in the branch for sleeping.
  unfoldable pub exec_halt : Activation W → ℕ → Regs → World W → Next W
  exec_halt c offs r w =
      let w₁ : World W = record w {
        retval = elim w.retval [ none ↦ none | some _ ↦ some r.pri ];
        amx = record (w.amx) { frm = r.frm; pri = r.pri; alt = r.alt };
      } in
      if offs == err_sleep
      then stopped offs (record w₁ {
        amx = record (w₁.amx) {
          cip = sub32 r.cip w.amx.code;
          reset_stk = c.reset_stk;
          reset_hea = c.reset_hea;
        };
      })
      else abort c offs r w₁

  unfoldable pub exec_system : SystemOp → Activation W → Regs → World W → Next W
  unfolding exec_halt sysreq after_call check_long_call_time
  exec_system halt c r w = exec_halt c (param r w) (skip 1 r) w
  exec_system bounds c r w =
      if ltb (param r w) r.pri then abort c err_bounds (skip 1 r) w else running (skip 1 r) w
  exec_system sysreq_pri c r w = sysreq c r.pri r w
  exec_system sysreq_c c r w = sysreq c (param r w) (skip 1 r) w
  exec_system sysreq_d c r w =
      let r' = skip 1 r in
      let (pri, w') = c.hooks.native (param r w) (sync r' w) in
      after_call c w'.amx.error r.num (record r' { pri = pri }) w'
  exec_system line c r w = running (skip 2 r) w
  exec_system symbol c r w = running (record r { cip = add32 (add32 r.cip 4) (param r w) }) w
  exec_system srange c r w = running (skip 2 r) w
  exec_system symtag c r w = running (skip 1 r) w
  exec_system nop c r w = running r w
  exec_system break c r w =
      if w.amx.debug
      then (let (num, w') = c.hooks.debug (sync r (check_long_call_time c r w)) in
          after_call c num num (record r { num = num }) w')
      else running r w
