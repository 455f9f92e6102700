-- ===== src/Vm/Control.antt =====
-- Control registers (src/amx/amx.c, lines 3151 to 3245). 0xFE and 0xFF are the plugin's: the long-call
-- time, and the flags of the long-call and address-naught checks.
use samp_plugin_crashdetect.Prelude.{
  ℕ, ◌*◌, not, ◌==◌, if◌then◌else◌, add32, sub32, neg32, bit_and, bit_or,
}
use samp_plugin_crashdetect.Amx.Error.{
  lct_option, lct_set_time, opt_current, opt_active, opt_restart, opt_disable, opt_enable,
  opt_reset,
}
use samp_plugin_crashdetect.Amx.State.{World}
use samp_plugin_crashdetect.Vm.Opcode.{ControlOp, lctrl, sctrl}
use samp_plugin_crashdetect.Vm.Machine.{Regs, Activation, Next, running, param, skip}

-- `SCTRL 0xFF`: which option `pri` selects
unfoldable pub long_call_option : ℕ → ℕ
long_call_option pri =
    if not (bit_and pri 2 == 0)
    then opt_enable
    else if not (bit_and pri 4 == 0)
    then opt_reset
    else if not (bit_and pri 8 == 0)
    then opt_restart
    else opt_disable

module _ {W : Type 0} where
  -- `LCTRL 0xFF`: bit 0 says that the plugin is there, bits 5 and 6 that it has the two checks, and
  -- bits 1 and 7 that they are on. The long-call hook is asked first.
  unfoldable pub read_flags : Activation W → World W → ℕ × World W
  read_flags c w =
      if c.ext_hooks
      then (let (active, w₁) = c.hooks.long_call_ctl lct_option opt_active w in
          let (naught, w₂) = c.hooks.address_naught_ctl (neg32 1) w₁ in
          (bit_or (bit_or (bit_or 33 (active * 2)) 64) (naught * 128), w₂))
      else (113, w)

  -- `LCTRL 0xFE`
  unfoldable pub read_long_call_time : Activation W → World W → ℕ × World W
  read_long_call_time c w =
      if c.ext_hooks then c.hooks.long_call_ctl lct_option opt_current w else (0, w)

  -- `SCTRL 0xFF`: bit 5 addresses the long-call check, bit 6 the address-naught check.
  unfoldable pub write_flags : Activation W → ℕ → World W → World W
  unfolding long_call_option
  write_flags c pri w =
      if c.ext_hooks
      then (let w₁ =
            if not (bit_and pri 32 == 0)
            then (c.hooks.long_call_ctl lct_option (long_call_option pri) w).1
            else w in
          if not (bit_and pri 64 == 0)
          then (if not (bit_and pri 128 == 0)
              then (c.hooks.address_naught_ctl 1 w₁).1
              else (c.hooks.address_naught_ctl 0 w₁).1)
          else w₁)
      else w

  -- `LCTRL`: the new `pri`. `r.cip` is already past the parameter.
  unfoldable pub read_control : ℕ → Activation W → Regs → World W → ℕ × World W
  unfolding read_flags read_long_call_time
  read_control n c r w =
      if n == 0
      then (w.amx.header.cod, w)
      else if n == 1
      then (w.amx.header.dat, w)
      else if n == 2
      then (r.hea, w)
      else if n == 3
      then (w.amx.stp, w)
      else if n == 4
      then (r.stk, w)
      else if n == 5
      then (r.frm, w)
      else if n == 6
      then (sub32 r.cip w.amx.code, w)
      else if n == 0xFE
      then read_long_call_time c w
      else if n == 0xFF
      then read_flags c w
      else (r.pri, w)

  -- `SCTRL`
  unfoldable pub write_control : ℕ → Activation W → Regs → World W → Next W
  unfolding write_flags
  write_control n c r w =
      if n == 2
      then running (record r { hea = r.pri }) w
      else if n == 4
      then running (record r { stk = r.pri }) w
      else if n == 5
      then running (record r { frm = r.pri }) w
      else if n == 6
      then running (record r { cip = add32 w.amx.code r.pri }) w
      else if n == 0xFE
      then running r (if c.ext_hooks then (c.hooks.long_call_ctl lct_set_time r.pri w).1 else w)
      else if n == 0xFF
      then running r (write_flags c r.pri w)
      else running r w

  unfoldable pub exec_control : ControlOp → Activation W → Regs → World W → Next W
  unfolding read_control write_control
  exec_control lctrl c r w =
      let (v, w') = read_control (param r w) c (skip 1 r) w in
      running (record (skip 1 r) { pri = v }) w'
  exec_control sctrl c r w = write_control (param r w) c (skip 1 r) w
