-- ===== src/Vm/Host/Instructions.antt =====
-- What an instruction does to the host's own state (src/amx/amx.c, lines 1693 to 1743 and 2955 to 3790):
-- it changes it through the hooks only.
use samp_plugin_crashdetect.Prelude.{
  ℕ, zero, suc, Bool, true, false, ◌==◌, not, leb, if◌then◌else◌, Option, none, some, bit_and,
}
use samp_plugin_crashdetect.Amx.Error.{lct_option, lct_set_time}
use samp_plugin_crashdetect.Amx.State.{World}
use samp_plugin_crashdetect.Amx.UserData.{amx_get_ext_hooks}
use samp_plugin_crashdetect.Vm.Opcode.{
  LoadOp, StoreOp, IndexOp, ControlOp, StackOp, JumpOp, AluOp, CompareOp, CellOp, BlockOp, SystemOp,
}
use samp_plugin_crashdetect.Vm.Machine.{
  Regs, Hooks, Activation, Next, running, stopped, trap, abort, store, amx_raise_exec_error, param,
  skip, chknaught, address_naught,
}
use samp_plugin_crashdetect.Vm.Load.{exec_load}
use samp_plugin_crashdetect.Vm.Store.{exec_store, checked_store, store_width}
use samp_plugin_crashdetect.Vm.Indexing.{exec_index}
use samp_plugin_crashdetect.Vm.Control.{
  exec_control, read_control, read_flags, read_long_call_time, write_control, write_flags,
  long_call_option,
}
use samp_plugin_crashdetect.Vm.StackOps.{exec_stack, push_repeat}
use samp_plugin_crashdetect.Vm.Jump.{exec_jump}
use samp_plugin_crashdetect.Vm.Alu.{exec_alu}
use samp_plugin_crashdetect.Vm.Compare.{exec_compare}
use samp_plugin_crashdetect.Vm.Cells.{exec_cell}
use samp_plugin_crashdetect.Vm.Block.{exec_block}
use samp_plugin_crashdetect.Vm.System.{
  exec_system, exec_halt, sysreq, after_call, sync, check_long_call_time,
}

-- `P` holds of the host's state where the machine goes on, and where it stops.
pub data Keeps {W : Type 0} (P : W → Type 0) : Next W → Type 0 where
  goes : {r : Regs} {w : World W} → P w.host → Keeps P (running r w)
  stops : {err : ℕ} {w : World W} → P w.host → Keeps P (stopped err w)
  traps : Keeps P trap

-- Every hook keeps `P`.
pub record HooksKeep {W : Type 0} (P : W → Type 0) (h : Hooks W) : Type 0 where
  pub callback_keeps : (i v : ℕ) (w : World W) → P w.host → P (h.callback i v w).2.host
  pub native_keeps : (a : ℕ) (w : World W) → P w.host → P (h.native a w).1.host
  pub debug_keeps : (w : World W) → P w.host → P (h.debug w).1.host
  pub error_keeps : (i e : ℕ) (w : World W) → P w.host → P (h.exec_error i e w).host
  pub time_keeps : (o v : ℕ) (w : World W) → P w.host → P (h.long_call_ctl o v w).1.host
  pub naught_keeps : (o : ℕ) (w : World W) → P w.host → P (h.address_naught_ctl o w).1.host

module _ {W : Type 0} (P : W → Type 0) where
  pub if-Keeps : (b : Bool) (x y : Next W) → Keeps P x → Keeps P y → Keeps P (if b then x else y)
  if-Keeps true x y hx hy = hx
  if-Keeps false x y hx hy = hy

  -- The same for a world, and for one that comes with a value.
  if-host : (b : Bool) (x y : World W) → P x.host → P y.host → P (if b then x else y).host
  if-host true x y hx hy = hx
  if-host false x y hx hy = hy

  if-pair :
      {A : Type 0} (b : Bool) (x y : A × World W)
      → P x.1.host
      → P y.1.host
      → P (if b then x else y).1.host
  if-pair true x y hx hy = hx
  if-pair false x y hx hy = hy

  pub abort-Keeps :
      (c : Activation W) (err : ℕ) (r : Regs) (w : World W)
      → HooksKeep P c.hooks
      → P w.host
      → Keeps P (abort c err r w)
  unfolding abort amx_raise_exec_error
  abort-Keeps c err r w k h = stops (raised (amx_get_ext_hooks w.amx.user_data).1)
    where
      raised :
          (o : Option ℕ)
          → let w₁ : World W = record w {
            amx = record (w.amx) { pri = r.pri; stk = r.stk; hea = r.hea; frm = r.frm };
          } in
            let w₂ : World W = elim o [ none ↦ w₁ | some _ ↦ c.hooks.exec_error c.index err w₁ ] in
            P w₂.host
      raised none = h
      raised (some x) = k.error_keeps c.index err _ h

  chknaught-Keeps :
      (c : Activation W) (offs : ℕ) (r : Regs) (w : World W) (n : World W → Next W)
      → HooksKeep P c.hooks
      → P w.host
      → ((w' : World W) → P w'.host → Keeps P (n w'))
      → Keeps P (chknaught c offs r w n)
  unfolding chknaught address_naught
  chknaught-Keeps c offs r w n k h next =
      let asked : P (address_naught c w).1.host =
        if-pair c.ext_hooks (_, (c.hooks.address_naught_ctl _ w).1) (false, w)
          (k.naught_keeps _ w h) h in
      if-Keeps (offs == 0) _ _
        (if-Keeps (address_naught c w).0 _ _ (abort-Keeps c _ r _ k asked) (next _ asked))
        (next w h)

  checked_store-Keeps :
      (c : Activation W) (offs v : ℕ) (r : Regs) (w : World W)
      → HooksKeep P c.hooks
      → P w.host
      → Keeps P (checked_store c offs v r w)
  unfolding checked_store
  checked_store-Keeps c offs v r w k h =
      chknaught-Keeps c offs r w (λ w'. running r (store w' offs v)) k h (λ w' h'. goes h')

  ruleset keeping = (goes, traps, if-Keeps, abort-Keeps, checked_store-Keeps)

  pub exec_load-Keeps :
      (op : LoadOp) (c : Activation W) (r : Regs) (w : World W)
      → HooksKeep P c.hooks
      → P w.host
      → Keeps P (exec_load op c r w)
  unfolding exec_load
  exec_load-Keeps LoadOp.load_i c r w k h = search keeping
  exec_load-Keeps LoadOp.lodb_i c r w k h = search keeping
  exec_load-Keeps LoadOp.load_pri c r w k h = goes h
  exec_load-Keeps _ c r w k h = goes h

  store_width-host : (n : ℕ) (r : Regs) (w : World W) → P w.host → P (store_width n r w).host
  unfolding store_width
  store_width-host n r w h =
      if-host (n == 1) _ _ h (if-host (n == 2) _ _ h (if-host (n == 4) _ _ h h))

  pub exec_store-Keeps :
      (op : StoreOp) (c : Activation W) (r : Regs) (w : World W)
      → HooksKeep P c.hooks
      → P w.host
      → Keeps P (exec_store op c r w)
  unfolding exec_store
  exec_store-Keeps StoreOp.stor_i c r w k h = search keeping
  exec_store-Keeps StoreOp.strb_i c r w k h = if-Keeps _ _ _ (abort-Keeps c _ _ w k h) (
      chknaught-Keeps c r.alt (skip 1 r) w (λ w'. running (skip 1 r) (store_width (param r w) r w'))
        k h (λ w' h'. goes (store_width-host (param r w) r w' h')))
  exec_store-Keeps StoreOp.stor_pri c r w k h = search keeping
  exec_store-Keeps StoreOp.sref_pri c r w k h = search keeping
  exec_store-Keeps StoreOp.sref_alt c r w k h = search keeping
  exec_store-Keeps _ c r w k h = search keeping

  pub exec_index-Keeps :
      (op : IndexOp) (c : Activation W) (r : Regs) (w : World W)
      → HooksKeep P c.hooks
      → P w.host
      → Keeps P (exec_index op c r w)
  unfolding exec_index
  exec_index-Keeps IndexOp.lidx c r w k h = search keeping
  exec_index-Keeps IndexOp.lidx_b c r w k h = search keeping
  exec_index-Keeps _ c r w k h = goes h

  push_repeat-Keeps : (n : ℕ) (r : Regs) (w : World W) → P w.host → Keeps P (push_repeat n r w)
  unfolding push_repeat
  push_repeat-Keeps zero r w h = goes h
  push_repeat-Keeps (suc n) r w h = push_repeat-Keeps n _ _ h

  pub exec_stack-Keeps :
      (op : StackOp) (c : Activation W) (r : Regs) (w : World W)
      → HooksKeep P c.hooks
      → P w.host
      → Keeps P (exec_stack op c r w)
  unfolding exec_stack
  exec_stack-Keeps StackOp.push_r c r w k h = push_repeat-Keeps (param r w) (skip 1 r) w h
  exec_stack-Keeps StackOp.stack c r w k h = search keeping
  exec_stack-Keeps StackOp.heap c r w k h = search keeping
  exec_stack-Keeps StackOp.proc c r w k h = search keeping
  exec_stack-Keeps StackOp.ret c r w k h = search keeping
  exec_stack-Keeps StackOp.retn c r w k h = search keeping
  exec_stack-Keeps StackOp.move_pri c r w k h = goes h
  exec_stack-Keeps _ c r w k h = goes h

  pub exec_jump-Keeps :
      (op : JumpOp) (r : Regs) (w : World W) → P w.host → Keeps P (exec_jump op r w)
  unfolding exec_jump
  exec_jump-Keeps JumpOp.jump r w h = goes h
  exec_jump-Keeps _ r w h = goes h

  pub exec_compare-Keeps :
      (op : CompareOp) (r : Regs) (w : World W) → P w.host → Keeps P (exec_compare op r w)
  unfolding exec_compare
  exec_compare-Keeps op r w h = goes h

  pub exec_cell-Keeps :
      (op : CellOp) (r : Regs) (w : World W) → P w.host → Keeps P (exec_cell op r w)
  unfolding exec_cell
  exec_cell-Keeps CellOp.zero r w h = goes h
  exec_cell-Keeps _ r w h = goes h

  pub exec_alu-Keeps :
      (op : AluOp) (c : Activation W) (r : Regs) (w : World W)
      → HooksKeep P c.hooks
      → P w.host
      → Keeps P (exec_alu op c r w)
  unfolding exec_alu
  exec_alu-Keeps AluOp.sdiv c r w k h = search keeping
  exec_alu-Keeps AluOp.sdiv_alt c r w k h = search keeping
  exec_alu-Keeps AluOp.udiv c r w k h = search keeping
  exec_alu-Keeps AluOp.udiv_alt c r w k h = search keeping
  exec_alu-Keeps AluOp.shl c r w k h = goes h
  exec_alu-Keeps _ c r w k h = goes h

  pub exec_block-Keeps :
      (op : BlockOp) (c : Activation W) (r : Regs) (w : World W)
      → HooksKeep P c.hooks
      → P w.host
      → Keeps P (exec_block op c r w)
  unfolding exec_block
  exec_block-Keeps BlockOp.movs c r w k h = search keeping
  exec_block-Keeps BlockOp.cmps c r w k h = search keeping
  exec_block-Keeps BlockOp.fill c r w k h = search keeping

  read_control-host :
      (n : ℕ) (c : Activation W) (r : Regs) (w : World W)
      → HooksKeep P c.hooks
      → P w.host
      → P (read_control n c r w).1.host
  unfolding read_control read_flags read_long_call_time
  read_control-host n c r w k h = search (if-pair, k.time_keeps, k.naught_keeps, h) depth 14

  write_flags-host :
      (c : Activation W) (pri : ℕ) (w : World W)
      → HooksKeep P c.hooks
      → P w.host
      → P (write_flags c pri w).host
  unfolding write_flags
  write_flags-host c pri w k h =
      let w₁ =
        if not (bit_and pri 32 == 0)
        then (c.hooks.long_call_ctl lct_option (long_call_option pri) w).1
        else w in
      let h₁ : P w₁.host = if-host (not (bit_and pri 32 == 0)) _ _ (k.time_keeps _ _ w h) h in
      if-host c.ext_hooks _ _
        (if-host (not (bit_and pri 64 == 0)) _ _
          (if-host (not (bit_and pri 128 == 0)) _ _ (k.naught_keeps _ w₁ h₁)
            (k.naught_keeps _ w₁ h₁))
          h₁)
        h

  pub exec_control-Keeps :
      (op : ControlOp) (c : Activation W) (r : Regs) (w : World W)
      → HooksKeep P c.hooks
      → P w.host
      → Keeps P (exec_control op c r w)
  unfolding exec_control write_control
  exec_control-Keeps ControlOp.lctrl c r w k h =
      goes (read_control-host (param r w) c (skip 1 r) w k h)
  exec_control-Keeps ControlOp.sctrl c r w k h =
      let timed : P
          (if c.ext_hooks then (c.hooks.long_call_ctl lct_set_time r.pri w).1 else w).host =
        if-host c.ext_hooks _ _ (k.time_keeps _ _ w h) h in
      search (if-Keeps, goes, h, timed, write_flags-host) depth 12

  after_call-Keeps :
      (c : Activation W) (num result : ℕ) (r : Regs) (w : World W)
      → HooksKeep P c.hooks
      → P w.host
      → Keeps P (after_call c num result r w)
  unfolding after_call
  after_call-Keeps c num result r w k h =
      if-Keeps _ _ _ (goes h) (if-Keeps _ _ _ (stops h) (abort-Keeps c num r w k h))

  sysreq-Keeps :
      (c : Activation W) (index : ℕ) (r : Regs) (w : World W)
      → HooksKeep P c.hooks
      → P w.host
      → Keeps P (sysreq c index r w)
  unfolding sysreq
  sysreq-Keeps c index r w k h =
      let (num, pri, w') = c.hooks.callback index r.pri (sync r w) in
      after_call-Keeps c num num (record r { pri = pri; num = num }) w' k
        (k.callback_keeps index r.pri (sync r w) h)

  exec_halt-Keeps :
      (c : Activation W) (offs : ℕ) (r : Regs) (w : World W)
      → HooksKeep P c.hooks
      → P w.host
      → Keeps P (exec_halt c offs r w)
  unfolding exec_halt
  exec_halt-Keeps c offs r w k h = if-Keeps _ _ _ (stops h) (abort-Keeps c offs r _ k h)

  check_long_call_time-host :
      (c : Activation W) (r : Regs) (w : World W)
      → HooksKeep P c.hooks
      → P w.host
      → P (check_long_call_time c r w).host
  unfolding check_long_call_time
  check_long_call_time-host c r w k h =
      if-host (leb 5000 w.long_call_delay) _ _ (if-host c.ext_hooks _ _ (k.time_keeps _ _ _ h) h) h

  pub exec_system-Keeps :
      (op : SystemOp) (c : Activation W) (r : Regs) (w : World W)
      → HooksKeep P c.hooks
      → P w.host
      → Keeps P (exec_system op c r w)
  unfolding exec_system
  exec_system-Keeps SystemOp.halt c r w k h = exec_halt-Keeps c (param r w) (skip 1 r) w k h
  exec_system-Keeps SystemOp.bounds c r w k h = search keeping
  exec_system-Keeps SystemOp.sysreq_pri c r w k h = sysreq-Keeps c r.pri r w k h
  exec_system-Keeps SystemOp.sysreq_c c r w k h = sysreq-Keeps c (param r w) (skip 1 r) w k h
  exec_system-Keeps SystemOp.sysreq_d c r w k h =
      let (pri, w') = c.hooks.native (param r w) (sync (skip 1 r) w) in
      after_call-Keeps c w'.amx.error r.num (record (skip 1 r) { pri = pri }) w' k
        (k.native_keeps (param r w) (sync (skip 1 r) w) h)
  exec_system-Keeps SystemOp.break c r w k h =
      let checked = check_long_call_time c r w in
      let (num, w') = c.hooks.debug (sync r checked) in
      if-Keeps w.amx.debug _ _
        (after_call-Keeps c num num (record r { num = num }) w' k
          (k.debug_keeps (sync r checked) (check_long_call_time-host c r w k h)))
        (goes h)
  exec_system-Keeps _ c r w k h = goes h
