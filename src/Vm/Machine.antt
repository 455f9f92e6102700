-- ===== src/Vm/Machine.antt =====
-- The interpreter's local variables, the hooks that it calls, and the macros that its instructions
-- share (src/amx/amx.c, lines 1726 to 1743).
use samp_plugin_crashdetect.Prelude.{
  none, some, ℕ, ◌*◌, Bool, false, not, ◌&&◌, ◌||◌, leb, ◌==◌, if◌then◌else◌, add32, sub32, neg32,
  slt, sle,
}
use samp_plugin_crashdetect.Amx.Memory.{Mem, read32, write32}
use samp_plugin_crashdetect.Amx.Error.{err_stackerr, err_stacklow, err_heaplow, err_address_0}
use samp_plugin_crashdetect.Amx.State.{World}
use samp_plugin_crashdetect.Amx.Stack.{stkmargin}
use samp_plugin_crashdetect.Amx.UserData.{amx_get_ext_hooks}

-- `pri`, `alt`, `stk`, `frm`, `hea`, `cip` and `num`. `cip` is an address in the process.
pub record Regs : Type 0 where
  pub pri : ℕ
  pub alt : ℕ
  pub stk : ℕ
  pub frm : ℕ
  pub hea : ℕ
  pub cip : ℕ
  pub num : ℕ

-- What the interpreter calls: the native-function callback (with the index and `pri`, it returns the
-- error and the new `pri`), a native called by its address, the debug hook, the three functions of
-- `AMX_EXT_HOOKS` and the C library's `memcmp`.
pub record Hooks (W : Type 0) : Type 0 where
  pub callback : ℕ → ℕ → World W → ℕ × ℕ × World W
  pub native : ℕ → World W → ℕ × World W
  pub debug : World W → ℕ × World W
  pub exec_error : ℕ → ℕ → World W → World W
  pub long_call_ctl : ℕ → ℕ → World W → ℕ × World W
  pub address_naught_ctl : ℕ → World W → ℕ × World W
  pub memcmp : Mem → ℕ → ℕ → ℕ → ℕ

-- One activation of `amx_Exec`: its `index`, the values for the exit, and whether the machine has
-- extension hooks (`ext_hooks!=NULL`).
pub record Activation (W : Type 0) : Type 0 where
  pub hooks : Hooks W
  pub ext_hooks : Bool
  pub index : ℕ
  pub reset_stk : ℕ
  pub reset_hea : ℕ

-- An instruction goes on, leaves `amx_Exec` with a code, or makes the processor trap.
pub data Next (W : Type 0) : Type 0 where
  running : Regs → World W → Next W
  stopped : ℕ → World W → Next W
  trap : Next W

module _ {W : Type 0} where
  -- `GETPARAM(v)`: the cell at `cip`; `skip` steps over cells.
  abbrev pub param : Regs → World W → ℕ
  param r w = read32 w.mem r.cip

  -- `*(cell *)(data+offs)`, read and written
  abbrev pub load : World W → ℕ → ℕ
  load w offs = read32 w.mem (add32 w.amx.data_ptr offs)

  abbrev pub store : World W → ℕ → ℕ → World W
  store w offs v = record w { mem = write32 w.mem (add32 w.amx.data_ptr offs) v }

  -- `amx_RaiseExecError` looks its hook up in the user data.
  unfoldable pub amx_raise_exec_error : Activation W → ℕ → World W → World W
  amx_raise_exec_error c err w = elim (amx_get_ext_hooks w.amx.user_data).1 [
    | none ↦ w
    | some _ ↦ c.hooks.exec_error c.index err w
  ]

  -- `ABORT(amx,v)`
  unfoldable pub abort : Activation W → ℕ → Regs → World W → Next W
  unfolding amx_raise_exec_error
  abort c err r w =
      let w₁ : World W = record w {
        amx = record (w.amx) { pri = r.pri; stk = r.stk; hea = r.hea; frm = r.frm };
      } in
      let w₂ = amx_raise_exec_error c err w₁ in
      stopped err (record w₂ { amx = record (w₂.amx) { stk = c.reset_stk; hea = c.reset_hea } })

  -- The guards of an instruction: `CHKMARGIN()`, `CHKSTACK()`, `CHKHEAP()`.
  unfoldable pub chkmargin : Activation W → Regs → World W → Next W → Next W
  chkmargin c r w k = if slt r.stk (add32 r.hea stkmargin) then abort c err_stackerr r w else k

  unfoldable pub chkstack : Activation W → Regs → World W → Next W → Next W
  chkstack c r w k = if slt w.amx.stp r.stk then abort c err_stacklow r w else k

  unfoldable pub chkheap : Activation W → Regs → World W → Next W → Next W
  chkheap c r w k = if slt r.hea w.amx.hlw then abort c err_heaplow r w else k

  -- The test in `CHKNAUGHT()`, which asks the hook for the machine's setting.
  unfoldable pub address_naught : Activation W → World W → Bool × World W
  address_naught c w =
      if c.ext_hooks
      then (let (v, w') = c.hooks.address_naught_ctl (neg32 1) w in (not (v == 0), w'))
      else (false, w)

  -- `if (offs==0) CHKNAUGHT();` before a store
  unfoldable pub chknaught : Activation W → ℕ → Regs → World W → (World W → Next W) → Next W
  unfolding address_naught
  chknaught c offs r w k =
      if offs == 0
      then (let (banned, w') = address_naught c w in
          if banned then abort c err_address_0 r w' else k w')
      else k w

  -- `addr>=hea && addr<stk || (ucell)addr>=(ucell)amx->stp`
  unfoldable pub bad_address : Regs → World W → ℕ → Bool
  bad_address r w addr = (sle r.hea addr && slt addr r.stk) || leb w.amx.stp addr

  -- `PUSH(v)` and `POP(v)`
  unfoldable pub push : ℕ → Regs → World W → Next W
  push v r w = let stk = sub32 r.stk 4 in running (record r { stk = stk }) (store w stk v)

-- `SKIPPARAM(n)`
abbrev pub skip : ℕ → Regs → Regs
skip n r = record r { cip = add32 r.cip (4 * n) }

-- The stack pointer after a `POP`; the value is `load w r.stk`.
abbrev pub drop : Regs → Regs
drop r = record r { stk = add32 r.stk 4 }
