-- ===== src/Vm/Jump.antt =====
-- Jumps and the case table (src/amx/amx.c, lines 3327 to 3407 and 3732 to 3743). The loader has made
-- jump targets absolute addresses (`JUMPABS`).
use samp_plugin_crashdetect.Prelude.{
  ℕ, zero, suc, Bool, not, ltb, leb, ◌==◌, if◌then◌else◌, add32, slt, sle, is_neg,
}
use samp_plugin_crashdetect.Amx.Memory.{Mem, read32}
use samp_plugin_crashdetect.Amx.State.{World}
use samp_plugin_crashdetect.Vm.Opcode.{
  JumpOp, jump, jrel, jzer, jnz, jeq, jneq, jless, jleq, jgrtr, jgeq, jsless, jsleq, jsgrtr, jsgeq,
  switch,
}
use samp_plugin_crashdetect.Vm.Machine.{Regs, Next, running, param, skip}

-- `for (cptr+=2; num>0 && *cptr!=pri; num--,cptr+=2)`: the records left and the address of the one
-- where the loop stops.
unfoldable pub find_case : ℕ → Mem → ℕ → ℕ → ℕ × ℕ
find_case zero m cptr pri = (0, cptr)
find_case (suc num) m cptr pri =
    let rest = find_case num m (add32 cptr 8) pri in
    if read32 m cptr == pri then (suc num, cptr) else rest

-- `SWITCH`: the new `num` and `cip`. The table at `cptr` is the number of records, the address for no
-- match, and the records, each a value and an address.
unfoldable pub switch_target : Mem → ℕ → ℕ → ℕ × ℕ
unfolding find_case
switch_target m cip pri =
    let cptr = add32 (read32 m cip) 4 in
    let count = read32 m cptr in
    let preset = read32 m (add32 cptr 4) in
    if is_neg count
    then (count, preset)
    else (let (num, found) = find_case count m (add32 cptr 8) pri in
        if num == 0 then (num, preset) else (num, read32 m (add32 found 4)))

module _ {W : Type 0} where
  -- `if (taken) cip=JUMPABS(code, cip); else cip=(cell *)((unsigned char *)cip+sizeof(cell));`
  unfoldable pub jump_if : Bool → Regs → World W → Next W
  jump_if taken r w = running (if taken then record r { cip = param r w } else skip 1 r) w

  unfoldable pub exec_jump : JumpOp → Regs → World W → Next W
  unfolding jump_if switch_target
  exec_jump jump r w = running (record r { cip = param r w }) w
  exec_jump jrel r w = running (record r { cip = add32 (add32 r.cip (param r w)) 4 }) w
  exec_jump jzer r w = jump_if (r.pri == 0) r w
  exec_jump jnz r w = jump_if (not (r.pri == 0)) r w
  exec_jump jeq r w = jump_if (r.pri == r.alt) r w
  exec_jump jneq r w = jump_if (not (r.pri == r.alt)) r w
  exec_jump jless r w = jump_if (ltb r.pri r.alt) r w
  exec_jump jleq r w = jump_if (leb r.pri r.alt) r w
  exec_jump jgrtr r w = jump_if (ltb r.alt r.pri) r w
  exec_jump jgeq r w = jump_if (leb r.alt r.pri) r w
  exec_jump jsless r w = jump_if (slt r.pri r.alt) r w
  exec_jump jsleq r w = jump_if (sle r.pri r.alt) r w
  exec_jump jsgrtr r w = jump_if (slt r.alt r.pri) r w
  exec_jump jsgeq r w = jump_if (sle r.alt r.pri) r w
  exec_jump switch r w =
      let (num, cip) = switch_target w.mem r.cip r.pri in
      running (record r { num = num; cip = cip }) w
