-- ===== src/Vm/Alu.antt =====
-- Arithmetic, shifts and bits (src/amx/amx.c, lines 3408 to 3513 and 3522 to 3529).
use samp_plugin_crashdetect.Prelude.{
  ℕ, ◌/◌, ◌%◌, Bool, ◌&&◌, leb, ◌==◌, if◌then◌else◌, add32, sub32, mul32, neg32, not32, shl32,
  shr32, sshr32, quot32, rem32, bit_and, bit_or, bit_xor, sign_bit,
}
use samp_plugin_crashdetect.Amx.Error.{err_divide}
use samp_plugin_crashdetect.Amx.State.{World}
use samp_plugin_crashdetect.Vm.Opcode.{
  AluOp, shl, shr, sshr, shl_c_pri, shl_c_alt, shr_c_pri, shr_c_alt, smul, sdiv, sdiv_alt, umul,
  udiv, udiv_alt, add, sub, sub_alt, and, or, xor, not, neg, invert, add_c, smul_c, zero_pri,
  zero_alt, sign_pri, sign_alt,
}
use samp_plugin_crashdetect.Vm.Machine.{Regs, Activation, Next, running, trap, param, skip, abort}

-- A signed division whose quotient does not fit a cell traps on x86.
unfoldable pub overflows : ℕ → ℕ → Bool
overflows a b = (a == sign_bit) && (b == neg32 1)

-- `offs=(a % b + b) % b; quotient=(a - offs) / b;`: the quotient and the modulus.
unfoldable pub floor_div : ℕ → ℕ → ℕ × ℕ
unfolding quot32 rem32
floor_div a b = let offs = rem32 (add32 (rem32 a b) b) b in (quot32 (sub32 a offs) b, offs)

-- `if ((v & 0xff)>=0x80) v|= ~ (ucell)0xff;`
unfoldable pub sign_extend : ℕ → ℕ
sign_extend v = if leb 0x80 (bit_and v 0xff) then bit_or v 0xffffff00 else v

module _ {W : Type 0} where
  -- `SDIV` with the dividend and the divisor; both leave the quotient in `pri`.
  unfoldable pub signed_div : Activation W → ℕ → ℕ → Regs → World W → Next W
  unfolding overflows floor_div
  signed_div c a b r w =
      if b == 0
      then abort c err_divide r w
      else if overflows a b
      then trap
      else (let (q, m) = floor_div a b in running (record r { pri = q; alt = m }) w)

  unfoldable pub unsigned_div : Activation W → ℕ → ℕ → Regs → World W → Next W
  unsigned_div c a b r w =
      if b == 0 then abort c err_divide r w else running (record r { pri = a / b; alt = a % b }) w

  -- An instruction whose only effect is the new `pri`, without and with a parameter.
  abbrev pub to_pri : ℕ → Regs → World W → Next W
  to_pri v r w = running (record r { pri = v }) w

  unfoldable pub exec_alu : AluOp → Activation W → Regs → World W → Next W
  unfolding signed_div unsigned_div sign_extend
  exec_alu shl c r w = to_pri (shl32 r.pri r.alt) r w
  exec_alu shr c r w = to_pri (shr32 r.pri r.alt) r w
  exec_alu sshr c r w = to_pri (sshr32 r.pri r.alt) r w
  exec_alu shl_c_pri c r w = to_pri (shl32 r.pri (param r w)) (skip 1 r) w
  exec_alu shl_c_alt c r w = running (record (skip 1 r) { alt = shl32 r.alt (param r w) }) w
  exec_alu shr_c_pri c r w = to_pri (shr32 r.pri (param r w)) (skip 1 r) w
  exec_alu shr_c_alt c r w = running (record (skip 1 r) { alt = shr32 r.alt (param r w) }) w
  exec_alu smul c r w = to_pri (mul32 r.pri r.alt) r w
  exec_alu sdiv c r w = signed_div c r.pri r.alt r w
  exec_alu sdiv_alt c r w = signed_div c r.alt r.pri r w
  exec_alu umul c r w = to_pri (mul32 r.pri r.alt) r w
  exec_alu udiv c r w = unsigned_div c r.pri r.alt r w
  exec_alu udiv_alt c r w = unsigned_div c r.alt r.pri r w
  exec_alu add c r w = to_pri (add32 r.pri r.alt) r w
  exec_alu sub c r w = to_pri (sub32 r.pri r.alt) r w
  exec_alu sub_alt c r w = to_pri (sub32 r.alt r.pri) r w
  exec_alu and c r w = to_pri (bit_and r.pri r.alt) r w
  exec_alu or c r w = to_pri (bit_or r.pri r.alt) r w
  exec_alu xor c r w = to_pri (bit_xor r.pri r.alt) r w
  exec_alu not c r w = to_pri (if r.pri == 0 then 1 else 0) r w
  exec_alu neg c r w = to_pri (neg32 r.pri) r w
  exec_alu invert c r w = to_pri (not32 r.pri) r w
  exec_alu add_c c r w = to_pri (add32 r.pri (param r w)) (skip 1 r) w
  exec_alu smul_c c r w = to_pri (mul32 r.pri (param r w)) (skip 1 r) w
  exec_alu zero_pri c r w = to_pri 0 r w
  exec_alu zero_alt c r w = running (record r { alt = 0 }) w
  exec_alu sign_pri c r w = to_pri (sign_extend r.pri) r w
  exec_alu sign_alt c r w = running (record r { alt = sign_extend r.alt }) w
