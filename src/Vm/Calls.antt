-- ===== src/Vm/Calls.antt =====
-- The calling convention: CALL, PROC and RETN (src/amx/amx.c, lines 3300 to 3326).
use mathlib.Core.Path.{subst₂}
use samp_plugin_crashdetect.Prelude.{
  Bool-cases, inl, inr, ℕ, ap, ◌∙◌, ◌≡◌, refl, false, leb, arith, add32, sub32, slt, IsCell,
}
use samp_plugin_crashdetect.Amx.Memory.{write32, read32-write32, read32-write32_ne}
use samp_plugin_crashdetect.Amx.State.{World}
use samp_plugin_crashdetect.Amx.Stack.{stkmargin}
use samp_plugin_crashdetect.Vm.Opcode.{call, proc, retn}
use samp_plugin_crashdetect.Vm.Machine.{
  Regs, Activation, running, abort, load, store, param, chkmargin,
}
use samp_plugin_crashdetect.Vm.StackOps.{exec_stack, leave}

module _ {W : Type 0} where
  -- What the callee must have kept when it returns: the stack pointer and the two cells of its frame,
  -- the memory below the arguments, and where code and data are.
  pub record Kept (stk : ℕ) (w₂ : World W) (r₃ : Regs) (w₃ : World W) : Type 0 where
    pub same_stk : r₃.stk ≡ stk
    pub same_code : w₃.amx.code ≡ w₂.amx.code
    pub same_data : w₃.amx.data_ptr ≡ w₂.amx.data_ptr
    pub same_cod : w₃.amx.header.cod ≡ w₂.amx.header.cod
    pub same_dat : w₃.amx.header.dat ≡ w₂.amx.header.dat
    pub saved_frm : load w₃ stk ≡ load w₂ stk
    pub saved_cip : load w₃ (add32 stk 4) ≡ load w₂ (add32 stk 4)

  -- the states behind CALL, with the jump to any target, and behind PROC there
  abbrev pub called : Regs → World W → World W
  called r w = store w (sub32 r.stk 4) (add32 (sub32 r.cip w.amx.code) 4)

  abbrev pub entered : Regs → World W → World W
  entered r w = store (called r w) (sub32 (sub32 r.stk 4) 4) r.frm

  pub saved :
      (r : Regs) (w : World W)
      → IsCell r.stk
      → IsCell r.frm
      → (load (entered r w) (sub32 (sub32 r.stk 4) 4) ≡ r.frm)
        × (load (entered r w) (add32 (sub32 (sub32 r.stk 4) 4) 4)
            ≡ add32 (sub32 r.cip w.amx.code) 4)
  saved r w hs hf =
      let d = w.amx.data_ptr in
      let m₁ = write32 w.mem (add32 d (sub32 r.stk 4)) (add32 (sub32 r.cip w.amx.code) 4) in
      let same : add32 (sub32 (sub32 r.stk 4) 4) 4 ≡ sub32 r.stk 4 = omega arith in
      (
        omega (arith, read32-write32 m₁ (add32 d (sub32 (sub32 r.stk 4) 4)) r.frm),
        rw same (
            omega (
              arith,
              read32-write32_ne m₁ (add32 d (sub32 (sub32 r.stk 4) 4)) (add32 d (sub32 r.stk 4))
                  r.frm (omega arith),
              read32-write32 w.mem (add32 d (sub32 r.stk 4)) (add32 (sub32 r.cip w.amx.code) 4),
            )),
      )

  pub call_state :
      (c : Activation W) (r r₁ : Regs) (w w₁ : World W)
      → exec_stack call c r w ≡ running r₁ w₁
      → (r₁.stk ≡ sub32 r.stk 4)
        × (r₁.frm ≡ r.frm)
        × (w₁ ≡ called r w)
        × (r₁.cip ≡ param r (called r w))
  unfolding exec_stack
  call_state c r r₁ w w₁ h = (cc, cc, cc, cc)

  pub proc_state :
      (c : Activation W) (r r₁ : Regs) (w w₁ : World W)
      → exec_stack proc c r w ≡ running r₁ w₁
      → (r₁.stk ≡ sub32 r.stk 4) × (w₁ ≡ store w (sub32 r.stk 4) r.frm) × (r₁.frm ≡ r₁.stk)
  unfolding exec_stack chkmargin abort
  proc_state c r r₁ w w₁ h = elim (Bool-cases (slt (sub32 r.stk 4) (add32 r.hea stkmargin))) [
    | inl low ↦ cc (rw low at h)
    | inr fits ↦ let e = rw fits at h in (cc (e), cc (e), cc (e))
  ]

  return_lem :
      (c : Activation W) (r : Regs) (w : World W) (r₃ : Regs) (w₃ : World W)
      → IsCell r.stk
      → IsCell r.frm
      → IsCell r.cip
      → leb (sub32 w.amx.header.dat w.amx.header.cod) (add32 (sub32 r.cip w.amx.code) 4) ≡ false
      → Kept (sub32 (sub32 r.stk 4) 4) (entered r w) r₃ w₃
      → (w' : World W) × (exec_stack retn c r₃ w₃
          ≡ running
              (record r₃ {
                frm = r.frm;
                cip = add32 r.cip 4;
                stk = add32 r.stk (add32 (load w₃ r.stk) 4);
              })
              w')
        × (w'.mem ≡ w₃.mem)
  unfolding exec_stack leave
  return_lem c r w r₃ w₃ hs hf hc inside kept =
      let (f, a) = saved r w hs hf in
      let base : r₃.stk ≡ sub32 (sub32 r.stk 4) 4 = kept.same_stk in
      let e₁ : load w₃ r₃.stk ≡ r.frm = rw base (kept.saved_frm ∙ f) in
      let e₂ : load w₃ (add32 r₃.stk 4) ≡ add32 (sub32 r.cip w.amx.code) 4 =
        rw base (kept.saved_cip ∙ a) in
      let e₃ : leb (sub32 w₃.amx.header.dat w₃.amx.header.cod) (load w₃ (add32 r₃.stk 4)) ≡ false =
        rw (e₂, kept.same_dat, kept.same_cod) inside in
      let e₄ : add32 r₃.stk 8 ≡ r.stk = rw base (omega arith) in
      let e₅ : add32 w₃.amx.code (add32 (sub32 r.cip w.amx.code) 4) ≡ add32 r.cip 4 =
        rw kept.same_code (omega arith) in
      (
        record w₃ { amx = record (w₃.amx) { stk = add32 r.stk (add32 (load w₃ r.stk) 4) } },
        rw (e₃, e₁, e₂, e₅, e₄) refl,
        refl,
      )

  -- A call of an address, the callee's prologue, a body that keeps its frame, and RETN bring the
  -- caller's frame back, go on behind the call's parameter, and take the return address, the argument
  -- count and the arguments off the stack. The return address has to lie in the code section.
  pub call_return :
      (c : Activation W) (r : Regs) (w : World W)
      → IsCell r.stk
      → IsCell r.frm
      → IsCell r.cip
      → leb (sub32 w.amx.header.dat w.amx.header.cod) (add32 (sub32 r.cip w.amx.code) 4) ≡ false
      → (target : ℕ) {r₁ r₂ r₃ : Regs} {w₁ w₂ w₃ : World W} → exec_stack call c r w ≡ running r₁ w₁
      → exec_stack proc c (record r₁ { cip = target }) w₁ ≡ running r₂ w₂
      → Kept r₂.stk w₂ r₃ w₃
      → (w' : World W) × (exec_stack retn c r₃ w₃
          ≡ running
              (record r₃ {
                frm = r.frm;
                cip = add32 r.cip 4;
                stk = add32 r.stk (add32 (load w₃ r.stk) 4);
              })
              w')
        × (w'.mem ≡ w₃.mem)
  call_return c r w hs hf hc inside target {r₁} {r₂} {r₃} {w₁} {w₂} {w₃} h₁ h₂ kept =
      let (s₁, f₁, m₁, _) = call_state c r r₁ w w₁ h₁ in
      let (s₂, m₂, _) = proc_state c (record r₁ { cip = target }) r₂ w₁ w₂ h₂ in
      let es : r₂.stk ≡ sub32 (sub32 r.stk 4) 4 = s₂ ∙ ap (λ (k : ℕ). sub32 k 4) s₁ in
      let ew : w₂ ≡ entered r w = rw (m₂, m₁, s₁, f₁) refl in
      return_lem c r w r₃ w₃ hs hf hc inside (subst₂ (λ k v. Kept k v r₃ w₃) es ew kept)
