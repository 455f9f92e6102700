-- ===== src/Trace/Calls.antt =====
-- The frame that CALL and PROC make, as the stack trace reads it (src/amx/amx.c, lines 3310 to 3326, and
-- src/amxstacktrace.cpp, lines 63 to 158).
use samp_plugin_crashdetect.Prelude.{ℕ, ◌≡◌, ◌≢◌, refl, ap, ◌∙◌, true, arith, add32, sub32, IsCell}
use samp_plugin_crashdetect.Amx.Memory.{read32, Apart, read32-write32_ne}
use samp_plugin_crashdetect.Amx.State.{World}
use samp_plugin_crashdetect.Vm.Opcode.{call, proc}
use samp_plugin_crashdetect.Vm.Machine.{Regs, Activation, running}
use samp_plugin_crashdetect.Vm.StackOps.{exec_stack}
use samp_plugin_crashdetect.Vm.Calls.{called, entered, saved, call_state, proc_state}
use samp_plugin_crashdetect.Trace.Walk.Chain.{view-stack_frame}
use samp_plugin_crashdetect.Trace.Frame.{
  is_stack_address, is_code_address, stack_frame, get_return_address, get_previous_frame,
  get_callee_address, get_callee_address_safe, data_cell, code_cell,
}

module _ {W : Type 0} where
  -- The machine after CALL and PROC: the frame pointer, the jump, the frame's two cells
  record Entered (r r₂ : Regs) (w w₂ : World W) (target : ℕ) : Type 0 where
    frame : r₂.frm ≡ sub32 (sub32 r.stk 4) 4
    state : w₂ ≡ entered r w
    jump : target ≡ read32 (called r w).mem r.cip

  enter :
      (c : Activation W) (r r₁ r₂ : Regs) (w w₁ w₂ : World W)
      → exec_stack call c r w ≡ running r₁ w₁
      → exec_stack proc c r₁ w₁ ≡ running r₂ w₂
      → Entered r r₂ w w₂ r₁.cip
  enter c r r₁ r₂ w w₁ w₂ h₁ h₂ =
      let (s₁, f₁, m₁, j) = call_state c r r₁ w w₁ h₁ in
      let (s₂, m₂, e) = proc_state c r₁ r₂ w₁ w₂ h₂ in
      record {
        frame = e ∙ s₂ ∙ ap (λ (k : ℕ). sub32 k 4) s₁;
        state = rw (m₂, m₁, s₁, f₁) refl;
        jump = j;
      }

  callee-stack_frame :
      (w : World W) (f ret : ℕ)
      → (stack_frame w.amx w.mem f).return_address ≡ ret
      → ret ≢ 0
      → is_code_address w.amx ret ≡ true
      → (stack_frame w.amx w.mem f).callee_address ≡ get_callee_address w.amx w.mem ret
  unfolding stack_frame get_callee_address_safe
  callee-stack_frame w f ret e nz code = ground (arith, e, nz, code)

  entered_frame :
      (r : Regs) (w : World W)
      → IsCell r.stk
      → IsCell r.frm
      → IsCell r.cip
      → IsCell w.amx.code
      → let f = sub32 (sub32 r.stk 4) 4 in
        let ret = add32 (sub32 r.cip w.amx.code) 4 in
        is_stack_address w.amx f ≡ true
        → f ≢ 0
        → is_code_address w.amx ret ≡ true
        → ret ≢ 0
        → Apart (add32 w.amx.data_ptr f) r.cip
        → let s = stack_frame w.amx (entered r w).mem f in
          (s.address ≡ f)
          × (s.return_address ≡ ret)
          × (s.callee_address ≡ sub32 (read32 (called r w).mem r.cip) w.amx.code)
          × (get_previous_frame w.amx (entered r w).mem f ≡ r.frm)
  unfolding get_return_address get_previous_frame get_callee_address data_cell code_cell
  entered_frame r w cs cf cp cd on_stack nz in_code nr apart =
      let f = sub32 (sub32 r.stk 4) 4 in
      let ret = add32 (sub32 r.cip w.amx.code) 4 in
      let (prev, back) = saved r w cs cf in
      let seen = view-stack_frame w.amx (entered r w).mem f on_stack nz in
      let e : (stack_frame w.amx (entered r w).mem f).return_address ≡ ret =
        ap (λ p. p.1) seen ∙ back in
      let at : add32 w.amx.code (sub32 ret 4) ≡ r.cip = omega arith in
      (
        ap (λ p. p.0) seen,
        e,
        callee-stack_frame (entered r w) f ret e nr in_code
            ∙ ap (λ k. sub32 (read32 (entered r w).mem k) w.amx.code) at
            ∙ ap (λ k. sub32 k w.amx.code)
                (read32-write32_ne (called r w).mem (add32 w.amx.data_ptr f) r.cip r.frm apart),
        prev,
      )

  -- After CALL and PROC, the frame at the frame pointer, as the stack trace reads it, is that of this
  -- call: its address, the address behind the CALL as return address, the CALL's target as callee, and
  -- the caller's frame as the frame before it. The frame has to lie on the stack, the return address in
  -- the code section, and the CALL's parameter apart from the two cells.
  pub frame_of_call :
      (c : Activation W) (r r₁ r₂ : Regs) (w w₁ w₂ : World W)
      → exec_stack call c r w ≡ running r₁ w₁
      → exec_stack proc c r₁ w₁ ≡ running r₂ w₂
      → IsCell r.stk
      → IsCell r.frm
      → IsCell r.cip
      → IsCell w.amx.code
      → is_stack_address w.amx r₂.frm ≡ true
      → r₂.frm ≢ 0
      → is_code_address w.amx (add32 (sub32 r.cip w.amx.code) 4) ≡ true
      → add32 (sub32 r.cip w.amx.code) 4 ≢ 0
      → Apart (add32 w.amx.data_ptr (sub32 (sub32 r.stk 4) 4)) r.cip
      → let f = stack_frame w₂.amx w₂.mem r₂.frm in
        (f.address ≡ r₂.frm)
        × (f.return_address ≡ add32 (sub32 r.cip w.amx.code) 4)
        × (f.callee_address ≡ sub32 r₁.cip w.amx.code)
        × (get_previous_frame w₂.amx w₂.mem r₂.frm ≡ r.frm)
  frame_of_call c r r₁ r₂ w w₁ w₂ h₁ h₂ cs cf cp cd on_stack nz in_code nr apart =
      let e = enter c r r₁ r₂ w w₁ w₂ h₁ h₂ in
      rw (e.state, e.jump, e.frame)
        (entered_frame r w cs cf cp cd (rw e.frame at on_stack) (rw e.frame at nz) in_code nr apart)
