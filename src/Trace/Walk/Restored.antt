-- ===== src/Trace/Walk/Restored.antt =====
-- What `GetAMXStackTrace` does to the machine, and its fake frame (src/amxstacktrace.cpp, lines
-- 182 to 205).
use mathlib.Core.Path.{subst}
use samp_plugin_crashdetect.Prelude.{
  sym, ℕ, ◌+◌, ◌≤◌, ◌<◌, ◌≡◌, ◌≢◌, refl, ◌∙◌, arith, true, false, Bool-cases, inl, inr, add32,
  sub32, sle, IsCell, if◌then◌else◌, List, ◌∷◌, map, some, length,
}
use samp_plugin_crashdetect.Amx.Memory.{read32, write32, Apart, read32-write32, read32-write32_ne}
use samp_plugin_crashdetect.Amx.State.{World}
use samp_plugin_crashdetect.Amx.Ref.{check_stack}
use samp_plugin_crashdetect.Trace.Frame.{
  AmxStackFrame, is_stack_address, stack_frame, get_return_address, get_previous_frame, data_cell,
  get_return_address_safe, get_callee_address_safe, get_callee_address, is_code_address,
  get_caller_address, get_previous_frame_safe, code_cell,
}
use samp_plugin_crashdetect.Trace.Walk.{
  stack_trace, push_stack, has_room, with_fake_frame, get_amx_stack_trace, collect_frames,
}
use samp_plugin_crashdetect.Trace.Walk.Chain.{CallChain, inner, view, collect_frames-CallChain}

module _ {W : Type 0} where
  -- The state with the fake frame, and with the registers put back
  abbrev pub faked : ℕ → ℕ → World W → World W
  faked frm cip w =
      let d = w.amx.data_ptr in
      let hea = w.amx.hea in
      record w {
        amx = record (w.amx) { stk = hea; frm = hea };
        mem = write32 (write32 w.mem (add32 d (add32 hea 4)) cip) (add32 d hea) frm;
      }

  abbrev pub put_back : ℕ → ℕ → World W → World W
  put_back frm cip w = record (faked frm cip w) { amx = record (w.amx) { frm = frm } }

  faked_lem :
      (frm cip : ℕ) (w : World W)
      → IsCell w.amx.hea
      → has_room w.amx ≡ true
      → with_fake_frame frm cip w ≡ faked frm cip w
  unfolding with_fake_frame push_stack
  faked_lem frm cip w c room =
      let e₁ : sub32 (add32 w.amx.hea 8) 4 ≡ add32 w.amx.hea 4 = omega arith in
      let e₂ : sub32 (add32 w.amx.hea 4) 4 ≡ w.amx.hea = omega arith in rw (room, e₁, e₂) refl

  faked-check :
      (frm cip : ℕ) (w : World W)
      → IsCell w.amx.hea
      → has_room w.amx ≡ true
      → (check_stack (faked frm cip w).amx ≡ true) × (check_stack w.amx ≡ true)
  unfolding has_room check_stack
  faked-check frm cip w c h = ground (arith, h)

  no_room : (frm cip : ℕ) (w : World W) → has_room w.amx ≡ false → with_fake_frame frm cip w ≡ w
  unfolding with_fake_frame
  no_room frm cip w h = rw h refl

  -- `GetAMXStackTrace` leaves the machine as it was, but for the frame register, which holds `frm`
  -- afterwards if the stack was in order, and no memory but the two cells behind the heap changes.
  pub get_amx_stack_trace-machine :
      (frm cip max_depth : ℕ) (w : World W)
      → IsCell w.amx.hea
      → let w' = (get_amx_stack_trace frm cip max_depth w).1 in
        (w'.amx ≡ record (w.amx) { frm = if check_stack w.amx then frm else w.amx.frm })
        × (w'.host ≡ w.host)
        × ((b : ℕ)
            → Apart (add32 w.amx.data_ptr w.amx.hea) b
            → Apart (add32 w.amx.data_ptr (add32 w.amx.hea 4)) b
            → read32 w'.mem b ≡ read32 w.mem b)
  unfolding get_amx_stack_trace
  get_amx_stack_trace-machine frm cip max_depth w c = elim (Bool-cases (has_room w.amx)) [
    | inl room ↦
        let (after, before) = faked-check frm cip w c room in
        let d = w.amx.data_ptr in
        let m₁ = write32 w.mem (add32 d (add32 w.amx.hea 4)) cip in
        rw (faked_lem frm cip w c room, after, before)
          (
            refl,
            refl,
            λ b near far.
                read32-write32_ne m₁ (add32 d w.amx.hea) b frm near
                ∙ read32-write32_ne w.mem (add32 d (add32 w.amx.hea 4)) b cip far,
          )
    | inr none_left ↦ elim (Bool-cases (check_stack w.amx)) [
      | inl ok ↦ rw (no_room frm cip w none_left, ok) (refl, refl, λ b near far. refl)
      | inr bad ↦ rw (no_room frm cip w none_left, bad) (refl, refl, λ b near far. refl)
    ]
  ]

  fake-stack :
      (frm : ℕ) (w : World W)
      → IsCell w.amx.hea
      → sle w.amx.hlw w.amx.hea ≡ true
      → has_room w.amx ≡ true
      → is_stack_address (record (w.amx) { frm = frm }) w.amx.hea ≡ true
  unfolding is_stack_address has_room check_stack
  fake-stack frm w c above room = ground (arith, above, room)

  fake-chain :
      (frm cip : ℕ) (w : World W) (calls : List (ℕ × ℕ))
      → IsCell w.amx.hea
      → IsCell frm
      → IsCell cip
      → w.amx.hea ≢ 0
      → cip ≢ 0
      → sle w.amx.hlw w.amx.hea ≡ true
      → has_room w.amx ≡ true
      → let w' = put_back frm cip w in
        CallChain w'.amx w'.mem frm calls
        → CallChain w'.amx w'.mem w.amx.hea ((w.amx.hea, cip) ∷ calls)
  unfolding get_return_address get_previous_frame data_cell is_stack_address
  fake-chain frm cip w calls c cf c_cip cz rz above room chain =
      let w₁ = put_back frm cip w in
      let hea = w.amx.hea in
      let d = w.amx.data_ptr in
      let m₁ = write32 w.mem (add32 d (add32 hea 4)) cip in
      let prev : get_previous_frame w₁.amx w₁.mem hea ≡ frm =
        omega (arith, read32-write32 m₁ (add32 d hea) frm) in
      let ret : get_return_address w₁.amx w₁.mem hea ≡ cip = omega (
        arith,
        read32-write32_ne m₁ (add32 d hea) (add32 d (add32 hea 4)) frm (omega arith),
        read32-write32 w.mem (add32 d (add32 hea 4)) cip,
      ) in
      subst (λ r. CallChain w₁.amx w₁.mem hea ((hea, r) ∷ calls)) ret
        (inner (fake-stack frm w c above room) cz (rw ret rz)
          (subst (λ p. CallChain w₁.amx w₁.mem p calls) (sym prev) chain))

  done :
      (frm cip max_depth : ℕ) (w : World W)
      → IsCell w.amx.hea
      → has_room w.amx ≡ true
      → let w₁ = faked frm cip w in
        get_amx_stack_trace frm cip max_depth w
        ≡ (stack_trace w₁.amx w₁.mem w.amx.hea max_depth, put_back frm cip w)
  unfolding get_amx_stack_trace
  done frm cip max_depth w c room =
      rw (faked_lem frm cip w c room, (faked-check frm cip w c room).0) refl

  -- The registers of the stack play no part in a frame.
  same_frame :
      (frm cip max_depth f : ℕ) (w : World W)
      → let w₁ = faked frm cip w in
        (stack_trace w₁.amx w₁.mem f max_depth).current_frame
        ≡ stack_frame (put_back frm cip w).amx w₁.mem f
  unfolding stack_trace stack_frame get_return_address_safe get_return_address is_stack_address
      get_callee_address_safe get_callee_address is_code_address get_caller_address
      get_previous_frame_safe get_previous_frame data_cell code_cell
  same_frame frm cip max_depth f w = refl

  -- A call in the middle of a run: the frame at `frm`, about to go on at `cip`. With room for the fake
  -- frame, the walk over the trace of `GetAMXStackTrace` collects first a frame that returns to `cip`
  -- and then exactly the calls on the stack, with their addresses and return addresses, in order,
  -- provided that together they are no more than it may visit.
  pub get_amx_stack_trace-CallChain :
      (frm cip max_depth fuel : ℕ) (w : World W) (calls : List (ℕ × ℕ))
      → IsCell w.amx.hea
      → IsCell frm
      → IsCell cip
      → w.amx.hea ≢ 0
      → cip ≢ 0
      → sle w.amx.hlw w.amx.hea ≡ true
      → has_room w.amx ≡ true
      → length calls ≤ max_depth
      → max_depth + 1 < fuel
      → let r = get_amx_stack_trace frm cip max_depth w in
        CallChain r.1.amx r.1.mem frm calls
        → (fs : List AmxStackFrame) × (collect_frames fuel r.1.amx r.1.mem r.0 ≡ some fs)
          × (map view fs ≡ (w.amx.hea, cip) ∷ calls)
  unfolding stack_trace
  get_amx_stack_trace-CallChain frm cip max_depth fuel w calls c cf c_cip cz rz above room short n
        chain =
      let w' = put_back frm cip w in
      let e = done frm cip max_depth w c room in
      rw e (
        collect_frames-CallChain fuel w'.amx w'.mem w.amx.hea ((w.amx.hea, cip) ∷ calls) _
          (fake-chain frm cip w calls c cf c_cip cz rz above room (rw e at chain))
          (same_frame frm cip max_depth w.amx.hea w) (omega arith) (omega arith))
