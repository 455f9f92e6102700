-- ===== src/Trace/Walk.antt =====
-- The walk over the frames (src/amxstacktrace.cpp, lines 166 to 205, and the loop of
-- `PrintAMXBacktrace` in src/crashdetect.cpp, lines 459 to 467).
pub mod Collected
pub mod Chain
pub mod Restored
use samp_plugin_crashdetect.Prelude.{
  ℕ, zero, suc, ◌+◌, Bool, true, false, ◌==◌, ◌&&◌, ltb, sle, add32, sub32, if◌then◌else◌, List, [],
  ◌∷◌, Option, none, some,
}
use samp_plugin_crashdetect.Amx.Memory.{Mem, write32}
use samp_plugin_crashdetect.Amx.State.{Amx, World}
use samp_plugin_crashdetect.Amx.Ref.{check_stack}
use samp_plugin_crashdetect.Trace.Frame.{AmxStackFrame, stack_frame, get_previous}

-- `AMXStackTrace`; the depths are `int`, never negative.
pub record AmxStackTrace : Type 0 where
  pub current_frame : AmxStackFrame
  pub max_depth : ℕ
  pub frame_index : ℕ

unfoldable pub stack_trace : Amx → Mem → ℕ → ℕ → AmxStackTrace
stack_trace a m frame max_depth = record {
  current_frame = stack_frame a m frame;
  max_depth = max_depth;
  frame_index = 0;
}

-- `MoveNext`
unfoldable pub move_next : Amx → Mem → AmxStackTrace → Bool × AmxStackTrace
move_next a m t =
    if ltb t.frame_index t.max_depth
    then (
      true,
      record t {
        current_frame = get_previous a m t.current_frame;
        frame_index = t.frame_index + 1;
      },
    )
    else (false, t)

-- The room that `GetAMXStackTrace` wants for its fake frame
unfoldable pub has_room : Amx → Bool
unfolding check_stack
has_room a = check_stack a && sle 8 (sub32 a.stk a.hea)

module _ {W : Type 0} where
  -- `PushStack`
  unfoldable pub push_stack : ℕ → World W → World W
  push_stack value w =
      let stk = sub32 w.amx.stk 4 in
      record w {
        amx = record (w.amx) { stk = stk };
        mem = write32 w.mem (add32 w.amx.data_ptr stk) value;
      }

  -- the fake frame: `cip` and `frm` behind the heap
  unfoldable pub with_fake_frame : ℕ → ℕ → World W → World W
  unfolding push_stack has_room
  with_fake_frame frm cip w =
      let hlw = w.amx.hea in
      let lifted : World W = record w { amx = record (w.amx) { stk = add32 hlw 8 } } in
      let pushed = push_stack frm (push_stack cip lifted) in
      if has_room w.amx then record pushed { amx = record (pushed.amx) { frm = hlw } } else w

  -- `GetAMXStackTrace`: the trace, and what is left of the machine and the memory
  unfoldable pub get_amx_stack_trace : ℕ → ℕ → ℕ → World W → AmxStackTrace × World W
  unfolding with_fake_frame stack_trace check_stack
  get_amx_stack_trace frm cip max_depth w =
      let w₁ = with_fake_frame frm cip w in
      let trace = stack_trace w₁.amx w₁.mem w₁.amx.frm max_depth in
      (
        trace,
        if check_stack w₁.amx
            then record w₁ { amx = record (w₁.amx) { stk = w.amx.stk; frm = frm } }
            else w₁,
      )

-- The loop that collects the frames, on fuel; `none` where the fuel is used up.
unfoldable pub collect_frames : ℕ → Amx → Mem → AmxStackTrace → Option (List AmxStackFrame)
unfolding move_next
collect_frames zero a m t = none
collect_frames (suc fuel) a m t =
    let (moved, next) = move_next a m t in
    let rest = collect_frames fuel a m next in
    if t.current_frame.return_address == 0
    then some []
    else if moved
    then elim rest [ none ↦ none | some fs ↦ some (t.current_frame ∷ fs) ]
    else some (t.current_frame ∷ [])
