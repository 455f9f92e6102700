-- ===== src/Trace/Walk/Collected.antt =====
-- The frames that the walk collects (src/amxstacktrace.cpp, lines 166 to 180).
use samp_plugin_crashdetect.Prelude.{
  ℕ, zero, suc, ◌+◌, ◌-◌, ◌≤◌, ◌<◌, ◌≢◌, arith, Bool-cases, inl, inr, ltb, ◌==◌, List, [], ◌∷◌,
  Option, none, some, length,
}
use samp_plugin_crashdetect.Amx.Memory.{Mem}
use samp_plugin_crashdetect.Amx.State.{Amx}
use samp_plugin_crashdetect.Trace.Frame.{AmxStackFrame, get_previous}
use samp_plugin_crashdetect.Trace.Walk.{AmxStackTrace, move_next, collect_frames}

-- Every frame of the list has a return address.
abbrev pub AllReturn : List AmxStackFrame → Type 0
AllReturn [] = Unit
AllReturn (f ∷ fs) = (f.return_address ≢ 0) × AllReturn fs

-- The walk has ended with at most `bound` frames, each with a return address.
pub data Collected (bound : ℕ) : Option (List AmxStackFrame) → Type 0 where
  collected :
      {fs : List AmxStackFrame} → length fs ≤ bound → AllReturn fs → Collected bound (some fs)

cons-Collected :
    (b c : ℕ) (f : AmxStackFrame) (o : Option (List AmxStackFrame))
    → f.return_address ≢ 0
    → b + 1 ≤ c
    → Collected b o
    → Collected c (elim o [ none ↦ none | some fs ↦ some (f ∷ fs) ])
cons-Collected b c f none h k p = elim p [ ]
cons-Collected b c f (some fs) h k (collected n r) = collected (omega arith) (h, r)

never : {i n : ℕ} → n < i + 0 → i ≤ n → ⊥
never h k = omega arith

-- The walk ends, with fuel for one frame more than it may still move: cycles and broken frames on the
-- stack included. It collects at most that many frames, and only frames with a return address.
pub collect_frames-Collected :
    (fuel : ℕ) (a : Amx) (m : Mem) (t : AmxStackTrace)
    → t.max_depth < t.frame_index + fuel
    → t.frame_index ≤ t.max_depth
    → Collected (t.max_depth - t.frame_index + 1) (collect_frames fuel a m t)
unfolding collect_frames move_next
collect_frames-Collected zero a m t h k = absurd (never h k)
collect_frames-Collected (suc fuel) a m t h k =
    elim (Bool-cases (t.current_frame.return_address == 0)) [
      | inl e ↦ rw e (collected (omega arith) tt)
      | inr e ↦ elim (Bool-cases (ltb t.frame_index t.max_depth)) [
        | inl more ↦
            let next : AmxStackTrace = record t {
              current_frame = get_previous a m t.current_frame;
              frame_index = t.frame_index + 1;
            } in
            rw (e, more)
              (cons-Collected (next.max_depth - next.frame_index + 1) _ t.current_frame _
                (ground (arith, e)) (ground (arith, more))
                (collect_frames-Collected fuel a m next (ground (arith, more))
                  (ground (arith, more))))
        | inr last ↦ rw (e, last) (collected (omega arith) (ground (arith, e), tt))
      ]
    ]
