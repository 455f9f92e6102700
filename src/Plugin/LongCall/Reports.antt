-- ===== src/Plugin/LongCall/Reports.antt =====
-- How often long calls are reported (src/crashdetect.cpp, lines 553 to 569 and 603 to 645).
use samp_plugin_crashdetect.Prelude.{
  ℕ, ◌+◌, ◌-◌, ◌≤◌, ◌≡◌, ◌==◌, ◌&&◌, if◌then◌else◌, arith, Option, none, some, List, [], ◌∷◌,
  length, false, refl, ◌∙◌, Option-cases, inl, inr,
}
use samp_plugin_crashdetect.Amx.Error.{lct_option, opt_restart}
use samp_plugin_crashdetect.Plugin.CallStack
use samp_plugin_crashdetect.Plugin.CallStack.{AmxCall}
use samp_plugin_crashdetect.Plugin.LongCall.{
  Static, Event, begins, ends, requests, serve, push, pop, on_long_call_request, long_call_option,
  check_long_call_time, set_long_call_time, plugin_load,
}

-- How often a series of events sets a deadline, when `depth` calls are active: once for each
-- outermost call and once for each request to restart.
unfoldable pub deadlines : ℕ → List Event → ℕ
deadlines depth [] = 0
deadlines depth (begins now call ∷ es) = (if depth == 0 then 1 else 0) + deadlines (depth + 1) es
deadlines depth (ends ∷ es) = deadlines (depth - 1) es
deadlines depth (requests now option value ∷ es) =
    (if (option == lct_option) && (value == opt_restart) then 1 else 0) + deadlines depth es

abbrev pub armed : Option ℕ → ℕ
armed none = 0
armed (some t) = 1

-- A request can report only when the timer is armed, and disarms it then.
pub request-armed :
    (now option value : ℕ) (s : Static)
    → let r = on_long_call_request now option value s in
      ((if r.1 then 1 else 0) + armed r.2.time_next
        ≤ armed s.time_next + (if (option == lct_option) && (value == opt_restart) then 1 else 0))
      × (r.2.call_stack ≡ s.call_stack)
unfolding on_long_call_request long_call_option check_long_call_time set_long_call_time
request-armed now option value s = ground arith

push-armed :
    (now : ℕ) (call : AmxCall) (s : Static)
    → let s' = push now call s in
      (armed s'.time_next ≤ armed s.time_next + (if length s.call_stack == 0 then 1 else 0))
      × (length s'.call_stack ≡ length s.call_stack + 1)
unfolding push CallStack.is_empty
push-armed now call s = ground arith

pop-armed :
    (s s' : Static) (call : AmxCall)
    → pop s ≡ some (call, s')
    → (armed s'.time_next ≤ armed s.time_next) × (length s'.call_stack ≡ length s.call_stack - 1)
unfolding pop CallStack.pop CallStack.is_empty
pop-armed s s' call h = ground arith

-- A series of calls and requests, each end of a call with a call to end, prints no more reports than it
-- sets deadlines, and one more when a deadline was set before it.
pub serve-reports :
    (es : List Event) (s s' : Static) (n : ℕ)
    → serve es s ≡ some (n, s')
    → n ≤ armed s.time_next + deadlines (length s.call_stack) es
unfolding serve deadlines
serve-reports [] s s' n h = ground arith
serve-reports (begins now call ∷ es) s s' n h =
    let ih = serve-reports es (push now call s) s' n h in ground (arith, ih, push-armed now call s)
serve-reports (ends ∷ es) s s' n h = elim (Option-cases (pop s)) [
  | inl empty ↦ ground (arith, empty)
  | inr ((call, t), e) ↦
      ground (arith, serve-reports es t s' n (ground (arith, e)), pop-armed s t call e, e)
]
serve-reports (requests now option value ∷ es) s s' n h =
    let r = on_long_call_request now option value s in
    elim (Option-cases (serve es r.2)) [
      | inl empty ↦ ground (arith, empty)
      | inr ((m, t), e) ↦
          ground (arith, serve-reports es r.2 t m e, request-armed now option value s, e)
    ]

pop-time : (s t : Static) (call : AmxCall) → pop s ≡ some (call, t) → t.time ≡ s.time
unfolding pop
pop-time s t call h = elim (Option-cases (CallStack.pop s.call_stack)) [
  | inl empty ↦ ground (arith, empty)
  | inr ((top, calls), e) ↦ ground (arith, e)
]

off : (es : List Event) (s s' : Static) (n : ℕ) → s.time ≡ 0 → serve es s ≡ some (n, s') → n ≡ 0
unfolding serve push on_long_call_request
off [] s s' n z h = ground arith
off (begins now call ∷ es) s s' n z h = off es (push now call s) s' n z h
off (ends ∷ es) s s' n z h = elim (Option-cases (pop s)) [
  | inl empty ↦ ground (arith, empty)
  | inr ((call, t), e) ↦ off es t s' n (pop-time s t call e ∙ z) (ground (arith, e))
]
off (requests now option value ∷ es) s s' n z h =
    let same : on_long_call_request now option value s ≡ (0, false, s) = ground arith in
    elim (Option-cases (serve es s)) [
      | inl empty ↦ ground (arith, empty, same)
      | inr ((m, t), e) ↦ ground (arith, off es s t m z e, e, same)
    ]

-- The reports of a series that is defined.
abbrev pub reports : Option (ℕ × Static) → ℕ
reports none = 0
reports (some (n, s)) = n

-- If the plugin is loaded with no time configured, no series of calls and requests reports.
serve_off : (es : List Event) (s : Static) → reports (serve es (plugin_load 0 s)) ≡ 0
unfolding plugin_load
serve_off es s = elim (Option-cases (serve es (plugin_load 0 s))) [
  | inl ill ↦ rw ill refl
  | inr ((n, s'), e) ↦ rw e (off es (plugin_load 0 s) s' n refl e)
]
