-- ===== src/Plugin/LongCall/Deadline.antt =====
-- When a long call is reported (src/crashdetect.cpp, lines 553 to 569 and 603 to 645).
use samp_plugin_crashdetect.Prelude.{
  ℕ, ◌+◌, ◌-◌, ◌<◌, ◌≡◌, ◌≢◌, ◌==◌, ltb, ◌&&◌, ◌||◌, arith, some, List, [], ◌∷◌, length, true,
  false, Bool, Option-cases, inl, inr,
}
use samp_plugin_crashdetect.Amx.Error.{
  lct_option, lct_set_time, lct_check, opt_current, opt_active, opt_reset,
}
use samp_plugin_crashdetect.Plugin.CallStack
use samp_plugin_crashdetect.Plugin.CallStack.{AmxCall}
use samp_plugin_crashdetect.Plugin.LongCall.{
  Static, Event, begins, ends, requests, serve, push, pop, on_long_call_request, long_call_option,
  check_long_call_time, set_long_call_time,
}

-- Events that do not touch the deadline while `depth` calls are active: inner calls, and requests that
-- set the time, reset it or ask for a value.
unfoldable pub quiet : ℕ → List Event → Bool
quiet depth [] = true
quiet depth (begins now call ∷ es) = quiet (depth + 1) es
quiet depth (ends ∷ es) = ltb 1 depth && quiet (depth - 1) es
quiet depth (requests now option value ∷ es) =
    ((option == lct_set_time)
      || ((option == lct_option)
          && ((value == opt_current) || ((value == opt_active) || (value == opt_reset)))))
    && quiet depth es

-- The two states have the same deadline, and both timers run or neither does.
abbrev SameTimer : Static → Static → Type 0
SameTimer s t = (t.time_next ≡ s.time_next) × (t.time_running ≡ s.time_running) × (t.time ≡ s.time)

push-SameTimer :
    (now : ℕ) (call : AmxCall) (s : Static)
    → 0 < length s.call_stack
    → SameTimer s (push now call s)
      × (length (push now call s).call_stack ≡ length s.call_stack + 1)
unfolding push CallStack.is_empty
push-SameTimer now call s h = ground arith

pop-SameTimer :
    (s t : Static) (call : AmxCall)
    → pop s ≡ some (call, t)
    → 1 < length s.call_stack
    → SameTimer s t × (length t.call_stack ≡ length s.call_stack - 1)
unfolding pop CallStack.pop CallStack.is_empty
pop-SameTimer s t call e h = ground arith

request-SameTimer :
    (now option value : ℕ) (s : Static)
    → quiet 0 (requests now option value ∷ []) ≡ true
    → let r = on_long_call_request now option value s in
      (r.1 ≡ false) × SameTimer s r.2 × (r.2.call_stack ≡ s.call_stack)
unfolding quiet on_long_call_request long_call_option check_long_call_time set_long_call_time
request-SameTimer now option value s q = ground arith

serve-SameTimer :
    (es : List Event) (s s' : Static) (n : ℕ)
    → 0 < length s.call_stack
    → quiet (length s.call_stack) es ≡ true
    → serve es s ≡ some (n, s')
    → (n ≡ 0) × SameTimer s s'
unfolding serve quiet
serve-SameTimer [] s s' n d q h = ground arith
serve-SameTimer (begins now call ∷ es) s s' n d q h =
    let (same, deep) = push-SameTimer now call s d in
    let ih =
      serve-SameTimer es (push now call s) s' n (omega (arith, deep)) (ground (arith, deep, q)) h in
    ground (arith, same, ih)
serve-SameTimer (ends ∷ es) s s' n d q h = elim (Option-cases (pop s)) [
  | inl empty ↦ ground (arith, empty)
  | inr ((call, t), e) ↦
      let (same, deep) = pop-SameTimer s t call e (ground arith) in
      let ih =
        serve-SameTimer es t s' n (ground (arith, deep, q)) (ground (arith, deep, q))
          (ground (arith, e)) in
      ground (arith, same, ih)
]
serve-SameTimer (requests now option value ∷ es) s s' n d q h =
    let r = on_long_call_request now option value s in
    let (unreported, same, calls) = request-SameTimer now option value s (ground (arith, q)) in
    elim (Option-cases (serve es r.2)) [
      | inl empty ↦ ground (arith, empty)
      | inr ((m, t), e) ↦
          let ih =
            serve-SameTimer es r.2 t m (ground (arith, calls)) (ground (arith, calls, q)) e in
          ground (arith, unreported, same, ih, e)
    ]

-- An outermost call begins at `t₀`, with long-call detection configured. Then come inner calls and
-- requests that set the time (to 0 too), reset it or ask for a value: they print no report, and a check
-- after them reports exactly when the timer ran at the begin and `t₀` plus the time in force then has
-- passed. So a request that sets the time to 0 does not disable the check.
pub check-push :
    (t₀ now : ℕ) (call : AmxCall) (es : List Event) (s s' : Static) (n : ℕ)
    → s.call_stack ≡ []
    → s.time ≢ 0
    → quiet 1 es ≡ true
    → serve es (push t₀ call s) ≡ some (n, s')
    → (n ≡ 0)
      × ((on_long_call_request now lct_check 0 s').1
          ≡ (s.time_running && ltb (t₀ + s.time_current) now))
unfolding push CallStack.is_empty on_long_call_request check_long_call_time
check-push t₀ now call es s s' n idle on q h =
    let deep : length (push t₀ call s).call_stack ≡ 1 = ground (arith, idle) in
    let held =
      serve-SameTimer es (push t₀ call s) s' n (omega (arith, deep)) (ground (arith, deep, q)) h in
    ground (arith, idle, held)
