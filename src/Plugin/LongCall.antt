-- ===== src/Plugin/LongCall.antt =====
-- The timer that detects long calls, and the call stack that arms it: the static members of
-- `CrashDetect` and their functions (src/crashdetect.cpp, lines 74 to 101, 275 to 289, 553 to 569 and
-- 603 to 645). `now` is what the clock says when the function reads it, in microseconds.
pub mod Reports
pub mod Deadline
use samp_plugin_crashdetect.Prelude.{
  ℕ, zero, ◌+◌, ◌%◌, Bool, true, false, not, ◌==◌, ltb, if◌then◌else◌, Option, none, some, List, [],
  ◌∷◌, word_mod,
}
use samp_plugin_crashdetect.Amx.Error.{
  lct_option, lct_set_time, lct_check, opt_current, opt_active, opt_restart, opt_disable,
  opt_enable, opt_reset,
}
use samp_plugin_crashdetect.Plugin.CallStack
use samp_plugin_crashdetect.Plugin.CallStack.{AmxCall, AmxCallStack, is_empty}

-- `call_stack_` and the four members of the timer. A deadline of `none` is `time_point::max()`.
pub record Static : Type 0 where
  pub call_stack : AmxCallStack
  pub time : ℕ
  pub time_current : ℕ
  pub time_next : Option ℕ
  pub time_running : Bool

-- `PluginLoad`, with the configured time
unfoldable pub plugin_load : ℕ → Static → Static
plugin_load configured s = record s {
  time = configured;
  time_current = configured;
  time_next = none;
  time_running = not (configured == 0);
}

unfoldable pub plugin_unload : Static → Static
plugin_unload s = record s { time_running = false }

-- `Push`: the outermost call sets the deadline.
unfoldable pub push : ℕ → AmxCall → Static → Static
push now call s = record s {
  call_stack = CallStack.push call s.call_stack;
  time_next = if is_empty s.call_stack then some (now + s.time_current) else s.time_next;
}

-- `Pop`: `none` where there is no call to pop.
unfoldable pub pop : Static → Option (AmxCall × Static)
pop s = elim (CallStack.pop s.call_stack) [
  | none ↦ none
  | some (call, calls) ↦ some (
    call,
    record s { call_stack = calls; time_next = if is_empty calls then none else s.time_next },
  )
]

unfoldable pub set_long_call_time : ℕ → Static → Static
set_long_call_time time s = record s { time_current = time }

-- `LongCallOption`
unfoldable pub long_call_option : ℕ → ℕ → Static → ℕ × Static
unfolding set_long_call_time
long_call_option now option s =
    if option == opt_current
    then (s.time_current % word_mod, s)
    else if option == opt_active
    then ((if s.time_running then 1 else 0), s)
    else if option == opt_restart
    then (0, record s { time_next = some (now + s.time_current) })
    else if option == opt_disable
    then (0, record s { time_running = false })
    else if option == opt_enable
    then (0, record s { time_running = not (s.time == 0) })
    else if option == opt_reset
    then (0, set_long_call_time s.time s)
    else (0, s)

-- `CheckLongCallTime`: whether it prints its report, which disarms the timer.
unfoldable pub check_long_call_time : ℕ → Static → Bool × Static
check_long_call_time now s = if not s.time_running then (false, s) else (elim s.time_next [
  | none ↦ (false, s)
  | some t ↦ if ltb t now then (true, record s { time_next = none }) else (false, s)
])

-- `OnLongCallRequest`: the result, whether a report is printed, and the state.
unfoldable pub on_long_call_request : ℕ → ℕ → ℕ → Static → ℕ × Bool × Static
unfolding long_call_option check_long_call_time set_long_call_time
on_long_call_request now option value s =
    if s.time == 0
    then (0, false, s)
    else if option == lct_option
    then (let (v, s') = long_call_option now value s in (v, false, s'))
    else if option == lct_set_time
    then (0, false, set_long_call_time (value % word_mod) s)
    else if option == lct_check
    then (let (reported, s') = check_long_call_time now s in (0, reported, s'))
    else (0, false, s)

-- What reaches the static members while the server runs: calls that begin and end in any machine, and
-- requests of the interpreter.
pub data Event : Type 0 where
  begins : ℕ → AmxCall → Event
  ends : Event
  requests : ℕ → ℕ → ℕ → Event

-- The number of reports that a series of events prints, and the state that they leave.
unfoldable pub serve : List Event → Static → Option (ℕ × Static)
unfolding push pop on_long_call_request
serve [] s = some (0, s)
serve (begins now call ∷ es) s = serve es (push now call s)
serve (ends ∷ es) s = elim (pop s) [ none ↦ none | some (_, s') ↦ serve es s' ]
serve (requests now option value ∷ es) s =
    let r = on_long_call_request now option value s in
    elim (serve es r.2) [ none ↦ none | some (n, s') ↦ some ((if r.1 then 1 else 0) + n, s') ]
