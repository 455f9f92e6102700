-- ===== src/Plugin/Handler.antt =====
-- The handlers of `CrashDetect` for one machine: its calls, its errors and its hooks
-- (src/crashdetect.cpp, lines 128 to 303).
pub mod Printed
pub mod Logged
pub mod Reported
pub mod Errors
pub mod Balance
pub mod Depth
pub mod Collision
use samp_plugin_crashdetect.Prelude.{
  ℕ, zero, suc, Bool, true, false, not, ◌==◌, ◌&&◌, ◌||◌, ◌++◌, slt, sle, neg32, if◌then◌else◌,
  Option, none, some, List, [], ◌∷◌, bit_and, add32, map, codes,
}
use samp_plugin_crashdetect.Amx.Memory.{read32}
use samp_plugin_crashdetect.Amx.Error.{
  err_none, err_callback, err_notfound, err_init, err_index, err_sleep,
}
use samp_plugin_crashdetect.Amx.State.{Amx, World}
use samp_plugin_crashdetect.Amx.Stack.{amx_push, amx_push_array, amx_release}
use samp_plugin_crashdetect.Amx.Ref.{
  get_public_index, get_public_address, get_native_name, check_stack,
}
use samp_plugin_crashdetect.Plugin.CallStack.{public_call, native_call}
use samp_plugin_crashdetect.Plugin.LongCall
use samp_plugin_crashdetect.Plugin.LongCall.{Static}
use samp_plugin_crashdetect.Plugin.Log.{LogLine, debug_text}
use samp_plugin_crashdetect.Plugin.RuntimeError.{print_runtime_error}
pub use samp_plugin_crashdetect.Plugin.Instance.{
  CrashDetect, Plugin, Host, Outcome, returns, undefined, too_deep, print, with_static,
  block_errors,
}
use samp_plugin_crashdetect.Plugin.Instance.{print_traced, print_trace_frame}
use samp_plugin_crashdetect.Strings.{split_string}
use samp_plugin_crashdetect.Trace.Frame.{AmxStackFrame, frame_with}
use samp_plugin_crashdetect.Trace.Walk.{get_amx_stack_trace}
use samp_plugin_crashdetect.Trace.Backtrace.{Surroundings, print_amx_backtrace}

-- `TRACE_NATIVES`, `TRACE_PUBLICS`, `TRACE_FUNCTIONS`
abbrev pub trace_natives : ℕ
trace_natives = 1

abbrev pub trace_publics : ℕ
trace_publics = 2

abbrev pub trace_functions : ℕ
trace_functions = 4

-- "OnRuntimeError"
abbrev pub on_runtime_error : List ℕ
on_runtime_error =
    79 ∷ 110 ∷ 82 ∷ 117 ∷ 110 ∷ 116 ∷ 105 ∷ 109 ∷ 101 ∷ 69 ∷ 114 ∷ 114 ∷ 111 ∷ 114 ∷ []

unfoldable pub traces : Host → ℕ → Bool
traces h flag = not (bit_and h.trace_flags flag == 0)

unfoldable pub push_public : Host → ℕ → Plugin → Plugin
push_public h index w =
    with_static (LongCall.push (h.clock w) (public_call h.self w.amx index) w.host.static) w

unfoldable pub push_native : Host → ℕ → Plugin → Plugin
push_native h index w =
    with_static (LongCall.push (h.clock w) (native_call h.self w.amx index) w.host.static) w

-- `Pop(); return error;`
unfoldable pub pop_and_return : ℕ → Plugin → Outcome
pop_and_return error w = elim (LongCall.pop w.host.static) [
  | none ↦ undefined
  | some (_, s) ↦ returns error (with_static s w)
]

-- `debug_info_.IsLoaded()`
unfoldable pub has_debug_info : Host → Bool
has_debug_info h = elim h.surroundings.loaded [ none ↦ false | some _ ↦ true ]

-- the trace of the frame that a function has just entered
unfoldable pub trace_function : Host → Plugin → Plugin
unfolding get_amx_stack_trace print_trace_frame
trace_function h w =
    let (trace, w₁) = get_amx_stack_trace w.amx.frm w.amx.cip 1 w in
    if trace.current_frame.return_address == 0
    then w₁
    else print_trace_frame h trace.current_frame w₁

-- `OnDebugHook`
unfoldable pub on_debug_hook : Host → Plugin → ℕ × Plugin
unfolding traces has_debug_info trace_function
on_debug_hook h w =
    let traced =
      if slt w.amx.frm w.host.last_frame && (traces h trace_functions && has_debug_info h)
      then trace_function h w
      else w in
    let w' : Plugin = record traced {
      host = record (traced.host) { last_frame = traced.amx.frm };
    } in
    elim h.prev_debug [ none ↦ (err_none, w') | some debug ↦ debug w' ]

-- the text for a native function
unfoldable pub native_text : Option (List ℕ) → List ℕ
native_text name =
    codes "native " ++ (elim name [ some n ↦ n | none ↦ codes "<unknown>" ] ++ codes " ()")

-- `OnCallback`, with the cell for the result before and after
unfoldable pub on_callback : Host → ℕ → ℕ → Plugin → ℕ × Outcome
unfolding traces push_native pop_and_return native_text print_traced
on_callback h index result w =
    let w₁ = push_native h index w in
    let w₂ =
      if traces h trace_natives
      then print_traced h (native_text (get_native_name index w₁.amx)) w₁
      else w₁ in
    let (error, result', w₃) = h.prev_callback index result w₂ in (result', pop_and_return error w₃)

-- `OnAddressNaughtRequest`
unfoldable pub on_address_naught_request : ℕ → Plugin → ℕ × Plugin
on_address_naught_request option w =
    if option == neg32 1
    then ((if w.host.address_naught then 1 else 0), w)
    else if option == 0
    then (err_none, record w { host = record (w.host) { address_naught = false } })
    else if option == 1
    then (err_none, record w { host = record (w.host) { address_naught = true } })
    else (err_none, w)

-- The errors that `OnExecError` lets pass: none, sleep, and those of the entry points of sampgdk.
unfoldable pub is_ignored : ℕ → ℕ → Bool
is_ignored index error =
    (error == err_none)
    || ((error == err_sleep)
        || ((error == err_index) && ((index == neg32 10) || sle index (neg32 10000))))

-- The errors for which `OnExec` calls `OnExecError` itself, since `amx_Exec` returns early.
unfoldable pub is_early : ℕ → Bool
is_early error =
    (error == err_callback)
    || ((error == err_notfound)
        || ((error == err_init) || ((error == err_index) || (error == err_sleep))))

-- The errors that are printed with a backtrace.
unfoldable pub has_backtrace : ℕ → Bool
has_backtrace error =
    not (error == err_notfound)
    && (not (error == err_index) && (not (error == err_callback) && not (error == err_init)))

-- The end of `OnExecError`: the report, unless it is suppressed. `trace` is the text of the backtrace,
-- `at_error` the machine, both as they were before the call of OnRuntimeError.
unfoldable pub report : ℕ → List ℕ → Amx → ℕ → Plugin → Outcome
unfolding has_backtrace split_string
report error trace at_error suppress w =
    let lines = print_runtime_error error w.amx at_error w.mem in
    let traced = map debug_text (split_string 10 trace) in
    let w' =
      if suppress == 0
      then print (lines ++ (if has_backtrace error then traced else [])) w
      else w in
    returns err_none (block_errors false w')

-- the trace of a public function that is about to run
unfoldable pub trace_public_call : Host → ℕ → Plugin → Plugin
unfolding get_amx_stack_trace print_trace_frame frame_with
trace_public_call h address w =
    let (trace, w₁) = get_amx_stack_trace w.amx.frm w.amx.cip 1 w in
    let frame : AmxStackFrame =
      if trace.current_frame.return_address == 0
      then frame_with w₁.amx w₁.amx.frm 0 0 address
      else record (trace.current_frame) { caller_address = address } in
    print_trace_frame h frame w₁

-- What `OnExec` does before it calls `amx_Exec`.
unfoldable pub before_exec : Host → ℕ → Plugin → Plugin
unfolding traces push_public trace_public_call
before_exec h index w =
    let w₁ = push_public h index w in
    let w₂ : Plugin =
      if traces h trace_functions
      then record w₁ { host = record (w₁.host) { last_frame = 0 } }
      else w₁ in
    let address = get_public_address index w₂.amx in
    if traces h trace_publics && not (address == 0) then trace_public_call h address w₂ else w₂

-- `OnExecError` after the call of OnRuntimeError. `suppress_ptr` is not set where `amx_PushArray` had no
-- room for the cell.
unfoldable pub after_callback : ℕ → List ℕ → Plugin → Option ℕ → Outcome → Outcome
unfolding report
after_callback error trace w₁ addr undefined = undefined
after_callback error trace w₁ addr too_deep = too_deep
after_callback error trace w₁ none (returns _ w₄) = undefined
after_callback error trace w₁ (some a) (returns _ w₄) =
    let w₅ = amx_release a w₄ in
    report error trace w₁.amx (read32 w₅.mem (add32 w₁.amx.data_ptr a)) w₅

-- `OnExecError` with the backtrace and the index of OnRuntimeError; `exec` is `OnExec`.
unfoldable pub with_callback : (ℕ → Plugin → Outcome) → ℕ → List ℕ → Plugin → Option ℕ → Outcome
unfolding report after_callback
with_callback exec error trace w₁ none = report error trace w₁.amx 0 w₁
with_callback exec error trace w₁ (some callback_index) =
    let (_, suppress_addr, w₂) = amx_push_array (0 ∷ []) w₁ in
    let w₃ = (amx_push error w₂).1 in
    if check_stack w₁.amx
    then after_callback error trace w₁ suppress_addr (exec callback_index w₃)
    else report error trace w₁.amx 0 w₁

-- the part behind the backtrace, which an exception may have prevented
unfoldable pub with_trace : (ℕ → Plugin → Outcome) → ℕ → Option (List ℕ) → Plugin → Outcome
unfolding with_callback
with_trace exec error none w₁ = undefined
with_trace exec error (some trace) w₁ =
    with_callback exec error trace w₁ (get_public_index on_runtime_error w₁.amx)

-- `OnExecError`
unfoldable pub on_exec_error : Surroundings → (ℕ → Plugin → Outcome) → ℕ → ℕ → Plugin → Outcome
unfolding with_trace is_ignored print_amx_backtrace
on_exec_error s exec index error w =
    let blocked = block_errors true w in
    let (trace, w₁) = print_amx_backtrace s blocked.host.static.call_stack blocked in
    if w.host.block_exec_errors || is_ignored index error
    then returns err_none w
    else with_trace exec error trace w₁

unfoldable pub then_pop : ℕ → Outcome → Outcome
unfolding pop_and_return
then_pop error (returns _ w) = pop_and_return error w
then_pop error undefined = undefined
then_pop error too_deep = too_deep

-- `OnExec` after `amx_Exec` has returned
unfoldable pub after_exec : Surroundings → (ℕ → Plugin → Outcome) → ℕ → ℕ → Plugin → Outcome
unfolding is_early then_pop
after_exec s exec index error w =
    if is_early error
    then then_pop error (on_exec_error s exec index error w)
    else pop_and_return error w

-- `OnExec`, at most `depth` levels deep
unfoldable pub on_exec : ℕ → Host → ℕ → Plugin → Outcome
unfolding before_exec after_exec
on_exec zero h index w = too_deep
on_exec (suc depth) h index w =
    let (error, w') = h.exec index (before_exec h index w) in
    after_exec h.surroundings (on_exec depth h) index error w'
