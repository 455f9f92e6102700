-- ===== src/Plugin/Handler/Logged.antt =====
-- What `OnExecError` logs where the script has no OnRuntimeError (src/crashdetect.cpp, lines 208 to 273).
use samp_plugin_crashdetect.Prelude.{
  ℕ, ◌≡◌, ◌∙◌, ap, refl, IsCell, true, false, if◌then◌else◌, none, some, List, [], ◌++◌, map,
}
use samp_plugin_crashdetect.Amx.Error.{err_none}
use samp_plugin_crashdetect.Amx.Ref.{get_public_index}
use samp_plugin_crashdetect.Plugin.Log.{LogLine, debug_text}
use samp_plugin_crashdetect.Plugin.RuntimeError.{print_runtime_error}
use samp_plugin_crashdetect.Plugin.Handler.{
  Plugin, CrashDetect, Outcome, returns, report, with_callback, with_trace, on_exec_error,
  is_ignored, has_backtrace, on_runtime_error, block_errors,
}
use samp_plugin_crashdetect.Strings.{split_string}
use samp_plugin_crashdetect.Trace.Backtrace.{Surroundings, print_amx_backtrace}
use samp_plugin_crashdetect.Trace.Backtrace.State.{
  print_amx_backtrace-Unharmed, print_amx_backtrace-host,
}

-- The members `c`, with these lines at the end of the log, and errors reported again
abbrev pub and_logged : List LogLine → CrashDetect → CrashDetect
and_logged lines c = record c { log = c.log ++ lines; block_exec_errors = false }

with_trace_lem :
    (exec : ℕ → Plugin → Outcome) (error : ℕ) (trace : List ℕ) (v : Plugin)
    → get_public_index on_runtime_error v.amx ≡ none
    → with_trace exec error (some trace) v
      ≡ returns err_none (record v {
        host =
            and_logged
              (print_runtime_error error v.amx v.amx v.mem
                ++ (if has_backtrace error then map debug_text (split_string 10 trace) else []))
              v.host;
      })
unfolding with_trace with_callback report
with_trace_lem exec error trace v absent = rw (with_trace, absent) refl

-- An error that is reported, in a script without OnRuntimeError and with its heap pointer in a cell: if
-- the text of the backtrace can be made, `OnExecError` returns, and it has added to the log the lines on
-- the error and, for the errors that have one, the lines of the backtrace, cut at the line ends. Machine
-- and memory are as the making of the backtrace has left them, and the other members are unchanged.
pub on_exec_error-print_runtime_error :
    (s : Surroundings) (exec : ℕ → Plugin → Outcome) (index error : ℕ) (trace : List ℕ) (w : Plugin)
    → w.host.block_exec_errors ≡ false
    → is_ignored index error ≡ false
    → get_public_index on_runtime_error w.amx ≡ none
    → IsCell w.amx.hea
    → let made = print_amx_backtrace s w.host.static.call_stack (block_errors true w) in
      let v = made.1 in
      made.0 ≡ some trace
      → on_exec_error s exec index error w
        ≡ returns err_none (record v {
          host =
              and_logged
                (print_runtime_error error v.amx v.amx v.mem
                  ++ (if has_backtrace error then map debug_text (split_string 10 trace) else []))
                w.host;
        })
unfolding on_exec_error get_public_index
on_exec_error-print_runtime_error s exec index error trace w unblocked reported absent cell made =
    let calls = w.host.static.call_stack in
    let v = (print_amx_backtrace s calls (block_errors true w)).1 in
    let same = (print_amx_backtrace-Unharmed s calls (block_errors true w) cell).machine in
    let host = print_amx_backtrace-host s calls (block_errors true w) in
    let lines =
      print_runtime_error error v.amx v.amx v.mem
      ++ (if has_backtrace error then map debug_text (split_string 10 trace) else []) in
    rw (on_exec_error, unblocked, reported, made)
      (with_trace_lem exec error trace v (ap (get_public_index on_runtime_error) same ∙ absent)
        ∙ ap (λ (c : CrashDetect). returns err_none (record v { host = and_logged lines c })) host)
