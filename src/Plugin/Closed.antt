-- ===== src/Plugin/Closed.antt =====
-- The handlers and the interpreter together: `amx_Exec` runs with the handlers as its hooks, and the
-- handlers call `amx_Exec` (src/crashdetect.cpp, lines 128 to 303, src/plugin.cpp, lines 87 to 118, and
-- src/amx/amx.c, lines 2770 to 3792).
pub mod Wiring
pub mod Balance
pub mod Depth
use samp_plugin_crashdetect.Prelude.{
  ℕ, zero, suc, Bool, true, false, if◌then◌else◌, Option, List, [], ◌∷◌,
}
use samp_plugin_crashdetect.Amx.Memory.{Mem}
use samp_plugin_crashdetect.Amx.Error.{err_none}
use samp_plugin_crashdetect.Amx.State.{World}
use samp_plugin_crashdetect.Plugin.LongCall.{on_long_call_request}
use samp_plugin_crashdetect.Plugin.Log.{long_call}
use samp_plugin_crashdetect.Plugin.Instance.{lose, print_backtrace}
use samp_plugin_crashdetect.Trace.Backtrace.{Surroundings}
use samp_plugin_crashdetect.Plugin.Handler.{
  Host, Plugin, CrashDetect, Outcome, returns, undefined, too_deep, print, with_static, on_exec,
  on_exec_error, on_callback, on_debug_hook, on_address_naught_request,
}
use samp_plugin_crashdetect.Vm.Machine.{Hooks, Next, running, stopped, trap}
use samp_plugin_crashdetect.Vm.Step.{amx_exec}

-- What is outside of the plugin and the machine: the fields of `Host` but `exec`, the natives that
-- SYSREQ.D calls, `memcmp`, and what an uninitialised register of `amx_Exec` holds.
pub record Outside : Type 0 where
  pub self : ℕ
  pub surroundings : Surroundings
  pub trace_flags : ℕ
  pub trace_filter : List ℕ → Bool
  pub clock : Plugin → ℕ
  pub prev_callback : ℕ → ℕ → Plugin → ℕ × ℕ × Plugin
  pub prev_debug : Option (Plugin → ℕ × Plugin)
  pub native : ℕ → Plugin → ℕ × Plugin
  pub memcmp : Mem → ℕ → ℕ → ℕ → ℕ
  pub garbage : ℕ

-- The state behind a handler that was called in `w`, and its code.
unfoldable pub settle : Plugin → Outcome → Plugin
settle w (returns err v) = v
settle w undefined = lose w
settle w too_deep = record w { host = record (w.host) { deep = true } }

unfoldable pub code : Outcome → ℕ
code (returns err v) = err
code undefined = err_none
code too_deep = err_none

-- The long-call hook. The report is printed with a backtrace.
unfoldable pub long_call_hook : Surroundings → (Plugin → ℕ) → ℕ → ℕ → Plugin → ℕ × Plugin
unfolding print_backtrace
long_call_hook surroundings clock option value w =
    let (v, reported, s) = on_long_call_request (clock w) option value w.host.static in
    let w' = with_static s w in
    (v, if reported then print_backtrace surroundings (print (long_call ∷ []) w') else w')

-- The hooks that a machine runs with; `h` serves the calls that they make.
unfoldable pub machine_hooks : Outside → Host → Hooks CrashDetect
unfolding settle code long_call_hook
machine_hooks o h = record {
  callback = λ index result w.
      (let (v, out) = on_callback h index result w in (code out, v, settle w out));
  native = o.native;
  debug = on_debug_hook h;
  exec_error = λ index err w. settle w (on_exec_error h.surroundings (on_exec 2 h) index err w);
  long_call_ctl = long_call_hook o.surroundings o.clock;
  address_naught_ctl = on_address_naught_request;
  memcmp = o.memcmp;
}

-- What `amx_Exec` has returned to a call in `w`.
unfoldable pub result : Plugin → Next CrashDetect → ℕ × Plugin
result w (running r v) = (err_none, lose v)
result w (stopped err v) = (err, v)
result w trap = (err_none, lose w)

abbrev pub with_exec : (ℕ → Plugin → ℕ × Plugin) → Outside → Host
with_exec exec o = record {
  self = o.self;
  surroundings = o.surroundings;
  trace_flags = o.trace_flags;
  trace_filter = o.trace_filter;
  clock = o.clock;
  exec = exec;
  prev_callback = o.prev_callback;
  prev_debug = o.prev_debug;
}

-- `amx_Exec` under the plugin, with activations nested at most `depth` levels deep and `fuel` instructions
-- for each.
unfoldable pub exec_at : ℕ → ℕ → Outside → ℕ → Plugin → ℕ × Plugin
unfolding machine_hooks result amx_exec
exec_at zero fuel o index w = (err_none, record w { host = record (w.host) { deep = true } })
exec_at (suc depth) fuel o index w =
    let hooks = machine_hooks o (with_exec (exec_at depth fuel o) o) in
    result w (amx_exec fuel hooks o.garbage index w)

-- The host of a handler, with `amx_Exec` itself
abbrev pub host_at : ℕ → ℕ → Outside → Host
host_at depth fuel o = with_exec (exec_at depth fuel o) o
