-- ===== src/Plugin/Instance.antt =====
-- What a handler of a machine works with: its members, the calls that it makes, and what it prints
-- (src/crashdetect.h, and src/crashdetect.cpp, lines 49 to 66, 341 to 350 and 414 to 418).
use samp_plugin_crashdetect.Prelude.{
  ℕ, Bool, true, ◌++◌, if◌then◌else◌, Option, none, some, List, map,
}
use samp_plugin_crashdetect.Amx.State.{World}
use samp_plugin_crashdetect.Plugin.LongCall.{Static}
use samp_plugin_crashdetect.Plugin.Log.{LogLine, debug_text, trace_text}
use samp_plugin_crashdetect.Strings.{split_string}
use samp_plugin_crashdetect.Trace.Frame.{AmxStackFrame}
use samp_plugin_crashdetect.Trace.Printer.Arguments.{print_caller_name_and_arguments}
use samp_plugin_crashdetect.Trace.Backtrace.{Surroundings, print_amx_backtrace}

-- The handler's members that change, the static ones, and what has been printed. The last two fields are
-- the model's own: control was lost, by undefined behaviour, a trap or a run without end, and a handler
-- was nested more deeply than the model allows.
pub record CrashDetect : Type 0 where
  pub last_frame : ℕ
  pub block_exec_errors : Bool
  pub address_naught : Bool
  pub static : Static
  pub log : List LogLine
  pub lost : Bool
  pub deep : Bool

abbrev pub Plugin : Type 0
Plugin = World CrashDetect

-- What a handler works with: the address of its machine, what its backtraces take from elsewhere, the
-- trace flags, whether the filter lets a text pass (all do where there is none), the clock, and what it
-- calls: `amx_Exec`, and the callback and the debug hook that the machine had before, with the cell for
-- its result. The debug hook's address may be null.
pub record Host : Type 0 where
  pub self : ℕ
  pub surroundings : Surroundings
  pub trace_flags : ℕ
  pub trace_filter : List ℕ → Bool
  pub clock : Plugin → ℕ
  pub exec : ℕ → Plugin → ℕ × Plugin
  pub prev_callback : ℕ → ℕ → Plugin → ℕ × ℕ × Plugin
  pub prev_debug : Option (Plugin → ℕ × Plugin)

-- A handler returns, pops from an empty stack or reads an uninitialised pointer, or is nested more
-- deeply than `depth`.
pub data Outcome : Type 0 where
  returns : ℕ → Plugin → Outcome
  undefined : Outcome
  too_deep : Outcome

abbrev pub print : List LogLine → Plugin → Plugin
print lines w = record w { host = record (w.host) { log = w.host.log ++ lines } }

abbrev pub with_static : Static → Plugin → Plugin
with_static s w = record w { host = record (w.host) { static = s } }

abbrev pub block_errors : Bool → Plugin → Plugin
block_errors b w = record w { host = record (w.host) { block_exec_errors = b } }

-- A text is not there: an exception of the standard library leaves the handler, and control is lost. The
-- model goes on with the flag set; what follows says nothing of the program.
abbrev pub lose : Plugin → Plugin
lose w = record w { host = record (w.host) { lost = true } }

-- `PrintStream`
unfoldable pub print_stream : (List ℕ → LogLine) → List ℕ → Plugin → Plugin
unfolding split_string
print_stream printer text w = print (map printer (split_string 10 text)) w

-- `PrintAMXBacktrace` with no stream
unfoldable pub print_backtrace : Surroundings → Plugin → Plugin
unfolding print_amx_backtrace print_stream
print_backtrace s w =
    let (text, w') = print_amx_backtrace s w.host.static.call_stack w in
    elim text [ none ↦ lose w' | some t ↦ print_stream debug_text t w' ]

-- A text that is traced, unless the filter drops it
unfoldable pub print_traced : Host → List ℕ → Plugin → Plugin
unfolding print_stream
print_traced h text w = if h.trace_filter text then print_stream trace_text text w else w

-- `PrintTraceFrame`
unfoldable pub print_trace_frame : Host → AmxStackFrame → Plugin → Plugin
unfolding print_traced print_caller_name_and_arguments
print_trace_frame h frame w =
    elim (print_caller_name_and_arguments h.surroundings.float w.amx w.mem h.surroundings.loaded
      frame) [ none ↦ lose w | some text ↦ print_traced h text w ]
