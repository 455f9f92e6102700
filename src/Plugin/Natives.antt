-- ===== src/Plugin/Natives.antt =====
-- The natives of the plugin (src/natives.cpp, lines 32 to 80). `params` is the address of the cells with
-- the count of the arguments and the arguments; `native` the text of the native backtrace, which comes
-- from the operating system.
pub mod Given
use samp_plugin_crashdetect.Prelude.{ℕ, ◌+◌, Bool, true, false, Option, none, some, List, add32}
use samp_plugin_crashdetect.Amx.Memory.{read32}
use samp_plugin_crashdetect.Amx.Stack.{amx_get_addr}
use samp_plugin_crashdetect.Amx.CellText.{amx_set_string}
use samp_plugin_crashdetect.Strings.{part}
use samp_plugin_crashdetect.Plugin.Log.{debug_text}
use samp_plugin_crashdetect.Plugin.Instance.{Plugin, lose, print_stream, print_backtrace}
use samp_plugin_crashdetect.Trace.Backtrace.{Surroundings, print_amx_backtrace}

-- `PrintBacktrace`
unfoldable pub native_print_backtrace : Surroundings → Plugin → ℕ × Plugin
unfolding print_backtrace
native_print_backtrace s w = (1, print_backtrace s w)

-- `PrintNativeBacktrace`
unfoldable pub native_print_native_backtrace : List ℕ → Plugin → ℕ × Plugin
unfolding print_stream
native_print_native_backtrace native w = (1, print_stream debug_text native w)

-- The call of `amx_SetString`, with the text up to its first zero, as `c_str` gives it
unfoldable pub give_text : ℕ → ℕ → List ℕ → Plugin → ℕ × Plugin
unfolding amx_set_string part
give_text string_ptr size text w =
    elim (amx_set_string w.mem string_ptr (part 0 text) false false size) [
      | none ↦ (1, lose w)
      | some m ↦ (1, record w { mem = m })
    ]

-- `GetBacktrace`
unfoldable pub get_backtrace : Surroundings → ℕ → Plugin → ℕ × Plugin
unfolding amx_get_addr print_amx_backtrace give_text read32
get_backtrace s params w =
    let string = read32 w.mem (add32 params 4) in
    let size = read32 w.mem (add32 params 8) in
    elim (amx_get_addr string w.amx).1 [
      | none ↦ (0, w)
      | some string_ptr ↦
          let (text, w') = print_amx_backtrace s w.host.static.call_stack w in
          elim text [ none ↦ (0, lose w') | some t ↦ give_text string_ptr size t w' ]
    ]

-- `GetNativeBacktrace`
unfoldable pub get_native_backtrace : List ℕ → ℕ → Plugin → ℕ × Plugin
unfolding amx_get_addr give_text read32
get_native_backtrace native params w =
    let string = read32 w.mem (add32 params 4) in
    let size = read32 w.mem (add32 params 8) in
    elim (amx_get_addr string w.amx).1 [
      | none ↦ (0, w)
      | some string_ptr ↦ give_text string_ptr size native w
    ]
