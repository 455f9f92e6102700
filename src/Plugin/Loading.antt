-- ===== src/Plugin/Loading.antt =====
-- What the loading of a script does to the handler's members, to the way natives are called and to the
-- table of natives (src/natives.cpp, lines 76 to 91, src/amxref.h, line 49, and src/crashdetect.cpp, lines
-- 103 to 122). What the operating system, the path finder and the linker know are parameters: the script's
-- path, the contents of a file, and the addresses of the natives.
use samp_plugin_crashdetect.Prelude.{
  ℕ, Bool, not, ◌&&◌, if◌then◌else◌, List, [], ◌∷◌, Option, none, some, codes,
}
use samp_plugin_crashdetect.Amx.State.{Amx}
use samp_plugin_crashdetect.Amx.Register.{NativeInfo, amx_register}
use samp_plugin_crashdetect.Debug.Table.{AmxDbg, same_name}
use samp_plugin_crashdetect.Debug.Load.Block.{load}
use samp_plugin_crashdetect.Files

-- The addresses of the four functions
pub record Addresses : Type 0 where
  pub print_backtrace : ℕ
  pub print_native_backtrace : ℕ
  pub get_backtrace : ℕ
  pub get_native_backtrace : ℕ

abbrev entry : List ℕ → ℕ → NativeInfo
entry name func = record { name = some name; func = func }

-- `natives`
unfoldable pub natives : Addresses → List NativeInfo
natives f =
    entry (codes "PrintBacktrace") f.print_backtrace
    ∷ entry (codes "PrintNativeBacktrace") f.print_native_backtrace
    ∷ entry (codes "GetBacktrace") f.get_backtrace
    ∷ entry (codes "GetNativeBacktrace") f.get_native_backtrace
    ∷ entry (codes "PrintAmxBacktrace") f.print_backtrace
    ∷ entry (codes "GetAmxBacktrace") f.get_backtrace
    ∷ []

-- `RegisterNatives`
unfoldable pub register_natives : Addresses → Amx → Option (ℕ × Amx)
unfolding natives amx_register
register_natives f a = amx_register (some (natives f)) 6 a

-- `CrashDetect::Load`, the part on the handler's members: the debug information and the name. `present`
-- is `AMXDebugInfo::IsPresent`; `none` where the loading is undefined.
unfoldable pub load_members :
    Bool → (List ℕ → Option (List ℕ)) → Bool → List ℕ → Option (Option AmxDbg × List ℕ)
unfolding load same_name Files.get_file_name
load_members allocated contents present path =
    let loaded : Option (Option AmxDbg) =
      if not (same_name path []) && present
      then load allocated (contents path) none
      else some none in
    let name = Files.get_file_name path in
    elim loaded [
      | none ↦ none
      | some l ↦ some (l, (if same_name name [] then codes "<unknown>" else name))
    ]

-- `SetSysreqDEnabled`
unfoldable pub set_sysreq_d_enabled : Bool → Amx → Amx
set_sysreq_d_enabled is_enabled a = record a { sysreq_d = if is_enabled then 1 else 0 }
