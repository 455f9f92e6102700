-- ===== src/Tests/TextTests.antt =====
-- The theorems on text in the machine's formats and on loading debug information, applied.
use samp_plugin_crashdetect.Prelude.{
  ℕ, ◌≡◌, ◌↔◌, ◌⊎◌, inr, refl, arith, true, false, some, List, [], ◌∷◌, ◌++◌, codes,
}
use samp_plugin_crashdetect.Amx.Memory.{Mem, read8, read32, write8, write32}
use samp_plugin_crashdetect.Amx.Error.{err_none, err_params, err_stackerr}
use samp_plugin_crashdetect.Amx.Stack.{amx_get_addr}
use samp_plugin_crashdetect.Amx.Utf8.{
  put_bytes, is_reserved, amx_utf8_get, amx_utf8_put, amx_utf8_check,
}
use samp_plugin_crashdetect.Amx.Utf8.Single.{get-put}
use samp_plugin_crashdetect.Amx.Utf8.Inverse.{Begins}
use samp_plugin_crashdetect.Amx.Utf8.Shortest.{get_ok_iff}
use samp_plugin_crashdetect.Amx.Utf8.Whole.{Spelled, check-judges}
use samp_plugin_crashdetect.Amx.CellText.{first, set_unpacked, amx_set_string, amx_get_string}
use samp_plugin_crashdetect.Amx.CellText.Unpacked.{kept, get-set, set-within}
use samp_plugin_crashdetect.Strings.{part}
use samp_plugin_crashdetect.Debug.Table.{AmxDbg}
use samp_plugin_crashdetect.Debug.Load.Block.{byte_at, u16_at, u32_at, loads, dbg_load_info}
use samp_plugin_crashdetect.Debug.Load.Entries.{
  u16, u32, zeroed, each, file_bytes, line_bytes, tag_bytes,
}
use samp_plugin_crashdetect.Debug.Load.Whole.{
  IsTables, names_bytes, tables_bytes, block_bytes, dbg_load_info-block,
}
use samp_plugin_crashdetect.Plugin.CallStack
use samp_plugin_crashdetect.Plugin.CallStack.{AmxCall}
use samp_plugin_crashdetect.Plugin.Handler.{Plugin, returns, on_exec, on_exec_error}
use samp_plugin_crashdetect.Strings.Joined.{join, parts_of, lacks}
use samp_plugin_crashdetect.Plugin.Handler.Reported.{Passes, Reports, on_exec_error-Reports}
use samp_plugin_crashdetect.Amx.Ref.{get_public_index, index_of}
use samp_plugin_crashdetect.Plugin.Natives.{get_backtrace}
use samp_plugin_crashdetect.Plugin.Natives.Given.{get_backtrace-given}
use samp_plugin_crashdetect.Trace.Backtrace.{print_amx_backtrace}
use samp_plugin_crashdetect.Tests.Samples.{blank, header}
use samp_plugin_crashdetect.Tests.PluginTests.{scripted, bare, host}

-- The euro sign
abbrev euro : List ℕ
euro = 226 ∷ 130 ∷ 172 ∷ []

get-put_example : amx_utf8_get (euro ++ (33 ∷ [])) ≡ (err_none, 8364, 33 ∷ [])
unfolding amx_utf8_put put_bytes is_reserved
get-put_example = get-put 6 8364 euro (33 ∷ []) (omega arith) refl

get_ok_iff_example :
    (amx_utf8_get (226 ∷ 130 ∷ 172 ∷ []) ≡ (err_none, 8364, []))
    ↔ Begins (226 ∷ 130 ∷ 172 ∷ []) 8364 []
get_ok_iff_example = get_ok_iff 226 (130 ∷ 172 ∷ []) 8364 []

check-judges_example :
    (n : ℕ) × (((amx_utf8_check (65 ∷ 200 ∷ []) ≡ some (err_none, n)) × Spelled (65 ∷ 200 ∷ []) n)
      ⊎ ((amx_utf8_check (65 ∷ 200 ∷ []) ≡ some (err_params, n))
          × ((m : ℕ) → ¬ Spelled (65 ∷ 200 ∷ []) m)))
check-judges_example = check-judges (65 ∷ 200 ∷ [])

-- Three characters, set with room for two
abbrev stored : Mem
stored = set_unpacked blank 10000 (codes "abc") false 3

get-set_example : amx_get_string stored 10000 5 ≡ first 4 (kept 3 (codes "abc"))
unfolding amx_set_string kept first
get-set_example =
    get-set blank stored 10000 (codes "abc") 3 5 (omega arith) (omega arith) (omega arith)
      (omega arith) refl

set-within_example : read32 stored 10012 ≡ read32 blank 10012
unfolding amx_set_string
set-within_example =
    set-within blank stored 10000 (codes "abc") false 3 10012 (omega arith) (omega arith)
      (omega arith) (omega arith) (inr (omega arith)) refl

-- A native call on the stack; its arguments are the address 100 and the size 40.
abbrev asking : Plugin
asking = record (scripted 4000) {
  amx = record ((scripted 4000).amx) { cip = 16 };
  mem = write32 (write32 blank 20004 100) 20008 40;
  host = record ((scripted 4000).host) {
    static = record ((scripted 4000).host.static) {
      call_stack = record { amx = 1; type = CallStack.native; frm = 0; cip = 0; index = 5 } ∷ [];
    };
  };
}

abbrev told : List ℕ
told = codes "AMX backtrace:" ++ (10 ∷ codes "#0 native <unknown> ()")

get_backtrace-given_example :
    let r = get_backtrace bare 20000 asking in
    (r.0 ≡ 1) × (amx_get_string r.1.mem 8292 6 ≡ first 5 (first 39 (part 0 told)))
unfolding amx_get_addr print_amx_backtrace read8 read32 write8 write32
get_backtrace-given_example =
    get_backtrace-given bare 20000 8292 6 asking told refl refl (omega arith) (omega arith)
      (omega arith) (omega arith)

-- The header of a script's file, and tables with a file, two lines and a tag
abbrev script : List ℕ
script =
    56 ∷ 0 ∷ 0 ∷ 0 ∷ 224 ∷ 241 ∷ 8 ∷ 8 ∷ 2 ∷ 0 ∷ 8 ∷ 0 ∷ 56 ∷ 0 ∷ 0 ∷ 0 ∷ 56 ∷ 0 ∷ 0 ∷ 0 ∷ 56 ∷ 0
    ∷ 0 ∷ 0 ∷ 56 ∷ 0 ∷ 0 ∷ 0 ∷ 0 ∷ 0 ∷ 0 ∷ 0 ∷ 56 ∷ 0 ∷ 0 ∷ 0 ∷ 56 ∷ 0 ∷ 0 ∷ 0 ∷ 56 ∷ 0 ∷ 0 ∷ 0 ∷ 56
    ∷ 0 ∷ 0 ∷ 0 ∷ 56 ∷ 0 ∷ 0 ∷ 0 ∷ 56 ∷ 0 ∷ 0 ∷ 0 ∷ []

abbrev small : AmxDbg
small = record {
  filetbl = record { address = 8; name = codes "a.p" } ∷ [];
  linetbl = record { address = 8; line = 1 } ∷ record { address = 16; line = 2 } ∷ [];
  symboltbl = [];
  tagtbl = record { tag = 0; name = codes "_" } ∷ [];
  automatontbl = [];
  statetbl = [];
}

small-IsTables : IsTables small
unfolding tables_bytes names_bytes each file_bytes line_bytes tag_bytes u16 u32 zeroed
small-IsTables = record {
  files_fit = omega arith;
  lines_fit = omega arith;
  symbols_fit = omega arith;
  tags_fit = omega arith;
  automatons_fit = omega arith;
  states_fit = omega arith;
  files = ((omega arith, omega arith, λ e. cc), tt);
  lines = omega arith;
  symbols = tt;
  tags = omega arith;
  automatons = tt;
  states = tt;
  size = omega arith;
  names = omega arith;
}

dbg_load_info-block_example :
    dbg_load_info true (script ++ (block_bytes 0 0 small ++ [])) ≡ loads small
unfolding u32_at u16_at byte_at
dbg_load_info-block_example =
    dbg_load_info-block 0 0 script [] small refl (omega arith) refl refl small-IsTables

-- The same without OnRuntimeError
abbrev failing : Plugin
failing = record asking { amx = record (asking.amx) { header = header } }

abbrev told_lines : List (List ℕ)
told_lines = codes "AMX backtrace:" ∷ codes "#0 native <unknown> ()" ∷ []

on_exec_error-Reports_example :
    (v : Plugin) × (on_exec_error bare (on_exec 1 host) 0 err_stackerr failing ≡ returns 0 v)
    × ((((failing.host.block_exec_errors ≡ true) ⊎ Passes 0 err_stackerr) × (v ≡ failing))
        ⊎ (((failing.host.block_exec_errors ≡ false) × (¬ Passes 0 err_stackerr))
            × Reports err_stackerr told_lines failing v))
unfolding get_public_index index_of print_amx_backtrace parts_of lacks join
on_exec_error-Reports_example =
    on_exec_error-Reports bare (on_exec 1 host) 0 err_stackerr told_lines failing (omega arith)
      (omega arith) (omega arith) refl refl refl
