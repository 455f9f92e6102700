-- ===== src/Tests/DebugTests.antt =====
-- The theorems on debug information, applied.
use samp_plugin_crashdetect.Prelude.{◌≡◌, refl, arith, none, some, [], ◌∷◌}
use samp_plugin_crashdetect.Amx.Error.{err_none, err_notfound}
use samp_plugin_crashdetect.Debug.Table.{AmxDbg}
use samp_plugin_crashdetect.Debug.Dbg.{dbg_lookup_line}
use samp_plugin_crashdetect.Debug.Info.{get_line}
use samp_plugin_crashdetect.Debug.Agree.{sorted_from, get_line-dbg_lookup_line}

-- Two files, `a` and `b`, three lines, a function `f` and a variable `v`
abbrev table : AmxDbg
table = record {
  filetbl = record { address = 0; name = 97 ∷ [] } ∷ record { address = 100; name = 98 ∷ [] } ∷ [];
  linetbl =
      record { address = 8; line = 1 }
      ∷ record { address = 16; line = 2 }
      ∷ record { address = 104; line = 1 }
      ∷ [];
  symboltbl =
      record {
        address = 8;
        tag = 0;
        codestart = 8;
        codeend = 100;
        ident = 9;
        vclass = 0;
        name = 102 ∷ [];
        dims = [];
      }
      ∷ record {
        address = 12;
        tag = 0;
        codestart = 16;
        codeend = 60;
        ident = 1;
        vclass = 1;
        name = 118 ∷ [];
        dims = [];
      }
      ∷ [];
  tagtbl = [];
  automatontbl = [];
  statetbl = [];
}

get_line_example :
    dbg_lookup_line table 20
    ≡ elim (get_line table 20) [ none ↦ (err_notfound, 0) | some l ↦ (err_none, l.line) ]
unfolding sorted_from
get_line_example = get_line-dbg_lookup_line table 20 refl (omega arith)
