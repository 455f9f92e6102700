-- ===== src/Debug/Info.antt =====
-- `AMXDebugInfo` (src/amxdebuginfo.cpp, lines 79 to 224): the searches that the backtrace uses. A
-- `cell` is signed here, and an empty wrapper `none`.
use samp_plugin_crashdetect.Prelude.{
  ℕ, Bool, true, false, not, ◌==◌, sle, slt, ◌&&◌, ◌||◌, List, [], ◌∷◌, Option, none, some, neg32,
  if◌then◌else◌,
}
use samp_plugin_crashdetect.Debug.Table.{
  ident_array, ident_array_ref, SymbolDim, File, Line, Symbol, Tag, Machine, State, AmxDbg,
  ident_function, find, find_last,
}

-- `GetLine` and `GetFile`
unfoldable pub get_line : AmxDbg → ℕ → Option Line
get_line t address = find_last (λ l. sle (Line.address l) address) t.linetbl

unfoldable pub get_file : AmxDbg → ℕ → Option File
get_file t address = find_last (λ f. sle (File.address f) address) t.filetbl

-- `IsBuggedForward`: a name that starts with `@`
unfoldable pub is_bugged_forward : Symbol → Bool
is_bugged_forward s = elim s.name [ [] ↦ false | c ∷ _ ↦ c == 64 ]

-- `GetFunction`
unfoldable pub get_function : AmxDbg → ℕ → Bool → Option Symbol
unfolding is_bugged_forward
get_function t address ignore =
    find
      (λ s.
        (Symbol.ident s == ident_function)
        && ((sle (Symbol.codestart s) address && slt address (Symbol.codeend s))
            && not (ignore && is_bugged_forward s)))
      t.symboltbl

-- `GetExactFunction`
unfoldable pub get_exact_function : AmxDbg → ℕ → Bool → Option Symbol
unfolding is_bugged_forward
get_exact_function t address ignore =
    find
      (λ s.
        (Symbol.ident s == ident_function)
        && (not (ignore && is_bugged_forward s) && (Symbol.codestart s == address)))
      t.symboltbl

-- `GetTag`
unfoldable pub get_tag : AmxDbg → ℕ → Option Tag
get_tag t tag_id = find (λ e. Tag.tag e == tag_id) t.tagtbl

-- `GetAutomaton` and `GetState`
unfoldable pub get_automaton : AmxDbg → ℕ → Option Machine
get_automaton t address = find (λ e. Machine.address e == address) t.automatontbl

unfoldable pub get_state : AmxDbg → ℕ → ℕ → Option State
get_state t automaton_id state_id =
    find (λ e. (State.automaton e == automaton_id) && (State.state e == state_id)) t.statetbl

-- `GetLineNumber`, `GetFileName`, `GetFunctionName`, `GetTagName`. A line at address 0 counts as none.
unfoldable pub get_line_number : AmxDbg → ℕ → ℕ
unfolding get_line
get_line_number t address = elim (get_line t address) [
  | none ↦ neg32 1
  | some l ↦ if Line.address l == 0 then neg32 1 else l.line
]

unfoldable pub get_file_name : AmxDbg → ℕ → List ℕ
unfolding get_file
get_file_name t address = elim (get_file t address) [ none ↦ [] | some f ↦ f.name ]

unfoldable pub get_function_name : AmxDbg → ℕ → List ℕ
unfolding get_function
get_function_name t address = elim (get_function t address true) [ none ↦ [] | some s ↦ s.name ]

unfoldable pub get_tag_name : AmxDbg → ℕ → List ℕ
unfolding get_tag
get_tag_name t tag_id = elim (get_tag t tag_id) [ none ↦ [] | some e ↦ e.name ]

-- `GetDims`, with the count of dimensions read as the length of the list
unfoldable pub get_dims : Symbol → List SymbolDim
get_dims s = if (s.ident == ident_array) || (s.ident == ident_array_ref) then s.dims else []
