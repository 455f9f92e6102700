-- ===== src/Debug/Dbg.antt =====
-- The look-ups of src/amx/amxdbg.c (lines 241 to 484). The null checks of pointers that the caller
-- passes are left out.
use samp_plugin_crashdetect.Prelude.{
  ℕ, zero, suc, Bool, not, ◌==◌, ltb, leb, slt, sle, ◌&&◌, ◌||◌, if◌then◌else◌, List, [], ◌∷◌,
  Option, none, some, get_elem?, neg32,
}
use samp_plugin_crashdetect.Amx.Error.{err_none, err_notfound}
use samp_plugin_crashdetect.Debug.Table.{
  File, Line, Symbol, Tag, Machine, State, AmxDbg, ident_function, same_name, scan, skip_while,
  find,
}

-- `table[index - 1]` behind a scan, when it has gone over an entry
unfoldable pub last_scanned {ℓ} : {A : Type ℓ} → (A → Bool) → List A → Option A
unfolding scan
last_scanned p xs = elim (scan p xs) [ zero ↦ none | suc i ↦ get_elem? xs i ]

-- `dbg_LookupFile`
unfoldable pub dbg_lookup_file : AmxDbg → ℕ → ℕ × Option (List ℕ)
dbg_lookup_file t address = elim (last_scanned (λ f. leb (File.address f) address) t.filetbl) [
  | none ↦ (err_notfound, none)
  | some f ↦ (err_none, some f.name)
]

-- `dbg_LookupLine`
unfoldable pub dbg_lookup_line : AmxDbg → ℕ → ℕ × ℕ
dbg_lookup_line t address = elim (last_scanned (λ l. leb (Line.address l) address) t.linetbl) [
  | none ↦ (err_notfound, 0)
  | some l ↦ (err_none, l.line)
]

-- The condition on a symbol in `dbg_LookupFunction`.
unfoldable pub is_function_at : ℕ → Symbol → Bool
is_function_at address s =
    (s.ident == ident_function) && (leb s.codestart address && ltb address s.codeend)

-- `dbg_LookupFunction`
unfoldable pub dbg_lookup_function : AmxDbg → ℕ → ℕ × Option (List ℕ)
dbg_lookup_function t address = elim (find (is_function_at address) t.symboltbl) [
  | none ↦ (err_notfound, none)
  | some s ↦ (err_none, some s.name)
]

-- `dbg_GetTagName`
unfoldable pub dbg_get_tag_name : AmxDbg → ℕ → ℕ × Option (List ℕ)
dbg_get_tag_name t tag = elim (find (λ e. Tag.tag e == tag) t.tagtbl) [
  | none ↦ (err_notfound, none)
  | some e ↦ (err_none, some e.name)
]

-- `dbg_GetAutomatonName`
unfoldable pub dbg_get_automaton_name : AmxDbg → ℕ → ℕ × Option (List ℕ)
dbg_get_automaton_name t automaton =
    elim (find (λ e. Machine.automaton e == automaton) t.automatontbl) [
      | none ↦ (err_notfound, none)
      | some e ↦ (err_none, some e.name)
    ]

-- `dbg_GetStateName`: the state's number alone decides, whatever its automaton.
unfoldable pub dbg_get_state_name : AmxDbg → ℕ → ℕ × Option (List ℕ)
dbg_get_state_name t state = elim (find (λ e. State.state e == state) t.statetbl) [
  | none ↦ (err_notfound, none)
  | some e ↦ (err_none, some e.name)
]

-- What a search for an address comes to: its error code and the address, or a read through a null
-- pointer or past a table's end.
pub data Answer : Type 0 where
  answer : ℕ → ℕ → Answer
  undefined : Answer

-- The loop of `dbg_GetLineAddress` over the files, with the lines from `index` on. After the last file,
-- the code reads the name of the file past the end.
unfoldable pub line_address_in : List ℕ → ℕ → List File → List Line → Answer
line_address_in filename line [] lines = undefined
line_address_in filename line (f ∷ files) lines =
    if not (same_name f.name filename)
    then line_address_in filename line files lines
    else (let topaddr : ℕ = elim files [ [] ↦ neg32 1 | g ∷ _ ↦ File.address g ] in
        let from_file = skip_while (λ l. ltb (Line.address l) f.address) lines in
        let from_line =
          skip_while (λ l. slt (Line.line l) line && ltb (Line.address l) topaddr) from_file in
        elim from_line [
          | [] ↦ answer err_notfound 0
          | l ∷ ls ↦
              if sle line l.line
              then answer err_none l.address
              else line_address_in filename line files (l ∷ ls)
        ])

-- `dbg_GetLineAddress`
unfoldable pub dbg_get_line_address : AmxDbg → ℕ → List ℕ → Answer
dbg_get_line_address t line filename = line_address_in filename line t.filetbl t.linetbl

-- The outer loop of `dbg_GetFunctionAddress`, with the symbols from `index` on: the address of the
-- function that it settles on. The file's name is compared with a null pointer where `dbg_LookupFile`
-- finds none.
unfoldable pub function_address_in : AmxDbg → List ℕ → List ℕ → List Symbol → Answer
function_address_in t funcname filename [] = answer err_notfound 0
function_address_in t funcname filename (s ∷ symbols) =
    if not (s.ident == ident_function) || not (same_name s.name funcname)
    then function_address_in t funcname filename symbols
    else (let (err, tgtfile) = dbg_lookup_file t s.address in
        if err == err_none then answer err_none s.address else elim tgtfile [
          | none ↦ undefined
          | some name ↦
              if same_name filename name
              then answer err_none s.address
              else function_address_in t funcname filename symbols
        ])

-- `dbg_GetFunctionAddress`
unfoldable pub dbg_get_function_address : AmxDbg → List ℕ → List ℕ → Answer
dbg_get_function_address t funcname filename =
    elim (function_address_in t funcname filename t.symboltbl) [
      | undefined ↦ undefined
      | answer err funcaddr ↦
          if not (err == err_none)
          then answer err 0
          else elim (skip_while (λ l. ltb (Line.address l) funcaddr) t.linetbl) [
            | [] ↦ answer err_notfound 0
            | l ∷ _ ↦ answer err_none l.address
          ]
    ]

-- The loops of `dbg_GetVariable`, with the symbols from `index` on, the symbol found so far and its
-- range.
unfoldable pub variable_in : List ℕ → ℕ → ℕ → ℕ → Option Symbol → List Symbol → Option Symbol
variable_in symname scopeaddr codestart codeend sym [] = sym
variable_in symname scopeaddr codestart codeend sym (s ∷ symbols) =
    let next = variable_in symname scopeaddr codestart codeend sym symbols in
    let taken = variable_in symname scopeaddr s.codestart s.codeend (some s) symbols in
    if ((s.ident == ident_function) || not (same_name s.name symname))
      && (ltb scopeaddr s.codestart || ltb s.codeend scopeaddr)
    then next
    else if same_name s.name symname
        && (((codestart == 0) && (codeend == 0))
            || (leb codestart s.codestart && leb s.codeend codeend))
    then taken
    else next

-- `dbg_GetVariable`
unfoldable pub dbg_get_variable : AmxDbg → List ℕ → ℕ → ℕ × Option Symbol
dbg_get_variable t symname scopeaddr = elim (variable_in symname scopeaddr 0 0 none t.symboltbl) [
  | none ↦ (err_notfound, none)
  | some s ↦ (err_none, some s)
]
