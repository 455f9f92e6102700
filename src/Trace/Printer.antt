-- ===== src/Trace/Printer.antt =====
-- `AMXStackFramePrinter` (src/amxstacktrace.cpp, lines 440 to 595), on the bytes that it prints. `m` is
-- the process's memory, `loaded` the debug information if it is loaded, `float` what a stream prints for
-- a cell that is a float. `none` is an exception of the standard library.
pub mod Arguments
use samp_plugin_crashdetect.Prelude.{
  ℕ, zero, suc, ◌+◌, Bool, true, false, not, ◌==◌, ◌&&◌, ◌||◌, ltb, slt, is_neg, add32, sub32,
  if◌then◌else◌, List, [], ◌∷◌, ◌++◌, Option, none, some, get_elem?, length, codes,
}
use samp_plugin_crashdetect.Amx.Memory.{Mem, read32}
use samp_plugin_crashdetect.Amx.State.{Amx}
use samp_plugin_crashdetect.Amx.Ref.{find_public}
use samp_plugin_crashdetect.Debug.Table.{
  AmxDbg, Symbol, SymbolDim, State, Machine, ident_variable, ident_reference, ident_array,
  ident_array_ref, vclass_local, same_name,
}
use samp_plugin_crashdetect.Debug.Info.{
  get_tag_name, get_exact_function, get_dims, get_file_name, get_line_number, get_automaton,
  get_state,
}
use samp_plugin_crashdetect.Trace.Frame.{AmxStackFrame, is_main, get_previous}
use samp_plugin_crashdetect.Trace.Numerals.{print_cell, print_address}
use samp_plugin_crashdetect.Trace.Contents.{
  get_argument_value, get_num_arguments, get_data_ptr, get_string_contents,
}
use samp_plugin_crashdetect.Trace.States.{
  uses_automata, get_state_var_address, get_real_function_address, get_state_ids,
}

-- `IsPublicFunction`
unfoldable pub is_public_function : Amx → ℕ → Bool
unfolding find_public
is_public_function a address = elim (find_public a address) [ none ↦ false | some _ ↦ true ]

unfoldable pub print_tag : AmxDbg → Symbol → List ℕ
unfolding get_tag_name same_name
print_tag t s =
    let name = get_tag_name t s.tag in
    if same_name name [] || same_name name (codes "_") then [] else name ++ codes ":"

-- What `PrintCallerName` prints of a symbol
unfoldable pub print_function : Amx → AmxDbg → Symbol → List ℕ
unfolding is_public_function is_main print_tag
print_function a t s =
    (if is_public_function a s.codestart && not (is_main a s.codestart)
      then codes "public "
      else [])
    ++ (print_tag t s ++ s.name)

-- and with no symbol
unfoldable pub print_public : Amx → ℕ → List ℕ
unfolding find_public
print_public a address = elim (if address == 0 then none else find_public a address) [
  | some name ↦ codes "public " ++ name
  | none ↦ codes "??"
]

-- the symbol that it finds: one with a forwarded public's name only if there is no other
unfoldable pub caller_symbol : Option AmxDbg → ℕ → Option (AmxDbg × Symbol)
unfolding get_exact_function
caller_symbol none address = none
caller_symbol (some t) address = elim (get_exact_function t address true) [
  | some s ↦ some (t, s)
  | none ↦ elim (get_exact_function t address false) [ some s ↦ some (t, s) | none ↦ none ]
]

unfoldable pub print_caller_name : Amx → Option AmxDbg → AmxStackFrame → List ℕ
unfolding is_main caller_symbol print_function print_public
print_caller_name a loaded f =
    if is_main a f.caller_address
    then codes "main"
    else elim (caller_symbol loaded f.caller_address) [
      | some (t, s) ↦ print_function a t s
      | none ↦ print_public a f.caller_address
    ]

unfoldable pub print_value : (ℕ → List ℕ) → List ℕ → ℕ → List ℕ
unfolding same_name print_cell
print_value float tag_name value =
    if same_name tag_name (codes "bool")
    then (if value == 0 then codes "false" else codes "true")
    else if same_name tag_name (codes "Float")
    then float value
    else print_cell value

unfoldable pub print_dims : AmxDbg → List SymbolDim → List ℕ
unfolding get_tag_name same_name print_cell
print_dims t [] = []
print_dims t (d ∷ ds) =
    let tag = get_tag_name t d.tag ++ codes ":" in
    let tag' = if same_name tag (codes "_:") then [] else tag in
    (if d.size == 0 then codes "[]" else codes "[" ++ (tag' ++ (print_cell d.size ++ codes "]")))
    ++ print_dims t ds

-- The string of an argument, at most 80 characters of it
unfoldable pub truncated : ℕ → List ℕ → List ℕ
truncated n [] = []
truncated zero (c ∷ s) = codes "..."
truncated (suc n) (c ∷ s) = c ∷ truncated n s

unfoldable pub print_string : Amx → Mem → ℕ → ℕ → List ℕ
unfolding get_string_contents truncated
print_string a m value size =
    let (string, packed) = get_string_contents a m value size in
    (if packed then codes " !" else codes " ")
    ++ (codes "\"" ++ (truncated 80 string ++ codes "\""))

-- `PrintArgumentValue` of an argument with a symbol, behind the `@` and the address
unfoldable pub print_target : (ℕ → List ℕ) → Amx → Mem → AmxDbg → Symbol → ℕ → List ℕ
unfolding get_tag_name get_data_ptr print_value get_dims same_name print_string
print_target float a m t arg value =
    let tag_name = get_tag_name t arg.tag in
    if arg.ident == ident_reference
    then elim (get_data_ptr a value) [
      | some ptr ↦ codes " " ++ print_value float tag_name (read32 m ptr)
      | none ↦ []
    ]
    else elim (get_dims arg) [
      | d ∷ [] ↦
          if same_name tag_name (codes "_") && same_name (get_tag_name t d.tag) (codes "_")
          then print_string a m value d.size
          else []
      | _ ↦ []
    ]

unfoldable pub print_argument_value :
    (ℕ → List ℕ) → Amx → Mem → AmxDbg → AmxStackFrame → Symbol → ℕ → List ℕ
unfolding get_argument_value get_tag_name print_value print_address print_target
print_argument_value float a m t frame arg index =
    let value = get_argument_value a m frame.address index in
    if arg.ident == ident_variable
    then print_value float (get_tag_name t arg.tag) value
    else codes "@" ++ (print_address value ++ print_target float a m t arg value)

-- `PrintArgument` with a symbol
unfoldable pub print_argument :
    (ℕ → List ℕ) → Amx → Mem → AmxDbg → AmxStackFrame → Symbol → ℕ → List ℕ
unfolding print_tag print_dims get_dims print_argument_value
print_argument float a m t frame arg index =
    (if arg.ident == ident_reference then codes "&" else [])
    ++ (print_tag t arg
        ++ (arg.name
            ++ (print_dims t (get_dims arg)
                ++ (codes "=" ++ print_argument_value float a m t frame arg index))))
