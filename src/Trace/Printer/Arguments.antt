-- ===== src/Trace/Printer/Arguments.antt =====
-- The argument list, the state, the place in the source and the whole line of a frame
-- (src/amxstacktrace.cpp, lines 207 to 217, 423 to 438, 491 to 497 and 597 to 689).
use samp_plugin_crashdetect.Prelude.{
  ℕ, zero, suc, ◌+◌, Bool, true, false, not, ◌==◌, ◌&&◌, slt, is_neg, add32, sub32, if◌then◌else◌,
  List, [], ◌∷◌, ◌++◌, Option, none, some, get_elem?, codes,
}
use samp_plugin_crashdetect.Amx.Memory.{Mem}
use samp_plugin_crashdetect.Amx.State.{Amx}
use samp_plugin_crashdetect.Debug.Table.{AmxDbg, Symbol, vclass_local, same_name}
use samp_plugin_crashdetect.Debug.Info.{get_file_name, get_line_number, get_automaton, get_state}
use samp_plugin_crashdetect.Trace.Frame.{AmxStackFrame, get_previous}
use samp_plugin_crashdetect.Trace.Numerals.{print_cell, print_address}
use samp_plugin_crashdetect.Trace.Contents.{get_argument_value, get_num_arguments}
use samp_plugin_crashdetect.Trace.States.{
  uses_automata, get_state_var_address, get_real_function_address, get_state_ids,
}
use samp_plugin_crashdetect.Trace.Printer.{print_caller_name, print_argument}

-- `std::sort` by address
unfoldable pub insert_symbol : Symbol → List Symbol → List Symbol
insert_symbol s [] = s ∷ []
insert_symbol s (r ∷ rs) =
    let rest = insert_symbol s rs in
    if slt (Symbol.address r) (Symbol.address s) then r ∷ rest else s ∷ r ∷ rs

unfoldable pub sort_symbols : List Symbol → List Symbol
unfolding insert_symbol
sort_symbols [] = []
sort_symbols (s ∷ ss) = insert_symbol s (sort_symbols ss)

-- `IsArgumentOf`
unfoldable pub is_argument_of : ℕ → Symbol → Bool
is_argument_of function s = (s.vclass == vclass_local) && (s.codestart == function)

-- the symbols that `remove_copy_if` leaves
unfoldable pub arguments_of : ℕ → List Symbol → List Symbol
unfolding is_argument_of
arguments_of function [] = []
arguments_of function (s ∷ ss) =
    let rest = arguments_of function ss in if is_argument_of function s then s ∷ rest else rest

-- The address under which the arguments of a frame's caller are listed
unfoldable pub function_address : Amx → Mem → AmxStackFrame → Option ℕ
unfolding uses_automata get_real_function_address
function_address a m f =
    if uses_automata a m f
    then get_real_function_address a m f.caller_address f.return_address
    else some f.caller_address

-- The count of arguments in a frame, or in the one before it where it is negative
unfoldable pub actual_arguments : Amx → Mem → AmxStackFrame → ℕ
unfolding get_num_arguments get_previous
actual_arguments a m prev =
    let n = get_num_arguments a m prev.address in
    if is_neg n then get_num_arguments a m (get_previous a m prev).address else n

-- `std::min(10, num_actual_args)`, and 0 rounds of the loop where that is negative
unfoldable pub printed_arguments : ℕ → ℕ
printed_arguments n = if slt n 10 then (if is_neg n then 0 else n) else 10

unfoldable pub print_more : ℕ → List ℕ
unfolding printed_arguments print_cell
print_more n =
    let printed = printed_arguments n in
    let more = sub32 n printed in
    if not (is_neg n) && slt 0 more
    then (if printed == 0 then [] else codes ", ")
      ++ (codes "... <"
          ++ (print_cell more
              ++ (codes " more "
                  ++ ((if more == 1 then codes "argument" else codes "arguments") ++ codes ">"))))
    else []

module _ (float : ℕ → List ℕ) (a : Amx) (m : Mem) where
  -- An argument with its symbol, where there is one
  unfoldable pub print_nth : Option (AmxDbg × List Symbol) → AmxStackFrame → ℕ → List ℕ
  unfolding print_argument print_cell get_argument_value
  print_nth none prev i = print_cell (get_argument_value a m prev.address i)
  print_nth (some (t, args)) prev i = elim (get_elem? args i) [
    | some arg ↦ print_argument float a m t prev arg i
    | none ↦ print_cell (get_argument_value a m prev.address i)
  ]

  -- the loop over the arguments from `i` on, with `n` rounds to go
  unfoldable pub print_arguments : Option (AmxDbg × List Symbol) → AmxStackFrame → ℕ → ℕ → List ℕ
  unfolding print_nth
  print_arguments args prev i zero = []
  print_arguments args prev i (suc n) =
      (if i == 0 then [] else codes ", ")
      ++ (print_nth args prev i ++ print_arguments args prev (i + 1) n)

  unfoldable pub arguments : Option AmxDbg → ℕ → Option (AmxDbg × List Symbol)
  unfolding arguments_of sort_symbols
  arguments none function = none
  arguments (some t) function = some (t, sort_symbols (arguments_of function t.symboltbl))

  unfoldable pub print_argument_list : Option AmxDbg → AmxStackFrame → Option (List ℕ)
  unfolding get_previous function_address actual_arguments print_arguments arguments
      printed_arguments print_more
  print_argument_list loaded f =
      let prev = get_previous a m f in
      if prev.address == 0 then some [] else elim (function_address a m f) [
        | none ↦ none
        | some function ↦
            let n = actual_arguments a m prev in
            some (
              print_arguments (arguments loaded function) prev 0 (printed_arguments n)
              ++ print_more n)
      ]

  unfoldable pub print_states : AmxDbg → ℕ → Bool → List ℕ → List ℕ
  unfolding get_state
  print_states t automaton first [] = []
  print_states t automaton first (id ∷ ids) =
      (if first then [] else codes ", ")
      ++ (elim (get_state t automaton id) [ some s ↦ s.name | none ↦ [] ]
          ++ print_states t automaton false ids)

  unfoldable pub print_state : AmxDbg → AmxStackFrame → Option (List ℕ)
  unfolding get_automaton get_state_var_address get_state_ids print_states
  print_state t f = elim (get_automaton t (get_state_var_address a m f.caller_address)) [
    | none ↦ some []
    | some e ↦ elim (get_state_ids a m f.caller_address f.return_address) [
      | none ↦ none
      | some [] ↦ some []
      | some (id ∷ ids) ↦ some (
          codes "<"
          ++ (e.name ++ (codes ":" ++ (print_states t e.automaton true (id ∷ ids) ++ codes ">"))))
    ]
  ]

unfoldable pub print_source_location : AmxDbg → ℕ → List ℕ
unfolding get_file_name get_line_number print_cell
print_source_location t address =
    let file = get_file_name t address in
    (if same_name file [] then codes "<unknown file>" else file)
    ++ (codes ":" ++ print_cell (add32 (get_line_number t address) 1))

-- What follows the arguments: the state and the place, with debug information only
unfoldable pub print_details :
    (ℕ → List ℕ) → Amx → Mem → Option AmxDbg → AmxStackFrame → Option (List ℕ)
unfolding uses_automata print_state print_source_location
print_details float a m none f = some []
print_details float a m (some t) f =
    let place =
      if f.return_address == 0
      then []
      else codes " at " ++ print_source_location t f.return_address in
    if uses_automata a m f
    then elim (print_state float a m t f) [
      | none ↦ none
      | some state ↦ some (codes " " ++ (state ++ place))
    ]
    else some place

-- `PrintCallerNameAndArguments`
unfoldable pub print_caller_name_and_arguments :
    (ℕ → List ℕ) → Amx → Mem → Option AmxDbg → AmxStackFrame → Option (List ℕ)
unfolding print_caller_name print_argument_list
print_caller_name_and_arguments float a m loaded f = elim (print_argument_list float a m loaded f) [
  | none ↦ none
  | some args ↦ some (print_caller_name a loaded f ++ (codes " (" ++ (args ++ codes ")")))
]

-- `Print`
unfoldable pub print_frame :
    (ℕ → List ℕ) → Amx → Mem → Option AmxDbg → AmxStackFrame → Option (List ℕ)
unfolding print_address print_caller_name_and_arguments print_details
print_frame float a m loaded f = elim (print_caller_name_and_arguments float a m loaded f) [
  | none ↦ none
  | some call ↦ elim (print_details float a m loaded f) [
    | none ↦ none
    | some details ↦ some (print_address f.return_address ++ (codes " in " ++ (call ++ details)))
  ]
]
