-- ===== src/Trace/States.antt =====
-- The states of a function with an automaton (src/amxstacktrace.cpp, lines 306 to 412).
use samp_plugin_crashdetect.Prelude.{
  ℕ, zero, suc, Bool, true, false, ◌==◌, ◌&&◌, slt, add32, sub32, neg32, is_neg, if◌then◌else◌,
  List, [], ◌∷◌, Option, none, some,
}
use samp_plugin_crashdetect.Amx.Memory.{Mem, read32}
use samp_plugin_crashdetect.Amx.State.{Amx}
use samp_plugin_crashdetect.Plugin.RuntimeError.{relocate_amx_opcode}
use samp_plugin_crashdetect.Trace.Frame.{AmxStackFrame, is_code_address, code_cell}

-- `AMX_OP_LOAD_PRI`
abbrev pub op_load_pri : ℕ
op_load_pri = 1

unfoldable pub get_state_var_address : Amx → Mem → ℕ → ℕ
unfolding is_code_address code_cell relocate_amx_opcode
get_state_var_address a m function =
    if is_code_address a function && is_code_address a (add32 function 4)
    then (if code_cell a m function == relocate_amx_opcode op_load_pri
        then code_cell a m (add32 function 4)
        else neg32 1)
    else neg32 1

unfoldable pub uses_automata : Amx → Mem → AmxStackFrame → Bool
unfolding get_state_var_address
uses_automata a m f = slt 0 (get_state_var_address a m f.caller_address)

-- `CaseTable::Record`
pub record Record : Type 0 where
  pub value : ℕ
  pub address : ℕ

-- The records of a table at `base`, `n` of them
unfoldable pub read_records : Amx → Mem → ℕ → ℕ → List Record
read_records a m base zero = []
read_records a m base (suc n) =
    record { value = read32 m base; address = sub32 (read32 m (add32 base 4)) a.code }
    ∷ read_records a m (add32 base 8) n

-- The constructor of `CaseTable`: `none` where `resize` throws, for a negative count.
unfoldable pub case_table : Amx → Mem → ℕ → Option (List Record)
unfolding code_cell read_records
case_table a m address =
    let size = add32 (code_cell a m (add32 address 4)) 1 in
    if is_neg size then none else some (read_records a m (add32 a.code (add32 address 4)) size)

unfoldable pub get_state_table_address_safe : Amx → ℕ → ℕ
unfolding is_code_address
get_state_table_address_safe a function =
    if is_code_address a (add32 function 16) then add32 function 16 else 0

-- The loop of `GetRealFunctionAddress`, behind a record with the address `before`
unfoldable pub real_address : ℕ → ℕ → List Record → ℕ
real_address return_address before [] = neg32 1
real_address return_address before (r ∷ rs) =
    let rest = real_address return_address r.address rs in
    if slt return_address r.address then before else rest

-- The whole loop: in the first round, `i - (i > 0)` is the record itself.
unfoldable pub real_address_in : ℕ → List Record → ℕ
unfolding real_address
real_address_in return_address [] = neg32 1
real_address_in return_address (r ∷ rs) = real_address return_address r.address (r ∷ rs)

unfoldable pub get_real_function_address : Amx → Mem → ℕ → ℕ → Option ℕ
unfolding get_state_table_address_safe case_table real_address_in
get_real_function_address a m function return_address =
    let table = get_state_table_address_safe a function in
    if table == 0 then some (neg32 1) else elim (case_table a m table) [
      | none ↦ none
      | some records ↦ some (real_address_in return_address records)
    ]

-- The loop of `GetStateIDs`: `first` in its first round, `found` once it has found a state
unfoldable pub states_at : ℕ → Bool → Bool → List Record → List ℕ
states_at real first found [] = []
states_at real first found (r ∷ rs) =
    let here = (if first then 0 else r.value) ∷ states_at real false true rs in
    let on = states_at real false false rs in
    if r.address == real then here else if found then [] else on

unfoldable pub get_state_ids : Amx → Mem → ℕ → ℕ → Option (List ℕ)
unfolding get_real_function_address get_state_table_address_safe case_table states_at
get_state_ids a m function return_address =
    elim (get_real_function_address a m function return_address) [
      | none ↦ none
      | some real ↦
          let table = get_state_table_address_safe a function in
          if (real == 0)
          then some []
          else if table == 0
          then some []
          else elim (case_table a m table) [
            | none ↦ none
            | some records ↦ some (states_at real true false records)
          ]
    ]
