-- ===== src/Plugin/RuntimeError.antt =====
-- `CrashDetect::PrintRuntimeError` (src/crashdetect.cpp, lines 353 to 411), and `RelocateAMXOpcode`,
-- which is the identity where `__GNUC__` is not defined, as in the build that is modelled
-- (src/amxopcode.cpp, line 47).
pub mod Explained
use samp_plugin_crashdetect.Prelude.{ℕ, ◌==◌, if◌then◌else◌, List, [], ◌∷◌, is_neg, add32, sub32}
use samp_plugin_crashdetect.Amx.Memory.{Mem, read32}
use samp_plugin_crashdetect.Amx.Error.{
  err_bounds, err_notfound, err_stackerr, err_stacklow, err_heaplow, err_invinstr, err_native,
}
use samp_plugin_crashdetect.Amx.State.{Amx, Stub}
use samp_plugin_crashdetect.Amx.Ref.{get_native_name}
use samp_plugin_crashdetect.Plugin.Log.{
  LogLine, run_time_error, negative_index, index_beyond, missing_native, stack_and_heap,
  stack_and_top, heap_and_bottom, unknown_opcode, failed_native,
}

-- `AMX_OP_BOUNDS` and `AMX_OP_SYSREQ_C`
abbrev pub op_bounds : ℕ
op_bounds = 121

abbrev pub op_sysreq_c : ℕ
op_sysreq_c = 123

unfoldable pub relocate_amx_opcode : ℕ → ℕ
relocate_amx_opcode opcode = opcode

-- The natives that no library has registered.
unfoldable pub unregistered : List Stub → List LogLine
unregistered [] = []
unregistered (f ∷ fs) =
    let rest = unregistered fs in if f.address == 0 then missing_native f.name ∷ rest else rest

-- The lines for an error: `a` is the machine at the error (`amx_state`), `now` the machine as the
-- handler finds it.
unfoldable pub explanation : ℕ → Amx → Amx → Mem → List LogLine
unfolding relocate_amx_opcode unregistered
explanation error now a m =
    let ip = add32 now.code a.cip in
    let opcode = read32 m ip in
    let size = add32 (read32 m (add32 ip 4)) 1 in
    if error == err_bounds
    then (if opcode == relocate_amx_opcode op_bounds
        then (if is_neg a.pri then negative_index a.pri ∷ [] else index_beyond a.pri size ∷ [])
        else [])
    else if error == err_notfound
    then unregistered now.header.natives
    else if error == err_stackerr
    then stack_and_heap a.stk a.hea ∷ []
    else if error == err_stacklow
    then stack_and_top a.stk a.stp ∷ []
    else if error == err_heaplow
    then heap_and_bottom a.hea a.hlw ∷ []
    else if error == err_invinstr
    then unknown_opcode opcode a.cip ∷ []
    else if error == err_native
    then (if read32 m (sub32 ip 8) == relocate_amx_opcode op_sysreq_c
        then failed_native (get_native_name (read32 m (sub32 ip 4)) now) ∷ []
        else [])
    else []

unfoldable pub print_runtime_error : ℕ → Amx → Amx → Mem → List LogLine
unfolding explanation
print_runtime_error error now a m = run_time_error error ∷ explanation error now a m
