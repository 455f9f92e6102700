-- ===== src/Plugin/Handler/Collision.antt =====
-- `OnExecError` when stack and heap have nearly met (src/crashdetect.cpp, lines 208 to 273).
use samp_plugin_crashdetect.Prelude.{
  ℕ, ◌+◌, ◌<◌, ◌≤◌, ◌≡◌, ◌≢◌, ◌∙◌, ap, arith, List, Option, true, false, none, some, [], ◌∷◌,
  sign_bit,
}
use samp_plugin_crashdetect.Amx.State.{Amx}
use samp_plugin_crashdetect.Amx.Stack.{amx_push_array, amx_allot}
use samp_plugin_crashdetect.Amx.Ref.{get_public_index, check_stack}
use samp_plugin_crashdetect.Plugin.Handler.{
  Plugin, Outcome, returns, undefined, too_deep, with_callback, with_trace, after_callback,
  on_exec_error, is_ignored, on_runtime_error, block_errors,
}
use samp_plugin_crashdetect.Trace.Backtrace.{Surroundings, print_amx_backtrace}
use samp_plugin_crashdetect.Trace.Backtrace.State.{print_amx_backtrace-Unharmed}

no_address :
    (w : Plugin)
    → w.amx.hea + 4 ≤ w.amx.stk
    → w.amx.stk < w.amx.hea + 68
    → w.amx.stk < sign_bit
    → (amx_push_array (0 ∷ []) w).1 ≡ none
unfolding amx_push_array amx_allot
no_address w h₁ h₂ h₃ = ground arith

unset :
    (error e : ℕ) (trace : List ℕ) (w₁ w' : Plugin) (o : Outcome)
    → after_callback error trace w₁ none o ≢ returns e w'
unfolding after_callback
unset error e trace w₁ w' (returns d w) h = ground arith
unset error e trace w₁ w' undefined h = ground arith
unset error e trace w₁ w' too_deep h = ground arith

no_result :
    (exec : ℕ → Plugin → Outcome) (error callback e : ℕ) (trace : Option (List ℕ)) (v w' : Plugin)
    → get_public_index on_runtime_error v.amx ≡ some callback
    → check_stack v.amx ≡ true
    → v.amx.hea + 4 ≤ v.amx.stk
    → v.amx.stk < v.amx.hea + 68
    → v.amx.stk < sign_bit
    → with_trace exec error trace v ≢ returns e w'
unfolding with_trace with_callback
no_result exec error callback e none v w' present checked apart close low = λ h. ground (arith, h)
no_result exec error callback e (some trace) v w' present checked apart close low =
    rw (present, with_callback, checked, no_address v apart close low) (unset error e trace v w' _)

-- The script has OnRuntimeError, the error is one that is reported, and stack and heap are in order but
-- at least 4 and less than 68 bytes apart. Then `OnExecError` has no defined result, whatever
-- OnRuntimeError does.
pub on_exec_error_collision :
    (s : Surroundings) (exec : ℕ → Plugin → Outcome) (index error callback e : ℕ) (w w' : Plugin)
    → w.host.block_exec_errors ≡ false
    → is_ignored index error ≡ false
    → get_public_index on_runtime_error w.amx ≡ some callback
    → check_stack w.amx ≡ true
    → w.amx.hea + 4 ≤ w.amx.stk
    → w.amx.stk < w.amx.hea + 68
    → w.amx.stk < sign_bit
    → on_exec_error s exec index error w ≢ returns e w'
unfolding on_exec_error check_stack get_public_index
on_exec_error_collision s exec index error callback e w w' unblocked reported present checked apart
      close low =
    let calls = w.host.static.call_stack in
    let (trace, v) = print_amx_backtrace s calls (block_errors true w) in
    let same : v.amx ≡ record (w.amx) { frm = v.amx.frm } =
      (print_amx_backtrace-Unharmed s calls (block_errors true w)
        (omega (arith, apart, low))).machine in
    let hea : v.amx.hea ≡ w.amx.hea = ap Amx.hea same in
    let stk : v.amx.stk ≡ w.amx.stk = ap Amx.stk same in
    rw (on_exec_error, unblocked, reported)
      (no_result exec error callback e trace v w'
        (ap (get_public_index on_runtime_error) same ∙ present) (ap check_stack same ∙ checked)
        (omega (arith, hea, stk, apart)) (omega (arith, hea, stk, close)) (omega (arith, stk, low)))
