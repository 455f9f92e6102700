-- ===== src/Plugin/Handler/Balance.antt =====
-- The call stack around `OnExec`, `OnExecError` and `OnCallback` (src/crashdetect.cpp, lines
-- 145 to 273).
use samp_plugin_crashdetect.Prelude.{
  List, Bool-cases, inl, inr, ℕ, zero, suc, ◌≡◌, refl, ap, ◌∙◌, true, false, Option, none, some, [],
  ◌∷◌,
}
use samp_plugin_crashdetect.Amx.Stack.{amx_push, amx_push_array}
use samp_plugin_crashdetect.Plugin.CallStack
use samp_plugin_crashdetect.Plugin.CallStack.{
  native_call, public_call, native_call, AmxCall, AmxCallStack,
}
use samp_plugin_crashdetect.Plugin.LongCall
use samp_plugin_crashdetect.Plugin.LongCall.{Static}
use samp_plugin_crashdetect.Amx.Ref.{get_native_name}
use samp_plugin_crashdetect.Plugin.Handler.{
  on_callback, push_native, traces, trace_natives, Host, Plugin, CrashDetect, Outcome, returns,
  undefined, too_deep, with_callback, with_trace, then_pop, on_exec_error, after_exec, on_exec,
  pop_and_return, before_exec, block_errors, push_public, native_text,
}
use samp_plugin_crashdetect.Plugin.Instance.{print_traced}
use samp_plugin_crashdetect.Plugin.Handler.Printed.{print_traced-host, before_exec-host}
use samp_plugin_crashdetect.Trace.Backtrace.{Surroundings, print_amx_backtrace}
use samp_plugin_crashdetect.Trace.Backtrace.State.{print_amx_backtrace-host}
use samp_plugin_crashdetect.Plugin.Handler.Errors.{
  After, returned, ill, deep, SameCalls, Settled, if-After, report-Settled, after_callback-Settled,
  amx_push-host, amx_push_array-host,
}

map-After :
    (P Q : Plugin → Type 0) (o : Outcome) → ((w : Plugin) → P w → Q w) → After P o → After Q o
map-After P Q (returns e w) f (returned p) = returned (f w p)
map-After P Q undefined f h = ill
map-After P Q too_deep f h = deep

with_callback-Settled :
    (exec : ℕ → Plugin → Outcome) (error : ℕ) (trace : List ℕ) (w w₁ : Plugin) (o : Option ℕ)
    → ((i : ℕ) (v : Plugin) → After (SameCalls v) (exec i v))
    → SameCalls w w₁
    → After (Settled w) (with_callback exec error trace w₁ o)
unfolding with_callback
with_callback-Settled exec error trace w w₁ none keeps same =
    report-Settled w error trace w₁.amx 0 w₁ same
with_callback-Settled exec error trace w w₁ (some i) keeps same =
    let pushed = amx_push_array (0 ∷ []) w₁ in
    let w₃ = (amx_push error pushed.2).1 in
    let host : w₃.host ≡ w₁.host = amx_push-host error pushed.2 ∙ amx_push_array-host (0 ∷ []) w₁ in
    if-After (Settled w) _ _ _
      (after_callback-Settled w w₁ error trace pushed.1 (exec i w₃) (
        map-After (SameCalls w₃) (SameCalls w) (exec i w₃)
          (λ v e. e ∙ (ap (λ c. c.static.call_stack) host ∙ same)) (keeps i w₃)))
      (report-Settled w error trace w₁.amx 0 w₁ same)

with_trace-Settled :
    (exec : ℕ → Plugin → Outcome) (error : ℕ) (trace : Option (List ℕ)) (w w₁ : Plugin)
    → ((i : ℕ) (v : Plugin) → After (SameCalls v) (exec i v))
    → SameCalls w w₁
    → After (Settled w) (with_trace exec error trace w₁)
unfolding with_trace
with_trace-Settled exec error none w w₁ keeps same = ill
with_trace-Settled exec error (some trace) w w₁ keeps same =
    with_callback-Settled exec error trace w w₁ _ keeps same

-- The backtrace is made in the state in which errors are blocked.
traced-SameCalls :
    (s : Surroundings) (w : Plugin)
    → SameCalls w (print_amx_backtrace s w.host.static.call_stack (block_errors true w)).1
traced-SameCalls s w =
    ap (λ (c : CrashDetect). c.static.call_stack)
      (print_amx_backtrace-host s w.host.static.call_stack (block_errors true w))

pub on_exec_error-SameCalls :
    (s : Surroundings) (exec : ℕ → Plugin → Outcome) (index error : ℕ) (w : Plugin)
    → ((i : ℕ) (v : Plugin) → After (SameCalls v) (exec i v))
    → After (SameCalls w) (on_exec_error s exec index error w)
unfolding on_exec_error
on_exec_error-SameCalls s exec index error w keeps = if-After (SameCalls w) _ _ _ (returned refl) (
    map-After (Settled w) (SameCalls w) _ (λ v s. s.1)
      (with_trace-Settled exec error _ w _ keeps (traced-SameCalls s w)))

-- One more call than in `w`.
abbrev OneMore : Plugin → Plugin → Type 0
OneMore w v = (call : AmxCall) × (v.host.static.call_stack ≡ call ∷ w.host.static.call_stack)

pop-some :
    (s : Static) (call : AmxCall) (calls : AmxCallStack)
    → s.call_stack ≡ call ∷ calls
    → (t : Static) × (LongCall.pop s ≡ some (call, t)) × (t.call_stack ≡ calls)
unfolding LongCall.pop CallStack.pop CallStack.is_empty
pop-some s call calls e = rw e (_, refl, refl)

pop-SameCalls :
    (error : ℕ) (w v : Plugin) → OneMore w v → After (SameCalls w) (pop_and_return error v)
unfolding pop_and_return
pop-SameCalls error w v (call, e) =
    let (s, popped, calls) = pop-some v.host.static call w.host.static.call_stack e in
    rw (pop_and_return, popped) (returned calls)

before_exec-OneMore : (h : Host) (index : ℕ) (w : Plugin) → OneMore w (before_exec h index w)
unfolding push_public LongCall.push
before_exec-OneMore h index w = (
  public_call h.self w.amx index,
  ap (λ (c : CrashDetect). c.static.call_stack) (before_exec-host h index w),
)

then_pop-SameCalls :
    (error : ℕ) (w v : Plugin) (o : Outcome)
    → OneMore w v
    → After (SameCalls v) o
    → After (SameCalls w) (then_pop error o)
unfolding then_pop
then_pop-SameCalls error w v (returns e u) more (returned same) =
    pop-SameCalls error w u (more.0, same ∙ more.1)
then_pop-SameCalls error w v undefined more h = ill
then_pop-SameCalls error w v too_deep more h = deep

after_exec-SameCalls :
    (s : Surroundings) (exec : ℕ → Plugin → Outcome) (index error : ℕ) (w v : Plugin)
    → ((i : ℕ) (u : Plugin) → After (SameCalls u) (exec i u))
    → OneMore w v
    → After (SameCalls w) (after_exec s exec index error v)
unfolding after_exec
after_exec-SameCalls s exec index error w v keeps more =
    if-After (SameCalls w) _ _ _
      (then_pop-SameCalls error w v _ more (on_exec_error-SameCalls s exec index error v keeps))
      (pop-SameCalls error w v more)

-- If `amx_Exec` leaves the call stack as it was, `OnExec` does when it returns, whatever error it
-- returns and whatever OnRuntimeError does.
pub on_exec-SameCalls :
    (depth : ℕ) (h : Host) (index : ℕ) (w : Plugin)
    → ((i : ℕ) (v : Plugin) → SameCalls v (h.exec i v).1)
    → After (SameCalls w) (on_exec depth h index w)
unfolding on_exec
on_exec-SameCalls zero h index w keeps = deep
on_exec-SameCalls (suc depth) h index w keeps =
    let v = before_exec h index w in
    let (call, e) = before_exec-OneMore h index w in
    after_exec-SameCalls h.surroundings (on_exec depth h) index (h.exec index v).0 w
      (h.exec index v).1 (λ i u. on_exec-SameCalls depth h i u keeps) (call, keeps index v ∙ e)

-- If `amx_Exec` leaves the call stack as it was, a handler that is called while errors are reported
-- leaves, when it returns, errors reported and the calls on the stack as they were, whatever
-- OnRuntimeError does.
pub on_exec_error-Settled :
    (depth : ℕ) (h : Host) (index error : ℕ) (w : Plugin)
    → w.host.block_exec_errors ≡ false
    → ((i : ℕ) (v : Plugin) → SameCalls v (h.exec i v).1)
    → After (Settled w) (on_exec_error h.surroundings (on_exec depth h) index error w)
unfolding on_exec_error
on_exec_error-Settled depth h index error w unblocked keeps =
    if-After (Settled w) _ _ _ (returned (unblocked, refl)) (
      with_trace-Settled (on_exec depth h) error _ w _ (λ i v. on_exec-SameCalls depth h i v keeps)
        (traced-SameCalls h.surroundings w))

push_native-OneMore : (h : Host) (index : ℕ) (w : Plugin) → OneMore w (push_native h index w)
unfolding push_native LongCall.push
push_native-OneMore h index w = (native_call h.self w.amx index, refl)

-- If the callback that the machine had before leaves the call stack as it was, `OnCallback` does when it
-- returns, with natives traced or not.
pub on_callback-SameCalls :
    (h : Host) (index result : ℕ) (w : Plugin)
    → ((i p : ℕ) (v : Plugin) → SameCalls v (h.prev_callback i p v).2)
    → After (SameCalls w) (on_callback h index result w).1
unfolding on_callback
on_callback-SameCalls h index result w keeps =
    let v = push_native h index w in
    let text = native_text (get_native_name index v.amx) in
    let (call, e) = push_native-OneMore h index w in
    elim (Bool-cases (traces h trace_natives)) [
      | inl on ↦
          let same = ap (λ (c : CrashDetect). c.static.call_stack) (print_traced-host h text v) in
          rw (on_callback, on)
            (pop-SameCalls _ w _ (call, keeps index result (print_traced h text v) ∙ (same ∙ e)))
      | inr off ↦ rw (on_callback, off) (pop-SameCalls _ w _ (call, keeps index result v ∙ e))
    ]
