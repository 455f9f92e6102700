-- ===== src/Plugin/Closed/Balance.antt =====
-- The call stack under the handlers and the interpreter together (src/crashdetect.cpp, lines 128 to 303).
use samp_plugin_crashdetect.Prelude.{ℕ, zero, suc, ◌≡◌, refl, ◌∙◌}
use samp_plugin_crashdetect.Plugin.CallStack.{AmxCallStack}
use samp_plugin_crashdetect.Plugin.Handler.{
  Plugin, CrashDetect, Outcome, returns, undefined, too_deep, on_exec,
}
use samp_plugin_crashdetect.Plugin.Handler.Errors.{After, returned, SameCalls}
use samp_plugin_crashdetect.Plugin.Handler.Balance.{
  on_exec-SameCalls, on_exec_error-SameCalls, on_callback-SameCalls,
}
use samp_plugin_crashdetect.Plugin.Closed.{
  Outside, settle, machine_hooks, with_exec, exec_at, host_at,
}
use samp_plugin_crashdetect.Vm.Host.{amx_exec-Keeps}
use samp_plugin_crashdetect.Plugin.Closed.Wiring.{OutsideKeeps, Harmless, result-P, machine_hooks-P}

-- The calls on the stack are these.
unfoldable pub Calls : AmxCallStack → CrashDetect → Type 0
Calls calls s = s.static.call_stack ≡ calls

-- What is outside leaves every call stack as it was.
abbrev pub OutsideBalanced : Outside → Type 0
OutsideBalanced o = (calls : AmxCallStack) → OutsideKeeps (Calls calls) o

Calls-Harmless : (calls : AmxCallStack) → Harmless (Calls calls)
unfolding Calls
Calls-Harmless calls = record {
  log_stays = λ l c h. h;
  frame_stays = λ f c h. h;
  naught_stays = λ b c h. h;
  lost_stays = λ b c h. h;
  static_stays = λ s c e h. e ∙ h;
}

settle-Calls :
    (calls : AmxCallStack) (w : Plugin) (o : Outcome)
    → After (SameCalls w) o
    → Calls calls w.host
    → Calls calls (settle w o).host
unfolding settle Calls
settle-Calls calls w (returns e v) (returned same) h = same ∙ h
settle-Calls calls w undefined a h = h
settle-Calls calls w too_deep a h = h

callback-SameCalls :
    (o : Outside) (i p : ℕ) (v : Plugin) → OutsideBalanced o → SameCalls v (o.prev_callback i p v).2
unfolding Calls
callback-SameCalls o i p v out = (out v.host.static.call_stack).callback_stays i p v refl

exec_at-Calls :
    (calls : AmxCallStack) (depth fuel : ℕ) (o : Outside) (index : ℕ) (w : Plugin)
    → OutsideBalanced o
    → Calls calls w.host
    → Calls calls (exec_at depth fuel o index w).1.host
unfolding exec_at Calls
exec_at-Calls calls zero fuel o index w out h = h
exec_at-Calls calls (suc depth) fuel o index w out h =
    let inner = exec_at depth fuel o in
    let same : (i : ℕ) (v : Plugin) → SameCalls v (inner i v).1 =
      λ i v. exec_at-Calls v.host.static.call_stack depth fuel o i v out refl in
    let hooks =
      machine_hooks-P (Calls calls) o inner (Calls-Harmless calls) (out calls)
        (λ i v u k.
          settle-Calls calls u _
            (on_callback-SameCalls (with_exec inner o) i v u
              (λ i p v. callback-SameCalls o i p v out))
            k)
        (λ i e u k.
          settle-Calls calls u _
            (on_exec_error-SameCalls o.surroundings (on_exec 2 (with_exec inner o)) i e u
              (λ i v. on_exec-SameCalls 2 (with_exec inner o) i v same))
            k) in
    result-P (Calls calls) w _ (Calls-Harmless calls)
      (amx_exec-Keeps (Calls calls) fuel (machine_hooks o (with_exec inner o)) o.garbage index w
        hooks h)
      h

-- With the interpreter and the handlers together, at every nesting and for every number of instructions:
-- if the natives, the previous callback and the previous debug hook leave the call stack as it was,
-- `OnExec` leaves it as it was when it returns, with whatever error.
pub on_exec_at-SameCalls :
    (depth fuel : ℕ) (o : Outside) (index : ℕ) (w : Plugin)
    → OutsideBalanced o
    → After (SameCalls w) (on_exec 2 (host_at depth fuel o) index w)
unfolding Calls
on_exec_at-SameCalls depth fuel o index w out =
    on_exec-SameCalls 2 (host_at depth fuel o) index w
      (λ i v. exec_at-Calls v.host.static.call_stack depth fuel o i v out refl)
