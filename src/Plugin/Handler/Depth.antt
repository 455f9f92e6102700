-- ===== src/Plugin/Handler/Depth.antt =====
-- How deeply `OnExec` is nested through OnRuntimeError (src/crashdetect.cpp, lines 164 to 273).
use samp_plugin_crashdetect.Prelude.{
  ℕ, ◌≡◌, ap, ◌∙◌, Bool, true, false, if◌then◌else◌, Option, none, some, List, [], ◌∷◌, add32,
}
use samp_plugin_crashdetect.Amx.Memory.{read32}
use samp_plugin_crashdetect.Amx.State.{Amx}
use samp_plugin_crashdetect.Amx.Stack.{amx_push, amx_push_array, amx_release}
use samp_plugin_crashdetect.Plugin.LongCall
use samp_plugin_crashdetect.Plugin.LongCall.{Static}
use samp_plugin_crashdetect.Plugin.CallStack.{AmxCall}
use samp_plugin_crashdetect.Plugin.Handler.{
  Host, Plugin, Outcome, returns, undefined, too_deep, report, CrashDetect, with_trace,
  with_callback, after_callback, then_pop, on_exec_error, after_exec, on_exec, pop_and_return,
  before_exec, block_errors, push_public,
}
use samp_plugin_crashdetect.Plugin.Handler.Errors.{amx_push-host, amx_push_array-host}
use samp_plugin_crashdetect.Plugin.Handler.Printed.{before_exec-host}
use samp_plugin_crashdetect.Trace.Backtrace.{Surroundings}
use samp_plugin_crashdetect.Trace.Backtrace.State.{print_amx_backtrace-host}

-- The depth was enough.
pub data Shallow : Outcome → Type 0 where
  ended : {e : ℕ} {w : Plugin} → Shallow (returns e w)
  ended_ill : Shallow undefined

if-Shallow : (b : Bool) (x y : Outcome) → Shallow x → Shallow y → Shallow (if b then x else y)
if-Shallow true x y hx hy = hx
if-Shallow false x y hx hy = hy

pop-Shallow : (error : ℕ) (w : Plugin) → Shallow (pop_and_return error w)
unfolding pop_and_return
pop-Shallow error w = popped (LongCall.pop w.host.static)
  where
    popped :
        (o : Option (AmxCall × Static))
        → Shallow (elim o [
          | none ↦ undefined
          | some (_, s) ↦ returns error (record w { host = record (w.host) { static = s } })
        ])
    popped none = ended_ill
    popped (some (call, s)) = ended

report-Shallow :
    (error : ℕ) (trace : List ℕ) (a : Amx) (suppress : ℕ) (w : Plugin)
    → Shallow (report error trace a suppress w)
unfolding report
report-Shallow error trace a suppress w = ended

after_callback-Shallow :
    (error : ℕ) (trace : List ℕ) (w₁ : Plugin) (addr : Option ℕ) (o : Outcome)
    → Shallow o
    → Shallow (after_callback error trace w₁ addr o)
unfolding after_callback
after_callback-Shallow error trace w₁ addr too_deep h = elim h [ ]
after_callback-Shallow error trace w₁ addr undefined h = ended_ill
after_callback-Shallow error trace w₁ none (returns e w) h = ended_ill
after_callback-Shallow error trace w₁ (some a) (returns e w) h =
    report-Shallow error trace w₁.amx (read32 (amx_release a w).mem (add32 w₁.amx.data_ptr a))
      (amx_release a w)

with_callback-Shallow :
    (exec : ℕ → Plugin → Outcome) (error : ℕ) (trace : List ℕ) (w₁ : Plugin) (o : Option ℕ)
    → ((i : ℕ) (v : Plugin) → v.host.block_exec_errors ≡ true → Shallow (exec i v))
    → w₁.host.block_exec_errors ≡ true
    → Shallow (with_callback exec error trace w₁ o)
unfolding with_callback
with_callback-Shallow exec error trace w₁ none inner blocked =
    report-Shallow error trace w₁.amx 0 w₁
with_callback-Shallow exec error trace w₁ (some i) inner blocked =
    let pushed = amx_push_array (0 ∷ []) w₁ in
    let w₃ = (amx_push error pushed.2).1 in
    let host : w₃.host ≡ w₁.host = amx_push-host error pushed.2 ∙ amx_push_array-host (0 ∷ []) w₁ in
    if-Shallow _ _ _
      (after_callback-Shallow error trace w₁ pushed.1 (exec i w₃)
        (inner i w₃ (ap (λ c. c.block_exec_errors) host ∙ blocked)))
      (report-Shallow error trace w₁.amx 0 w₁)

with_trace-Shallow :
    (exec : ℕ → Plugin → Outcome) (error : ℕ) (trace : Option (List ℕ)) (w₁ : Plugin)
    → ((i : ℕ) (v : Plugin) → v.host.block_exec_errors ≡ true → Shallow (exec i v))
    → w₁.host.block_exec_errors ≡ true
    → Shallow (with_trace exec error trace w₁)
unfolding with_trace
with_trace-Shallow exec error none w₁ inner blocked = ended_ill
with_trace-Shallow exec error (some trace) w₁ inner blocked =
    with_callback-Shallow exec error trace w₁ _ inner blocked

then_pop-Shallow : (error : ℕ) (o : Outcome) → Shallow o → Shallow (then_pop error o)
unfolding then_pop
then_pop-Shallow error (returns e u) h = pop-Shallow error u
then_pop-Shallow error undefined h = ended_ill
then_pop-Shallow error too_deep h = elim h [ ]

after_exec-Shallow :
    (s : Surroundings) (exec : ℕ → Plugin → Outcome) (index error : ℕ) (w : Plugin)
    → Shallow (on_exec_error s exec index error w)
    → Shallow (after_exec s exec index error w)
unfolding after_exec
after_exec-Shallow s exec index error w h =
    if-Shallow _ _ _ (then_pop-Shallow error _ h) (pop-Shallow error w)

before_exec-block :
    (h : Host) (index : ℕ) (w : Plugin)
    → (before_exec h index w).host.block_exec_errors ≡ w.host.block_exec_errors
unfolding push_public
before_exec-block h index w =
    ap (λ (c : CrashDetect). c.block_exec_errors) (before_exec-host h index w)

blocked-Shallow :
    (h : Host) (index : ℕ) (w : Plugin)
    → ((i : ℕ) (v : Plugin)
        → v.host.block_exec_errors ≡ true
        → (h.exec i v).1.host.block_exec_errors ≡ true)
    → w.host.block_exec_errors ≡ true
    → Shallow (on_exec 1 h index w)
unfolding on_exec on_exec_error
blocked-Shallow h index w keeps blocked =
    let v = before_exec h index w in
    let r = h.exec index v in
    let still : r.1.host.block_exec_errors ≡ true =
      keeps index v (before_exec-block h index w ∙ blocked) in
    after_exec-Shallow h.surroundings (on_exec 0 h) index r.0 r.1 (rw (on_exec_error, still) ended)

-- If `amx_Exec` leaves errors blocked where they are blocked, `OnExec` is nested at most two levels
-- deep: once for the call, once for OnRuntimeError.
pub on_exec-Shallow :
    (h : Host) (index : ℕ) (w : Plugin)
    → ((i : ℕ) (v : Plugin)
        → v.host.block_exec_errors ≡ true
        → (h.exec i v).1.host.block_exec_errors ≡ true)
    → Shallow (on_exec 2 h index w)
unfolding on_exec on_exec_error
on_exec-Shallow h index w keeps =
    let v = before_exec h index w in
    let r = h.exec index v in
    after_exec-Shallow h.surroundings (on_exec 1 h) index r.0 r.1 (
      if-Shallow _ _ _ ended (
        with_trace-Shallow (on_exec 1 h) r.0 _ _
          (λ i u blocked. blocked-Shallow h i u keeps blocked)
          (ap (λ (c : CrashDetect). c.block_exec_errors)
            (print_amx_backtrace-host h.surroundings r.1.host.static.call_stack
              (block_errors true r.1)))))
