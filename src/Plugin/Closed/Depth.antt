-- ===== src/Plugin/Closed/Depth.antt =====
-- How deeply `amx_Exec` is nested under the handlers through OnRuntimeError (src/crashdetect.cpp, lines
-- 145 to 273).
use samp_plugin_crashdetect.Prelude.{
  ℕ, suc, ◌≡◌, ap, ◌∙◌, arith, Bool, true, false, if◌then◌else◌, Option, none, some, List, [], ◌∷◌,
}
use samp_plugin_crashdetect.Amx.Error.{err_none}
use samp_plugin_crashdetect.Amx.State.{Amx}
use samp_plugin_crashdetect.Amx.Ref.{get_native_name}
use samp_plugin_crashdetect.Amx.Stack.{amx_push, amx_push_array, amx_release}
use samp_plugin_crashdetect.Plugin.CallStack.{AmxCall}
use samp_plugin_crashdetect.Plugin.LongCall
use samp_plugin_crashdetect.Plugin.LongCall.{Static}
use samp_plugin_crashdetect.Plugin.Handler.{
  Host, Plugin, CrashDetect, Outcome, returns, undefined, too_deep, report, with_trace, native_text,
  with_callback, after_callback, then_pop, on_exec_error, after_exec, on_exec, on_callback,
  pop_and_return, before_exec, block_errors, push_public, push_native,
}
use samp_plugin_crashdetect.Plugin.Handler.Errors.{
  amx_push-host, amx_push_array-host, amx_release-host,
}
use samp_plugin_crashdetect.Plugin.Closed.{
  Outside, settle, machine_hooks, with_exec, exec_at, host_at,
}
use samp_plugin_crashdetect.Plugin.Closed.Wiring.{
  OutsideKeeps, Harmless, Printed-P, result-P, machine_hooks-P,
}
use samp_plugin_crashdetect.Vm.Host.{amx_exec-Keeps}
use samp_plugin_crashdetect.Plugin.Instance.{print_traced}
use samp_plugin_crashdetect.Plugin.Handler.Printed.{before_exec-host, print_traced-host}
use samp_plugin_crashdetect.Trace.Backtrace.{Surroundings}
use samp_plugin_crashdetect.Trace.Backtrace.State.{print_amx_backtrace-host}

-- The handler came to its end, in a state with `P`, or its behaviour is undefined: no handler in it was
-- nested too deeply.
pub data Ends (P : CrashDetect → Type 0) : Outcome → Type 0 where
  ends : {e : ℕ} {w : Plugin} → P w.host → Ends P (returns e w)
  ends_ill : Ends P undefined

-- A property of the two flags: whether errors are blocked, and whether a handler was nested too deeply
unfoldable pub On : (Bool → Bool → Type 0) → CrashDetect → Type 0
On Q c = Q c.block_exec_errors c.deep

abbrev pub QuietOnly : Bool → Bool → Type 0
QuietOnly b d = d ≡ false

abbrev pub BlockedAnd : Bool → Bool → Type 0
BlockedAnd b d = (b ≡ true) × (d ≡ false)

abbrev pub Quiet : CrashDetect → Type 0
Quiet = On QuietOnly

abbrev pub BlockedQuiet : CrashDetect → Type 0
BlockedQuiet = On BlockedAnd

report-Quiet :
    (error : ℕ) (trace : List ℕ) (a : Amx) (suppress : ℕ) (w : Plugin)
    → Quiet w.host
    → Ends Quiet (report error trace a suppress w)
unfolding report On
report-Quiet error trace a suppress w q = ends (ground (arith, q))

module _ (Q : Bool → Bool → Type 0) where
  On-Harmless : Harmless (On Q)
  unfolding On
  On-Harmless = record {
    log_stays = λ l c h. h;
    frame_stays = λ f c h. h;
    naught_stays = λ b c h. h;
    lost_stays = λ b c h. h;
    static_stays = λ s c e h. h;
  }

  if-Ends :
      (b : Bool) (x y : Outcome) → Ends (On Q) x → Ends (On Q) y → Ends (On Q) (if b then x else y)
  if-Ends true x y hx hy = hx
  if-Ends false x y hx hy = hy

  settle-Ends : (w : Plugin) (o : Outcome) → Ends (On Q) o → On Q w.host → On Q (settle w o).host
  unfolding settle On
  settle-Ends w (returns e v) (ends p) h = p
  settle-Ends w undefined p h = h
  settle-Ends w too_deep p h = elim p [ ]

  pop-Ends : (error : ℕ) (w : Plugin) → On Q w.host → Ends (On Q) (pop_and_return error w)
  unfolding pop_and_return On
  pop-Ends error w h = popped (LongCall.pop w.host.static)
    where
      popped :
          (o : Option (AmxCall × Static))
          → Ends (On Q) (elim o [
            | none ↦ undefined
            | some (_, s) ↦ returns error (record w { host = record (w.host) { static = s } })
          ])
      popped none = ends_ill
      popped (some (call, s)) = ends h

  then_pop-Ends : (error : ℕ) (o : Outcome) → Ends (On Q) o → Ends (On Q) (then_pop error o)
  unfolding then_pop
  then_pop-Ends error (returns e u) (ends h) = pop-Ends error u h
  then_pop-Ends error undefined h = ends_ill
  then_pop-Ends error too_deep h = elim h [ ]

  before_exec-On :
      (h : Host) (index : ℕ) (w : Plugin) → On Q w.host → On Q (before_exec h index w).host
  unfolding push_public On
  before_exec-On h index w p =
      let c = before_exec-host h index w in
      rw (ap CrashDetect.block_exec_errors c, ap CrashDetect.deep c) p

  if-On : (b : Bool) (x y : Plugin) → On Q x.host → On Q y.host → On Q (if b then x else y).host
  if-On true x y hx hy = hx
  if-On false x y hx hy = hy

  callback-On :
      (o : Outside) (exec : ℕ → Plugin → ℕ × Plugin) (i v : ℕ) (w : Plugin)
      → OutsideKeeps (On Q) o
      → On Q w.host
      → On Q (settle w (on_callback (with_exec exec o) i v w).1).host
  unfolding on_callback push_native On
  callback-On o exec i v w out h =
      settle-Ends w _ (pop-Ends _ _ (out.callback_stays i v _ (if-On _ _ _ traced h))) h
    where
      pushed : Plugin
      pushed = push_native (with_exec exec o) i w

      traced :
          On Q
            (print_traced
              (with_exec exec o)
              (native_text (get_native_name i pushed.amx))
              pushed).host
      traced =
          Printed-P (On Q) On-Harmless pushed.host _ (print_traced-host (with_exec exec o) _ pushed)
            h

-- `OnExecError` does nothing while errors are blocked.
on_exec_error-blocked :
    (s : Surroundings) (exec : ℕ → Plugin → Outcome) (index error : ℕ) (w : Plugin)
    → w.host.block_exec_errors ≡ true
    → on_exec_error s exec index error w ≡ returns err_none w
unfolding on_exec_error
on_exec_error-blocked s exec index error w b = ground (arith, b)

-- What the handlers do while errors are blocked
module _ (h : Host)
    (keeps : (i : ℕ) (v : Plugin) → BlockedQuiet v.host → BlockedQuiet (h.exec i v).1.host) where
  after_exec-blocked :
      (n index error : ℕ) (w : Plugin)
      → BlockedQuiet w.host
      → Ends BlockedQuiet (after_exec h.surroundings (on_exec n h) index error w)
  unfolding after_exec On
  after_exec-blocked n index error w b =
      if-Ends BlockedAnd _ _ _
        (then_pop-Ends BlockedAnd error _
          (rw (on_exec_error-blocked h.surroundings (on_exec n h) index error w b.0) (ends b)))
        (pop-Ends BlockedAnd error w b)

  on_exec-blocked :
      (n index : ℕ) (w : Plugin)
      → BlockedQuiet w.host
      → Ends BlockedQuiet (on_exec (suc n) h index w)
  unfolding on_exec
  on_exec-blocked n index w b =
      let v = before_exec h index w in
      let (error, u) = h.exec index v in
      after_exec-blocked n index error u (keeps index v (before_exec-On BlockedAnd h index w b))

  after_callback-Quiet :
      (error : ℕ) (trace : List ℕ) (w₁ : Plugin) (addr : Option ℕ) (o : Outcome)
      → Ends BlockedQuiet o
      → Ends Quiet (after_callback error trace w₁ addr o)
  unfolding after_callback On
  after_callback-Quiet error trace w₁ addr too_deep k = elim k [ ]
  after_callback-Quiet error trace w₁ addr undefined k = ends_ill
  after_callback-Quiet error trace w₁ none (returns e w) k = ends_ill
  after_callback-Quiet error trace w₁ (some a) (returns e w) (ends b) =
      report-Quiet error trace w₁.amx _ (amx_release a w)
        (ap (λ c. c.deep) (amx_release-host a w) ∙ b.1)

  with_callback-Quiet :
      (n error : ℕ) (trace : List ℕ) (w₁ : Plugin) (o : Option ℕ)
      → BlockedQuiet w₁.host
      → Ends Quiet (with_callback (on_exec (suc n) h) error trace w₁ o)
  unfolding with_callback On
  with_callback-Quiet n error trace w₁ none b = report-Quiet error trace w₁.amx 0 w₁ b.1
  with_callback-Quiet n error trace w₁ (some i) b =
      let pushed = amx_push_array (0 ∷ []) w₁ in
      let w₃ = (amx_push error pushed.2).1 in
      let host : w₃.host ≡ w₁.host =
        amx_push-host error pushed.2 ∙ amx_push_array-host (0 ∷ []) w₁ in
      if-Ends QuietOnly _ _ _
        (after_callback-Quiet error trace w₁ pushed.1 (on_exec (suc n) h i w₃) (
          on_exec-blocked n i w₃
            (ap (λ c. c.block_exec_errors) host ∙ b.0, ap (λ c. c.deep) host ∙ b.1)))
        (report-Quiet error trace w₁.amx 0 w₁ b.1)

  with_trace-Quiet :
      (n error : ℕ) (trace : Option (List ℕ)) (w₁ : Plugin)
      → BlockedQuiet w₁.host
      → Ends Quiet (with_trace (on_exec (suc n) h) error trace w₁)
  unfolding with_trace
  with_trace-Quiet n error none w₁ b = ends_ill
  with_trace-Quiet n error (some trace) w₁ b = with_callback-Quiet n error trace w₁ _ b

  on_exec_error-Quiet :
      (n index error : ℕ) (w : Plugin)
      → Quiet w.host
      → Ends Quiet (on_exec_error h.surroundings (on_exec (suc n) h) index error w)
  unfolding on_exec_error On
  on_exec_error-Quiet n index error w q =
      let same =
        print_amx_backtrace-host h.surroundings w.host.static.call_stack (block_errors true w) in
      if-Ends QuietOnly _ _ _ (ends q) (
        with_trace-Quiet n error _ _
          (ap CrashDetect.block_exec_errors same, ap CrashDetect.deep same ∙ q))

-- What is outside leaves the two flags as they are: natives, callbacks and debug hooks of others.
abbrev pub OutsideQuiet : Outside → Type 1
OutsideQuiet o = (Q : Bool → Bool → Type 0) → OutsideKeeps (On Q) o

-- Where errors are blocked, `amx_Exec` leaves the two flags as they are.
exec_at-blocked :
    (Q : Bool → Bool → Type 0) (depth fuel : ℕ) (o : Outside) (index : ℕ) (w : Plugin)
    → ((b d : Bool) → Q b d → b ≡ true)
    → OutsideQuiet o
    → On Q w.host
    → On Q (exec_at (suc depth) fuel o index w).1.host
unfolding exec_at On settle
exec_at-blocked Q depth fuel o index w blocked out h =
    let inner = exec_at depth fuel o in
    let hooks =
      machine_hooks-P (On Q) o inner (On-Harmless Q) (out Q)
        (λ i v u k. callback-On Q o inner i v u (out Q) k)
        (λ i e u k.
          rw
            (on_exec_error-blocked o.surroundings (on_exec 2 (with_exec inner o)) i e u
              (blocked _ _ k))
            k) in
    result-P (On Q) w _ (On-Harmless Q)
      (amx_exec-Keeps (On Q) fuel (machine_hooks o (with_exec inner o)) o.garbage index w hooks h) h

exec_at-BlockedQuiet :
    (depth fuel : ℕ) (o : Outside) (index : ℕ) (w : Plugin)
    → OutsideQuiet o
    → BlockedQuiet w.host
    → BlockedQuiet (exec_at (suc depth) fuel o index w).1.host
exec_at-BlockedQuiet depth fuel o index w out h =
    exec_at-blocked BlockedAnd depth fuel o index w (λ b d k. k.0) out h

exec_at-Quiet :
    (depth fuel : ℕ) (o : Outside) (index : ℕ) (w : Plugin)
    → OutsideQuiet o
    → Quiet w.host
    → Quiet (exec_at (suc (suc depth)) fuel o index w).1.host
unfolding exec_at
exec_at-Quiet depth fuel o index w out h =
    let inner = exec_at (suc depth) fuel o in
    let keeps : (i : ℕ) (v : Plugin) → BlockedQuiet v.host → BlockedQuiet (inner i v).1.host =
      λ i v b. exec_at-BlockedQuiet depth fuel o i v out b in
    let hooks =
      machine_hooks-P Quiet o inner (On-Harmless QuietOnly) (out QuietOnly)
        (λ i v u k. callback-On QuietOnly o inner i v u (out QuietOnly) k)
        (λ i e u k.
          settle-Ends QuietOnly u _ (on_exec_error-Quiet (with_exec inner o) keeps 1 i e u k) k) in
    result-P Quiet w _ (On-Harmless QuietOnly)
      (amx_exec-Keeps Quiet fuel (machine_hooks o (with_exec inner o)) o.garbage index w hooks h) h

-- With the interpreter and the handlers together, for every number of instructions: if the natives, the
-- previous callback and the previous debug hook leave the two flags as they are, activations of
-- `amx_Exec` that are nested two deep below `OnExec` suffice, however often OnRuntimeError fails: no
-- handler is nested more deeply, and `OnExec` returns unless its behaviour is undefined.
pub on_exec_at-Ends :
    (depth fuel : ℕ) (o : Outside) (index : ℕ) (w : Plugin)
    → OutsideQuiet o
    → Quiet w.host
    → Ends Quiet (on_exec 2 (host_at (suc (suc depth)) fuel o) index w)
unfolding on_exec after_exec
on_exec_at-Ends depth fuel o index w out q =
    let h = host_at (suc (suc depth)) fuel o in
    let v = before_exec h index w in
    let (error, u) = h.exec index v in
    let quiet : Quiet u.host =
      exec_at-Quiet depth fuel o index v out (before_exec-On QuietOnly h index w q) in
    if-Ends QuietOnly _ _ _
      (then_pop-Ends QuietOnly error _ (
        on_exec_error-Quiet h (λ i v b. exec_at-BlockedQuiet (suc depth) fuel o i v out b) 0 index
          error u quiet))
      (pop-Ends QuietOnly error u quiet)
