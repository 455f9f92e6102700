-- ===== src/Plugin/Handler/Errors.antt =====
-- The state that `OnExecError` leaves (src/crashdetect.cpp, lines 208 to 273).
use samp_plugin_crashdetect.Prelude.{
  ℕ, ◌≡◌, ap, ◌∙◌, arith, Bool, true, false, if◌then◌else◌, Option, none, some, List,
}
use samp_plugin_crashdetect.Amx.State.{Amx}
use samp_plugin_crashdetect.Amx.Stack.{amx_push, amx_push_array, amx_release, amx_allot}
use samp_plugin_crashdetect.Plugin.Handler.{
  Plugin, Outcome, returns, undefined, too_deep, report, after_callback,
}

-- A handler that returns has left a state for which `P` holds.
pub data After (P : Plugin → Type 0) : Outcome → Type 0 where
  returned : {e : ℕ} {w : Plugin} → P w → After P (returns e w)
  ill : After P undefined
  deep : After P too_deep

-- No call was left on the stack, or taken from it.
abbrev pub SameCalls : Plugin → Plugin → Type 0
SameCalls w w' = w'.host.static.call_stack ≡ w.host.static.call_stack

-- Moreover errors are reported again.
abbrev pub Settled : Plugin → Plugin → Type 0
Settled w w' = (w'.host.block_exec_errors ≡ false) × SameCalls w w'

pub if-After :
    (P : Plugin → Type 0) (b : Bool) (x y : Outcome)
    → After P x
    → After P y
    → After P (if b then x else y)
if-After P true x y hx hy = hx
if-After P false x y hx hy = hy

pub report-Settled :
    (w₀ : Plugin) (error : ℕ) (trace : List ℕ) (a : Amx) (suppress : ℕ) (w : Plugin)
    → SameCalls w₀ w
    → After (Settled w₀) (report error trace a suppress w)
unfolding report
report-Settled w₀ error trace a suppress w h = returned (ground arith)

pub amx_push_array-host : (vs : List ℕ) (w : Plugin) → (amx_push_array vs w).2.host ≡ w.host
unfolding amx_push_array amx_allot amx_push
amx_push_array-host vs w = ground arith

pub amx_push-host : (v : ℕ) (w : Plugin) → (amx_push v w).1.host ≡ w.host
unfolding amx_push
amx_push-host v w = ground arith

pub amx_release-host : (a : ℕ) (w : Plugin) → (amx_release a w).host ≡ w.host
unfolding amx_release
amx_release-host a w = ground arith

pub after_callback-Settled :
    (w₀ w₁ : Plugin) (error : ℕ) (trace : List ℕ) (addr : Option ℕ) (o : Outcome)
    → After (SameCalls w₀) o
    → After (Settled w₀) (after_callback error trace w₁ addr o)
unfolding after_callback
after_callback-Settled w₀ w₁ error trace addr undefined h = ill
after_callback-Settled w₀ w₁ error trace addr too_deep h = deep
after_callback-Settled w₀ w₁ error trace none (returns e w) h = ill
after_callback-Settled w₀ w₁ error trace (some a) (returns e w) (returned same) =
    report-Settled w₀ error trace w₁.amx _ (amx_release a w)
      (ap (λ c. c.static.call_stack) (amx_release-host a w) ∙ same)
