-- ===== src/Plugin/Closed/Wiring.antt =====
-- The hooks of the machine and a property of the plugin's state (src/crashdetect.cpp, lines 128 to 303,
-- and src/plugin.cpp, lines 87 to 118).
use mathlib.Core.Path.{subst}
use samp_plugin_crashdetect.Prelude.{
  ℕ, ◌≡◌, refl, sym, arith, Bool, true, false, if◌then◌else◌, ◌&&◌, Option, none, some, ◌∷◌, [],
  slt, List,
}
use samp_plugin_crashdetect.Plugin.LongCall.{Static, on_long_call_request}
use samp_plugin_crashdetect.Plugin.LongCall.Reports.{request-armed}
use samp_plugin_crashdetect.Plugin.Log.{LogLine, long_call}
use samp_plugin_crashdetect.Plugin.Handler.Printed.{
  Printed, print_backtrace-host, trace_function-host,
}
use samp_plugin_crashdetect.Trace.Backtrace.{Surroundings}
use samp_plugin_crashdetect.Plugin.Handler.{
  Plugin, CrashDetect, on_exec, on_exec_error, on_callback, on_debug_hook,
  on_address_naught_request, traces, print, with_static, trace_functions, has_debug_info,
  trace_function,
}
use samp_plugin_crashdetect.Plugin.Closed.{
  Outside, settle, machine_hooks, result, with_exec, long_call_hook,
}
use samp_plugin_crashdetect.Vm.Machine.{Next, running, stopped, trap}
use samp_plugin_crashdetect.Vm.Host.Instructions.{Keeps, goes, stops, HooksKeep}

-- What is outside keeps a property of the plugin's state.
pub record OutsideKeeps (P : CrashDetect → Type 0) (o : Outside) : Type 0 where
  pub callback_stays : (i v : ℕ) (w : Plugin) → P w.host → P (o.prev_callback i v w).2.host
  pub native_stays : (a : ℕ) (w : Plugin) → P w.host → P (o.native a w).1.host
  pub debug_stays :
      (d : Plugin → ℕ × Plugin) → o.prev_debug ≡ some d → (w : Plugin) → P w.host → P (d w).1.host

-- A property that does not look at the log, the last frame, the flags of address naught and of lost
-- control, and of the static members only at the calls.
pub record Harmless (P : CrashDetect → Type 0) : Type 0 where
  pub log_stays : (l : List LogLine) (c : CrashDetect) → P c → P (record c { log = l })
  pub frame_stays : (f : ℕ) (c : CrashDetect) → P c → P (record c { last_frame = f })
  pub naught_stays : (b : Bool) (c : CrashDetect) → P c → P (record c { address_naught = b })
  pub lost_stays : (b : Bool) (c : CrashDetect) → P c → P (record c { lost = b })
  pub static_stays :
      (s : Static) (c : CrashDetect)
      → s.call_stack ≡ c.static.call_stack
      → P c
      → P (record c { static = s })

module _ (P : CrashDetect → Type 0) where
  if-P : (b : Bool) (x y : Plugin) → P x.host → P y.host → P (if b then x else y).host
  if-P true x y hx hy = hx
  if-P false x y hx hy = hy

  -- What is printed keeps the property.
  pub Printed-P : Harmless P → (c c' : CrashDetect) → Printed c c' → P c → P c'
  Printed-P k c c' e h =
      subst P (sym e) (k.lost_stays c'.lost (record c { log = c'.log }) (k.log_stays c'.log c h))

  pub result-P :
      (w : Plugin) (n : Next CrashDetect)
      → Harmless P
      → Keeps P n
      → P w.host
      → P (result w n).1.host
  unfolding result
  result-P w (running r v) k (goes p) h = k.lost_stays true v.host p
  result-P w (stopped e v) k (stops p) h = p
  result-P w trap k p h = k.lost_stays true w.host h

  long_call_hook-P :
      (surroundings : Surroundings) (clock : Plugin → ℕ) (option value : ℕ) (w : Plugin)
      → Harmless P
      → P w.host
      → P (long_call_hook surroundings clock option value w).1.host
  unfolding long_call_hook
  long_call_hook-P surroundings clock option value w k h =
      let (v, reported, s) = on_long_call_request (clock w) option value w.host.static in
      let same = (request-armed (clock w) option value w.host.static).1 in
      let stays : P (with_static s w).host = k.static_stays s w.host same h in
      let told = print (long_call ∷ []) (with_static s w) in
      if-P reported _ _
        (Printed-P k told.host _ (print_backtrace-host surroundings told) (k.log_stays _ _ stays))
        stays

  naught-P :
      (option : ℕ) (w : Plugin)
      → Harmless P
      → P w.host
      → P (on_address_naught_request option w).1.host
  unfolding on_address_naught_request
  naught-P option w k h =
      ground (arith, h, k.naught_stays false w.host h, k.naught_stays true w.host h)

  debug-P :
      (o : Outside) (exec : ℕ → Plugin → ℕ × Plugin) (w : Plugin)
      → Harmless P
      → OutsideKeeps P o
      → P w.host
      → P (on_debug_hook (with_exec exec o) w).1.host
  unfolding on_debug_hook
  debug-P o exec w k out h = chained o.prev_debug (out.debug_stays)
    where
      traced : Plugin
      traced =
          if slt w.amx.frm w.host.last_frame
            && (traces (with_exec exec o) trace_functions && has_debug_info (with_exec exec o))
          then trace_function (with_exec exec o) w
          else w

      after : Plugin
      after = record traced { host = record (traced.host) { last_frame = traced.amx.frm } }

      after-P : P after.host
      after-P =
          k.frame_stays traced.amx.frm traced.host
            (if-P _ _ w (Printed-P k w.host _ (trace_function-host (with_exec exec o) w) h) h)

      chained :
          (d : Option (Plugin → ℕ × Plugin))
          → ((f : Plugin → ℕ × Plugin) → d ≡ some f → (v : Plugin) → P v.host → P (f v).1.host)
          → let r : ℕ × Plugin = elim d [ none ↦ (0, after) | some debug ↦ debug after ] in
            P r.1.host
      chained none stays = after-P
      chained (some f) stays = stays f refl after after-P

  -- The hooks keep the property if `OnCallback` and `OnExecError` do.
  pub machine_hooks-P :
      (o : Outside) (exec : ℕ → Plugin → ℕ × Plugin)
      → Harmless P
      → OutsideKeeps P o
      → ((i v : ℕ) (w : Plugin)
          → P w.host
          → P (settle w (on_callback (with_exec exec o) i v w).1).host)
      → ((i e : ℕ) (w : Plugin)
          → P w.host
          → P (settle w (on_exec_error o.surroundings (on_exec 2 (with_exec exec o)) i e w)).host)
      → HooksKeep P (machine_hooks o (with_exec exec o))
  unfolding machine_hooks
  machine_hooks-P o exec k out on_call on_error = record {
    callback_keeps = λ i v w h. on_call i v w h;
    native_keeps = λ a w h. out.native_stays a w h;
    debug_keeps = λ w h. debug-P o exec w k out h;
    error_keeps = λ i e w h. on_error i e w h;
    time_keeps = λ i v w h. long_call_hook-P o.surroundings o.clock i v w k h;
    naught_keeps = λ i w h. naught-P i w k h;
  }
