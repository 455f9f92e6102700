-- ===== src/Plugin/Handler/Printed.antt =====
-- What printing changes in a handler's members (src/crashdetect.cpp, lines 128 to 187 and 341 to 350).
use samp_plugin_crashdetect.Prelude.{
  ℕ, ◌≡◌, refl, sym, ap, ◌∙◌, Bool, true, false, if◌then◌else◌, Option, none, some, List, ◌==◌,
}
use samp_plugin_crashdetect.Amx.Ref.{get_public_address}
use samp_plugin_crashdetect.Plugin.Log.{debug_text}
use samp_plugin_crashdetect.Plugin.Instance.{
  CrashDetect, Plugin, Host, lose, print_stream, print_backtrace, print_traced, print_trace_frame,
}
use samp_plugin_crashdetect.Plugin.Handler.{
  push_public, traces, trace_functions, trace_function, trace_public_call, before_exec,
}
use samp_plugin_crashdetect.Trace.Frame.{AmxStackFrame, frame_with}
use samp_plugin_crashdetect.Trace.Walk.{get_amx_stack_trace}
use samp_plugin_crashdetect.Trace.Backtrace.{Surroundings}
use samp_plugin_crashdetect.Trace.Backtrace.State.{
  get_amx_stack_trace-host, print_amx_backtrace-host,
}

-- The members `c` with another log and flag of lost control
abbrev pub logged : CrashDetect → CrashDetect → CrashDetect
logged c c' = record c { log = c'.log; lost = c'.lost }

abbrev pub Printed : CrashDetect → CrashDetect → Type 0
Printed c c' = c' ≡ logged c c'

Printed-of_eq : (c c' : CrashDetect) → c' ≡ c → Printed c c'
Printed-of_eq c c' e = e ∙ ap (logged c) (sym e)

Printed-trans : (c c' c'' : CrashDetect) → Printed c c' → Printed c' c'' → Printed c c''
Printed-trans c c' c'' p q = q ∙ ap (λ k. logged k c'') p

if-Printed :
    (c : CrashDetect) (b : Bool) (x y : Plugin)
    → Printed c x.host
    → Printed c y.host
    → Printed c (if b then x else y).host
if-Printed c true x y p q = p
if-Printed c false x y p q = q

pub print_backtrace-host :
    (s : Surroundings) (w : Plugin) → Printed w.host (print_backtrace s w).host
unfolding print_backtrace print_stream
print_backtrace-host s w = texts _ _ (print_amx_backtrace-host s w.host.static.call_stack w)
  where
    texts :
        (o : Option (List ℕ)) (v : Plugin)
        → v.host ≡ w.host
        → let r : Plugin = elim o [ none ↦ lose v | some t ↦ print_stream debug_text t v ] in
          Printed w.host r.host
    texts none v e = Printed-trans w.host v.host _ (Printed-of_eq w.host v.host e) refl
    texts (some t) v e = Printed-trans w.host v.host _ (Printed-of_eq w.host v.host e) refl

pub print_traced-host :
    (h : Host) (text : List ℕ) (w : Plugin) → Printed w.host (print_traced h text w).host
unfolding print_traced print_stream
print_traced-host h text w = if-Printed w.host _ _ w refl refl

print_trace_frame-host :
    (h : Host) (frame : AmxStackFrame) (w : Plugin)
    → Printed w.host (print_trace_frame h frame w).host
unfolding print_trace_frame
print_trace_frame-host h frame w = texts _
  where
    texts :
        (o : Option (List ℕ))
        → let r : Plugin = elim o [ none ↦ lose w | some t ↦ print_traced h t w ] in
          Printed w.host r.host
    texts none = refl
    texts (some t) = print_traced-host h t w

pub trace_function-host : (h : Host) (w : Plugin) → Printed w.host (trace_function h w).host
unfolding trace_function
trace_function-host h w =
    let (trace, v) = get_amx_stack_trace w.amx.frm w.amx.cip 1 w in
    let same = Printed-of_eq w.host v.host (get_amx_stack_trace-host w.amx.frm w.amx.cip 1 w) in
    if-Printed w.host _ v _ same
      (Printed-trans w.host v.host _ same (print_trace_frame-host h trace.current_frame v))

trace_public_call-host :
    (h : Host) (address : ℕ) (w : Plugin) → Printed w.host (trace_public_call h address w).host
unfolding trace_public_call
trace_public_call-host h address w =
    let (trace, v) = get_amx_stack_trace w.amx.frm w.amx.cip 1 w in
    let frame : AmxStackFrame =
      if trace.current_frame.return_address == 0
      then frame_with v.amx v.amx.frm 0 0 address
      else record (trace.current_frame) { caller_address = address } in
    Printed-trans w.host v.host _
      (Printed-of_eq w.host v.host (get_amx_stack_trace-host w.amx.frm w.amx.cip 1 w))
      (print_trace_frame-host h frame v)

-- What `OnExec` changes of the members before it calls `amx_Exec`
pub before_exec-host :
    (h : Host) (index : ℕ) (w : Plugin)
    → let c = (before_exec h index w).host in
      c ≡ record (logged (push_public h index w).host c) { last_frame = c.last_frame }
unfolding before_exec
before_exec-host h index w =
    part w₂.host (before_exec h index w).host (cleared (traces h trace_functions)) (
      if-Printed w₂.host _ _ w₂ (trace_public_call-host h (get_public_address index w₂.amx) w₂)
        refl)
  where
    w₁ : Plugin
    w₁ = push_public h index w

    w₂ : Plugin
    w₂ =
        if traces h trace_functions
        then record w₁ { host = record (w₁.host) { last_frame = 0 } }
        else w₁

    cleared :
        (b : Bool)
        → let v : Plugin =
            if b then record w₁ { host = record (w₁.host) { last_frame = 0 } } else w₁ in
          v.host ≡ record (w₁.host) { last_frame = v.host.last_frame }
    cleared true = refl
    cleared false = refl

    part :
        (b c : CrashDetect)
        → b ≡ record (w₁.host) { last_frame = b.last_frame }
        → Printed b c
        → c ≡ record (logged w₁.host c) { last_frame = c.last_frame }
    part b c e p =
        p
        ∙ ap (λ k. logged k c) e
        ∙ ap (λ f. record (logged w₁.host c) { last_frame = f }) (sym (ap CrashDetect.last_frame p))
