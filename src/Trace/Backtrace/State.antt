-- ===== src/Trace/Backtrace/State.antt =====
-- What `PrintAMXBacktrace` leaves behind (src/crashdetect.cpp, lines 421 to 491).
use samp_plugin_crashdetect.Prelude.{
  ℕ, ◌+◌, ◌≡◌, refl, sym, ap, ◌∙◌, Bool, true, false, ◌==◌, add32, IsCell, if◌then◌else◌, List, [],
  ◌∷◌, Option, none, some, arith,
}
use samp_plugin_crashdetect.Amx.Memory.{read32, Apart}
use samp_plugin_crashdetect.Amx.State.{Amx, World}
use samp_plugin_crashdetect.Plugin.CallStack.{AmxCall, AmxCallStack, CallType, public, native}
use samp_plugin_crashdetect.Trace.Walk.{get_amx_stack_trace, with_fake_frame, push_stack}
use samp_plugin_crashdetect.Trace.Walk.Restored.{get_amx_stack_trace-machine}
use samp_plugin_crashdetect.Trace.Backtrace.{
  Surroundings, max_depth, frames_of_call, print_public, next_level, prepend, print_calls,
  print_amx_backtrace,
}

module _ {W : Type 0} where
  -- The machine is as it was but for the frame register, and so are the host's state and the memory but
  -- for the two cells behind the heap.
  pub record Unharmed (w w' : World W) : Type 0 where
    pub machine : w'.amx ≡ record (w.amx) { frm = w'.amx.frm }
    pub host : w'.host ≡ w.host
    pub memory :
        (b : ℕ)
        → Apart (add32 w.amx.data_ptr w.amx.hea) b
        → Apart (add32 w.amx.data_ptr (add32 w.amx.hea 4)) b
        → read32 w'.mem b ≡ read32 w.mem b

  same : (w : World W) → Unharmed w w
  same w = record { machine = refl; host = refl; memory = λ b near far. refl }

  both : (w v u : World W) → Unharmed w v → Unharmed v u → Unharmed w u
  both w v u p q =
      let hea : v.amx.hea ≡ w.amx.hea = ap Amx.hea p.machine in
      let base : v.amx.data_ptr ≡ w.amx.data_ptr = ap Amx.data_ptr p.machine in
      record {
        machine = q.machine ∙ ap (λ (a : Amx). record a { frm = u.amx.frm }) p.machine;
        host = q.host ∙ p.host;
        memory = λ b near far.
            q.memory b (rw (base, hea) near) (rw (base, hea) far) ∙ p.memory b near far;
      }

  call-Unharmed :
      (frm cip : ℕ) (call : AmxCall) (w : World W)
      → IsCell w.amx.hea
      → Unharmed w (frames_of_call frm cip call w).1
  unfolding frames_of_call
  call-Unharmed frm cip call w c =
      let (m, h, mem) = get_amx_stack_trace-machine frm cip max_depth w c in
      record {
        machine = m ∙ ap (λ k. record (w.amx) { frm = k }) (sym (ap Amx.frm m));
        host = h;
        memory = mem;
      }

  branches :
      (w v₁ w₂ v₂ : World W) (b : Bool) (t : CallType) (o : Option (ℕ × List ℕ))
      (x : Option (List ℕ)) (g : List ℕ → Option (List ℕ))
      → Unharmed w v₁
      → Unharmed w w₂
      → Unharmed w v₂
      → let r : Option (List ℕ) × World W = if b then (some [], w) else elim t [
        | native ↦ (x, v₁)
        | public ↦ elim o [ none ↦ (none, w₂) | some (_, line) ↦ (g line, v₂) ]
      ] in
        Unharmed w r.1
  branches w v₁ w₂ v₂ true t o x g p q r = same w
  branches w v₁ w₂ v₂ false native o x g p q r = p
  branches w v₁ w₂ v₂ false public none x g p q r = q
  branches w v₁ w₂ v₂ false public (some l) x g p q r = r

  print_calls-Unharmed :
      (s : Surroundings) (level frm cip : ℕ) (calls : AmxCallStack) (w : World W)
      → IsCell w.amx.hea
      → Unharmed w (print_calls s level frm cip calls w).1
  unfolding print_calls
  print_calls-Unharmed s level frm cip [] w c = same w
  print_calls-Unharmed s level frm cip (call ∷ calls) w c =
      let one = call-Unharmed frm cip call w c in
      let v = (frames_of_call frm cip call w).1 in
      let c' : IsCell v.amx.hea = rw (ap Amx.hea one.machine) c in
      let printed = print_public s level (frames_of_call frm cip call w).0 v in
      let below = print_calls s (next_level level printed) call.frm call.cip calls v in
      branches w _ v below.1 (cip == 0) call.type printed _ (λ line. prepend line below.0)
        (print_calls-Unharmed s (level + 1) frm cip calls w c) one
        (both w v below.1 one (print_calls-Unharmed s _ call.frm call.cip calls v c'))

  -- `PrintAMXBacktrace` leaves the machine as it was but for the frame register, the host's state, and
  -- the memory but for the two cells behind the heap.
  pub print_amx_backtrace-Unharmed :
      (s : Surroundings) (calls : AmxCallStack) (w : World W)
      → IsCell w.amx.hea
      → Unharmed w (print_amx_backtrace s calls w).1
  unfolding print_amx_backtrace
  print_amx_backtrace-Unharmed s [] w c = same w
  print_amx_backtrace-Unharmed s (call ∷ calls) w c = printed (w.amx.cip == 0) _
    where
      v : World W
      v = (print_calls s 0 w.amx.frm w.amx.cip (call ∷ calls) w).1

      printed :
          (b : Bool) (x : Option (List ℕ))
          → let r : Option (List ℕ) × World W = if b then (some [], w) else (x, v) in Unharmed w r.1
      printed true x = same w
      printed false x = print_calls-Unharmed s 0 w.amx.frm w.amx.cip (call ∷ calls) w c

  pub get_amx_stack_trace-host :
      (frm cip depth : ℕ) (w : World W) → (get_amx_stack_trace frm cip depth w).1.host ≡ w.host
  unfolding get_amx_stack_trace with_fake_frame push_stack
  get_amx_stack_trace-host frm cip depth w = ground arith

  if-host :
      (h : W) (b : Bool) (t : CallType) (o : Option (ℕ × List ℕ)) (w v₁ w₂ v₂ : World W)
      (x : Option (List ℕ)) (g : List ℕ → Option (List ℕ))
      → w.host ≡ h
      → v₁.host ≡ h
      → w₂.host ≡ h
      → v₂.host ≡ h
      → let r : Option (List ℕ) × World W = if b then (some [], w) else elim t [
        | native ↦ (x, v₁)
        | public ↦ elim o [ none ↦ (none, w₂) | some (_, line) ↦ (g line, v₂) ]
      ] in
        r.1.host ≡ h
  if-host h true t o w v₁ w₂ v₂ x g a p q r = a
  if-host h false native o w v₁ w₂ v₂ x g a p q r = p
  if-host h false public none w v₁ w₂ v₂ x g a p q r = q
  if-host h false public (some l) w v₁ w₂ v₂ x g a p q r = r

  print_calls-host :
      (s : Surroundings) (level frm cip : ℕ) (calls : AmxCallStack) (w : World W)
      → (print_calls s level frm cip calls w).1.host ≡ w.host
  unfolding print_calls frames_of_call
  print_calls-host s level frm cip [] w = refl
  print_calls-host s level frm cip (call ∷ calls) w =
      let (frames, v) = frames_of_call frm cip call w in
      let same_host : v.host ≡ w.host = get_amx_stack_trace-host frm cip max_depth w in
      let printed = print_public s level frames v in
      let below = print_calls s (next_level level printed) call.frm call.cip calls v in
      if-host w.host (cip == 0) call.type printed w _ v below.1 _ (λ line. prepend line below.0)
        refl (print_calls-host s (level + 1) frm cip calls w) same_host
        (print_calls-host s _ call.frm call.cip calls v ∙ same_host)

  -- `PrintAMXBacktrace` leaves the host's state as it was, wherever the heap's pointer is.
  pub print_amx_backtrace-host :
      (s : Surroundings) (calls : AmxCallStack) (w : World W)
      → (print_amx_backtrace s calls w).1.host ≡ w.host
  unfolding print_amx_backtrace
  print_amx_backtrace-host s [] w = refl
  print_amx_backtrace-host s (call ∷ calls) w =
      printed (w.amx.cip == 0) _ _ (print_calls-host s 0 w.amx.frm w.amx.cip (call ∷ calls) w)
    where
      printed :
          (b : Bool) (x : Option (List ℕ)) (v : World W)
          → v.host ≡ w.host
          → let r : Option (List ℕ) × World W = if b then (some [], w) else (x, v) in
            r.1.host ≡ w.host
      printed true x v h = refl
      printed false x v h = h
