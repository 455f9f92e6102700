-- ===== src/Trace/Walk/Chain.antt =====
-- The walk and the calls on the stack (src/amxstacktrace.cpp, lines 63 to 180).
use samp_plugin_crashdetect.Prelude.{
  ℕ, zero, suc, ◌+◌, ◌≤◌, ◌<◌, ◌≡◌, ◌≢◌, refl, ap, ◌∙◌, arith, true, false, Bool-cases, inl, inr,
  ltb, ◌==◌, List, [], ◌∷◌, map, some, length,
}
use samp_plugin_crashdetect.Amx.Memory.{Mem}
use samp_plugin_crashdetect.Amx.State.{Amx}
use samp_plugin_crashdetect.Trace.Frame.{
  AmxStackFrame, is_stack_address, stack_frame, get_previous, get_return_address,
  get_return_address_safe, get_previous_frame, get_previous_frame_safe, get_caller_address,
}
use samp_plugin_crashdetect.Trace.Walk.{AmxStackTrace, move_next, collect_frames}

-- The calls that are active at a frame: its address and where it returns to, then the caller's, down to
-- the frame of the public function, which returns to 0.
pub data CallChain (a : Amx) (m : Mem) : ℕ → List (ℕ × ℕ) → Type 0 where
  outermost :
      {f : ℕ} → is_stack_address a f ≡ true → get_return_address a m f ≡ 0 → CallChain a m f []
  inner :
      {f : ℕ} {calls : List (ℕ × ℕ)}
      → is_stack_address a f ≡ true
      → f ≢ 0
      → get_return_address a m f ≢ 0
      → CallChain a m (get_previous_frame a m f) calls
      → CallChain a m f ((f, get_return_address a m f) ∷ calls)

-- what a frame says of its call
abbrev pub view : AmxStackFrame → ℕ × ℕ
view f = (f.address, f.return_address)

-- A frame's caller is the callee of the frame before it.
caller-callee :
    (a : Amx) (m : Mem) (f : ℕ)
    → (stack_frame a m f).return_address ≢ 0
    → (stack_frame a m f).caller_address ≡ (get_previous a m (stack_frame a m f)).callee_address
unfolding stack_frame get_previous get_caller_address get_return_address_safe
caller-callee a m f h = ground (arith, h)

outermost-return :
    (a : Amx) (m : Mem) (f : ℕ)
    → get_return_address a m f ≡ 0
    → (stack_frame a m f).return_address ≡ 0
unfolding stack_frame get_return_address_safe
outermost-return a m f h = ground (arith, h)

pub view-stack_frame :
    (a : Amx) (m : Mem) (f : ℕ)
    → is_stack_address a f ≡ true
    → f ≢ 0
    → view (stack_frame a m f) ≡ (f, get_return_address a m f)
unfolding stack_frame get_return_address_safe
view-stack_frame a m f s z = ground (arith, s, z)

previous-stack_frame :
    (a : Amx) (m : Mem) (f : ℕ)
    → is_stack_address a f ≡ true
    → f ≢ 0
    → get_previous a m (stack_frame a m f) ≡ stack_frame a m (get_previous_frame a m f)
unfolding get_previous get_previous_frame_safe
previous-stack_frame a m f s z =
    let at : (stack_frame a m f).address ≡ f = ap (λ p. p.0) (view-stack_frame a m f s z) in
    rw (at, s) refl

length-nil : (xs : List (ℕ × ℕ)) → length xs ≡ 0 → xs ≡ []
length-nil [] h = refl
length-nil (x ∷ xs) h = absurd (omega arith)

-- If the stack holds the frames of these calls, then the walk from the innermost frame collects exactly
-- these, with their addresses and return addresses, in order, provided that they are no more than it may
-- visit and the fuel is more than their number.
pub collect_frames-CallChain :
    (fuel : ℕ) (a : Amx) (m : Mem) (f : ℕ) (calls : List (ℕ × ℕ)) (t : AmxStackTrace)
    → CallChain a m f calls
    → t.current_frame ≡ stack_frame a m f
    → t.frame_index + length calls ≤ t.max_depth + 1
    → length calls < fuel
    → (fs : List AmxStackFrame) × (collect_frames fuel a m t ≡ some fs) × (map view fs ≡ calls)
unfolding collect_frames move_next
collect_frames-CallChain (suc fuel) a m f _ t (outermost s r) e k n =
    let ret : t.current_frame.return_address ≡ 0 =
      ap (λ x. x.return_address) e ∙ outermost-return a m f r in
    ([], ground (arith, ret), refl)
collect_frames-CallChain (suc fuel) a m f _ t (inner {calls} s z r chain) e k n =
    let seen : view t.current_frame ≡ (f, get_return_address a m f) =
      ap view e ∙ view-stack_frame a m f s z in
    let ret : (t.current_frame.return_address == 0) ≡ false =
      ground (arith, ap (λ p. p.1) seen, r) in
    elim (Bool-cases (ltb t.frame_index t.max_depth)) [
      | inl more ↦
          let next : AmxStackTrace = record t {
            current_frame = get_previous a m t.current_frame;
            frame_index = t.frame_index + 1;
          } in
          let (fs, c, v) =
            collect_frames-CallChain fuel a m (get_previous_frame a m f) calls next chain
              (ap (get_previous a m) e ∙ previous-stack_frame a m f s z) (ground (arith, more))
              (omega arith) in
          (t.current_frame ∷ fs, rw (ret, more, c) refl, rw (v, seen) refl)
      | inr last ↦
          let none_left : calls ≡ [] = length-nil calls (ground (arith, last)) in
          (t.current_frame ∷ [], rw (ret, last) refl, rw (none_left, seen) refl)
    ]
collect_frames-CallChain zero a m f calls t c e k n = absurd (omega arith)
