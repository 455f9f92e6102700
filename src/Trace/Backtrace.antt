-- ===== src/Trace/Backtrace.antt =====
-- `PrintAMXBacktrace` (src/crashdetect.cpp, lines 421 to 491), on the bytes that it prints.
pub mod State
use samp_plugin_crashdetect.Prelude.{
  ℕ, zero, suc, ◌+◌, Bool, true, false, ◌==◌, if◌then◌else◌, List, [], ◌∷◌, ◌++◌, Option, none,
  some, codes,
}
use samp_plugin_crashdetect.Amx.Memory.{Mem}
use samp_plugin_crashdetect.Amx.State.{Amx, World}
use samp_plugin_crashdetect.Amx.Ref.{get_native_name, get_native_address, get_public_address}
use samp_plugin_crashdetect.Debug.Table.{AmxDbg, same_name}
use samp_plugin_crashdetect.Files
use samp_plugin_crashdetect.Plugin.CallStack.{AmxCall, AmxCallStack, CallType, public, native}
use samp_plugin_crashdetect.Trace.Frame.{AmxStackFrame, frame_with}
use samp_plugin_crashdetect.Trace.Walk.{get_amx_stack_trace, collect_frames}
use samp_plugin_crashdetect.Trace.Numerals.{decimal}
use samp_plugin_crashdetect.Trace.Printer.Arguments.{print_frame}

-- What the backtrace takes from elsewhere: the debug information and the name of the machine, the name
-- of the module at an address (`os::GetModuleName`), and the printing of floats.
pub record Surroundings : Type 0 where
  pub loaded : Option AmxDbg
  pub amx_name : List ℕ
  pub module_name : ℕ → List ℕ
  pub float : ℕ → List ℕ

-- `frames.back().set_caller_address(entry_point)`
unfoldable pub set_last_caller : ℕ → List AmxStackFrame → List AmxStackFrame
set_last_caller entry_point [] = []
set_last_caller entry_point (f ∷ []) = record f { caller_address = entry_point } ∷ []
set_last_caller entry_point (f ∷ g ∷ fs) = f ∷ set_last_caller entry_point (g ∷ fs)

-- the frames of a public function, the fake one if there is none
unfoldable pub public_frames : Amx → ℕ → ℕ → List AmxStackFrame → List AmxStackFrame
unfolding frame_with set_last_caller
public_frames a frm entry_point [] = frame_with a frm 0 0 entry_point ∷ []
public_frames a frm entry_point (f ∷ fs) = set_last_caller entry_point (f ∷ fs)

-- "\n#" and the level
unfoldable pub print_level : ℕ → List ℕ
unfolding decimal
print_level level = 10 ∷ (35 ∷ decimal 10 level)

unfoldable pub print_native : Surroundings → ℕ → Amx → ℕ → List ℕ
unfolding print_level get_native_name get_native_address same_name Files.get_file_name
print_native s level a index =
    let module_name = s.module_name (get_native_address index a) in
    print_level level
    ++ (codes " native "
        ++ (elim (get_native_name index a) [ some name ↦ name | none ↦ codes "<unknown>" ]
            ++ (codes " ()"
                ++ (if same_name module_name []
                    then []
                    else codes " in " ++ Files.get_file_name module_name))))

-- The loop that prints the frames: the level behind them, and what is printed
unfoldable pub print_frames :
    Surroundings → Amx → Mem → ℕ → List AmxStackFrame → Option (ℕ × List ℕ)
unfolding print_level print_frame
print_frames s a m level [] = some (level, [])
print_frames s a m level (f ∷ fs) =
    let place : List ℕ = elim s.loaded [ none ↦ codes " in " ++ s.amx_name | some _ ↦ [] ] in
    elim (print_frame s.float a m s.loaded f) [
      | none ↦ none
      | some line ↦ elim (print_frames s a m (level + 1) fs) [
        | none ↦ none
        | some (level', rest) ↦
            some (level', print_level level ++ (codes " " ++ (line ++ (place ++ rest))))
      ]
    ]

-- The depth of the walk, and fuel for it
abbrev pub max_depth : ℕ
max_depth = 100

-- the frames of a public call, the machine left by `GetAMXStackTrace`
unfoldable pub frames_of_call :
    {W : Type 0} → ℕ → ℕ → AmxCall → World W → Option (List AmxStackFrame) × World W
unfolding get_amx_stack_trace collect_frames public_frames get_public_address
frames_of_call frm cip call w =
    let (trace, w') = get_amx_stack_trace frm cip max_depth w in
    (
      elim (collect_frames (max_depth + 2) w'.amx w'.mem trace) [
        | none ↦ none
        | some fs ↦ some (public_frames w'.amx frm (get_public_address call.index w'.amx) fs)
      ],
      w',
    )

-- what is printed of them, and the level behind them
unfoldable pub print_public :
    {W : Type 0} → Surroundings → ℕ → Option (List AmxStackFrame) → World W → Option (ℕ × List ℕ)
unfolding print_frames
print_public s level none w = none
print_public s level (some fs) w = print_frames s w.amx w.mem level fs

unfoldable pub next_level : ℕ → Option (ℕ × List ℕ) → ℕ
next_level level none = level
next_level level (some (n, _)) = n

unfoldable pub prepend : List ℕ → Option (List ℕ) → Option (List ℕ)
prepend text none = none
prepend text (some rest) = some (text ++ rest)

-- The loop over the calls, at a frame and an address. `amx` is the machine of the topmost call
-- throughout, so that the test `amx == top_amx` always holds.
unfoldable pub print_calls :
    {W : Type 0} → Surroundings → ℕ → ℕ → ℕ → AmxCallStack → World W → Option (List ℕ) × World W
unfolding print_native print_public next_level prepend frames_of_call
print_calls s level frm cip [] w = (some [], w)
print_calls s level frm cip (call ∷ calls) w =
    let (frames, w') = frames_of_call frm cip call w in
    let printed = print_public s level frames w' in
    let after_native = print_calls s (level + 1) frm cip calls w in
    let after_public = print_calls s (next_level level printed) call.frm call.cip calls w' in
    if cip == 0 then (some [], w) else elim call.type [
      | native ↦ (prepend (print_native s level w.amx call.index) after_native.0, after_native.1)
      | public ↦ elim printed [
        | none ↦ (none, w')
        | some (_, line) ↦ (prepend line after_public.0, after_public.1)
      ]
    ]

-- `PrintAMXBacktrace`, with the machine of the topmost call
unfoldable pub print_amx_backtrace :
    {W : Type 0} → Surroundings → AmxCallStack → World W → Option (List ℕ) × World W
unfolding print_calls prepend
print_amx_backtrace s [] w = (some [], w)
print_amx_backtrace s (call ∷ calls) w =
    let (out, w') = print_calls s 0 w.amx.frm w.amx.cip (call ∷ calls) w in
    if w.amx.cip == 0 then (some [], w) else (prepend (codes "AMX backtrace:") out, w')
