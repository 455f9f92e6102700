-- ===== src/Tests/TraceTests.antt =====
-- The theorems on stack traces, applied.
use samp_plugin_crashdetect.Prelude.{
  ℕ, ◌+◌, ◌-◌, ◌≡◌, refl, arith, none, some, List, [], ◌∷◌, codes, sub32, ltb, map,
}
use samp_plugin_crashdetect.Amx.Memory.{Mem, read8, read32, write8, write32}
use samp_plugin_crashdetect.Amx.State.{World}
use samp_plugin_crashdetect.Amx.Ref.{check_stack}
use samp_plugin_crashdetect.Vm.StackOps.{exec_stack}
use samp_plugin_crashdetect.Vm.Machine.{Regs, chkmargin}
use samp_plugin_crashdetect.Plugin.CallStack
use samp_plugin_crashdetect.Plugin.CallStack.{AmxCall}
use samp_plugin_crashdetect.Trace.Frame.{
  AmxStackFrame, is_stack_address, is_code_address, is_data_address, stack_frame,
  get_return_address, get_previous_frame, data_cell,
}
use samp_plugin_crashdetect.Trace.Walk.{
  AmxStackTrace, has_room, with_fake_frame, push_stack, get_amx_stack_trace, collect_frames,
}
use samp_plugin_crashdetect.Trace.Walk.Collected.{Collected, collect_frames-Collected}
use samp_plugin_crashdetect.Trace.Walk.Chain.{inner, outermost, view}
use samp_plugin_crashdetect.Trace.Walk.Restored.{get_amx_stack_trace-CallChain}
use samp_plugin_crashdetect.Trace.Calls.{frame_of_call}
use samp_plugin_crashdetect.Trace.Contents.{get_string_contents, unpacked_max}
use samp_plugin_crashdetect.Trace.Contents.Texts.{Longest, place, get_string_contents-Longest}
use samp_plugin_crashdetect.Trace.Backtrace.{Surroundings, print_amx_backtrace}
use samp_plugin_crashdetect.Trace.Backtrace.State.{Unharmed, print_amx_backtrace-Unharmed}
use samp_plugin_crashdetect.Tests.Samples.{machine, blank, idle, activation, regs}

-- A trace over a frame that is its own caller's
abbrev looping : AmxStackTrace
looping = record {
  current_frame = record {
    address = 3000;
    return_address = 8;
    callee_address = 0;
    caller_address = 0;
  };
  max_depth = 100;
  frame_index = 0;
}

collect_frames-Collected_example :
    Collected
      (100 - 0 + 1)
      (collect_frames 102 machine (write32 (write32 blank 11192 3000) 11196 8) looping)
collect_frames-Collected_example =
    collect_frames-Collected 102 machine (write32 (write32 blank 11192 3000) 11196 8) looping
      (omega arith) (omega arith)

-- A function at the frame 3000 that returns to 40, called by a public function at the frame 3100
abbrev called_once : World ℕ
called_once = record idle {
  amx = record machine { stk = 2900; frm = 3000; cip = 16 };
  mem = write32 (write32 blank 11192 3100) 11196 40;
}

get_amx_stack_trace-CallChain_example :
    let r = get_amx_stack_trace 3000 16 100 called_once in
    (fs : List AmxStackFrame) × (collect_frames 102 r.1.amx r.1.mem r.0 ≡ some fs)
    × (map view fs ≡ (256, 16) ∷ (3000, 40) ∷ [])
unfolding get_amx_stack_trace with_fake_frame has_room check_stack push_stack get_return_address
    get_previous_frame data_cell is_stack_address read8 read32 write8 write32
get_amx_stack_trace-CallChain_example =
    get_amx_stack_trace-CallChain 3000 16 100 102 called_once ((3000, 40) ∷ []) (omega arith)
      (omega arith) (omega arith) (omega arith) (omega arith) refl refl (omega arith) (omega arith)
      (inner refl (omega arith) (omega arith) (outermost refl refl))

-- The registers behind CALL and PROC, from the sample's
abbrev behind_call : Regs
behind_call = record regs { stk = 2996; cip = 0 }

abbrev behind_proc : Regs
behind_proc = record behind_call { stk = 2992; frm = 2992 }

abbrev after_call : World ℕ
after_call = record idle { mem = write32 blank 11188 8 }

abbrev after_proc : World ℕ
after_proc = record idle { mem = write32 (write32 blank 11188 8) 11184 3100 }

frame_of_call_example :
    let f = stack_frame machine after_proc.mem 2992 in
    (f.address ≡ 2992)
    × (f.return_address ≡ 8)
    × (f.callee_address ≡ sub32 0 4096)
    × (get_previous_frame machine after_proc.mem 2992 ≡ 3100)
unfolding exec_stack chkmargin is_stack_address is_code_address read32 read8 write32 write8
frame_of_call_example =
    frame_of_call activation regs behind_call behind_proc idle after_call after_proc refl refl
      (omega arith) (omega arith) (omega arith) (omega arith) refl (omega arith) refl (omega arith)
      (omega arith)

-- No debug information and no names
abbrev surroundings : Surroundings
surroundings = record {
  loaded = none;
  amx_name = codes "script";
  module_name = λ a. [];
  float = λ v. [];
}

abbrev main_call : AmxCall
main_call = record { amx = 1; type = CallStack.public; frm = 0; cip = 0; index = 0 }

print_amx_backtrace-Unharmed_example :
    Unharmed called_once (print_amx_backtrace surroundings (main_call ∷ []) called_once).1
print_amx_backtrace-Unharmed_example =
    print_amx_backtrace-Unharmed surroundings (main_call ∷ []) called_once (omega arith)

-- "hi", unpacked, at 300
abbrev greeting : Mem
greeting = write32 (write32 blank 8492 104) 8496 105

get_string_contents-Longest_example :
    let (shown, packed) = get_string_contents machine greeting 300 5 in
    (packed ≡ ltb unpacked_max (read32 greeting 8492))
    × Longest (λ i. read8 greeting (place packed 8492 i)) 0 5 shown
unfolding is_data_address
get_string_contents-Longest_example = get_string_contents-Longest machine greeting 300 5 refl
