-- ===== src/Trace/Frame.antt =====
-- The frames of a machine's stack (src/amxstacktrace.cpp, lines 41 to 158). An address is a signed cell,
-- a place in the data or code section; `m` is the process's memory.
use samp_plugin_crashdetect.Prelude.{
  ℕ, Bool, ◌==◌, ◌&&◌, not, sle, slt, add32, sub32, if◌then◌else◌,
}
use samp_plugin_crashdetect.Amx.Memory.{Mem, read32}
use samp_plugin_crashdetect.Amx.State.{Amx}

unfoldable pub is_stack_address : Amx → ℕ → Bool
is_stack_address a address = sle a.hlw address && slt address a.stp

unfoldable pub is_data_address : Amx → ℕ → Bool
is_data_address a address = sle 0 address && slt address a.stp

unfoldable pub is_code_address : Amx → ℕ → Bool
is_code_address a address = sle 0 address && slt address (sub32 a.header.dat a.header.cod)

unfoldable pub is_main : Amx → ℕ → Bool
is_main a address = address == a.header.entry

-- a cell of the data section
unfoldable pub data_cell : Amx → Mem → ℕ → ℕ
data_cell a m address = read32 m (add32 a.data_ptr address)

-- a cell of the code section
unfoldable pub code_cell : Amx → Mem → ℕ → ℕ
code_cell a m address = read32 m (add32 a.code address)

unfoldable pub get_return_address : Amx → Mem → ℕ → ℕ
unfolding data_cell
get_return_address a m frame = data_cell a m (add32 frame 4)

unfoldable pub get_return_address_safe : Amx → Mem → ℕ → ℕ
unfolding is_stack_address get_return_address
get_return_address_safe a m frame =
    if is_stack_address a frame then get_return_address a m frame else 0

unfoldable pub get_previous_frame : Amx → Mem → ℕ → ℕ
unfolding data_cell
get_previous_frame a m frame = data_cell a m frame

unfoldable pub get_previous_frame_safe : Amx → Mem → ℕ → ℕ
unfolding is_stack_address get_previous_frame
get_previous_frame_safe a m frame =
    if is_stack_address a frame then get_previous_frame a m frame else 0

-- The parameter of the CALL before the return address, an absolute address once it is relocated
unfoldable pub get_callee_address : Amx → Mem → ℕ → ℕ
unfolding code_cell
get_callee_address a m return_address = sub32 (code_cell a m (sub32 return_address 4)) a.code

unfoldable pub get_callee_address_safe : Amx → Mem → ℕ → ℕ
unfolding is_code_address get_callee_address
get_callee_address_safe a m return_address =
    if is_code_address a return_address then get_callee_address a m return_address else 0

unfoldable pub get_caller_address : Amx → Mem → ℕ → ℕ
unfolding get_previous_frame_safe get_return_address_safe get_callee_address_safe
get_caller_address a m frame =
    let prev_frame = get_previous_frame_safe a m frame in
    let return_address = get_return_address_safe a m prev_frame in
    if not (prev_frame == 0) && not (return_address == 0)
    then get_callee_address_safe a m return_address
    else 0

-- `AMXStackFrame`
pub record AmxStackFrame : Type 0 where
  pub address : ℕ
  pub return_address : ℕ
  pub callee_address : ℕ
  pub caller_address : ℕ

-- The constructor that reads the frame from the stack
unfoldable pub stack_frame : Amx → Mem → ℕ → AmxStackFrame
unfolding is_stack_address get_return_address_safe get_callee_address_safe get_caller_address
stack_frame a m address =
    let address' = if is_stack_address a address then address else 0 in
    let return_address = if address' == 0 then 0 else get_return_address_safe a m address' in
    record {
      address = address';
      return_address = return_address;
      callee_address =
          if return_address == 0 then 0 else get_callee_address_safe a m return_address;
      caller_address = if return_address == 0 then 0 else get_caller_address a m address';
    }

-- The constructor with given addresses
unfoldable pub frame_with : Amx → ℕ → ℕ → ℕ → ℕ → AmxStackFrame
unfolding is_stack_address is_code_address
frame_with a address return_address callee_address caller_address = record {
  address = if is_stack_address a address then address else 0;
  return_address = if is_code_address a return_address then return_address else 0;
  callee_address = if is_code_address a callee_address then callee_address else 0;
  caller_address = if is_code_address a caller_address then caller_address else 0;
}

-- `GetPrevious`
unfoldable pub get_previous : Amx → Mem → AmxStackFrame → AmxStackFrame
unfolding get_previous_frame_safe stack_frame
get_previous a m f = stack_frame a m (get_previous_frame_safe a m f.address)
