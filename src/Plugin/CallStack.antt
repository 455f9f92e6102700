-- ===== src/Plugin/CallStack.antt =====
-- The stack of the calls that are active in any machine (src/amxcallstack.cpp and
-- src/amxcallstack.h). An `AMXRef` is the address of its machine, `std::stack` a list.
use samp_plugin_crashdetect.Prelude.{ℕ, Bool, true, false, Option, none, some, List, [], ◌∷◌}
use samp_plugin_crashdetect.Amx.State.{Amx}

-- `AMXCall::Type`
pub data CallType : Type 0 where
  public : CallType
  native : CallType

pub record AmxCall : Type 0 where
  pub amx : ℕ
  pub type : CallType
  pub frm : ℕ
  pub cip : ℕ
  pub index : ℕ

-- `AMXCall::Public` and `AMXCall::Native`: the call remembers where its machine stands.
unfoldable pub public_call : ℕ → Amx → ℕ → AmxCall
public_call amx a index = record {
  amx = amx;
  type = public;
  frm = a.frm;
  cip = a.cip;
  index = index;
}

unfoldable pub native_call : ℕ → Amx → ℕ → AmxCall
native_call amx a index = record {
  amx = amx;
  type = native;
  frm = a.frm;
  cip = a.cip;
  index = index;
}

abbrev pub AmxCallStack : Type 0
AmxCallStack = List AmxCall

unfoldable pub is_empty : AmxCallStack → Bool
is_empty [] = true
is_empty (call ∷ calls) = false

abbrev pub push : AmxCall → AmxCallStack → AmxCallStack
push call calls = call ∷ calls

-- `none` where the stack is empty, which `Pop` asserts that it is not.
unfoldable pub pop : AmxCallStack → Option (AmxCall × AmxCallStack)
pop [] = none
pop (call ∷ calls) = some (call, calls)
