-- ===== src/Amx/State.antt =====
-- The AMX structure (src/amx/amx.h), with what the interpreter reads of the program's header, and
-- the state that the interpreter, the API and the plugin hand to one another.
use samp_plugin_crashdetect.Prelude.{ℕ, Bool, List, Option}
use samp_plugin_crashdetect.Amx.Memory.{Mem}

-- An entry of the public or native table (`AMX_FUNCSTUBNT`): a name, as bytes, and an address.
pub record Stub : Type 0 where
  pub name : List ℕ
  pub address : ℕ

-- What `AMX_HEADER` says, its tables as lists: `NUMENTRIES` is their length.

pub record Header : Type 0 where
  pub cod : ℕ
  pub dat : ℕ
  pub entry : ℕ
  pub stp : ℕ
  pub publics : List Stub
  pub natives : List Stub

-- `AMX`. `code` and `data` are the addresses of the two sections; `callback` and `debug` say whether
-- the function pointers are set; a user-data slot is its tag and its pointer.
pub record Amx : Type 0 where
  pub header : Header
  pub code : ℕ
  pub data_ptr : ℕ
  pub callback : Bool
  pub debug : Bool
  pub cip : ℕ
  pub frm : ℕ
  pub hea : ℕ
  pub hlw : ℕ
  pub stk : ℕ
  pub stp : ℕ
  pub flags : ℕ
  pub user_data : List (ℕ × ℕ)
  pub error : ℕ
  pub paramcount : ℕ
  pub pri : ℕ
  pub alt : ℕ
  pub reset_stk : ℕ
  pub reset_hea : ℕ
  pub sysreq_d : ℕ

-- One machine, the memory, the cell behind `retval` (`none` for a null pointer), and the host's
-- own state `W`: whatever native functions and hooks can change besides.
pub record World (W : Type 0) : Type 0 where
  pub amx : Amx
  pub mem : Mem
  pub retval : Option ℕ
  pub long_call_delay : ℕ
  pub host : W
