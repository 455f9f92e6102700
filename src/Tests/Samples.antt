-- ===== src/Tests/Samples.antt =====
-- A machine with a data section at 8192 and a code section at 4096, and hooks that do nothing.
use samp_plugin_crashdetect.Prelude.{ℕ, true, false, none, [], ◌∷◌}
use samp_plugin_crashdetect.Amx.Memory.{Mem, write32}
use samp_plugin_crashdetect.Amx.State.{Header, Amx, World}
use samp_plugin_crashdetect.Vm.Machine.{Regs, Hooks, Activation}

abbrev pub header : Header
header = record { cod = 0; dat = 64; entry = 0; stp = 4096; publics = []; natives = [] }

abbrev pub machine : Amx
machine = record {
  header = header;
  code = 4096;
  data_ptr = 8192;
  callback = true;
  debug = false;
  cip = 0;
  frm = 0;
  hea = 256;
  hlw = 256;
  stk = 4000;
  stp = 4096;
  flags = 36864;
  user_data = (0, 0) ∷ (0, 0) ∷ [];
  error = 0;
  paramcount = 0;
  pri = 0;
  alt = 0;
  reset_stk = 0;
  reset_hea = 0;
  sysreq_d = 0;
}

-- All of memory is 0.
abbrev pub blank : Mem
blank a = 0

abbrev pub idle : World ℕ
idle = record { amx = machine; mem = blank; retval = none; long_call_delay = 0; host = 7 }

-- `HALT 0` at the entry point
abbrev pub halting : World ℕ
halting = record idle { mem = write32 blank 4096 120 }

abbrev pub hooks : Hooks ℕ
hooks = record {
  callback = λ i p w. (0, p, w);
  native = λ a w. (0, record w { amx = record (w.amx) { error = 0 } });
  debug = λ w. (0, w);
  exec_error = λ i e w. w;
  long_call_ctl = λ o v w. (0, w);
  address_naught_ctl = λ o w. (1, w);
  memcmp = λ m a b n. 0;
}

abbrev pub activation : Activation ℕ
activation = record {
  hooks = hooks;
  ext_hooks = true;
  index = 0;
  reset_stk = 4000;
  reset_hea = 256;
}

-- As `activation`, with address naught allowed.
abbrev pub lenient : Activation ℕ
lenient = record activation { hooks = record hooks { address_naught_ctl = λ o w. (0, w) } }

-- Behind an opcode at 4096
abbrev pub regs : Regs
regs = record { pri = 5; alt = 0; stk = 3000; frm = 3100; hea = 256; cip = 4100; num = 0 }
