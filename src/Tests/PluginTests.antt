-- ===== src/Tests/PluginTests.antt =====
-- The theorems on the plugin, applied.
use samp_plugin_crashdetect.Prelude.{
  ℕ, ◌+◌, ◌≤◌, ◌≡◌, ◌≢◌, refl, arith, true, false, none, some, List, [], ◌∷◌, ltb, ◌&&◌, codes,
}
use samp_plugin_crashdetect.Amx.Error.{lct_check, err_index, err_stackerr}
use samp_plugin_crashdetect.Amx.Ref.{get_public_index, index_of, check_stack}
use samp_plugin_crashdetect.Debug.Table.{same_name}
use samp_plugin_crashdetect.Plugin.CallStack
use samp_plugin_crashdetect.Plugin.CallStack.{AmxCall, is_empty}
use samp_plugin_crashdetect.Plugin.LongCall
use samp_plugin_crashdetect.Plugin.LongCall.{
  Static, Event, begins, ends, requests, serve, plugin_load, on_long_call_request, long_call_option,
  check_long_call_time, set_long_call_time,
}
use samp_plugin_crashdetect.Plugin.LongCall.Reports.{deadlines, armed, serve-reports}
use samp_plugin_crashdetect.Plugin.LongCall.Deadline.{quiet, check-push}
use samp_plugin_crashdetect.Plugin.Handler.{
  Host, Plugin, returns, on_exec, on_callback, on_exec_error, is_ignored, on_runtime_error,
}
use samp_plugin_crashdetect.Plugin.Handler.Errors.{After, SameCalls, Settled}
use samp_plugin_crashdetect.Plugin.Handler.Balance.{
  on_exec-SameCalls, on_callback-SameCalls, on_exec_error-Settled,
}
use samp_plugin_crashdetect.Plugin.Handler.Depth.{Shallow, on_exec-Shallow}
use samp_plugin_crashdetect.Plugin.Handler.Collision.{on_exec_error_collision}
use samp_plugin_crashdetect.Trace.Backtrace.{Surroundings}
use samp_plugin_crashdetect.Tests.Samples.{machine, blank, header}

abbrev timer : Static
timer = record {
  call_stack = [];
  time = 5;
  time_current = 5;
  time_next = none;
  time_running = true;
}

abbrev a_call : AmxCall
a_call = record { amx = 0; type = CallStack.public; frm = 0; cip = 0; index = 0 }

-- A call with two checks, one of them late, and its end
abbrev events : List Event
events = begins 10 a_call ∷ requests 12 3 0 ∷ requests 30 3 0 ∷ ends ∷ []

abbrev disarmed : Static
disarmed = record timer { time_next = none }

serve-reports_example : 1 ≤ armed timer.time_next + deadlines 0 events
unfolding serve LongCall.push LongCall.pop CallStack.pop is_empty on_long_call_request
    check_long_call_time
serve-reports_example = serve-reports events timer disarmed 1 refl

check-push_example :
    (◌≡◌ {A = ℕ} 0 0)
    × ((on_long_call_request 30 lct_check 0
          (record timer { call_stack = a_call ∷ []; time_current = 0; time_next = some 15 })).1
        ≡ (true && ltb (10 + 5) 30))
unfolding quiet serve LongCall.push is_empty on_long_call_request set_long_call_time
check-push_example =
    check-push 10 30 a_call (requests 12 2 0 ∷ []) timer
      (record timer { call_stack = a_call ∷ []; time_current = 0; time_next = some 15 }) 0 refl
      (omega arith) refl refl

-- A machine whose script has OnRuntimeError, at `stk`
abbrev pub scripted : ℕ → Plugin
scripted stk = record {
  amx = record machine {
    header = record header { publics = record { name = on_runtime_error; address = 0 } ∷ [] };
    stk = stk;
  };
  mem = blank;
  retval = none;
  long_call_delay = 0;
  host = record {
    last_frame = 0;
    block_exec_errors = false;
    address_naught = false;
    static = timer;
    log = [];
    lost = false;
    deep = false;
  };
}

-- A machine without debug information
abbrev pub bare : Surroundings
bare = record {
  loaded = none;
  amx_name = codes "a.amx";
  module_name = λ address. [];
  float = λ cell. [];
}

-- `amx_Exec` fails with AMX_ERR_INDEX, so that OnRuntimeError is called.
abbrev pub host : Host
host = record {
  self = 1;
  surroundings = bare;
  trace_flags = 2;
  trace_filter = λ text. true;
  clock = λ w. 10;
  exec = λ i w. (err_index, w);
  prev_callback = λ i p w. (0, p, w);
  prev_debug = none;
}

on_exec-SameCalls_example : After (SameCalls (scripted 4000)) (on_exec 2 host 0 (scripted 4000))
on_exec-SameCalls_example = on_exec-SameCalls 2 host 0 (scripted 4000) (λ i v. refl)

on_exec_error-Settled_example :
    After
      (Settled (scripted 4000))
      (on_exec_error bare (on_exec 1 host) 0 err_stackerr (scripted 4000))
on_exec_error-Settled_example =
    on_exec_error-Settled 1 host 0 err_stackerr (scripted 4000) refl (λ i v. refl)

on_callback-SameCalls_example :
    After (SameCalls (scripted 4000)) (on_callback host 0 0 (scripted 4000)).1
on_callback-SameCalls_example = on_callback-SameCalls host 0 0 (scripted 4000) (λ i p v. refl)

on_exec-Shallow_example : Shallow (on_exec 2 host 0 (scripted 4000))
on_exec-Shallow_example = on_exec-Shallow host 0 (scripted 4000) (λ i v b. b)

on_exec_error_collision_example :
    on_exec_error bare (on_exec 1 host) 0 err_stackerr (scripted 300) ≢ returns 0 (scripted 300)
unfolding is_ignored get_public_index index_of same_name check_stack
on_exec_error_collision_example =
    on_exec_error_collision bare (on_exec 1 host) 0 err_stackerr 0 0 (scripted 300) (scripted 300)
      refl refl refl refl (omega arith) (omega arith) (omega arith)
