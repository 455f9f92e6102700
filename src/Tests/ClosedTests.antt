-- ===== src/Tests/ClosedTests.antt =====
-- The theorems on the handlers and the interpreter together, and on stores under the plugin's hooks, applied.
use samp_plugin_crashdetect.Prelude.{ap, refl, none, true, if◌then◌else◌, arith}
use samp_plugin_crashdetect.Amx.Memory.{read8, read32}
use samp_plugin_crashdetect.Amx.Error.{err_address_0}
use samp_plugin_crashdetect.Vm.Opcode
use samp_plugin_crashdetect.Vm.Machine.{Activation}
use samp_plugin_crashdetect.Vm.Store.{exec_store}
use samp_plugin_crashdetect.Vm.Naught.{AbortsWith, Answers, banned_store}
use samp_plugin_crashdetect.Plugin.Handler.{Plugin, CrashDetect, on_exec, on_address_naught_request}
use samp_plugin_crashdetect.Plugin.Handler.Errors.{After, SameCalls}
use samp_plugin_crashdetect.Plugin.Closed.{Outside, host_at, machine_hooks}
use samp_plugin_crashdetect.Plugin.Closed.Wiring.{OutsideKeeps}
use samp_plugin_crashdetect.Plugin.Closed.Balance.{on_exec_at-SameCalls}
use samp_plugin_crashdetect.Plugin.Closed.Depth.{Ends, Quiet, On, on_exec_at-Ends}
use samp_plugin_crashdetect.Tests.PluginTests.{scripted, bare}
use samp_plugin_crashdetect.Tests.Samples.{regs}

-- Natives and callbacks that do nothing, and no debug hook
abbrev outside : Outside
outside = record {
  self = 1;
  surroundings = bare;
  trace_flags = 2;
  trace_filter = λ text. true;
  clock = λ w. 10;
  prev_callback = λ i p w. (0, p, w);
  prev_debug = none;
  native = λ a w. (0, w);
  memcmp = λ m a b n. 0;
  garbage = 0;
}

outside_keeps : (P : CrashDetect → Type 0) → OutsideKeeps P outside
outside_keeps P = record {
  callback_stays = λ i v w h. h;
  native_stays = λ a w h. h;
  debug_stays = λ d e w h. cc;
}

-- All of the code section is 0.
on_exec_at-SameCalls_example :
    After (SameCalls (scripted 4000)) (on_exec 2 (host_at 3 5 outside) 0 (scripted 4000))
on_exec_at-SameCalls_example =
    on_exec_at-SameCalls 3 5 outside 0 (scripted 4000) (λ calls. outside_keeps _)

on_exec_at-Ends_example : Ends Quiet (on_exec 2 (host_at 2 5 outside) 0 (scripted 4000))
unfolding On
on_exec_at-Ends_example =
    on_exec_at-Ends 0 5 outside 0 (scripted 4000) (λ Q. outside_keeps (On Q)) refl

-- The plugin's hooks, in a server with address naught detection
abbrev watched : Activation CrashDetect
watched = record {
  hooks = machine_hooks outside (host_at 0 0 outside);
  ext_hooks = true;
  index = 0;
  reset_stk = 4000;
  reset_hea = 256;
}

abbrev detecting : Plugin
detecting = record (scripted 4000) {
  host = record ((scripted 4000).host) { address_naught = true };
}

watched-Answers : Answers watched detecting 1
unfolding machine_hooks on_address_naught_request
watched-Answers =
    (refl, λ v same. ap (λ (host : CrashDetect). ((if host.address_naught then 1 else 0), v)) same)

banned_store_example :
    AbortsWith watched err_address_0 detecting
      (exec_store Opcode.StoreOp.stor_pri watched regs detecting)
unfolding read32 read8
banned_store_example =
    banned_store Opcode.StoreOp.stor_pri watched regs detecting 1 watched-Answers (omega arith) refl
      (λ h. cc)
