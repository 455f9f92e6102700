-- ===== src/Vm/Fuel.antt =====
-- The interpreter's loop and its fuel (src/amx/amx.c, lines 2950 to 2957).
use Prim.Native.Nat.add
use samp_plugin_crashdetect.Prelude.{ℕ, zero, suc, ◌+◌, ◌≡◌, refl}
use samp_plugin_crashdetect.Amx.State.{World}
use samp_plugin_crashdetect.Vm.Machine.{Regs, Activation, Next, running, stopped, trap}
use samp_plugin_crashdetect.Vm.Step.{step, run}

module _ {W : Type 0} where
  -- What happens after `n` depends on the machine's state only when `n` goes on.
  abbrev pub continue : ℕ → Activation W → Next W → Next W
  continue fuel c n = elim n [
    | running r w ↦ run fuel c r w
    | stopped err w ↦ stopped err w
    | trap ↦ trap
  ]

  -- Running for `m` instructions and then for `n` more is running for `m + n`: more fuel continues a
  -- run that is unfinished, and changes nothing about a run that has stopped or trapped.
  run-add :
      (m n : ℕ) (c : Activation W) (r : Regs) (w : World W)
      → run (m + n) c r w ≡ continue n c (run m c r w)
  unfolding run
  run-add zero n c r w = rw add.zero
  run-add (suc m) n c r w = rw add.suc (after (step c r w) (run-add m n c))
    where
      after :
          (next : Next W)
          → ((r' : Regs) (w' : World W) → run (m + n) c r' w' ≡ continue n c (run m c r' w'))
          → continue (m + n) c next ≡ continue n c (continue m c next)
      after (running r' w') ih = ih r' w'
      after (stopped err w') ih = refl
      after trap ih = refl
