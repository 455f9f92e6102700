-- ===== src/Amx/Stack/Allot.antt =====
-- When the heap has room (src/amx/amx.c, lines 3848 to 3868).
use samp_plugin_crashdetect.Prelude.{
  ℕ, ◌+◌, ◌*◌, ◌<◌, ◌≤◌, ◌≡◌, ◌↔◌, ◌⊎◌, arith, sign_bit, word_mod,
}
use samp_plugin_crashdetect.Amx.Error.{err_none}
use samp_plugin_crashdetect.Amx.State.{World}
use samp_plugin_crashdetect.Amx.Stack.{amx_allot}

-- The stack lies above the heap, both in the lower half of the address space, and the size asked for is
-- at most 64 bytes below 2 ^ 32. Then `amx_Allot` succeeds exactly when the cells and the margin fit
-- between heap and stack, or the cells alone are more than the whole space there.
pub amx_allot_iff :
    {W : Type 0} (cells : ℕ) (w : World W)
    → w.amx.hea ≤ w.amx.stk
    → w.amx.stk < sign_bit
    → 4 * cells + 64 ≤ word_mod
    → ((amx_allot cells w).0 ≡ err_none)
      ↔ ((w.amx.hea + 4 * cells + 64 ≤ w.amx.stk) ⊎ (w.amx.stk < w.amx.hea + 4 * cells))
unfolding amx_allot
amx_allot_iff cells w h₁ h₂ h₃ = ground arith
