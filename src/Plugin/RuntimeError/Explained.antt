-- ===== src/Plugin/RuntimeError/Explained.antt =====
-- What the log says of each error, as a table (src/crashdetect.cpp, lines 353 to 411).
use mathlib.Core.List.{filter}
use samp_plugin_crashdetect.Prelude.{
  ℕ, ◌≤◌, ◌<◌, ◌≡◌, ◌≢◌, refl, arith, List, [], ◌∷◌, map, add32, sub32, sign_bit, ℕ_discrete, ◌⊎◌,
  none, some, get_elem?, IsCell,
}
use samp_plugin_crashdetect.Amx.Memory.{Mem, read32}
use samp_plugin_crashdetect.Amx.State.{Amx, Stub}
use samp_plugin_crashdetect.Amx.Ref.{get_native_name}
use samp_plugin_crashdetect.Plugin.Log.{
  LogLine, negative_index, index_beyond, missing_native, stack_and_heap, stack_and_top,
  heap_and_bottom, unknown_opcode, failed_native,
}
use samp_plugin_crashdetect.Plugin.RuntimeError.{explanation, unregistered, relocate_amx_opcode}

-- The cell of code that is `k` bytes behind the machine's instruction pointer, and the one before it
abbrev pub code_behind : Amx → Mem → ℕ → ℕ
code_behind a m k = read32 m (add32 (add32 a.code a.cip) k)

abbrev pub code_before : Amx → Mem → ℕ → ℕ
code_before a m k = read32 m (sub32 (add32 a.code a.cip) k)

-- The lines for an error, by its number. 121 and 123 are the opcodes BOUNDS and SYSREQ.C.
pub record Explains (error : ℕ) (a : Amx) (m : Mem) (lines : List LogLine) : Type 0 where
  pub collision : error ≡ 3 → lines ≡ stack_and_heap a.stk a.hea ∷ []
  pub negative :
      error ≡ 4 → code_behind a m 0 ≡ 121 → sign_bit ≤ a.pri → lines ≡ negative_index a.pri ∷ []
  pub beyond :
      error ≡ 4
      → code_behind a m 0 ≡ 121
      → a.pri < sign_bit
      → lines ≡ index_beyond a.pri (add32 (code_behind a m 4) 1) ∷ []
  pub elsewhere : error ≡ 4 → code_behind a m 0 ≢ 121 → lines ≡ []
  pub instruction : error ≡ 6 → lines ≡ unknown_opcode (code_behind a m 0) a.cip ∷ []
  pub stack_low : error ≡ 7 → lines ≡ stack_and_top a.stk a.stp ∷ []
  pub heap_low : error ≡ 8 → lines ≡ heap_and_bottom a.hea a.hlw ∷ []
  pub native :
      error ≡ 10
      → code_before a m 8 ≡ 123
      → lines
        ≡ failed_native (elim (get_elem? a.header.natives (code_before a m 4)) [
          | none ↦ none
          | some f ↦ some f.name
        ])
          ∷ []
  pub native_otherwise : error ≡ 10 → code_before a m 8 ≢ 123 → lines ≡ []
  pub missing :
      error ≡ 19
      → lines
        ≡ map
            (λ f. missing_native (Stub.name f))
            (filter (λ f. ℕ_discrete (Stub.address f) 0) a.header.natives)
  pub unexplained :
      (error < 3) ⊎ ((error ≡ 5) ⊎ ((error ≡ 9) ⊎ (((10 < error) × (error < 19)) ⊎ (19 < error))))
      → lines ≡ []

unregistered-filter :
    (fs : List Stub)
    → unregistered fs
      ≡ map (λ f. missing_native (Stub.name f)) (filter (λ f. ℕ_discrete (Stub.address f) 0) fs)
unfolding unregistered
unregistered-filter [] = refl
unregistered-filter (f ∷ fs) = ground (arith, unregistered-filter fs)

-- The explanation of an error is as in the table.
pub explanation-Explains :
    (error : ℕ) (a : Amx) (m : Mem) → IsCell a.pri → Explains error a m (explanation error a a m)
unfolding explanation relocate_amx_opcode get_native_name
explanation-Explains error a m cell = record {
  collision = λ e. ground arith;
  negative = λ e op n. ground arith;
  beyond = λ e op n. ground arith;
  elsewhere = λ e op. ground arith;
  instruction = λ e. ground arith;
  stack_low = λ e. ground arith;
  heap_low = λ e. ground arith;
  native = λ e op. ground arith;
  native_otherwise = λ e op. ground arith;
  missing = λ e. ground (arith, unregistered-filter a.header.natives);
  unexplained = λ e. ground arith;
}
