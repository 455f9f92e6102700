-- ===== src/Vm/Cases.antt =====
-- SWITCH against a look-up in the case table read as a list (src/amx/amx.c, lines 3732 to 3743).
use samp_plugin_crashdetect.Prelude.{
  ℕ, zero, suc, ◌≡◌, refl, false, ◌==◌, if◌then◌else◌, arith, Option, none, some, List, [], ◌∷◌,
  add32, is_neg,
}
use samp_plugin_crashdetect.Amx.Memory.{Mem, read32}
use samp_plugin_crashdetect.Vm.Jump.{find_case, switch_target}

-- The records of a table: a value and the address to go on at.
abbrev pub case_records : ℕ → Mem → ℕ → List (ℕ × ℕ)
case_records zero m p = []
case_records (suc n) m p = (read32 m p, read32 m (add32 p 4)) ∷ case_records n m (add32 p 8)

abbrev pub lookup_case : ℕ → List (ℕ × ℕ) → Option ℕ
lookup_case v [] = none
lookup_case v ((x, a) ∷ cs) = if x == v then some a else lookup_case v cs

abbrev pub case_or : ℕ → Option ℕ → ℕ
case_or d none = d
case_or d (some a) = a

find_case_lem :
    (n : ℕ) (m : Mem) (p v d : ℕ)
    → (let (num, found) = find_case n m p v in if num == 0 then d else read32 m (add32 found 4))
      ≡ case_or d (lookup_case v (case_records n m p))
unfolding find_case
find_case_lem zero m p v d = refl
find_case_lem (suc n) m p v d = ground (arith, find_case_lem n m (add32 p 8) v d)

-- With a table whose count is not negative, SWITCH goes on at the address of the first record for the
-- value in `pri`, or at the default address if no record has it.
pub switch_target_lem :
    (m : Mem) (cip pri : ℕ)
    → is_neg (read32 m (add32 (read32 m cip) 4)) ≡ false
    → (switch_target m cip pri).1 ≡ (
        let table = add32 (read32 m cip) 4 in
        case_or
          (read32 m (add32 table 4))
          (lookup_case pri (case_records (read32 m table) m (add32 table 8))))
unfolding switch_target
switch_target_lem m cip pri h =
    let table = add32 (read32 m cip) 4 in
    ground
      (arith, h, find_case_lem (read32 m table) m (add32 table 8) pri (read32 m (add32 table 4)))
