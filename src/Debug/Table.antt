-- ===== src/Debug/Table.antt =====
-- The tables of `AMX_DBG` (src/amx/amxdbg.h, lines 80 to 132) as lists: the counts of the header are
-- their lengths. A name is its bytes; addresses are unsigned cells, a line number the bits of an
-- `int32_t`.
use samp_plugin_crashdetect.Prelude.{
  ℕ, Bool, true, false, ◌==◌, ◌&&◌, List, [], ◌∷◌, Option, none, some, suc, if◌then◌else◌,
}

pub record File : Type 0 where
  pub address : ℕ
  pub name : List ℕ

pub record Line : Type 0 where
  pub address : ℕ
  pub line : ℕ

pub record SymbolDim : Type 0 where
  pub tag : ℕ
  pub size : ℕ

-- The dimensions of an array follow its name in the file.
pub record Symbol : Type 0 where
  pub address : ℕ
  pub tag : ℕ
  pub codestart : ℕ
  pub codeend : ℕ
  pub ident : ℕ
  pub vclass : ℕ
  pub name : List ℕ
  pub dims : List SymbolDim

pub record Tag : Type 0 where
  pub tag : ℕ
  pub name : List ℕ

pub record Machine : Type 0 where
  pub automaton : ℕ
  pub address : ℕ
  pub name : List ℕ

pub record State : Type 0 where
  pub state : ℕ
  pub automaton : ℕ
  pub name : List ℕ

pub record AmxDbg : Type 0 where
  pub filetbl : List File
  pub linetbl : List Line
  pub symboltbl : List Symbol
  pub tagtbl : List Tag
  pub automatontbl : List Machine
  pub statetbl : List State

-- `iFUNCTN`
abbrev pub ident_function : ℕ
ident_function = 9

-- `Variable`, `Reference`, `Array`, `ArrayRef` and `Local`
abbrev pub ident_variable : ℕ
ident_variable = 1

abbrev pub ident_reference : ℕ
ident_reference = 2

abbrev pub ident_array : ℕ
ident_array = 3

abbrev pub ident_array_ref : ℕ
ident_array_ref = 4

abbrev pub vclass_local : ℕ
vclass_local = 1

-- `strcmp(a,b) == 0`
unfoldable pub same_name : List ℕ → List ℕ → Bool
same_name [] [] = true
same_name [] (b ∷ q) = false
same_name (a ∷ p) [] = false
same_name (a ∷ p) (b ∷ q) = (a == b) && same_name p q

module _ {ℓ} {A : Type ℓ} where
  -- `for (index = 0; index < n && p(table[index]); index++)`: where the loop stops
  unfoldable pub scan : (A → Bool) → List A → ℕ
  scan p [] = 0
  scan p (x ∷ xs) = if p x then suc (scan p xs) else 0

  -- The same loop, as the entries from there on.
  unfoldable pub skip_while : (A → Bool) → List A → List A
  skip_while p [] = []
  skip_while p (x ∷ xs) = if p x then skip_while p xs else x ∷ xs

  -- The first entry that a loop from the table's begin finds, and from its end.
  unfoldable pub find : (A → Bool) → List A → Option A
  find p [] = none
  find p (x ∷ xs) = if p x then some x else find p xs

  unfoldable pub find_last : (A → Bool) → List A → Option A
  find_last p [] = none
  find_last p (x ∷ xs) = elim (find_last p xs) [
    | some y ↦ some y
    | none ↦ if p x then some x else none
  ]
