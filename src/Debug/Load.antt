-- ===== src/Debug/Load.antt =====
-- The debug information of a script's file (src/amx/amxdbg.c, lines 56 to 239, and src/amxdebuginfo.cpp,
-- lines 61 to 70), in little-endian byte order and with packed structures. A block is the bytes from the
-- header of the debug information on that have been read; what is read behind its end is undefined.
pub mod Entries
pub mod Block
pub mod Fuel
pub mod Whole
use samp_plugin_crashdetect.Prelude.{
  ℕ, zero, suc, ◌+◌, ◌-◌, ◌*◌, Bool, true, false, ◌==◌, ◌&&◌, ltb, leb, bit_and, is_neg, sub32,
  if◌then◌else◌, List, [], ◌∷◌, Option, none, some, get_elem?, length,
}
use samp_plugin_crashdetect.Amx.Error.{err_none, err_memory, err_format, err_debug}
use samp_plugin_crashdetect.Amx.CellText.{first}
use samp_plugin_crashdetect.Debug.Table.{File, Line, Symbol, SymbolDim, Tag, Machine, State, AmxDbg}

-- A reader takes a value off the bytes in front of it.
abbrev pub Reader : Type 0 → Type 0
Reader A = List ℕ → Option (A × List ℕ)

unfoldable pub read_byte : Reader ℕ
read_byte [] = none
read_byte (c ∷ s) = some (c, s)

unfoldable pub read_u16 : Reader ℕ
read_u16 (a ∷ b ∷ s) = some (a + 256 * b, s)
read_u16 s = none

unfoldable pub read_u32 : Reader ℕ
read_u32 (a ∷ b ∷ c ∷ d ∷ s) = some (a + 256 * b + 65536 * c + 16777216 * d, s)
read_u32 s = none

-- The characters up to a zero, which is skipped
unfoldable pub read_name : Reader (List ℕ)
read_name [] = none
read_name (c ∷ s) =
    let rest = read_name s in
    if c == 0 then some ([], s) else elim rest [ none ↦ none | some (name, t) ↦ some (c ∷ name, t) ]

module _ {A B : Type 0} where
  unfoldable pub and_then : Option (A × List ℕ) → (A → Reader B) → Option (B × List ℕ)
  and_then none f = none
  and_then (some (a, s)) f = f a s

unfoldable pub done : {A : Type 0} → A → Reader A
done a s = some (a, s)

-- A table of so many entries
unfoldable pub read_times : {A : Type 0} → ℕ → Reader A → Reader (List A)
read_times zero r s = some ([], s)
read_times (suc n) r s =
    and_then (r s) (λ a t. and_then (read_times n r t) (λ rest u. done (a ∷ rest) u))

-- The name of a file or a symbol: its first character lies within the structure, and the search for the
-- end begins behind it.
unfoldable pub read_name_behind : Reader (List ℕ)
read_name_behind s =
    and_then (read_byte s)
      (λ c t. and_then (read_name t) (λ name u. done (if c == 0 then [] else c ∷ name) u))

unfoldable pub read_file : Reader File
read_file s = and_then (read_u32 s) (λ address t.
    and_then (read_name_behind t) (λ name u. done (record { address = address; name = name }) u))

unfoldable pub read_line : Reader Line
read_line s = and_then (read_u32 s) (λ address t.
    and_then (read_u32 t) (λ line u. done (record { address = address; line = line }) u))

unfoldable pub read_dim : Reader SymbolDim
read_dim s =
    and_then (read_u16 s)
      (λ tag t. and_then (read_u32 t) (λ size u. done (record { tag = tag; size = size }) u))

unfoldable pub read_symbol : Reader Symbol
read_symbol s = and_then (read_u32 s) (λ address s₁. and_then (read_u16 s₁) (λ tag s₂.
    and_then (read_u32 s₂) (λ codestart s₃. and_then (read_u32 s₃) (λ codeend s₄.
      and_then (read_byte s₄) (λ ident s₅. and_then (read_byte s₅) (λ vclass s₆.
        and_then (read_u16 s₆) (λ dim s₇. and_then (read_name_behind s₇) (λ name s₈.
          and_then (read_times dim read_dim s₈) (λ dims s₉.
            done
              (record {
                address = address;
                tag = tag;
                codestart = codestart;
                codeend = codeend;
                ident = ident;
                vclass = vclass;
                name = name;
                dims = dims;
              })
              s₉)))))))))

unfoldable pub read_tag : Reader Tag
read_tag s =
    and_then (read_u16 s)
      (λ tag t. and_then (read_name t) (λ name u. done (record { tag = tag; name = name }) u))

unfoldable pub read_automaton : Reader Machine
read_automaton s = and_then (read_u16 s) (λ automaton t. and_then (read_u32 t) (λ address u.
    and_then (read_name u)
      (λ name v. done (record { automaton = automaton; address = address; name = name }) v)))

unfoldable pub read_state : Reader State
read_state s = and_then (read_u16 s) (λ state t. and_then (read_u16 t) (λ automaton u.
    and_then (read_name u)
      (λ name v. done (record { state = state; automaton = automaton; name = name }) v)))
