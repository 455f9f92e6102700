-- ===== src/Debug/Address.antt =====
-- What the searches for a breakpoint's address find (src/amx/amxdbg.c, lines 350 to 449).
use samp_plugin_crashdetect.Prelude.{
  neg32, ℕ, ◌≡◌, refl, ap, arith, Bool, true, false, not, ◌==◌, ltb, slt, sle, ◌&&◌, ◌||◌,
  if◌then◌else◌, List, [], ◌∷◌, Bool-cases, inl, inr, ◌⊎◌,
}
use samp_plugin_crashdetect.Amx.Error.{err_none}
use samp_plugin_crashdetect.Debug.Table.{
  File, Line, Symbol, AmxDbg, ident_function, same_name, skip_while,
}
use samp_plugin_crashdetect.Debug.Dbg.{
  answer, undefined, line_address_in, dbg_get_line_address, function_address_in,
  dbg_get_function_address, dbg_lookup_file,
}

-- A file table names a file, and a line table has an entry at an address for a line or a later one.
unfoldable pub has_file : List ℕ → List File → Bool
has_file filename [] = false
has_file filename (f ∷ files) = same_name f.name filename || has_file filename files

unfoldable pub has_line : ℕ → ℕ → List Line → Bool
has_line line address [] = false
has_line line address (l ∷ lines) =
    (sle line l.line && (l.address == address)) || has_line line address lines

has_line-skip_while :
    (p : Line → Bool) (line address : ℕ) (lines : List Line)
    → has_line line address (skip_while p lines) ≡ true
    → has_line line address lines ≡ true
unfolding has_line skip_while
has_line-skip_while p line address [] h = h
has_line-skip_while p line address (l ∷ lines) h =
    ground (arith, has_line-skip_while p line address lines, h)

missing :
    (filename : List ℕ) (line : ℕ) (files : List File) (lines : List Line)
    → has_file filename files ≡ false
    → line_address_in filename line files lines ≡ undefined
unfolding has_file line_address_in
missing filename line [] lines h = refl
missing filename line (f ∷ files) lines h =
    ground (arith, missing filename line files lines (ground (arith, h)))

-- For a file that the table does not name, `dbg_GetLineAddress` reads past the end of the table.
pub dbg_get_line_address_missing :
    (t : AmxDbg) (line : ℕ) (filename : List ℕ)
    → has_file filename t.filetbl ≡ false
    → dbg_get_line_address t line filename ≡ undefined
unfolding dbg_get_line_address
dbg_get_line_address_missing t line filename h = missing filename line t.filetbl t.linetbl h

List-cases : {A : Type 0} (xs : List A) → (xs ≡ []) ⊎ ((y : A) × (ys : List A) × (xs ≡ y ∷ ys))
List-cases [] = inl refl
List-cases (y ∷ ys) = inr (y, ys, refl)

found :
    (filename : List ℕ) (line address : ℕ) (files : List File) (lines : List Line)
    → line_address_in filename line files lines ≡ answer err_none address
    → has_line line address lines ≡ true
unfolding line_address_in has_line
found filename line address [] lines h = ground arith
found filename line address (f ∷ files) lines h =
    let topaddr : ℕ = elim files [ [] ↦ neg32 1 | g ∷ _ ↦ File.address g ] in
    let before : Line → Bool = λ l. ltb (Line.address l) f.address in
    let short : Line → Bool = λ l. slt (Line.line l) line && ltb (Line.address l) topaddr in
    let rest = skip_while short (skip_while before lines) in
    let back : has_line line address rest ≡ true → has_line line address lines ≡ true = λ k.
      has_line-skip_while before line address lines
        (has_line-skip_while short line address (skip_while before lines) k) in
    elim (Bool-cases (same_name f.name filename)) [
      | inr other ↦ found filename line address files lines (ground (arith, h, other))
      | inl same ↦ elim (List-cases rest) [
        | inl empty ↦ ground (arith, h, same, empty)
        | inr (l, ls, e) ↦ elim (Bool-cases (sle line l.line)) [
          | inl reached ↦ back (rw e (ground (arith, h, same, e, reached)))
          | inr below ↦ back (
              rw e (found filename line address files (l ∷ ls) (ground (arith, h, same, e, below))))
        ]
      ]
    ]

-- An address that `dbg_GetLineAddress` gives is that of an entry of the line table, for the line asked
-- for or a later one.
pub dbg_get_line_address_found :
    (t : AmxDbg) (line address : ℕ) (filename : List ℕ)
    → dbg_get_line_address t line filename ≡ answer err_none address
    → has_line line address t.linetbl ≡ true
unfolding dbg_get_line_address
dbg_get_line_address_found t line address filename h =
    found filename line address t.filetbl t.linetbl h

-- `function_address_in` does not look at the file's name when every address has a file.
any_file :
    (t : AmxDbg) (funcname f g : List ℕ) (symbols : List Symbol)
    → ((a : ℕ) → (dbg_lookup_file t a).0 ≡ err_none)
    → function_address_in t funcname f symbols ≡ function_address_in t funcname g symbols
unfolding function_address_in
any_file t funcname f g [] all = refl
any_file t funcname f g (s ∷ symbols) all =
    let ih = any_file t funcname f g symbols all in
    rw (all s.address) (
      ap
        (λ r.
          if not (s.ident == ident_function) || not (same_name s.name funcname)
          then r
          else answer err_none s.address)
        ih)

-- If the file table covers every address, `dbg_GetFunctionAddress` gives the same answer for every
-- name of a file.
pub dbg_get_function_address_any_file :
    (t : AmxDbg) (funcname f g : List ℕ)
    → ((a : ℕ) → (dbg_lookup_file t a).0 ≡ err_none)
    → dbg_get_function_address t funcname f ≡ dbg_get_function_address t funcname g
unfolding dbg_get_function_address
dbg_get_function_address_any_file t funcname f g all =
    rw (dbg_get_function_address, any_file t funcname f g t.symboltbl all) refl
