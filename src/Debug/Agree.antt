-- ===== src/Debug/Agree.antt =====
-- The two searches for the line and file of an address, side by side: those of
-- src/amx/amxdbg.c (lines 241 to 300) and those of src/amxdebuginfo.cpp (lines 79 to 129).
use samp_plugin_crashdetect.Prelude.{
  ℕ, zero, suc, ◌<◌, ◌≡◌, refl, ap, ◌∙◌, sym, arith, Bool, true, ltb, leb, sle, ◌&&◌, List, [], ◌∷◌,
  Option, none, some, get_elem?, sign_bit, Bool-cases, ◌⊎◌, inl, inr,
}
use samp_plugin_crashdetect.Amx.Error.{err_none, err_notfound}
use samp_plugin_crashdetect.Debug.Table.{File, Line, AmxDbg, scan, find_last}
use samp_plugin_crashdetect.Debug.Dbg.{last_scanned, dbg_lookup_line, dbg_lookup_file}
use samp_plugin_crashdetect.Debug.Info.{get_line, get_file}

ℕ-cases : (n : ℕ) → (n ≡ 0) ⊎ ((m : ℕ) × (n ≡ suc m))
ℕ-cases zero = inl refl
ℕ-cases (suc m) = inr (m, refl)

module _ {A : Type 0} where
  -- The table's addresses do not decrease, start at `low` or above, and are positive as signed cells.
  unfoldable pub sorted_from : ℕ → (A → ℕ) → List A → Bool
  sorted_from low addr [] = true
  sorted_from low addr (x ∷ xs) =
      leb low (addr x) && (ltb (addr x) sign_bit && sorted_from (addr x) addr xs)

  above :
      (addr : A → ℕ) (low a : ℕ) (xs : List A)
      → sorted_from low addr xs ≡ true
      → a < low
      → (scan (λ x. leb (addr x) a) xs ≡ 0) × (find_last (λ x. leb (addr x) a) xs ≡ none)
  unfolding sorted_from scan find_last
  above addr low a [] s h = (refl, refl)
  above addr low a (x ∷ xs) s h =
      ground (arith, above addr (addr x) a xs (ground (arith, s)) (ground (arith, s)))

  scanned :
      (p : A → Bool) (i : ℕ) (xs : List A) → scan p xs ≡ suc i → (x : A) × (get_elem? xs i ≡ some x)
  unfolding scan
  scanned p i [] h = ground arith
  scanned p zero (x ∷ xs) h = (x, refl)
  scanned p (suc i) (x ∷ xs) h = scanned p i xs (ground (arith, h))

  last_scanned-find_last :
      (addr : A → ℕ) (low a : ℕ) (xs : List A)
      → sorted_from low addr xs ≡ true
      → last_scanned (λ x. leb (addr x) a) xs ≡ find_last (λ x. leb (addr x) a) xs
  unfolding last_scanned sorted_from scan find_last
  last_scanned-find_last addr low a [] s = refl
  last_scanned-find_last addr low a (x ∷ xs) s =
      let p : A → Bool = λ y. leb (addr y) a in
      let ih = last_scanned-find_last addr (addr x) a xs (ground (arith, s)) in
      elim (Bool-cases (leb (addr x) a)) [
        | inl low ↦ elim (ℕ-cases (scan p xs)) [
          | inl none_more ↦ ground (arith, ih, low, none_more)
          | inr (i, e) ↦ ground (arith, ih, low, e, scanned p i xs e)
        ]
        | inr high ↦
            ground
              (arith, high, above addr (addr x) a xs (ground (arith, s)) (ground (arith, high)))
      ]

  signed-find_last :
      (addr : A → ℕ) (low a : ℕ) (xs : List A)
      → sorted_from low addr xs ≡ true
      → a < sign_bit
      → find_last (λ x. sle (addr x) a) xs ≡ find_last (λ x. leb (addr x) a) xs
  unfolding sorted_from find_last
  signed-find_last addr low a [] s h = refl
  signed-find_last addr low a (x ∷ xs) s h =
      ground (arith, signed-find_last addr (addr x) a xs (ground (arith, s)) h)

-- On a table of lines in ascending order of addresses, all below 2 ^ 31, and for such an address,
-- `GetLine` finds the line that `dbg_LookupLine` reports, or both find none.
pub get_line-dbg_lookup_line :
    (t : AmxDbg) (a : ℕ)
    → sorted_from 0 Line.address t.linetbl ≡ true
    → a < sign_bit
    → dbg_lookup_line t a
      ≡ elim (get_line t a) [ none ↦ (err_notfound, 0) | some l ↦ (err_none, l.line) ]
unfolding dbg_lookup_line get_line
get_line-dbg_lookup_line t a s h =
    ap (λ (o : Option Line). elim o [ none ↦ (err_notfound, 0) | some l ↦ (err_none, l.line) ])
      (last_scanned-find_last Line.address 0 a t.linetbl s
        ∙ sym (signed-find_last Line.address 0 a t.linetbl s h))

-- On a table of files in ascending order of addresses, all below 2 ^ 31, and for such an address,
-- `GetFile` finds the file that `dbg_LookupFile` reports, or both find none.
pub get_file-dbg_lookup_file :
    (t : AmxDbg) (a : ℕ)
    → sorted_from 0 File.address t.filetbl ≡ true
    → a < sign_bit
    → dbg_lookup_file t a
      ≡ elim (get_file t a) [ none ↦ (err_notfound, none) | some f ↦ (err_none, some f.name) ]
unfolding dbg_lookup_file get_file
get_file-dbg_lookup_file t a s h =
    ap
      (λ (o : Option File). elim o [
        | none ↦ (err_notfound, none)
        | some f ↦ (err_none, some f.name)
      ])
      (last_scanned-find_last File.address 0 a t.filetbl s
        ∙ sym (signed-find_last File.address 0 a t.filetbl s h))
