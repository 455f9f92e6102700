-- ===== src/Amx/CellText/Unpacked.antt =====
-- An unpacked string, set and read back (src/amx/amx.c, lines 3929 to 4033).
use samp_plugin_crashdetect.Prelude.{
  Bool, true, false, Bool-cases, ℕ, zero, suc, ◌+◌, ◌-◌, ◌*◌, ◌%◌, ◌<◌, ◌≤◌, ◌≡◌, ◌∙◌, ◌⊎◌, ap,
  refl, arith, inl, inr, ◌==◌, ltb, leb, if◌then◌else◌, List, [], ◌∷◌, some, length, add32, sub32,
  word_mod,
}
use samp_plugin_crashdetect.Amx.Memory.{Mem, read32, write32, read32-write32, read32-write32_ne}
use samp_plugin_crashdetect.Amx.CellText.{
  first, as_cell, store_cells, is_cut, set_unpacked, amx_set_string, get_unpacked, amx_get_string,
  unlimited, unpackedmax,
}

-- Characters of a string, none of them the terminator
abbrev pub IsText : List ℕ → Type 0
IsText [] = Unit
IsText (c ∷ s) = (0 < c) × (c < 256) × IsText s

-- The first character is one that is not negative as a `char`
abbrev pub StartsLow : List ℕ → Type 0
StartsLow [] = Unit
StartsLow (c ∷ s) = c < 128

-- What a size leaves of a source
unfoldable pub kept : ℕ → List ℕ → List ℕ
kept size source = if ltb size unlimited then first (size - 1) source else source

length-first_le : (n : ℕ) (s : List ℕ) → n ≤ length s → length (first n s) ≡ n
unfolding first
length-first_le zero s h = refl
length-first_le (suc n) [] h = absurd (omega (arith, h))
length-first_le (suc n) (c ∷ s) h = omega (arith, length-first_le n s (omega (arith, h)))

first-all : (n : ℕ) (s : List ℕ) → length s ≤ n → first n s ≡ s
unfolding first
first-all zero [] h = refl
first-all zero (c ∷ s) h = absurd (omega (arith, h))
first-all (suc n) [] h = refl
first-all (suc n) (c ∷ s) h = ap (λ (k : List ℕ). c ∷ k) (first-all n s (omega (arith, h)))

first-first : (n : ℕ) (s : List ℕ) → first (n - 1) (first n s) ≡ first (n - 1) s
unfolding first
first-first zero s = refl
first-first (suc n) s = let e : suc n - 1 ≡ n = omega arith in rw e (pred n s)
  where
    pred : (n : ℕ) (s : List ℕ) → first n (first (suc n) s) ≡ first n s
    pred zero s = refl
    pred (suc n) [] = refl
    pred (suc n) (c ∷ s) = ap (λ (k : List ℕ). c ∷ k) (pred n s)

IsText-first : (n : ℕ) (s : List ℕ) → IsText s → IsText (first n s)
unfolding first
IsText-first zero s t = tt
IsText-first (suc n) [] t = tt
IsText-first (suc n) (c ∷ s) (p, q, t) = (p, q, IsText-first n s t)

-- What is in front of the stored cells stays
store_cells-front :
    (w : Bool) (s : List ℕ) (m : Mem) (d b : ℕ)
    → b + 4 ≤ d
    → d + 4 * length s ≤ word_mod
    → read32 (store_cells w m d s) b ≡ read32 m b
unfolding store_cells
store_cells-front w [] m d b h l = refl
store_cells-front w (c ∷ []) m d b h l = read32-write32_ne m d b (as_cell w c) (omega arith)
store_cells-front w (c ∷ e ∷ s) m d b h l =
    let step : add32 d 4 ≡ d + 4 = omega (arith, l) in
    rw step (
      store_cells-front w (e ∷ s) (write32 m d (as_cell w c)) (d + 4) b (omega arith) (omega arith)
      ∙ read32-write32_ne m d b (as_cell w c) (omega arith))

narrow :
    (c : ℕ)
    → 0 < c
    → c < 256
    → (as_cell false c % word_mod ≡ as_cell false c)
      × (as_cell false c == 0 ≡ false)
      × (as_cell false c % 256 ≡ c)
unfolding as_cell
narrow c p q = ground arith

-- the stored cells and a terminator, read back
get-store :
    (s : List ℕ) (n : ℕ) (m : Mem) (d e : ℕ)
    → IsText s
    → e ≡ d + 4 * length s
    → e + 4 ≤ word_mod
    → get_unpacked n (write32 (store_cells false m d s) e 0) d ≡ first n s
unfolding store_cells get_unpacked first
get-store s zero m d e t at l = refl
get-store [] (suc n) m d e t at l =
    let same : e ≡ d = omega (arith, at) in rw (same, read32-write32 m d 0) refl
get-store (c ∷ s) (suc n) m d e (p, q, t) at l =
    let w = write32 m d (as_cell false c) in
    let step : add32 d 4 ≡ d + 4 = omega (arith, l, at) in
    let (cell, fine, char) = narrow c p q in
    let here : read32 (write32 (store_cells false w (d + 4) s) e 0) d ≡ as_cell false c =
      read32-write32_ne (store_cells false w (d + 4) s) e d 0 (omega (arith, at, l))
      ∙ store_cells-front false s w (d + 4) d (omega arith) (omega (arith, at, l))
      ∙ read32-write32 m d (as_cell false c)
      ∙ cell in
    rw (step, here, fine, char)
      (ap (λ (k : List ℕ). c ∷ k) (get-store s n w (d + 4) e t (omega (arith, at)) l))

low_first :
    (s : List ℕ) (m : Mem) (d e : ℕ)
    → IsText s
    → StartsLow s
    → e ≡ d + 4 * length s
    → e + 4 ≤ word_mod
    → ltb unpackedmax (read32 (write32 (store_cells false m d s) e 0) d) ≡ false
unfolding store_cells as_cell
low_first [] m d e t low at l =
    let same : e ≡ d = omega (arith, at) in rw (same, read32-write32 m d 0) refl
low_first (c ∷ s) m d e (p, q, t) low at l =
    let w = write32 m d (as_cell false c) in
    let step : add32 d 4 ≡ d + 4 = omega (arith, l, at) in
    let (cell, fine, char) = narrow c p q in
    let here : read32 (write32 (store_cells false w (d + 4) s) e 0) d ≡ as_cell false c =
      read32-write32_ne (store_cells false w (d + 4) s) e d 0 (omega (arith, at, l))
      ∙ store_cells-front false s w (d + 4) d (omega arith) (omega (arith, at, l))
      ∙ read32-write32 m d (as_cell false c)
      ∙ cell in
    rw (step, here) (ground arith)

IsText-kept : (size : ℕ) (s : List ℕ) → IsText s → IsText (kept size s)
unfolding kept
IsText-kept size s t = elim (Bool-cases (ltb size unlimited)) [
  | inl e ↦ rw e (IsText-first (size - 1) s t)
  | inr e ↦ rw e t
]

StartsLow-first : (n : ℕ) (s : List ℕ) → StartsLow s → StartsLow (first n s)
unfolding first
StartsLow-first zero s h = tt
StartsLow-first (suc n) [] h = tt
StartsLow-first (suc n) (c ∷ s) h = h

StartsLow-kept : (size : ℕ) (s : List ℕ) → StartsLow s → StartsLow (kept size s)
unfolding kept
StartsLow-kept size s h = elim (Bool-cases (ltb size unlimited)) [
  | inl e ↦ rw e (StartsLow-first (size - 1) s h)
  | inr e ↦ rw e h
]

-- The memory that a positive size leaves: what is kept, and a terminator
set-kept :
    (m : Mem) (dest : ℕ) (s : List ℕ) (w : Bool) (size : ℕ)
    → 0 < size
    → dest + 4 * length (kept size s) + 4 ≤ word_mod
    → set_unpacked m dest s w size
      ≡ write32 (store_cells w m dest (kept size s)) (dest + 4 * length (kept size s)) 0
unfolding set_unpacked is_cut kept
set-kept m dest s w size p l = elim (Bool-cases (ltb size unlimited)) [
  | inl e ↦ elim (Bool-cases (leb size (length s))) [
    | inl f ↦
        let n : length (first (size - 1) s) ≡ size - 1 =
          length-first_le (size - 1) s (ground (arith, f)) in
        let l' : dest + 4 * (size - 1) + 4 ≤ word_mod = rw (e, n) at l in
        let end : sub32 (dest + 4 * size) 4 ≡ dest + 4 * (size - 1) = omega (arith, p, l') in
        rw (e, f, n, end) refl
    | inr f ↦
        let whole : first (size - 1) s ≡ s = first-all (size - 1) s (ground (arith, f)) in
        rw (e, f, whole) refl
  ]
  | inr e ↦ rw e refl
]

-- A string that is set unpacked and read back is what the first size keeps of it, cut once more to what
-- the second size leaves room for. The characters are bytes other than zero, the first one below 128,
-- the first size is positive, and the address space has room behind `dest`.
pub get-set :
    (m m' : Mem) (dest : ℕ) (source : List ℕ) (size size' : ℕ)
    → IsText source
    → StartsLow source
    → 0 < size
    → dest + 4 * length (kept size source) + 4 ≤ word_mod
    → amx_set_string m dest source false false size ≡ some m'
    → amx_get_string m' dest size' ≡ first (size' - 1) (kept size source)
unfolding amx_set_string amx_get_string
get-set m m' dest source size size' t low p l e =
    let s = kept size source in
    let end = dest + 4 * length s in
    let same : m' ≡ set_unpacked m dest source false size = cc in
    let done : m' ≡ write32 (store_cells false m dest s) end 0 =
      same ∙ set-kept m dest source false size p l in
    let text = IsText-kept size source t in
    let unpacked = low_first s m dest end text (StartsLow-kept size source low) refl l in
    rw (done, unpacked)
      (ap (first (size' - 1)) (get-store s size' m dest end text refl l) ∙ first-first size' s)

-- What is behind the stored cells stays
store_cells-behind :
    (w : Bool) (s : List ℕ) (m : Mem) (d b : ℕ)
    → d + 4 * length s ≤ b
    → b + 4 ≤ word_mod
    → read32 (store_cells w m d s) b ≡ read32 m b
unfolding store_cells
store_cells-behind w [] m d b h l = refl
store_cells-behind w (c ∷ s) m d b h l =
    let step : add32 d 4 ≡ d + 4 = omega (arith, l, h) in
    rw step (
      store_cells-behind w s (write32 m d (as_cell w c)) (d + 4) b (omega arith) l
      ∙ read32-write32_ne m d b (as_cell w c) (omega (arith, h)))

pub length-kept :
    (size : ℕ) (s : List ℕ) → 0 < size → size < unlimited → length (kept size s) < size
unfolding kept
length-kept size s p u =
    let e : ltb size unlimited ≡ true = ground arith in
    elim (Bool-cases (leb (size - 1) (length s))) [
      | inl f ↦ rw e (omega (arith, p, length-first_le (size - 1) s (ground (arith, f))))
      | inr f ↦
          let short : length s ≤ size - 1 = ground (arith, f) in
          rw (e, first-all (size - 1) s short) (omega (arith, short, p))
    ]

-- A string that is set unpacked with a positive size below the unlimited one changes no cell in front of
-- its place, and none behind as many cells as the size says.
pub set-within :
    (m m' : Mem) (dest : ℕ) (source : List ℕ) (use_wchar : Bool) (size b : ℕ)
    → 0 < size
    → size < unlimited
    → dest + 4 * size ≤ word_mod
    → b + 4 ≤ word_mod
    → (b + 4 ≤ dest) ⊎ (dest + 4 * size ≤ b)
    → amx_set_string m dest source false use_wchar size ≡ some m'
    → read32 m' b ≡ read32 m b
unfolding amx_set_string
set-within m m' dest source w size b p u l room side e =
    let s = kept size source in
    let end = dest + 4 * length s in
    let inside = length-kept size source p u in
    let same : m' ≡ set_unpacked m dest source w size = cc in
    let done = set-kept m dest source w size p (omega (arith, inside, l)) in
    rw (same, done)
      (elim side [
        | inl f ↦
            read32-write32_ne (store_cells w m dest s) end b 0 (omega (arith, inside, l, f))
            ∙ store_cells-front w s m dest b f (omega (arith, inside, l))
        | inr f ↦
            read32-write32_ne (store_cells w m dest s) end b 0 (omega (arith, inside, l, f, room))
            ∙ store_cells-behind w s m dest b (omega (arith, inside, f)) room
      ])
