-- ===== src/Amx/CellText.antt =====
-- Strings in cells (src/amx/amx.c, lines 3879 to 4034): an unpacked string has a character in each cell,
-- a packed one four, the first in the highest byte. `char` is signed and has 8 bits, a cell 32. A
-- source is its characters up to the terminating zero; its length is below 2 ^ 31.
pub mod Unpacked
use samp_plugin_crashdetect.Prelude.{
  Bool, ℕ, zero, suc, ◌+◌, ◌-◌, ◌*◌, ◌/◌, ◌%◌, ◌^◌, ◌&&◌, ◌==◌, ltb, leb, if◌then◌else◌, List, [],
  ◌∷◌, Option, none, some, length, add32, sub32, word_mod,
}
use samp_plugin_crashdetect.Amx.Memory.{Mem, read8, read32, write8, write32}
use samp_plugin_crashdetect.Amx.Error.{err_none, err_params}

-- UNPACKEDMAX and UNLIMITED
abbrev pub unpackedmax : ℕ
unpackedmax = 16777215

abbrev pub unlimited : ℕ
unlimited = 2147483647

-- the first characters of a list
unfoldable pub first : ℕ → List ℕ → List ℕ
first zero s = []
first (suc n) [] = []
first (suc n) (c ∷ s) = c ∷ first n s

-- `(cell)c` of a `char` or of a `wchar_t`
unfoldable pub as_cell : Bool → ℕ → ℕ
as_cell use_wchar c =
    if use_wchar then c % word_mod else if ltb (c % 256) 128 then c % 256 else c % 256 + 4294967040

-- the loops that copy the characters into cells, and into bytes
unfoldable pub store_cells : Bool → Mem → ℕ → List ℕ → Mem
unfolding write32 as_cell
store_cells use_wchar m dest [] = m
store_cells use_wchar m dest (c ∷ s) =
    store_cells use_wchar (write32 m dest (as_cell use_wchar c)) (add32 dest 4) s

unfoldable pub store_bytes : Mem → ℕ → List ℕ → Mem
unfolding write8
store_bytes m dest [] = m
store_bytes m dest (c ∷ s) = store_bytes (write8 m dest c) (add32 dest 1) s

-- `swapcell`
unfoldable pub swapcell : Mem → ℕ → Mem
unfolding read8 write8
swapcell m a =
    let outer = write8 (write8 m a (read8 m (a + 3))) (a + 3) (read8 m a) in
    write8 (write8 outer (a + 1) (read8 outer (a + 2))) (a + 2) (read8 outer (a + 1))

-- `while (len>=0) swapcell((ucell *)&dest[len--]);`
unfoldable pub swap_cells : Mem → ℕ → ℕ → Mem
unfolding swapcell
swap_cells m dest zero = swapcell m dest
swap_cells m dest (suc len) = swap_cells (swapcell m (dest + 4 * suc len)) dest len

-- Whether the string is cut, for the `size` that holds so many characters
unfoldable pub is_cut : ℕ → ℕ → ℕ → List ℕ → Bool
is_cut size bound room source = ltb size bound && leb room (length source)

-- The packed half of `amx_SetString`; `none` where `memcpy` is called with a length of -1.
unfoldable pub set_packed : Mem → ℕ → List ℕ → ℕ → Option Mem
unfolding is_cut first store_bytes swap_cells write32
set_packed m dest source size =
    let cut = is_cut size (unlimited / 4) (size * 4) source in
    let len = if cut then size * 4 - 1 else length source in
    let cleared = write32 m (dest + 4 * (len / 4)) 0 in
    if cut && (size == 0)
    then none
    else some (swap_cells (store_bytes cleared dest (first len source)) dest (len / 4))

-- The unpacked half. With a size of 0 the length is -1, and the cell in front of `dest` is written.
unfoldable pub set_unpacked : Mem → ℕ → List ℕ → Bool → ℕ → Mem
unfolding is_cut first store_cells write32
set_unpacked m dest source use_wchar size =
    let cut = is_cut size unlimited size source in
    let kept = if cut then first (size - 1) source else source in
    let end = if cut then sub32 (dest + 4 * size) 4 else dest + 4 * length source in
    write32 (store_cells use_wchar m dest kept) end 0

-- `amx_SetString`, with the memory that it leaves
unfoldable pub amx_set_string : Mem → ℕ → List ℕ → Bool → Bool → ℕ → Option Mem
unfolding set_packed set_unpacked
amx_set_string m dest source pack use_wchar size =
    if pack then set_packed m dest source size else some (set_unpacked m dest source use_wchar size)

-- The loop over a packed string: `i` is the byte of the cell at `a`.
unfoldable pub get_packed : ℕ → Mem → ℕ → ℕ → List ℕ
unfolding read32
get_packed zero m a i = []
get_packed (suc n) m a i =
    let c = read32 m a / 2 ^ (8 * i) % 256 in
    let next = (i + 3) % 4 in
    let rest = get_packed n m (if next == 3 then add32 a 4 else a) next in
    if c == 0 then [] else c ∷ rest

unfoldable pub get_unpacked : ℕ → Mem → ℕ → List ℕ
unfolding read32
get_unpacked zero m a = []
get_unpacked (suc n) m a =
    let rest = get_unpacked n m (add32 a 4) in
    if read32 m a == 0 then [] else (read32 m a % 256) ∷ rest

-- `amx_GetString` for `use_wchar` 0: the characters in front of the terminator that it stores, none where
-- the size leaves no room for one
unfoldable pub amx_get_string : Mem → ℕ → ℕ → List ℕ
unfolding get_packed get_unpacked first
amx_get_string m source size = first (size - 1) (
    if ltb unpackedmax (read32 m source)
    then get_packed size m source 3
    else get_unpacked size m source)

-- `strlen`, on fuel
unfoldable pub count_bytes : ℕ → Mem → ℕ → Option ℕ
unfolding read8
count_bytes zero m a = none
count_bytes (suc fuel) m a =
    let rest = count_bytes fuel m (add32 a 1) in
    if read8 m a == 0 then some 0 else elim rest [ none ↦ none | some n ↦ some (n + 1) ]

-- The loop that toggles the last bytes: so many bytes of the cell until one is zero
unfoldable pub count_high : ℕ → ℕ → ℕ
count_high zero c = 0
count_high (suc n) c =
    let rest = count_high n (c * 256 % word_mod) in if c / 16777216 == 0 then 0 else rest + 1

-- the loop over an unpacked string
unfoldable pub count_cells : ℕ → Mem → ℕ → Option ℕ
unfolding read32
count_cells zero m a = none
count_cells (suc fuel) m a =
    let rest = count_cells fuel m (add32 a 4) in
    if read32 m a == 0 then some 0 else elim rest [ none ↦ none | some n ↦ some (n + 1) ]

-- `amx_StrLen` of a pointer that is not null
unfoldable pub amx_str_len : ℕ → Mem → ℕ → Option ℕ
unfolding count_bytes count_high count_cells read32
amx_str_len fuel m cstr =
    if ltb unpackedmax (read32 m cstr)
    then elim (count_bytes fuel m cstr) [
      | none ↦ none
      | some len ↦ some (len - len % 4 + count_high 4 (read32 m (cstr + 4 * (len / 4))))
    ]
    else count_cells fuel m cstr
