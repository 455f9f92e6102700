-- ===== src/Trace/Contents.antt =====
-- Arguments and strings in the data section (src/amxstacktrace.cpp, lines 219 to 304).
pub mod Texts
use samp_plugin_crashdetect.Prelude.{
  ℕ, zero, suc, ◌+◌, ◌-◌, ◌*◌, ◌/◌, ◌%◌, Bool, false, ◌==◌, ◌&&◌, ltb, leb, add32, sub32, shr32,
  sshr32, quot32, if◌then◌else◌, List, [], ◌∷◌, Option, none, some,
}
use samp_plugin_crashdetect.Amx.Memory.{Mem, read32}
use samp_plugin_crashdetect.Amx.State.{Amx}
use samp_plugin_crashdetect.Trace.Frame.{is_data_address, data_cell}

unfoldable pub get_argument_value : Amx → Mem → ℕ → ℕ → ℕ
unfolding data_cell
get_argument_value a m frame index = data_cell a m (add32 frame ((3 + index) * 4))

-- The count of bytes may be negative.
unfoldable pub get_num_arguments : Amx → Mem → ℕ → ℕ
unfolding data_cell
get_num_arguments a m frame = quot32 (data_cell a m (add32 frame 8)) 4

unfoldable pub is_printable_char : ℕ → Bool
is_printable_char c = leb 32 c && leb c 126

-- `GetDataPtr`: `none` is the null pointer.
unfoldable pub get_data_ptr : Amx → ℕ → Option ℕ
unfolding is_data_address
get_data_ptr a address = if is_data_address a address then some (add32 a.data_ptr address) else none

-- `UNPACKEDMAX`
abbrev pub unpacked_max : ℕ
unpacked_max = 16777215

unfoldable pub is_packed_string : Mem → ℕ → Bool
is_packed_string m string = ltb unpacked_max (read32 m string)

unfoldable pub get_max_string_size : Amx → ℕ → ℕ
get_max_string_size a address = sub32 a.header.stp address

-- The character `i` of a packed and of an unpacked string
unfoldable pub packed_char : Mem → ℕ → ℕ → ℕ
packed_char m string i = sshr32 (read32 m (add32 string (i / 4 * 4))) ((4 - i % 4 - 1) * 8) % 256

unfoldable pub unpacked_char : Mem → ℕ → ℕ → ℕ
unpacked_char m string i = read32 m (add32 string (i * 4)) % 256

-- The loop of both readers from `i` on, with `n` rounds to go: up to the first character that is not
-- printable
unfoldable pub get_chars : (ℕ → ℕ) → ℕ → ℕ → List ℕ
unfolding is_printable_char
get_chars char i zero = []
get_chars char i (suc n) =
    let rest = get_chars char (i + 1) n in if is_printable_char (char i) then char i ∷ rest else []

unfoldable pub get_packed_string : Mem → ℕ → ℕ → List ℕ
unfolding packed_char get_chars
get_packed_string m string size = get_chars (packed_char m string) 0 size

unfoldable pub get_unpacked_string : Mem → ℕ → ℕ → List ℕ
unfolding unpacked_char get_chars
get_unpacked_string m string size = get_chars (unpacked_char m string) 0 size

-- `GetStringContents`: the string and whether it is packed
unfoldable pub get_string_contents : Amx → Mem → ℕ → ℕ → List ℕ × Bool
unfolding get_data_ptr is_packed_string get_max_string_size get_packed_string get_unpacked_string
get_string_contents a m address size = elim (get_data_ptr a address) [
  | none ↦ ([], false)
  | some ptr ↦
      let size' = if size == 0 then get_max_string_size a address else size in
      (
        if is_packed_string m ptr
            then get_packed_string m ptr size'
            else get_unpacked_string m ptr size',
        is_packed_string m ptr,
      )
]
