-- ===== src/Amx/Utf8.antt =====
-- UTF-8 (src/amx/amx.c, lines 4038 to 4229). A string is its bytes up to the terminating zero, so that
-- the byte behind the last one is 0. `& 0x3f` and the like are written as remainders, `<<` and `>>` as
-- products and quotients, and `|` of numbers that share no bit as a sum.
pub mod Codes
pub mod Single
pub mod Inverse
pub mod Long
pub mod Shortest
pub mod Whole
use samp_plugin_crashdetect.Prelude.{
  Bool, ℕ, zero, suc, ◌+◌, ◌*◌, ◌/◌, ◌%◌, ◌^◌, ◌&&◌, ◌||◌, ◌==◌, ltb, leb, slt, if◌then◌else◌, List,
  [], ◌∷◌, Option, none, some, length, get_elem?,
}
use samp_plugin_crashdetect.Amx.Error.{err_none, err_params}

-- An entry of one of the two tables
unfoldable pub entry : List ℕ → ℕ → ℕ
entry table i = elim (get_elem? table i) [ none ↦ 0 | some v ↦ v ]

-- `utf8_count` and `utf8_lowmark`
abbrev pub utf8_count : List ℕ
utf8_count = 0 ∷ 0 ∷ 0 ∷ 0 ∷ 0 ∷ 0 ∷ 0 ∷ 0 ∷ 1 ∷ 1 ∷ 1 ∷ 1 ∷ 2 ∷ 2 ∷ 3 ∷ 4 ∷ []

abbrev pub utf8_lowmark : List ℕ
utf8_lowmark = 128 ∷ 2048 ∷ 65536 ∷ 2097152 ∷ 67108864 ∷ []

-- The drop-through `switch`: so many follow-up codes, each with its two leading bits
unfoldable pub follow_up : ℕ → ℕ → List ℕ → Option (ℕ × List ℕ)
follow_up zero result string = some (result, string)
follow_up (suc n) result [] = none
follow_up (suc n) result (c ∷ string) =
    let rest = follow_up n (result * 64 + c % 64) string in if c / 64 == 2 then rest else none

-- The reserved positions
unfoldable pub is_reserved : ℕ → Bool
is_reserved v = (leb 55296 v && leb v 57343) || ((v == 65534) || (v == 65535))

-- What `amx_UTF8Get` gives: the error, `*value` and `*endptr`
abbrev pub Got : Type 0
Got = ℕ × ℕ × List ℕ

-- the checks behind the `switch`
unfoldable pub checked : List ℕ → ℕ → Option (ℕ × List ℕ) → Got
unfolding is_reserved entry
checked string followup none = (err_params, 0, string)
checked string followup (some (result, end)) =
    if ltb result (entry utf8_lowmark followup) || is_reserved result
    then (err_params, 0, string)
    else (err_none, result, end)

-- `amx_UTF8Get`. At the end of a string it reads the terminating zero.
unfoldable pub amx_utf8_get : List ℕ → Got
unfolding checked follow_up entry
amx_utf8_get [] = (err_none, 0, [])
amx_utf8_get (c ∷ string) =
    let followup = entry utf8_count (c / 4 % 16) in
    if ltb c 128
    then (err_none, c, string)
    else if ltb c 192 || leb 254 c
    then (err_params, 0, c ∷ string)
    else checked (c ∷ string) followup (follow_up (suc followup) (c % (32 / 2 ^ followup)) string)

-- A code of so many bytes, if there is room for it
unfoldable pub put_bytes : ℕ → List ℕ → ℕ × List ℕ
put_bytes maxchars bytes =
    if slt maxchars (length bytes) then (err_params, []) else (err_none, bytes)

-- The follow-up byte with the bits from `shift` on
abbrev pub follower : ℕ → ℕ → ℕ
follower value unit = value / unit % 64 + 128

-- `amx_UTF8Put`: the error and the bytes that are stored. `value` is a signed cell.
unfoldable pub amx_utf8_put : ℕ → ℕ → ℕ × List ℕ
unfolding put_bytes is_reserved
amx_utf8_put maxchars value =
    if slt value 128
    then put_bytes maxchars (value % 256 ∷ [])
    else if slt value 2048
    then put_bytes maxchars ((value / 64 % 32 + 192) ∷ follower value 1 ∷ [])
    else if slt value 65536
    then (if slt maxchars 3 || is_reserved value
        then (err_params, [])
        else put_bytes maxchars
            ((value / 4096 % 16 + 224) ∷ follower value 64 ∷ follower value 1 ∷ []))
    else if slt value 2097152
    then put_bytes maxchars (
        (value / 262144 % 8 + 240)
        ∷ follower value 4096
        ∷ follower value 64
        ∷ follower value 1
        ∷ [])
    else if slt value 67108864
    then put_bytes maxchars (
        (value / 16777216 % 4 + 248)
        ∷ follower value 262144
        ∷ follower value 4096
        ∷ follower value 64
        ∷ follower value 1
        ∷ [])
    else put_bytes maxchars (
        (value / 1073741824 % 2 + 252)
        ∷ follower value 16777216
        ∷ follower value 262144
        ∷ follower value 4096
        ∷ follower value 64
        ∷ follower value 1
        ∷ [])

-- The loop of `amx_UTF8Check`, on fuel; `none` where the fuel is used up.
unfoldable pub check_loop : ℕ → ℕ → ℕ → List ℕ → Option (ℕ × ℕ)
unfolding amx_utf8_get
check_loop fuel err len [] = some (err, len)
check_loop zero err len (c ∷ s) = if err == err_none then none else some (err, len)
check_loop (suc fuel) err len (c ∷ s) =
    let (err', _, end) = amx_utf8_get (c ∷ s) in
    let rest = check_loop fuel err' (len + 1) end in
    if err == err_none then rest else some (err, len)

-- `amx_UTF8Check`: the error and `*length`; each round takes off at least one byte or stops.
unfoldable pub amx_utf8_check : List ℕ → Option (ℕ × ℕ)
unfolding check_loop
amx_utf8_check string = check_loop (suc (length string)) err_none 0 string
