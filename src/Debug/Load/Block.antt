-- ===== src/Debug/Load/Block.antt =====
-- `dbg_LoadInfo` (src/amx/amxdbg.c, lines 56 to 239) and `AMXDebugInfo::Load`.
use samp_plugin_crashdetect.Prelude.{
  ℕ, zero, suc, ◌+◌, ◌-◌, ◌*◌, Bool, false, not, ◌==◌, ◌&&◌, ltb, bit_and, is_neg, sub32,
  if◌then◌else◌, List, [], ◌∷◌, Option, none, some, get_elem?, length,
}
use samp_plugin_crashdetect.Amx.Error.{err_memory, err_format, err_debug}
use samp_plugin_crashdetect.Amx.CellText.{first}
use samp_plugin_crashdetect.Debug.Table.{File, Line, AmxDbg}
use samp_plugin_crashdetect.Debug.Load.{
  Reader, and_then, done, read_u32, read_times, read_file, read_line, read_symbol, read_tag,
  read_automaton, read_state,
}

-- `AMX_DBG_HDR`, without the fields that nothing reads
pub record Hdr : Type 0 where
  pub size : ℕ
  pub magic : ℕ
  pub files : ℕ
  pub lines : ℕ
  pub symbols : ℕ
  pub tags : ℕ
  pub automatons : ℕ
  pub states : ℕ

unfoldable pub drop_first : ℕ → List ℕ → List ℕ
drop_first zero s = s
drop_first (suc n) [] = []
drop_first (suc n) (c ∷ s) = drop_first n s

-- A structure that was cleared before it was read: what the file does not have is 0.
unfoldable pub byte_at : List ℕ → ℕ → ℕ
byte_at s i = elim (get_elem? s i) [ none ↦ 0 | some b ↦ b ]

unfoldable pub u16_at : List ℕ → ℕ → ℕ
u16_at s i = byte_at s i + 256 * byte_at s (i + 1)

unfoldable pub u32_at : List ℕ → ℕ → ℕ
u32_at s i = u16_at s i + 65536 * u16_at s (i + 2)

unfoldable pub header_of : List ℕ → Hdr
header_of s = record {
  size = u32_at s 0;
  magic = u16_at s 4;
  files = u16_at s 10;
  lines = u16_at s 12;
  symbols = u16_at s 14;
  tags = u16_at s 16;
  automatons = u16_at s 18;
  states = u16_at s 20;
}

-- `linetbl_max_ptr`, from the header on; a pointer in front of the header is 0, since only whether a
-- place is in front of it is asked
unfoldable pub line_limit : Hdr → ℕ
line_limit h = h.size - (19 * h.symbols + 3 * h.tags + 7 * h.automatons + 5 * h.states)

-- The test of the loop that detects an overflow of the number of lines
unfoldable pub overflows : List ℕ → ℕ → ℕ → ℕ → Option Bool
overflows block limit codesize at =
    if ltb at limit && ltb (at + 65536) limit
    then elim (read_u32 (drop_first at block)) [
      | none ↦ none
      | some (address, _) ↦ elim (read_u32 (drop_first (at - 8) block)) [
        | none ↦ none
        | some (before, _) ↦ some (ltb before address && ltb address codesize)
      ]
    ]
    else some false

-- The loop: the place behind the lines. Each round goes on by 524288 bytes, so that more rounds than the
-- block has bytes lead out of it.
unfoldable pub skip_lines : ℕ → List ℕ → ℕ → ℕ → ℕ → Option ℕ
skip_lines zero block limit codesize at = none
skip_lines (suc fuel) block limit codesize at =
    let rest = skip_lines fuel block limit codesize (at + 524288) in
    elim (overflows block limit codesize at) [
      | none ↦ none
      | some again ↦ if again then rest else some at
    ]

-- The tables behind the lines
unfoldable pub read_names : Hdr → List File → List Line → Reader AmxDbg
read_names h files lines s = and_then (read_times h.symbols read_symbol s) (λ symbols t.
    and_then (read_times h.tags read_tag t) (λ tags u.
      and_then (read_times h.automatons read_automaton u) (λ automatons v.
        and_then (read_times h.states read_state v) (λ states rest.
          done
            (record {
              filetbl = files;
              linetbl = lines;
              symboltbl = symbols;
              tagtbl = tags;
              automatontbl = automatons;
              statetbl = states;
            })
            rest))))

-- from the place behind the lines on
unfoldable pub names_at : Hdr → List ℕ → List File → List Line → Option ℕ → Option (AmxDbg × List ℕ)
names_at h block files lines none = none
names_at h block files lines (some at) = read_names h files lines (drop_first at block)

-- All tables
unfoldable pub read_tables : Hdr → ℕ → List ℕ → Option (AmxDbg × List ℕ)
read_tables h codesize block =
    and_then (read_times h.files read_file (drop_first 22 block)) (λ files s.
      and_then (read_times h.lines read_line s) (λ lines t.
        names_at h block files lines (
          skip_lines (suc (length block)) block (line_limit h) codesize (length block - length t))))

-- The tables are loaded, an error is returned, or the behaviour is undefined.
pub data Loading : Type 0 where
  loads : AmxDbg → Loading
  fails : ℕ → Loading
  undefined_load : Loading

-- `AMX_MAGIC`, `AMX_FLAG_DEBUG` and `AMX_DBG_MAGIC`
abbrev pub amx_magic : ℕ
amx_magic = 61920

abbrev pub amx_flag_debug : ℕ
amx_flag_debug = 2

abbrev pub amx_dbg_magic : ℕ
amx_dbg_magic = 61935

-- the part behind the check of the magic number
unfoldable pub load_block : Bool → Hdr → ℕ → List ℕ → Loading
load_block allocated h codesize rest =
    if not allocated
    then fails err_memory
    else if ltb h.size 22
    then undefined_load
    else elim (read_tables h codesize (first h.size rest)) [
      | none ↦ undefined_load
      | some (t, _) ↦ loads t
    ]

-- `dbg_LoadInfo` of a file's bytes; `allocated` says whether `malloc` had the memory. A seek to a negative
-- place fails, and leaves the file behind the header that was read.
unfoldable pub dbg_load_info : Bool → List ℕ → Loading
dbg_load_info allocated file =
    let size = u32_at file 0 in
    let rest = drop_first (if is_neg size then 56 else size) file in
    let h = header_of rest in
    if not (u16_at file 4 == amx_magic)
    then fails err_format
    else if bit_and (u16_at file 8) amx_flag_debug == 0
    then fails err_debug
    else if not (h.magic == amx_dbg_magic)
    then fails err_format
    else load_block allocated h (sub32 (u32_at file 16) (u32_at file 12)) rest

-- `AMXDebugInfo::Load`, with what it had loaded before and the file, if it can be opened
unfoldable pub load : Bool → Option (List ℕ) → Option AmxDbg → Option (Option AmxDbg)
load allocated none before = some before
load allocated (some file) before = elim (dbg_load_info allocated file) [
  | loads t ↦ some (some t)
  | fails error ↦ some before
  | undefined_load ↦ none
]
