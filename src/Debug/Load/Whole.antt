-- ===== src/Debug/Load/Whole.antt =====
-- A script's file with debug information, loaded (src/amx/amxdbg.c, lines 56 to 239).
use mathlib.Core.List.{append_assoc, append-nil}
use samp_plugin_crashdetect.Prelude.{
  ℕ, suc, ◌+◌, ◌-◌, ◌*◌, ◌/◌, ◌%◌, ◌<◌, ◌≤◌, ◌≡◌, ◌∙◌, ap, sym, refl, arith, true, false, ◌&&◌,
  ◌==◌, ltb, word_mod, sign_bit, bit_and, is_neg, List, [], ◌∷◌, ◌++◌, some, length, length-append,
}
use samp_plugin_crashdetect.Amx.CellText.{first}
use samp_plugin_crashdetect.Debug.Table.{AmxDbg}
use samp_plugin_crashdetect.Debug.Load.{
  and_then, done, read_times, read_file, read_line, read_symbol, read_tag, read_automaton,
  read_state,
}
use samp_plugin_crashdetect.Debug.Load.Block.{
  Hdr, drop_first, byte_at, u16_at, u32_at, header_of, line_limit, overflows, skip_lines,
  read_names, names_at, read_tables, loads, load_block, dbg_load_info, amx_magic, amx_flag_debug,
  amx_dbg_magic,
}
use samp_plugin_crashdetect.Debug.Load.Entries.{
  u16, u32, each, file_bytes, line_bytes, symbol_bytes, tag_bytes, automaton_bytes, state_bytes,
  half_mod, IsEach, IsFile, IsLine, IsSymbol, IsTag, IsAutomaton, IsState, read-each, read_file_lem,
  read_line_lem, read_symbol_lem, read_tag_lem, read_automaton_lem, read_state_lem,
}

-- The tables behind the lines, all tables, and the block with its header, as a compiler writes them
unfoldable pub names_bytes : AmxDbg → List ℕ
names_bytes t =
    each symbol_bytes t.symboltbl
    ++ (each tag_bytes t.tagtbl
        ++ (each automaton_bytes t.automatontbl ++ each state_bytes t.statetbl))

unfoldable pub tables_bytes : AmxDbg → List ℕ
tables_bytes t = each file_bytes t.filetbl ++ (each line_bytes t.linetbl ++ names_bytes t)

unfoldable pub header_bytes : ℕ → ℕ → AmxDbg → List ℕ
header_bytes versions flags t =
    u32 (22 + length (tables_bytes t))
    ++ (u16 amx_dbg_magic
        ++ (u16 versions
            ++ (u16 flags
                ++ (u16 (length t.filetbl)
                    ++ (u16 (length t.linetbl)
                        ++ (u16 (length t.symboltbl)
                            ++ (u16 (length t.tagtbl)
                                ++ (u16 (length t.automatontbl) ++ u16 (length t.statetbl)))))))))

unfoldable pub block_bytes : ℕ → ℕ → AmxDbg → List ℕ
block_bytes versions flags t = header_bytes versions flags t ++ tables_bytes t

-- Tables that the format has room for: so many entries, and names that are not empty where the loader
-- takes them to be
pub record IsTables (t : AmxDbg) : Type 0 where
  pub files_fit : length t.filetbl < half_mod
  pub lines_fit : length t.linetbl < half_mod
  pub symbols_fit : length t.symboltbl < half_mod
  pub tags_fit : length t.tagtbl < half_mod
  pub automatons_fit : length t.automatontbl < half_mod
  pub states_fit : length t.statetbl < half_mod
  pub files : IsEach IsFile t.filetbl
  pub lines : IsEach IsLine t.linetbl
  pub symbols : IsEach IsSymbol t.symboltbl
  pub tags : IsEach IsTag t.tagtbl
  pub automatons : IsEach IsAutomaton t.automatontbl
  pub states : IsEach IsState t.statetbl
  pub size : 22 + length (tables_bytes t) < word_mod
  pub names : length (names_bytes t) ≤ half_mod

-- the header of such tables
unfoldable hdr : AmxDbg → Hdr
hdr t = record {
  size = 22 + length (tables_bytes t);
  magic = amx_dbg_magic;
  files = length t.filetbl;
  lines = length t.linetbl;
  symbols = length t.symboltbl;
  tags = length t.tagtbl;
  automatons = length t.automatontbl;
  states = length t.statetbl;
}

two_bytes : (v : ℕ) → v < half_mod → v % 256 + 256 * (v / 256 % 256) ≡ v
two_bytes v h = omega arith

header_of_lem :
    (versions flags : ℕ) (t : AmxDbg) (s : List ℕ)
    → IsTables t
    → header_of (header_bytes versions flags t ++ s) ≡ hdr t
unfolding header_of header_bytes hdr u16 u32 u16_at u32_at byte_at
header_of_lem versions flags t s i =
    let size = 22 + length (tables_bytes t) in
    let whole : size % 256
          + 256 * (size / 256 % 256)
          + 65536 * (size / 65536 % 256 + 256 * (size / 16777216 % 256))
        ≡ size =
      omega (arith, i.size) in
    rw
      (
        whole,
        two_bytes (length t.filetbl) i.files_fit,
        two_bytes (length t.linetbl) i.lines_fit,
        two_bytes (length t.symboltbl) i.symbols_fit,
        two_bytes (length t.tagtbl) i.tags_fit,
        two_bytes (length t.automatontbl) i.automatons_fit,
        two_bytes (length t.statetbl) i.states_fit,
      )
      refl

drop-header :
    (versions flags : ℕ) (t : AmxDbg) (s : List ℕ)
    → (drop_first 22 (header_bytes versions flags t ++ s) ≡ s)
      × (length (header_bytes versions flags t) ≡ 22)
unfolding header_bytes u16 u32 drop_first
drop-header versions flags t s = (refl, refl)

drop-append : (a s : List ℕ) → drop_first (length a) (a ++ s) ≡ s
unfolding drop_first
drop-append [] s = refl
drop-append (c ∷ a) s = drop-append a s

first-append : (a s : List ℕ) → first (length a) (a ++ s) ≡ a
unfolding first
first-append [] s = refl
first-append (c ∷ a) s = ap (λ (k : List ℕ). c ∷ k) (first-append a s)

read_names_lem :
    (t : AmxDbg)
    → IsTables t
    → read_names (hdr t) t.filetbl t.linetbl (names_bytes t) ≡ some (t, [])
unfolding read_names names_bytes hdr and_then done
read_names_lem t i =
    let last : read_times (length t.statetbl) read_state (each state_bytes t.statetbl)
        ≡ some (t.statetbl, []) =
      ap (read_times (length t.statetbl) read_state)
        (sym (append-nil (each state_bytes t.statetbl)))
      ∙ read-each IsState state_bytes read_state read_state_lem t.statetbl [] i.states in
    rw
      (
        read-each IsSymbol symbol_bytes read_symbol read_symbol_lem t.symboltbl _ i.symbols,
        read-each IsTag tag_bytes read_tag read_tag_lem t.tagtbl _ i.tags,
        read-each IsAutomaton automaton_bytes read_automaton read_automaton_lem t.automatontbl _
            i.automatons,
        last,
      )
      refl

no_skip :
    (fuel limit codesize at : ℕ) (block : List ℕ)
    → limit ≤ at + 65536
    → skip_lines (suc fuel) block limit codesize at ≡ some at
unfolding skip_lines overflows
no_skip fuel limit codesize at block h =
    let e : ltb at limit && ltb (at + 65536) limit ≡ false = ground arith in
    rw (skip_lines, overflows, e) refl

-- What is in front of the names
front_bytes : ℕ → ℕ → AmxDbg → List ℕ
front_bytes versions flags t =
    header_bytes versions flags t ++ (each file_bytes t.filetbl ++ each line_bytes t.linetbl)

block-split :
    (versions flags : ℕ) (t : AmxDbg)
    → block_bytes versions flags t ≡ front_bytes versions flags t ++ names_bytes t
unfolding block_bytes tables_bytes front_bytes
block-split versions flags t =
    let top = header_bytes versions flags t in
    let files = each file_bytes t.filetbl in
    let lines = each line_bytes t.linetbl in
    sym (
      append_assoc top (files ++ lines) (names_bytes t)
      ∙ ap (λ (k : List ℕ). top ++ k) (append_assoc files lines (names_bytes t)))

length-block :
    (versions flags : ℕ) (t : AmxDbg)
    → length (block_bytes versions flags t) ≡ 22 + length (tables_bytes t)
unfolding block_bytes
length-block versions flags t = omega (
  arith,
  length-append {0} (header_bytes versions flags t) (tables_bytes t),
  (drop-header versions flags t []).1,
)

read_tables_lem :
    (versions flags codesize : ℕ) (t : AmxDbg)
    → IsTables t
    → read_tables (hdr t) codesize (block_bytes versions flags t) ≡ some (t, [])
unfolding read_tables hdr and_then line_limit names_at
read_tables_lem versions flags codesize t i =
    let front = front_bytes versions flags t in
    let names = names_bytes t in
    let block = block_bytes versions flags t in
    let lines = each line_bytes t.linetbl ++ names in
    let split = block-split versions flags t in
    let sized = length-block versions flags t in
    let rest : drop_first 22 block ≡ each file_bytes t.filetbl ++ lines =
      unfold tables_bytes in
      (unfold block_bytes in (drop-header versions flags t (tables_bytes t)).0) in
    let place : length block - length names ≡ length front =
      omega (arith, ap length split, length-append {0} front names) in
    let here : drop_first (length front) block ≡ names =
      ap (drop_first (length front)) split ∙ drop-append front names in
    let at = length block - length names in
    let stay : skip_lines (suc (length block)) block (line_limit (hdr t)) codesize at ≡ some at =
      no_skip (length block) (line_limit (hdr t)) codesize at block
        (omega (arith, sized, i.names, place, ap length split, length-append {0} front names)) in
    let behind : drop_first at block ≡ names = ap (λ k. drop_first k block) place ∙ here in
    rw
      (
        read_tables,
        rest,
        read-each IsFile file_bytes read_file read_file_lem t.filetbl lines i.files,
        read-each IsLine line_bytes read_line read_line_lem t.linetbl names i.lines,
      )
      (ap (names_at (hdr t) block t.filetbl t.linetbl) stay
        ∙ ap (read_names (hdr t) t.filetbl t.linetbl) behind
        ∙ read_names_lem t i)

load_block_lem :
    (versions flags codesize : ℕ) (behind : List ℕ) (t : AmxDbg)
    → IsTables t
    → load_block true (hdr t) codesize (block_bytes versions flags t ++ behind) ≡ loads t
unfolding load_block hdr
load_block_lem versions flags codesize behind t i =
    let block = block_bytes versions flags t in
    let size = 22 + length (tables_bytes t) in
    let enough : ltb size 22 ≡ false = ground arith in
    let whole : first size (block ++ behind) ≡ block =
      ap (λ k. first k (block ++ behind)) (sym (length-block versions flags t))
      ∙ first-append block behind in
    rw (enough, whole, read_tables_lem versions flags codesize t i) refl

-- A script's file: what is in front of the block has its own length in its first four bytes, the magic
-- number and the flag that says that there is debug information; anything may follow the block. The
-- tables fit the format, and together the symbols, tags, automata and states take no more than 65536
-- bytes. Then the file is loaded where there is memory, and its tables are the ones that were written.
pub dbg_load_info-block :
    (versions flags : ℕ) (amx behind : List ℕ) (t : AmxDbg)
    → let file = amx ++ (block_bytes versions flags t ++ behind) in
      u32_at file 0 ≡ length amx
      → length amx < sign_bit
      → u16_at file 4 ≡ amx_magic
      → bit_and (u16_at file 8) amx_flag_debug == 0 ≡ false
      → IsTables t
      → dbg_load_info true file ≡ loads t
unfolding dbg_load_info hdr
dbg_load_info-block versions flags amx behind t sized low magic flag i =
    let block = block_bytes versions flags t in
    let file = amx ++ (block ++ behind) in
    let positive : is_neg (length amx) ≡ false = ground arith in
    let rest : drop_first (length amx) file ≡ block ++ behind = drop-append amx (block ++ behind) in
    let header : header_of (block ++ behind) ≡ hdr t =
      unfold block_bytes in
      (ap header_of (append_assoc (header_bytes versions flags t) (tables_bytes t) behind)
        ∙ header_of_lem versions flags t (tables_bytes t ++ behind) i) in
    rw (sized, positive, rest, header, magic, flag) (load_block_lem versions flags _ behind t i)
