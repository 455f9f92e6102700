-- ===== src/Debug/Load/Entries.antt =====
-- The entries of the tables, as a compiler writes them, read back (src/amx/amxdbg.h, lines 69 to 123, and
-- src/amx/amxdbg.c, lines 128 to 237).
use mathlib.Core.List.{append_assoc}
use samp_plugin_crashdetect.Prelude.{
  ℕ, ◌+◌, ◌*◌, ◌/◌, ◌%◌, ◌<◌, ◌≡◌, ◌≢◌, refl, arith, false, ◌==◌, word_mod, List, [], ◌∷◌, ◌++◌,
  some, length,
}
use samp_plugin_crashdetect.Debug.Table.{File, Line, Symbol, SymbolDim, Tag, Machine, State}
use samp_plugin_crashdetect.Debug.Load.{
  Reader, and_then, done, read_byte, read_u16, read_u32, read_name, read_name_behind, read_times,
  read_file, read_line, read_dim, read_symbol, read_tag, read_automaton, read_state,
}

-- Numbers in little-endian byte order, and a name with its end
unfoldable pub u16 : ℕ → List ℕ
u16 v = v % 256 ∷ v / 256 % 256 ∷ []

unfoldable pub u32 : ℕ → List ℕ
u32 v = v % 256 ∷ v / 256 % 256 ∷ v / 65536 % 256 ∷ v / 16777216 % 256 ∷ []

unfoldable pub zeroed : List ℕ → List ℕ
zeroed name = name ++ (0 ∷ [])

unfoldable pub each : {A : Type 0} → (A → List ℕ) → List A → List ℕ
each f [] = []
each f (x ∷ xs) = f x ++ each f xs

unfoldable pub file_bytes : File → List ℕ
file_bytes f = u32 f.address ++ zeroed f.name

unfoldable pub line_bytes : Line → List ℕ
line_bytes l = u32 l.address ++ u32 l.line

unfoldable pub dim_bytes : SymbolDim → List ℕ
dim_bytes d = u16 d.tag ++ u32 d.size

unfoldable pub symbol_bytes : Symbol → List ℕ
symbol_bytes y =
    u32 y.address
    ++ (u16 y.tag
        ++ (u32 y.codestart
            ++ (u32 y.codeend
                ++ ((y.ident ∷ y.vclass ∷ [])
                    ++ (u16 (length y.dims) ++ (zeroed y.name ++ each dim_bytes y.dims))))))

unfoldable pub tag_bytes : Tag → List ℕ
tag_bytes t = u16 t.tag ++ zeroed t.name

unfoldable pub automaton_bytes : Machine → List ℕ
automaton_bytes m = u16 m.automaton ++ (u32 m.address ++ zeroed m.name)

unfoldable pub state_bytes : State → List ℕ
state_bytes s = u16 s.state ++ (u16 s.automaton ++ zeroed s.name)

abbrev pub half_mod : ℕ
half_mod = 65536

-- No character of a name is a zero.
abbrev pub IsName : List ℕ → Type 0
IsName [] = Unit
IsName (c ∷ s) = (c ≢ 0) × IsName s

abbrev pub IsEach : {A : Type 0} → (A → Type 0) → List A → Type 0
IsEach P [] = Unit
IsEach P (x ∷ xs) = P x × IsEach P xs

abbrev pub IsFile : File → Type 0
IsFile f = (f.address < word_mod) × IsName f.name × (f.name ≢ [])

abbrev pub IsLine : Line → Type 0
IsLine l = (l.address < word_mod) × (l.line < word_mod)

abbrev pub IsDim : SymbolDim → Type 0
IsDim d = (d.tag < half_mod) × (d.size < word_mod)

abbrev pub IsSymbol : Symbol → Type 0
IsSymbol y =
    (y.address < word_mod)
    × (y.tag < half_mod)
    × (y.codestart < word_mod)
    × (y.codeend < word_mod)
    × (length y.dims < half_mod)
    × IsName y.name
    × (y.name ≢ [])
    × IsEach IsDim y.dims

abbrev pub IsTag : Tag → Type 0
IsTag t = (t.tag < half_mod) × IsName t.name

abbrev pub IsAutomaton : Machine → Type 0
IsAutomaton m = (m.automaton < half_mod) × (m.address < word_mod) × IsName m.name

abbrev pub IsState : State → Type 0
IsState s = (s.state < half_mod) × (s.automaton < half_mod) × IsName s.name

read-u16 : (v : ℕ) (s : List ℕ) → v < half_mod → read_u16 (u16 v ++ s) ≡ some (v, s)
unfolding read_u16 u16
read-u16 v s h = let e : v % 256 + 256 * (v / 256 % 256) ≡ v = omega arith in rw e refl

read-u32 : (v : ℕ) (s : List ℕ) → v < word_mod → read_u32 (u32 v ++ s) ≡ some (v, s)
unfolding read_u32 u32
read-u32 v s h =
    let e : v % 256
          + 256 * (v / 256 % 256)
          + 65536 * (v / 65536 % 256)
          + 16777216 * (v / 16777216 % 256)
        ≡ v =
      omega arith in
    rw e refl

read-name : (n s : List ℕ) → IsName n → read_name (zeroed n ++ s) ≡ some (n, s)
unfolding read_name zeroed
read-name [] s h = refl
read-name (c ∷ n) s (h, t) = let k : c == 0 ≡ false = ground arith in rw (k, read-name n s t) refl

read-name_behind :
    (n s : List ℕ) → IsName n → n ≢ [] → read_name_behind (zeroed n ++ s) ≡ some (n, s)
unfolding read_name_behind zeroed and_then done read_byte
read-name_behind [] s h k = absurd (k refl)
read-name_behind (c ∷ n) s (h, t) k =
    let z : c == 0 ≡ false = ground arith in rw (z, read-name n s t) refl

-- a table
pub read-each :
    {A : Type 0} (P : A → Type 0) (bytes : A → List ℕ) (r : Reader A)
    → ((x : A) (s : List ℕ) → P x → r (bytes x ++ s) ≡ some (x, s))
    → (xs : List A) (s : List ℕ) → IsEach P xs
    → read_times (length xs) r (each bytes xs ++ s) ≡ some (xs, s)
unfolding read_times each and_then done
read-each P bytes r one [] s h = refl
read-each P bytes r one (x ∷ xs) s (h, t) =
    rw
      (
        append_assoc (bytes x) (each bytes xs) s,
        one x (each bytes xs ++ s) h,
        read-each P bytes r one xs s t,
      )
      refl

pub read_file_lem : (f : File) (s : List ℕ) → IsFile f → read_file (file_bytes f ++ s) ≡ some (f, s)
unfolding read_file file_bytes and_then done
read_file_lem f s (a, n, k) =
    rw
      (
        append_assoc (u32 f.address) (zeroed f.name) s,
        read-u32 f.address (zeroed f.name ++ s) a,
        read-name_behind f.name s n k,
      )
      refl

pub read_line_lem : (l : Line) (s : List ℕ) → IsLine l → read_line (line_bytes l ++ s) ≡ some (l, s)
unfolding read_line line_bytes and_then done
read_line_lem l s (a, b) =
    rw
      (
        append_assoc (u32 l.address) (u32 l.line) s,
        read-u32 l.address (u32 l.line ++ s) a,
        read-u32 l.line s b,
      )
      refl

pub read_dim_lem :
    (d : SymbolDim) (s : List ℕ) → IsDim d → read_dim (dim_bytes d ++ s) ≡ some (d, s)
unfolding read_dim dim_bytes and_then done
read_dim_lem d s (a, b) =
    rw
      (
        append_assoc (u16 d.tag) (u32 d.size) s,
        read-u16 d.tag (u32 d.size ++ s) a,
        read-u32 d.size s b,
      )
      refl

pub read_tag_lem : (t : Tag) (s : List ℕ) → IsTag t → read_tag (tag_bytes t ++ s) ≡ some (t, s)
unfolding read_tag tag_bytes and_then done
read_tag_lem t s (a, n) =
    rw
      (
        append_assoc (u16 t.tag) (zeroed t.name) s,
        read-u16 t.tag (zeroed t.name ++ s) a,
        read-name t.name s n,
      )
      refl

pub read_automaton_lem :
    (m : Machine) (s : List ℕ)
    → IsAutomaton m
    → read_automaton (automaton_bytes m ++ s) ≡ some (m, s)
unfolding read_automaton automaton_bytes and_then done
read_automaton_lem m s (a, b, n) =
    rw
      (
        append_assoc (u16 m.automaton) (u32 m.address ++ zeroed m.name) s,
        append_assoc (u32 m.address) (zeroed m.name) s,
        read-u16 m.automaton (u32 m.address ++ (zeroed m.name ++ s)) a,
        read-u32 m.address (zeroed m.name ++ s) b,
        read-name m.name s n,
      )
      refl

pub read_state_lem :
    (x : State) (s : List ℕ) → IsState x → read_state (state_bytes x ++ s) ≡ some (x, s)
unfolding read_state state_bytes and_then done
read_state_lem x s (a, b, n) =
    rw
      (
        append_assoc (u16 x.state) (u16 x.automaton ++ zeroed x.name) s,
        append_assoc (u16 x.automaton) (zeroed x.name) s,
        read-u16 x.state (u16 x.automaton ++ (zeroed x.name ++ s)) a,
        read-u16 x.automaton (zeroed x.name ++ s) b,
        read-name x.name s n,
      )
      refl

pub read_symbol_lem :
    (y : Symbol) (s : List ℕ) → IsSymbol y → read_symbol (symbol_bytes y ++ s) ≡ some (y, s)
unfolding read_symbol symbol_bytes and_then done read_byte
read_symbol_lem y s (a, b, c, d, m, n, k, e) =
    rw
      (
        append_assoc (u32 y.address)
            (u16 y.tag
              ++ (u32 y.codestart
                  ++ (u32 y.codeend
                      ++ ((y.ident ∷ y.vclass ∷ [])
                          ++ (u16 (length y.dims) ++ (zeroed y.name ++ each dim_bytes y.dims))))))
            s,
        append_assoc (u16 y.tag)
            (u32 y.codestart
              ++ (u32 y.codeend
                  ++ ((y.ident ∷ y.vclass ∷ [])
                      ++ (u16 (length y.dims) ++ (zeroed y.name ++ each dim_bytes y.dims)))))
            s,
        append_assoc (u32 y.codestart)
            (u32 y.codeend
              ++ ((y.ident ∷ y.vclass ∷ [])
                  ++ (u16 (length y.dims) ++ (zeroed y.name ++ each dim_bytes y.dims))))
            s,
        append_assoc (u32 y.codeend)
            ((y.ident ∷ y.vclass ∷ [])
              ++ (u16 (length y.dims) ++ (zeroed y.name ++ each dim_bytes y.dims)))
            s,
        append_assoc ((y.ident ∷ y.vclass ∷ []))
            (u16 (length y.dims) ++ (zeroed y.name ++ each dim_bytes y.dims)) s,
        append_assoc (u16 (length y.dims)) (zeroed y.name ++ each dim_bytes y.dims) s,
        append_assoc (zeroed y.name) (each dim_bytes y.dims) s,
        read-u32 y.address
            (u16 y.tag
              ++ (u32 y.codestart
                  ++ (u32 y.codeend
                      ++ ((y.ident ∷ y.vclass ∷ [])
                          ++ (u16 (length y.dims)
                              ++ (zeroed y.name ++ (each dim_bytes y.dims ++ s)))))))
            a,
        read-u16 y.tag
            (u32 y.codestart
              ++ (u32 y.codeend
                  ++ ((y.ident ∷ y.vclass ∷ [])
                      ++ (u16 (length y.dims) ++ (zeroed y.name ++ (each dim_bytes y.dims ++ s))))))
            b,
        read-u32 y.codestart
            (u32 y.codeend
              ++ ((y.ident ∷ y.vclass ∷ [])
                  ++ (u16 (length y.dims) ++ (zeroed y.name ++ (each dim_bytes y.dims ++ s)))))
            c,
        read-u32 y.codeend
            ((y.ident ∷ y.vclass ∷ [])
              ++ (u16 (length y.dims) ++ (zeroed y.name ++ (each dim_bytes y.dims ++ s))))
            d,
        read-u16 (length y.dims) (zeroed y.name ++ (each dim_bytes y.dims ++ s)) m,
        read-name_behind y.name (each dim_bytes y.dims ++ s) n k,
        read-each IsDim dim_bytes read_dim read_dim_lem y.dims s e,
      )
      refl
