-- ===== src/Trace/Contents/Texts.antt =====
-- The strings that the stack trace shows (src/amxstacktrace.cpp, lines 240 to 304).
use samp_plugin_crashdetect.Prelude.{
  ℕ, zero, suc, ◌+◌, ◌-◌, ◌*◌, ◌/◌, ◌%◌, ◌≤◌, ◌<◌, ◌≡◌, ◌⊎◌, inl, inr, refl, sym, ap, ◌∙◌, arith,
  Bool, true, false, Bool-cases, ◌==◌, ltb, add32, sshr32, List, [], ◌∷◌, some, get_elem?, length,
  if◌then◌else◌,
}
use samp_plugin_crashdetect.Amx.Memory.{Mem, read8, read32, read8-lt}
use samp_plugin_crashdetect.Amx.State.{Amx}
use samp_plugin_crashdetect.Trace.Frame.{is_data_address}
use samp_plugin_crashdetect.Trace.Contents.{
  is_printable_char, packed_char, unpacked_char, get_chars, get_packed_string, get_unpacked_string,
  get_string_contents, get_data_ptr, is_packed_string, get_max_string_size, unpacked_max,
}

-- The longest run of printable characters from `i` on, of at most `n`
pub record Longest (char : ℕ → ℕ) (i n : ℕ) (s : List ℕ) : Type 0 where
  pub within : length s ≤ n
  pub spelled :
      (k c : ℕ) → get_elem? s k ≡ some c → (c ≡ char (i + k)) × (is_printable_char c ≡ true)
  pub ended : (length s ≡ n) ⊎ (is_printable_char (char (i + length s)) ≡ false)

stop : (char : ℕ → ℕ) (i n : ℕ) → is_printable_char (char i) ≡ false → Longest char i (suc n) []
stop char i n h = record {
  within = omega arith;
  spelled = λ k c e. cc;
  ended = inr (rw (zero_right i) h);
}
  where
    zero_right : (k : ℕ) → k + 0 ≡ k
    zero_right k = omega arith

go_on :
    (char : ℕ → ℕ) (i n : ℕ) (s : List ℕ)
    → is_printable_char (char i) ≡ true
    → Longest char (i + 1) n s
    → Longest char i (suc n) (char i ∷ s)
go_on char i n s h rest = record {
  within = omega (arith, rest.within);
  spelled = spelled;
  ended = elim rest.ended [ inl all ↦ inl (omega arith) | inr bad ↦ inr (rw shift bad) ];
}
  where
    shift : i + length (char i ∷ s) ≡ i + 1 + length s
    shift = omega arith

    spelled :
        (k c : ℕ)
        → get_elem? (char i ∷ s) k ≡ some c
        → (c ≡ char (i + k)) × (is_printable_char c ≡ true)
    spelled zero c e =
        let here : i + 0 ≡ i = omega arith in
        let first : char i ≡ c = cc in (rw here (sym first), rw (sym first) h)
    spelled (suc k) c e =
        let there : i + suc k ≡ i + 1 + k = omega arith in rw there (rest.spelled k c e)

get_chars-Longest : (char : ℕ → ℕ) (i n : ℕ) → Longest char i n (get_chars char i n)
unfolding get_chars
get_chars-Longest char i zero = record {
  within = omega arith;
  spelled = λ k c e. cc;
  ended = inl refl;
}
get_chars-Longest char i (suc n) = elim (Bool-cases (is_printable_char (char i))) [
  | inl good ↦ rw good (go_on char i n _ good (get_chars-Longest char (i + 1) n))
  | inr bad ↦ rw bad (stop char i n bad)
]

-- The bytes of a cell, by arithmetic shifts
shifted :
    (b₀ b₁ b₂ b₃ : ℕ)
    → b₀ < 256
    → b₁ < 256
    → b₂ < 256
    → b₃ < 256
    → let x = b₀ + 256 * b₁ + 65536 * b₂ + 16777216 * b₃ in
      (sshr32 x 24 % 256 ≡ b₃)
      × (sshr32 x 16 % 256 ≡ b₂)
      × (sshr32 x 8 % 256 ≡ b₁)
      × (sshr32 x 0 % 256 ≡ b₀)
shifted b₀ b₁ b₂ b₃ h₀ h₁ h₂ h₃ = (ground arith, ground arith, ground arith, ground arith)

mod4-cases : (i : ℕ) → (i % 4 ≡ 0) ⊎ ((i % 4 ≡ 1) ⊎ ((i % 4 ≡ 2) ⊎ (i % 4 ≡ 3)))
mod4-cases i = ground arith

-- A packed string has its characters from each cell's most significant byte down.
packed-byte :
    (m : Mem) (string i : ℕ)
    → packed_char m string i ≡ read8 m (add32 string (i / 4 * 4) + (3 - i % 4))
unfolding packed_char read32
packed-byte m string i =
    let a = add32 string (i / 4 * 4) in
    let bytes =
      shifted (read8 m a) (read8 m (a + 1)) (read8 m (a + 2)) (read8 m (a + 3)) (read8-lt m a)
        (read8-lt m (a + 1)) (read8-lt m (a + 2)) (read8-lt m (a + 3)) in
    elim (mod4-cases i) [
      | inl e ↦ rw e (bytes.0)
      | inr (inl e) ↦ rw e (bytes.1)
      | inr (inr (inl e)) ↦ rw e (bytes.2)
      | inr (inr (inr e)) ↦ let here : a + 0 ≡ a = omega arith in rw (e, here) (bytes.3)
    ]

unpacked-byte : (m : Mem) (string i : ℕ) → unpacked_char m string i ≡ read8 m (add32 string (i * 4))
unfolding unpacked_char read32
unpacked-byte m string i = let a = add32 string (i * 4) in omega (arith, read8-lt m a)

-- The place of a string's character `i`: in a packed one each cell has four, from its most significant
-- byte down; in an unpacked one it is the least significant byte of a cell.
unfoldable pub place : Bool → ℕ → ℕ → ℕ
place true string i = add32 string (i / 4 * 4) + (3 - i % 4)
place false string i = add32 string (i * 4)

Longest-ext :
    (c d : ℕ → ℕ) (i n : ℕ) (s : List ℕ) → ((k : ℕ) → c k ≡ d k) → Longest c i n s → Longest d i n s
Longest-ext c d i n s e l = record {
  within = l.within;
  spelled = λ k x h. let p = l.spelled k x h in (p.0 ∙ e (i + k), p.1);
  ended = elim l.ended [
    | inl all ↦ inl all
    | inr bad ↦ inr (ap is_printable_char (sym (e (i + length s))) ∙ bad)
  ];
}

read-Longest :
    (packed : Bool) (m : Mem) (ptr n : ℕ)
    → Longest
        (λ i. read8 m (place packed ptr i))
        0
        n
        (if packed then get_packed_string m ptr n else get_unpacked_string m ptr n)
unfolding get_packed_string get_unpacked_string place
read-Longest true m ptr n =
    Longest-ext _ _ 0 n _ (packed-byte m ptr) (get_chars-Longest (packed_char m ptr) 0 n)
read-Longest false m ptr n =
    Longest-ext _ _ 0 n _ (unpacked-byte m ptr) (get_chars-Longest (unpacked_char m ptr) 0 n)

-- What is shown of a string in the data section is the longest run of printable characters from its begin,
-- packed or not as its first cell says. Its bound is `size` characters or, where `size` is 0, as many
-- characters as the data section has bytes from the address on. A packed string's characters are bytes;
-- an unpacked one has a character in each cell, so that its bound lies up to four times as far away as
-- the end of the data section.
pub get_string_contents-Longest :
    (a : Amx) (m : Mem) (address size : ℕ)
    → is_data_address a address ≡ true
    → let (shown, packed) = get_string_contents a m address size in
      (packed ≡ ltb unpacked_max (read32 m (add32 a.data_ptr address)))
      × Longest
          (λ i. read8 m (place packed (add32 a.data_ptr address) i))
          0
          (if size == 0 then get_max_string_size a address else size)
          shown
unfolding get_string_contents get_data_ptr is_packed_string
get_string_contents-Longest a m address size inside =
    rw (get_string_contents, get_data_ptr, inside)
      (refl, read-Longest _ m (add32 a.data_ptr address) _)
