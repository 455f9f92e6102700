-- ===== src/Amx/Memory.antt =====
-- The address space of the 32-bit process, as src/amx/amx.c and src/amxref.cpp read and write it:
-- `*(cell *)(data + offs)` is `read32 m (add32 data offs)`, in little-endian byte order. A byte
-- function has a value at every address, so a read that would fault in the process is some byte.
use samp_plugin_crashdetect.Prelude.{
  ℕ, ◌+◌, ◌-◌, ◌*◌, ◌/◌, ◌%◌, ◌≤◌, ◌<◌, ◌≡◌, ◌≢◌, ◌==◌, if◌then◌else◌, arith, word_mod, IsCell,
}

abbrev pub Mem : Type 0
Mem = ℕ → ℕ

unfoldable pub read8 : Mem → ℕ → ℕ
read8 m a = m (a % word_mod) % 256

unfoldable pub write8 : Mem → ℕ → ℕ → Mem
write8 m a v q = if q == a % word_mod then v % 256 else m q

unfoldable pub read16 : Mem → ℕ → ℕ
unfolding read8
read16 m a = read8 m a + 256 * read8 m (a + 1)

unfoldable pub write16 : Mem → ℕ → ℕ → Mem
unfolding write8
write16 m a v = write8 (write8 m a v) (a + 1) (v / 256)

unfoldable pub read32 : Mem → ℕ → ℕ
unfolding read8
read32 m a =
    read8 m a + 256 * read8 m (a + 1) + 65536 * read8 m (a + 2) + 16777216 * read8 m (a + 3)

unfoldable pub write32 : Mem → ℕ → ℕ → Mem
unfolding write8
write32 m a v =
    write8 (write8 (write8 (write8 m a v) (a + 1) (v / 256)) (a + 2) (v / 65536)) (a + 3)
      (v / 16777216)

pub read8-lt : (m : Mem) (a : ℕ) → read8 m a < 256
unfolding read8
read8-lt m a = omega arith

read32-IsCell : (m : Mem) (a : ℕ) → IsCell (read32 m a)
unfolding read32
read32-IsCell m a =
    omega (arith, read8-lt m a, read8-lt m (a + 1), read8-lt m (a + 2), read8-lt m (a + 3))

read8-write8 :
    (m : Mem) (a b v : ℕ)
    → read8 (write8 m a v) b ≡ (if b % word_mod == a % word_mod then v % 256 else read8 m b)
unfolding read8 write8
read8-write8 m a b v = ground arith

-- A byte of a written cell.
read8-write32 :
    (m : Mem) (a b v : ℕ)
    → read8 (write32 m a v) b ≡ (
        if b % word_mod == (a + 3) % word_mod
        then v / 16777216 % 256
        else if b % word_mod == (a + 2) % word_mod
        then v / 65536 % 256
        else if b % word_mod == (a + 1) % word_mod
        then v / 256 % 256
        else if b % word_mod == a % word_mod
        then v % 256
        else read8 m b)
unfolding write32
read8-write32 m a b v = ground (
  arith,
  read8-write8 m a b v,
  read8-write8 (write8 m a v) (a + 1) b (v / 256),
  read8-write8 (write8 (write8 m a v) (a + 1) (v / 256)) (a + 2) b (v / 65536),
  read8-write8 (write8 (write8 (write8 m a v) (a + 1) (v / 256)) (a + 2) (v / 65536)) (a + 3) b
      (v / 16777216),
)

-- A cell that was stored is read back.
pub read32-write32 : (m : Mem) (a v : ℕ) → read32 (write32 m a v) a ≡ v % word_mod
unfolding read32
read32-write32 m a v = ground (
  arith,
  read8-write32 m a a v,
  read8-write32 m a (a + 1) v,
  read8-write32 m a (a + 2) v,
  read8-write32 m a (a + 3) v,
)

-- The two cells at `a` and `b` have no byte in common.
abbrev pub Apart : ℕ → ℕ → Type 0
Apart a b =
    (4 ≤ (a % word_mod + word_mod - b % word_mod) % word_mod)
    × (4 ≤ (b % word_mod + word_mod - a % word_mod) % word_mod)

outside :
    (m : Mem) (a b v : ℕ)
    → b % word_mod ≢ a % word_mod
    → b % word_mod ≢ (a + 1) % word_mod
    → b % word_mod ≢ (a + 2) % word_mod
    → b % word_mod ≢ (a + 3) % word_mod
    → read8 (write32 m a v) b ≡ read8 m b
outside m a b v h0 h1 h2 h3 = ground (arith, read8-write32 m a b v)

-- A store leaves the other cells as they were.
pub read32-write32_ne : (m : Mem) (a b v : ℕ) → Apart a b → read32 (write32 m a v) b ≡ read32 m b
unfolding read32
read32-write32_ne m a b v h = omega (
  arith,
  outside m a b v (omega arith) (omega arith) (omega arith) (omega arith),
  outside m a (b + 1) v (omega arith) (omega arith) (omega arith) (omega arith),
  outside m a (b + 2) v (omega arith) (omega arith) (omega arith) (omega arith),
  outside m a (b + 3) v (omega arith) (omega arith) (omega arith) (omega arith),
)
