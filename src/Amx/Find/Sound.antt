-- ===== src/Amx/Find/Sound.antt =====
-- Where the binary search for a name ends (src/amx/amx.c, lines 1304 to 1328 and 1360 to 1385).
use samp_plugin_crashdetect.Prelude.{
  ℕ, zero, suc, ◌+◌, ◌-◌, ◌/◌, ◌<◌, ◌≤◌, ◌≡◌, refl, arith, true, false, ltb, List, [], ◌∷◌, some,
  get_elem?, length, Bool-cases, inl, inr,
}
use samp_plugin_crashdetect.Amx.State.{Stub}
use samp_plugin_crashdetect.Debug.Table.{same_name}
use samp_plugin_crashdetect.Amx.Find.{name_lt, Search, found, absent, bisect, find_stub}

-- The search has found an entry of the name, or none.
pub data Sound (name : List ℕ) (stubs : List Stub) : Search → Type 0 where
  hit :
      {i : ℕ} {f : Stub}
      → get_elem? stubs i ≡ some f
      → same_name f.name name ≡ true
      → Sound name stubs (found i)
  miss : Sound name stubs absent

pub same : (a b : List ℕ) → name_lt a b ≡ false → name_lt b a ≡ false → same_name b a ≡ true
unfolding name_lt same_name
same [] [] h k = refl
same [] (b ∷ q) h k = ground (arith, h)
same (a ∷ p) [] h k = ground (arith, k)
same (a ∷ p) (b ∷ q) h k = ground (arith, same p q, h, k)

pub inside : (i : ℕ) (xs : List Stub) → i < length xs → (f : Stub) × (get_elem? xs i ≡ some f)
inside i [] h = ground (arith, h)
inside zero (x ∷ xs) h = (x, refl)
inside (suc i) (x ∷ xs) h = inside i xs (omega (arith, h))

bisect-Sound :
    (fuel : ℕ) (name : List ℕ) (stubs : List Stub) (first past : ℕ)
    → past ≤ length stubs
    → past ≤ first + fuel
    → Sound name stubs (bisect fuel name stubs first past)
unfolding bisect
bisect-Sound zero name stubs first past h k =
    let stop : ltb first past ≡ false = ground (arith, k) in rw (bisect, stop) miss
bisect-Sound (suc fuel) name stubs first past h k = elim (Bool-cases (ltb first past)) [
  | inr stop ↦ rw (bisect, stop) miss
  | inl go ↦
      let mid = (first + (past - 1)) / 2 in
      let (f, e) = inside mid stubs (ground (arith, go, h)) in
      elim (Bool-cases (name_lt name f.name)) [
        | inl low ↦
            rw (bisect, go, e, low)
              (bisect-Sound fuel name stubs first mid (ground (arith, go, h))
                (ground (arith, go, k)))
        | inr not_low ↦ elim (Bool-cases (name_lt f.name name)) [
          | inl high ↦
              rw (bisect, go, e, not_low, high)
                (bisect-Sound fuel name stubs (mid + 1) past h (ground (arith, go, k)))
          | inr not_high ↦
              rw (bisect, go, e, not_low, not_high) (hit e (same name f.name not_low not_high))
        ]
      ]
]

-- The search for a name in any table ends within as many rounds as the table has entries and reads
-- inside the table only, and an entry that it finds has the name.
pub find_stub-Sound : (name : List ℕ) (stubs : List Stub) → Sound name stubs (find_stub name stubs)
unfolding find_stub
find_stub-Sound name stubs =
    bisect-Sound (length stubs) name stubs 0 (length stubs) (omega arith) (omega arith)
