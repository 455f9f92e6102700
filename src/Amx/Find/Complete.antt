-- ===== src/Amx/Find/Complete.antt =====
-- The binary search in a sorted table (src/amx/amx.c, lines 1304 to 1328 and 1360 to 1385).
use samp_plugin_crashdetect.Prelude.{
  ℕ, zero, suc, ◌+◌, ◌-◌, ◌/◌, ◌<◌, ◌≤◌, ◌≡◌, refl, ap, arith, Bool, true, false, ltb, ◌&&◌, List,
  [], ◌∷◌, some, get_elem?, length, inl, inr, ◌⊎◌,
}
use samp_plugin_crashdetect.Amx.State.{Stub}
use samp_plugin_crashdetect.Debug.Table.{same_name}
use samp_plugin_crashdetect.Amx.Find.{name_lt, found, bisect, find_stub}
use samp_plugin_crashdetect.Amx.Find.Sound.{inside}

-- Every name of the table comes before the ones behind it.
unfoldable pub all_after : List ℕ → List Stub → Bool
all_after name [] = true
all_after name (f ∷ fs) = name_lt name f.name && all_after name fs

unfoldable pub strictly_sorted : List Stub → Bool
strictly_sorted [] = true
strictly_sorted (f ∷ fs) = all_after f.name fs && strictly_sorted fs

same-eq : (a b : List ℕ) → same_name a b ≡ true → a ≡ b
unfolding same_name
same-eq [] [] h = refl
same-eq [] (b ∷ q) h = ground (arith, h)
same-eq (a ∷ p) [] h = ground (arith, h)
same-eq (a ∷ p) (b ∷ q) h = ground (arith, same-eq p q, h)

asymmetric : (a b : List ℕ) → name_lt a b ≡ true → name_lt b a ≡ false
unfolding name_lt
asymmetric [] [] h = refl
asymmetric [] (b ∷ q) h = refl
asymmetric (a ∷ p) [] h = ground (arith, h)
asymmetric (a ∷ p) (b ∷ q) h = ground (arith, asymmetric p q, h)

irreflexive : (a : List ℕ) → name_lt a a ≡ false
unfolding name_lt
irreflexive [] = refl
irreflexive (a ∷ p) = ground (arith, irreflexive p)

later :
    (name : List ℕ) (j : ℕ) (xs : List Stub) (g : Stub)
    → all_after name xs ≡ true
    → get_elem? xs j ≡ some g
    → name_lt name g.name ≡ true
unfolding all_after
later name j [] g h e = ground (arith, e)
later name zero (x ∷ xs) g h e = ground (arith, h, e)
later name (suc j) (x ∷ xs) g h e = later name j xs g (ground (arith, h)) e

sorted-lt :
    (i j : ℕ) (xs : List Stub) (f g : Stub)
    → strictly_sorted xs ≡ true
    → i < j
    → get_elem? xs i ≡ some f
    → get_elem? xs j ≡ some g
    → name_lt f.name g.name ≡ true
unfolding strictly_sorted
sorted-lt i j [] f g s h e k = ground (arith, e)
sorted-lt i zero (x ∷ xs) f g s h e k = ground (arith, h)
sorted-lt zero (suc j) (x ∷ xs) f g s h e k =
    let is : x ≡ f = ground (arith, e) in rw is at (later x.name j xs g (ground (arith, s)) k)
sorted-lt (suc i) (suc j) (x ∷ xs) f g s h e k =
    sorted-lt i j xs f g (ground (arith, s)) (omega (arith, h)) e k

bound : (i : ℕ) (xs : List Stub) (f : Stub) → get_elem? xs i ≡ some f → i < length xs
bound i [] f e = ground (arith, e)
bound zero (x ∷ xs) f e = omega arith
bound (suc i) (x ∷ xs) f e = omega (arith, bound i xs f e)

bisect_finds :
    (fuel : ℕ) (stubs : List Stub) (first past i : ℕ) (g : Stub)
    → strictly_sorted stubs ≡ true
    → get_elem? stubs i ≡ some g
    → first ≤ i
    → i < past
    → past ≤ length stubs
    → past ≤ first + fuel
    → bisect fuel g.name stubs first past ≡ found i
unfolding bisect
bisect_finds zero stubs first past i g s e l u h k = ground (arith, l, u, k)
bisect_finds (suc fuel) stubs first past i g s e l u h k =
    let mid = (first + (past - 1)) / 2 in
    let go : ltb first past ≡ true = ground (arith, l, u) in
    let (f, at) = inside mid stubs (ground (arith, l, u, h)) in
    elim (order mid i) [
      | inl below ↦
          let lt = sorted-lt mid i stubs f g s below at e in
          rw (bisect, go, at, asymmetric f.name g.name lt, lt)
            (bisect_finds fuel stubs (mid + 1) past i g s e (omega (arith, below)) u h
              (ground (arith, l, u, k)))
      | inr (inl above) ↦
          let lt = sorted-lt i mid stubs g f s above e at in
          rw (bisect, go, at, lt)
            (bisect_finds fuel stubs first mid i g s e l above (ground (arith, l, u, h))
              (ground (arith, l, u, k)))
      | inr (inr here) ↦
          let is : f ≡ g = ground (arith, at, e, here) in
          rw (bisect, go, at, is, irreflexive g.name) (ap found here)
    ]
  where
    order : (a b : ℕ) → (a < b) ⊎ ((b < a) ⊎ (a ≡ b))
    order a b = ground arith

-- In a table whose names are in ascending order, as `strcmp` compares them, the search for a name that
-- some entry has finds the index of that entry.
pub find_stub_finds :
    (name : List ℕ) (stubs : List Stub) (i : ℕ) (f : Stub)
    → strictly_sorted stubs ≡ true
    → get_elem? stubs i ≡ some f
    → same_name f.name name ≡ true
    → find_stub name stubs ≡ found i
unfolding find_stub
find_stub_finds name stubs i f s e n = rw (same-eq f.name name n) at (
    bisect_finds (length stubs) stubs 0 (length stubs) i f s e (omega arith) (bound i stubs f e)
      (omega arith) (omega arith))
