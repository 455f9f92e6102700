-- ===== src/Strings/Joined.antt =====
-- Splitting what was joined (src/stringutils.cpp, lines 37 to 49).
use samp_plugin_crashdetect.Prelude.{
  ℕ, zero, suc, ◌≤◌, ◌≡◌, ◌≢◌, refl, ◌∙◌, arith, Bool, true, false, not, ◌==◌, ◌&&◌, List, [], ◌∷◌,
  ◌++◌, length, length-append,
}
use samp_plugin_crashdetect.Strings.{part, behind, split_loop, split_string}

-- The parts with the delimiter between them
unfoldable pub join : ℕ → List (List ℕ) → List ℕ
join delim [] = []
join delim (p ∷ []) = p
join delim (p ∷ q ∷ ps) = p ++ delim ∷ join delim (q ∷ ps)

unfoldable pub lacks : ℕ → List ℕ → Bool
lacks delim [] = true
lacks delim (c ∷ s) = not (c == delim) && lacks delim s

-- No part has the delimiter, and the last part is not empty.
unfoldable pub parts_of : ℕ → List (List ℕ) → Bool
unfolding lacks
parts_of delim [] = true
parts_of delim ([] ∷ []) = false
parts_of delim ((c ∷ p) ∷ []) = lacks delim (c ∷ p)
parts_of delim (p ∷ q ∷ ps) = lacks delim p && parts_of delim (q ∷ ps)

part-joined :
    (delim : ℕ) (p s : List ℕ)
    → lacks delim p ≡ true
    → (part delim (p ++ delim ∷ s) ≡ p) × (behind delim (p ++ delim ∷ s) ≡ s)
unfolding lacks part behind
part-joined delim [] s h = (ground arith, ground arith)
part-joined delim (c ∷ p) s h =
    let (one, two) = part-joined delim p s (ground (arith, h)) in
    (ground (arith, h, one), ground (arith, h, two))

part-last :
    (delim : ℕ) (p : List ℕ) → lacks delim p ≡ true → (part delim p ≡ p) × (behind delim p ≡ [])
unfolding lacks part behind
part-last delim [] h = (refl, refl)
part-last delim (c ∷ p) h =
    let (one, two) = part-last delim p (ground (arith, h)) in
    (ground (arith, h, one), ground (arith, h, two))

-- One round, at a string that is not empty
round :
    (delim fuel : ℕ) (s : List ℕ)
    → s ≢ []
    → split_loop delim (suc fuel) s ≡ part delim s ∷ split_loop delim fuel (behind delim s)
unfolding split_loop
round delim fuel [] h = absurd (h refl)
round delim fuel (c ∷ s) h = refl

loop-nil : (delim fuel : ℕ) → split_loop delim fuel [] ≡ []
unfolding split_loop
loop-nil delim zero = refl
loop-nil delim (suc fuel) = refl

not-nil : (delim : ℕ) (p s : List ℕ) → p ++ delim ∷ s ≢ []
not-nil delim [] s h = cc
not-nil delim (c ∷ p) s h = cc

loop-join :
    (delim fuel : ℕ) (ps : List (List ℕ))
    → parts_of delim ps ≡ true
    → length (join delim ps) ≤ fuel
    → split_loop delim fuel (join delim ps) ≡ ps
unfolding join parts_of
loop-join delim fuel [] h n = loop-nil delim fuel
loop-join delim fuel ([] ∷ []) h n = cc
loop-join delim zero ((c ∷ p) ∷ []) h n = absurd (omega arith)
loop-join delim (suc fuel) ((c ∷ p) ∷ []) h n =
    let (one, two) = part-last delim (c ∷ p) h in
    round delim fuel (c ∷ p) (λ e. cc) ∙ rw (one, two, loop-nil delim fuel) refl
loop-join delim zero (p ∷ q ∷ ps) h n =
    absurd (omega (arith, length-append p (delim ∷ join delim (q ∷ ps))))
loop-join delim (suc fuel) (p ∷ q ∷ ps) h n =
    let rest = join delim (q ∷ ps) in
    let (one, two) = part-joined delim p rest (ground (arith, h)) in
    let ih =
      loop-join delim fuel (q ∷ ps) (ground (arith, h))
        (omega (arith, length-append p (delim ∷ rest))) in
    round delim fuel (p ++ delim ∷ rest) (not-nil delim p rest) ∙ rw (one, two, ih) refl

-- Splitting gives back the parts that were joined, the empty ones among them too, if no part has the
-- delimiter and the last part is not empty.
pub split_string-join :
    (delim : ℕ) (ps : List (List ℕ))
    → parts_of delim ps ≡ true
    → split_string delim (join delim ps) ≡ ps
unfolding split_string
split_string-join delim ps h = loop-join delim (length (join delim ps)) ps h (omega arith)
