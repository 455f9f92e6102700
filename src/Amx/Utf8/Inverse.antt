-- ===== src/Amx/Utf8/Inverse.antt =====
-- What the follow-up bytes of a code say of it (src/amx/amx.c, lines 4080 to 4117).
use samp_plugin_crashdetect.Prelude.{
  ℕ, suc, ◌+◌, ◌*◌, ◌/◌, ◌%◌, ◌<◌, ◌≤◌, ◌≡◌, ◌∙◌, ap, sym, refl, arith, true, false, ◌==◌, ltb,
  List, [], ◌∷◌, ◌++◌, Option, none, some, sign_bit, Bool-cases, inl, inr,
}
use samp_plugin_crashdetect.Amx.Error.{err_none}
use samp_plugin_crashdetect.Amx.Utf8.{
  entry, utf8_lowmark, follow_up, is_reserved, checked, follower,
}
use samp_plugin_crashdetect.Amx.Utf8.Codes.{code}

-- What a string begins with: the code of a character that is not reserved, and what follows it
pub record Begins (s : List ℕ) (v : ℕ) (rest : List ℕ) : Type 0 where
  pub spelled : s ≡ code v ++ rest
  pub bounded : v < sign_bit
  pub free : is_reserved v ≡ false

pub record Followed (n r : ℕ) (s : List ℕ) (w : ℕ) (t : List ℕ) : Type 0 where
  pub bits : ℕ
  pub rest : List ℕ
  pub small : bits < 64
  pub here : s ≡ (bits + 128) ∷ rest
  pub on : follow_up n (r * 64 + bits) rest ≡ some (w, t)

pub follow-inv :
    (n r : ℕ) (s : List ℕ) (w : ℕ) (t : List ℕ)
    → follow_up (suc n) r s ≡ some (w, t)
    → Followed n r s w t
unfolding follow_up
follow-inv n r [] w t e = cc
follow-inv n r (c ∷ s) w t e = elim (Bool-cases (c / 64 == 2)) [
  | inl y ↦
      let whole : c ≡ c % 64 + 128 = ground (arith, y) in
      record {
        bits = c % 64;
        rest = s;
        small = omega arith;
        here = ap (λ k. k ∷ s) whole;
        on = rw y at e;
      }
  | inr n' ↦ absurd (ground (arith, e, n'))
]

pub follow-end :
    (r : ℕ) (s : List ℕ) (w : ℕ) (t : List ℕ) → follow_up 0 r s ≡ some (w, t) → (w ≡ r) × (s ≡ t)
unfolding follow_up
follow-end r s w t e = (cc, cc)

-- The result of the checks
pub checked-inv :
    (s : List ℕ) (f v : ℕ) (rest : List ℕ) (o : Option (ℕ × List ℕ))
    → checked s f o ≡ (err_none, v, rest)
    → (o ≡ some (v, rest)) × (ltb v (entry utf8_lowmark f) ≡ false) × (is_reserved v ≡ false)
unfolding checked
checked-inv s f v rest none e = absurd (ground (arith, e))
checked-inv s f v rest (some (w, t)) e = ground (arith, e)

-- A code of two bytes
code-2 : (v : ℕ) → 128 ≤ v → v < 2048 → code v ≡ (v / 64 % 32 + 192) ∷ follower v 1 ∷ []
unfolding code
code-2 v low high =
    let a : ltb v 128 ≡ false = ground arith in
    let y : ltb v 2048 ≡ true = ground arith in rw (a, y) refl

pub invert_2 :
    (c : ℕ) (s : List ℕ) (v : ℕ) (rest : List ℕ)
    → 192 ≤ c
    → c < 224
    → follow_up 1 (c % 32) s ≡ some (v, rest)
    → 128 ≤ v
    → is_reserved v ≡ false
    → Begins (c ∷ s) v rest
invert_2 c s v rest low high e least free =
    let f0 = follow-inv 0 (c % 32) s v rest e in
    let (value, end) = follow-end ((c % 32) * 64 + f0.bits) f0.rest v rest f0.on in
    let head : v / 64 % 32 + 192 ≡ c = omega (arith, value, f0.small) in
    let d0 : follower v 1 ≡ f0.bits + 128 = omega (arith, value, f0.small) in
    let short : v < 2048 = omega (arith, value, f0.small) in
    let all : s ≡ (f0.bits + 128) ∷ rest =
      f0.here ∙ ap (λ (k : List ℕ). (f0.bits + 128) ∷ k) (end) in
    let spelling : code v ++ rest ≡ c ∷ (f0.bits + 128) ∷ rest =
      rw (code-2 v least short, head, d0) refl in
    record {
      spelled = ap (λ (k : List ℕ). c ∷ k) all ∙ sym spelling;
      bounded = omega (arith, short);
      free = free;
    }

-- A code of three bytes
code-3 :
    (v : ℕ)
    → 2048 ≤ v
    → v < 65536
    → code v ≡ (v / 4096 % 16 + 224) ∷ follower v 64 ∷ follower v 1 ∷ []
unfolding code
code-3 v low high =
    let a : ltb v 128 ≡ false = ground arith in
    let b : ltb v 2048 ≡ false = ground arith in
    let y : ltb v 65536 ≡ true = ground arith in rw (a, b, y) refl

pub invert_3 :
    (c : ℕ) (s : List ℕ) (v : ℕ) (rest : List ℕ)
    → 224 ≤ c
    → c < 240
    → follow_up 2 (c % 16) s ≡ some (v, rest)
    → 2048 ≤ v
    → is_reserved v ≡ false
    → Begins (c ∷ s) v rest
invert_3 c s v rest low high e least free =
    let f0 = follow-inv 1 (c % 16) s v rest e in
    let f1 = follow-inv 0 ((c % 16) * 64 + f0.bits) f0.rest v rest f0.on in
    let (value, end) = follow-end (((c % 16) * 64 + f0.bits) * 64 + f1.bits) f1.rest v rest f1.on in
    let head : v / 4096 % 16 + 224 ≡ c = omega (arith, value, f0.small, f1.small) in
    let d0 : follower v 64 ≡ f0.bits + 128 = omega (arith, value, f0.small, f1.small) in
    let d1 : follower v 1 ≡ f1.bits + 128 = omega (arith, value, f0.small, f1.small) in
    let short : v < 65536 = omega (arith, value, f0.small, f1.small) in
    let all : s ≡ (f0.bits + 128) ∷ (f1.bits + 128) ∷ rest =
      f0.here
      ∙ ap (λ (k : List ℕ). (f0.bits + 128) ∷ k)
          (f1.here ∙ ap (λ (k : List ℕ). (f1.bits + 128) ∷ k) (end)) in
    let spelling : code v ++ rest ≡ c ∷ (f0.bits + 128) ∷ (f1.bits + 128) ∷ rest =
      rw (code-3 v least short, head, d0, d1) refl in
    record {
      spelled = ap (λ (k : List ℕ). c ∷ k) all ∙ sym spelling;
      bounded = omega (arith, short);
      free = free;
    }

-- A code of four bytes
code-4 :
    (v : ℕ)
    → 65536 ≤ v
    → v < 2097152
    → code v ≡ (v / 262144 % 8 + 240) ∷ follower v 4096 ∷ follower v 64 ∷ follower v 1 ∷ []
unfolding code
code-4 v low high =
    let a : ltb v 128 ≡ false = ground arith in
    let b : ltb v 2048 ≡ false = ground arith in
    let c : ltb v 65536 ≡ false = ground arith in
    let y : ltb v 2097152 ≡ true = ground arith in rw (a, b, c, y) refl

pub invert_4 :
    (c : ℕ) (s : List ℕ) (v : ℕ) (rest : List ℕ)
    → 240 ≤ c
    → c < 248
    → follow_up 3 (c % 8) s ≡ some (v, rest)
    → 65536 ≤ v
    → is_reserved v ≡ false
    → Begins (c ∷ s) v rest
invert_4 c s v rest low high e least free =
    let f0 = follow-inv 2 (c % 8) s v rest e in
    let f1 = follow-inv 1 ((c % 8) * 64 + f0.bits) f0.rest v rest f0.on in
    let f2 = follow-inv 0 (((c % 8) * 64 + f0.bits) * 64 + f1.bits) f1.rest v rest f1.on in
    let (value, end) =
      follow-end ((((c % 8) * 64 + f0.bits) * 64 + f1.bits) * 64 + f2.bits) f2.rest v rest f2.on in
    let head : v / 262144 % 8 + 240 ≡ c = omega (arith, value, f0.small, f1.small, f2.small) in
    let d0 : follower v 4096 ≡ f0.bits + 128 = omega (arith, value, f0.small, f1.small, f2.small) in
    let d1 : follower v 64 ≡ f1.bits + 128 = omega (arith, value, f0.small, f1.small, f2.small) in
    let d2 : follower v 1 ≡ f2.bits + 128 = omega (arith, value, f0.small, f1.small, f2.small) in
    let short : v < 2097152 = omega (arith, value, f0.small, f1.small, f2.small) in
    let all : s ≡ (f0.bits + 128) ∷ (f1.bits + 128) ∷ (f2.bits + 128) ∷ rest =
      f0.here
      ∙ ap (λ (k : List ℕ). (f0.bits + 128) ∷ k)
          (f1.here
            ∙ ap (λ (k : List ℕ). (f1.bits + 128) ∷ k)
                (f2.here ∙ ap (λ (k : List ℕ). (f2.bits + 128) ∷ k) (end))) in
    let spelling : code v ++ rest ≡ c ∷ (f0.bits + 128) ∷ (f1.bits + 128) ∷ (f2.bits + 128) ∷ rest =
      rw (code-4 v least short, head, d0, d1, d2) refl in
    record {
      spelled = ap (λ (k : List ℕ). c ∷ k) all ∙ sym spelling;
      bounded = omega (arith, short);
      free = free;
    }
