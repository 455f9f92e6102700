-- ===== src/Amx/Utf8/Long.antt =====
-- The codes of five and six bytes, inverted (src/amx/amx.c, lines 4080 to 4117).
use samp_plugin_crashdetect.Prelude.{
  ℕ, ◌+◌, ◌*◌, ◌/◌, ◌%◌, ◌<◌, ◌≤◌, ◌≡◌, ◌∙◌, ap, sym, refl, arith, true, false, ltb, List, [], ◌∷◌,
  ◌++◌, some,
}
use samp_plugin_crashdetect.Amx.Utf8.{follow_up, is_reserved, follower}
use samp_plugin_crashdetect.Amx.Utf8.Codes.{code}
use samp_plugin_crashdetect.Amx.Utf8.Inverse.{Begins, follow-inv, follow-end}

-- A code of five bytes
code-5 :
    (v : ℕ)
    → 2097152 ≤ v
    → v < 67108864
    → code v
      ≡ (v / 16777216 % 4 + 248)
        ∷ follower v 262144
        ∷ follower v 4096
        ∷ follower v 64
        ∷ follower v 1
        ∷ []
unfolding code
code-5 v low high =
    let a : ltb v 128 ≡ false = ground arith in
    let b : ltb v 2048 ≡ false = ground arith in
    let c : ltb v 65536 ≡ false = ground arith in
    let d : ltb v 2097152 ≡ false = ground arith in
    let y : ltb v 67108864 ≡ true = ground arith in rw (a, b, c, d, y) refl

pub invert_5 :
    (c : ℕ) (s : List ℕ) (v : ℕ) (rest : List ℕ)
    → 248 ≤ c
    → c < 252
    → follow_up 4 (c % 4) s ≡ some (v, rest)
    → 2097152 ≤ v
    → is_reserved v ≡ false
    → Begins (c ∷ s) v rest
invert_5 c s v rest low high e least free =
    let f0 = follow-inv 3 (c % 4) s v rest e in
    let f1 = follow-inv 2 ((c % 4) * 64 + f0.bits) f0.rest v rest f0.on in
    let f2 = follow-inv 1 (((c % 4) * 64 + f0.bits) * 64 + f1.bits) f1.rest v rest f1.on in
    let f3 =
      follow-inv 0 ((((c % 4) * 64 + f0.bits) * 64 + f1.bits) * 64 + f2.bits) f2.rest v rest
        f2.on in
    let (value, end) =
      follow-end (((((c % 4) * 64 + f0.bits) * 64 + f1.bits) * 64 + f2.bits) * 64 + f3.bits) f3.rest
        v rest f3.on in
    let head : v / 16777216 % 4 + 248 ≡ c =
      omega (arith, value, f0.small, f1.small, f2.small, f3.small) in
    let d0 : follower v 262144 ≡ f0.bits + 128 =
      omega (arith, value, f0.small, f1.small, f2.small, f3.small) in
    let d1 : follower v 4096 ≡ f1.bits + 128 =
      omega (arith, value, f0.small, f1.small, f2.small, f3.small) in
    let d2 : follower v 64 ≡ f2.bits + 128 =
      omega (arith, value, f0.small, f1.small, f2.small, f3.small) in
    let d3 : follower v 1 ≡ f3.bits + 128 =
      omega (arith, value, f0.small, f1.small, f2.small, f3.small) in
    let short : v < 67108864 = omega (arith, value, f0.small, f1.small, f2.small, f3.small) in
    let all : s ≡ (f0.bits + 128) ∷ (f1.bits + 128) ∷ (f2.bits + 128) ∷ (f3.bits + 128) ∷ rest =
      f0.here
      ∙ ap (λ (k : List ℕ). (f0.bits + 128) ∷ k)
          (f1.here
            ∙ ap (λ (k : List ℕ). (f1.bits + 128) ∷ k)
                (f2.here
                  ∙ ap (λ (k : List ℕ). (f2.bits + 128) ∷ k)
                      (f3.here ∙ ap (λ (k : List ℕ). (f3.bits + 128) ∷ k) (end)))) in
    let spelling : code v ++ rest
        ≡ c ∷ (f0.bits + 128) ∷ (f1.bits + 128) ∷ (f2.bits + 128) ∷ (f3.bits + 128) ∷ rest =
      rw (code-5 v least short, head, d0, d1, d2, d3) refl in
    record {
      spelled = ap (λ (k : List ℕ). c ∷ k) all ∙ sym spelling;
      bounded = omega (arith, short);
      free = free;
    }

-- A code of six bytes
code-6 :
    (v : ℕ)
    → 67108864 ≤ v
    → v < 2147483648
    → code v
      ≡ (v / 1073741824 % 2 + 252)
        ∷ follower v 16777216
        ∷ follower v 262144
        ∷ follower v 4096
        ∷ follower v 64
        ∷ follower v 1
        ∷ []
unfolding code
code-6 v low high =
    let a : ltb v 128 ≡ false = ground arith in
    let b : ltb v 2048 ≡ false = ground arith in
    let c : ltb v 65536 ≡ false = ground arith in
    let d : ltb v 2097152 ≡ false = ground arith in
    let e : ltb v 67108864 ≡ false = ground arith in rw (a, b, c, d, e) refl

pub invert_6 :
    (c : ℕ) (s : List ℕ) (v : ℕ) (rest : List ℕ)
    → 252 ≤ c
    → c < 254
    → follow_up 5 (c % 2) s ≡ some (v, rest)
    → 67108864 ≤ v
    → is_reserved v ≡ false
    → Begins (c ∷ s) v rest
invert_6 c s v rest low high e least free =
    let f0 = follow-inv 4 (c % 2) s v rest e in
    let f1 = follow-inv 3 ((c % 2) * 64 + f0.bits) f0.rest v rest f0.on in
    let f2 = follow-inv 2 (((c % 2) * 64 + f0.bits) * 64 + f1.bits) f1.rest v rest f1.on in
    let f3 =
      follow-inv 1 ((((c % 2) * 64 + f0.bits) * 64 + f1.bits) * 64 + f2.bits) f2.rest v rest
        f2.on in
    let f4 =
      follow-inv 0 (((((c % 2) * 64 + f0.bits) * 64 + f1.bits) * 64 + f2.bits) * 64 + f3.bits)
        f3.rest v rest f3.on in
    let (value, end) =
      follow-end
        ((((((c % 2) * 64 + f0.bits) * 64 + f1.bits) * 64 + f2.bits) * 64 + f3.bits) * 64 + f4.bits)
        f4.rest v rest f4.on in
    let head : v / 1073741824 % 2 + 252 ≡ c =
      omega (arith, value, f0.small, f1.small, f2.small, f3.small, f4.small) in
    let d0 : follower v 16777216 ≡ f0.bits + 128 =
      omega (arith, value, f0.small, f1.small, f2.small, f3.small, f4.small) in
    let d1 : follower v 262144 ≡ f1.bits + 128 =
      omega (arith, value, f0.small, f1.small, f2.small, f3.small, f4.small) in
    let d2 : follower v 4096 ≡ f2.bits + 128 =
      omega (arith, value, f0.small, f1.small, f2.small, f3.small, f4.small) in
    let d3 : follower v 64 ≡ f3.bits + 128 =
      omega (arith, value, f0.small, f1.small, f2.small, f3.small, f4.small) in
    let d4 : follower v 1 ≡ f4.bits + 128 =
      omega (arith, value, f0.small, f1.small, f2.small, f3.small, f4.small) in
    let short : v < 2147483648 =
      omega (arith, value, f0.small, f1.small, f2.small, f3.small, f4.small) in
    let all : s
        ≡ (f0.bits + 128)
          ∷ (f1.bits + 128)
          ∷ (f2.bits + 128)
          ∷ (f3.bits + 128)
          ∷ (f4.bits + 128)
          ∷ rest =
      f0.here
      ∙ ap (λ (k : List ℕ). (f0.bits + 128) ∷ k)
          (f1.here
            ∙ ap (λ (k : List ℕ). (f1.bits + 128) ∷ k)
                (f2.here
                  ∙ ap (λ (k : List ℕ). (f2.bits + 128) ∷ k)
                      (f3.here
                        ∙ ap (λ (k : List ℕ). (f3.bits + 128) ∷ k)
                            (f4.here ∙ ap (λ (k : List ℕ). (f4.bits + 128) ∷ k) (end))))) in
    let spelling : code v ++ rest
        ≡ c
          ∷ (f0.bits + 128)
          ∷ (f1.bits + 128)
          ∷ (f2.bits + 128)
          ∷ (f3.bits + 128)
          ∷ (f4.bits + 128)
          ∷ rest =
      rw (code-6 v least short, head, d0, d1, d2, d3, d4) refl in
    record {
      spelled = ap (λ (k : List ℕ). c ∷ k) all ∙ sym spelling;
      bounded = omega (arith, short);
      free = free;
    }
