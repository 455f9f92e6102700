-- ===== src/Amx/Utf8/Shortest.antt =====
-- A code that is read is the shortest one (src/amx/amx.c, lines 4047 to 4128).
use samp_plugin_crashdetect.Prelude.{
  ℕ, suc, ◌/◌, ◌%◌, ◌^◌, ◌<◌, ◌≤◌, ◌≡◌, ◌≢◌, ◌∙◌, ap, sym, refl, arith, true, false, ◌||◌, ltb, leb,
  List, ◌∷◌, some, Bool-cases, inl, inr, ◌⊎◌, ◌↔◌,
}
use samp_plugin_crashdetect.Amx.Error.{err_none, err_params}
use samp_plugin_crashdetect.Amx.Utf8.{
  Got, entry, utf8_lowmark, follow_up, is_reserved, amx_utf8_get,
}
use samp_plugin_crashdetect.Amx.Utf8.Single.{get-code}
use samp_plugin_crashdetect.Amx.Utf8.Codes.{code, count, get-step}
use samp_plugin_crashdetect.Amx.Utf8.Inverse.{Begins, invert_2, invert_3, invert_4, checked-inv}
use samp_plugin_crashdetect.Amx.Utf8.Long.{invert_5, invert_6}

-- The first byte of a longer code, in the classes of the table
split-count :
    (c : ℕ)
    → 192 ≤ c
    → c < 254
    → (c < 224)
      ⊎ ((224 ≤ c) × (c < 240))
      ⊎ ((240 ≤ c) × (c < 248))
      ⊎ ((248 ≤ c) × (c < 252))
      ⊎ (252 ≤ c)
split-count c low high = elim (Bool-cases (ltb c 224)) [
  | inl a ↦ inl (ground (arith, a))
  | inr a ↦ elim (Bool-cases (ltb c 240)) [
    | inl b ↦ inr (inl (ground (arith, a), ground (arith, b)))
    | inr b ↦ elim (Bool-cases (ltb c 248)) [
      | inl d ↦ inr (inr (inl (ground (arith, b), ground (arith, d))))
      | inr d ↦ elim (Bool-cases (ltb c 252)) [
        | inl f ↦ inr (inr (inr (inl (ground (arith, d), ground (arith, f)))))
        | inr f ↦ inr (inr (inr (inr (ground (arith, f)))))
      ]
    ]
  ]
]

begins-long :
    (c f m : ℕ) (s : List ℕ) (v : ℕ) (rest : List ℕ)
    → 192 ≤ c
    → c < 254
    → count (c / 4 % 16) ≡ f
    → 32 / 2 ^ f ≡ m
    → amx_utf8_get (c ∷ s) ≡ (err_none, v, rest)
    → (follow_up (suc f) (c % m) s ≡ some (v, rest))
      × (ltb v (entry utf8_lowmark f) ≡ false)
      × (is_reserved v ≡ false)
begins-long c f m s v rest low high e k got =
    checked-inv (c ∷ s) f v rest (follow_up (suc f) (c % m) s)
      (rw (sym k) (sym (get-step c f s low high e) ∙ got))

long-2 :
    (c : ℕ) (s : List ℕ) (v : ℕ) (rest : List ℕ)
    → 192 ≤ c
    → c < 224
    → amx_utf8_get (c ∷ s) ≡ (err_none, v, rest)
    → Begins (c ∷ s) v rest
unfolding count entry
long-2 c s v rest low high got =
    let (e, least, free) =
      begins-long c 0 32 s v rest (omega arith) (omega arith) (ground arith) refl got in
    invert_2 c s v rest low high e (ground (arith, least)) free

long-3 :
    (c : ℕ) (s : List ℕ) (v : ℕ) (rest : List ℕ)
    → 224 ≤ c
    → c < 240
    → amx_utf8_get (c ∷ s) ≡ (err_none, v, rest)
    → Begins (c ∷ s) v rest
unfolding count entry
long-3 c s v rest low high got =
    let (e, least, free) =
      begins-long c 1 16 s v rest (omega arith) (omega arith) (ground arith) refl got in
    invert_3 c s v rest low high e (ground (arith, least)) free

long-4 :
    (c : ℕ) (s : List ℕ) (v : ℕ) (rest : List ℕ)
    → 240 ≤ c
    → c < 248
    → amx_utf8_get (c ∷ s) ≡ (err_none, v, rest)
    → Begins (c ∷ s) v rest
unfolding count entry
long-4 c s v rest low high got =
    let (e, least, free) =
      begins-long c 2 8 s v rest (omega arith) (omega arith) (ground arith) refl got in
    invert_4 c s v rest low high e (ground (arith, least)) free

long-5 :
    (c : ℕ) (s : List ℕ) (v : ℕ) (rest : List ℕ)
    → 248 ≤ c
    → c < 252
    → amx_utf8_get (c ∷ s) ≡ (err_none, v, rest)
    → Begins (c ∷ s) v rest
unfolding count entry
long-5 c s v rest low high got =
    let (e, least, free) =
      begins-long c 3 4 s v rest (omega arith) (omega arith) (ground arith) refl got in
    invert_5 c s v rest low high e (ground (arith, least)) free

long-6 :
    (c : ℕ) (s : List ℕ) (v : ℕ) (rest : List ℕ)
    → 252 ≤ c
    → c < 254
    → amx_utf8_get (c ∷ s) ≡ (err_none, v, rest)
    → Begins (c ∷ s) v rest
unfolding count entry
long-6 c s v rest low high got =
    let (e, least, free) =
      begins-long c 4 2 s v rest (omega arith) (omega arith) (ground arith) refl got in
    invert_6 c s v rest low high e (ground (arith, least)) free

-- A byte below 128
ascii :
    (c : ℕ) (s : List ℕ) (v : ℕ) (rest : List ℕ)
    → c < 128
    → amx_utf8_get (c ∷ s) ≡ (err_none, v, rest)
    → Begins (c ∷ s) v rest
unfolding amx_utf8_get code is_reserved
ascii c s v rest low got =
    let k : ltb c 128 ≡ true = ground arith in
    let both : ◌≡◌ {A = Got} (err_none, c, s) (err_none, v, rest) = rw k at got in
    let value : c ≡ v = ap (λ (p : Got). p.1) both in
    let end : s ≡ rest = ap (λ (p : Got). p.2) both in
    let same : c % 256 ≡ c = omega arith in
    record {
      spelled = rw (sym value, k, same, end) refl;
      bounded = omega (arith, value);
      free = ground (arith, value);
    }

-- A byte that no code begins with
no_code :
    (c : ℕ) (s : List ℕ) (v : ℕ) (rest : List ℕ)
    → 128 ≤ c
    → (ltb c 192 || leb 254 c) ≡ true
    → amx_utf8_get (c ∷ s) ≢ (err_none, v, rest)
unfolding amx_utf8_get
no_code c s v rest low bad got =
    let k : ltb c 128 ≡ false = ground arith in
    let both : ◌≡◌ {A = Got} (err_params, 0, c ∷ s) (err_none, v, rest) = rw (k, bad) at got in
    absurd (ground (arith, both))

-- What is read from a string that is not empty
pub get-Begins :
    (c : ℕ) (s : List ℕ) (v : ℕ) (rest : List ℕ)
    → amx_utf8_get (c ∷ s) ≡ (err_none, v, rest)
    → Begins (c ∷ s) v rest
get-Begins c s v rest got = elim (Bool-cases (ltb c 128)) [
  | inl a ↦ ascii c s v rest (ground (arith, a)) got
  | inr a ↦ elim (Bool-cases (ltb c 192 || leb 254 c)) [
    | inl bad ↦ absurd (no_code c s v rest (ground (arith, a)) bad got)
    | inr good ↦
        let low : 192 ≤ c = ground (arith, good) in
        let high : c < 254 = ground (arith, good) in
        elim (split-count c low high) [
          | inl h ↦ long-2 c s v rest low h got
          | inr (inl (l, h)) ↦ long-3 c s v rest l h got
          | inr (inr (inl (l, h))) ↦ long-4 c s v rest l h got
          | inr (inr (inr (inl (l, h)))) ↦ long-5 c s v rest l h got
          | inr (inr (inr (inr l))) ↦ long-6 c s v rest l high got
        ]
  ]
]

-- A string that is not empty begins with a character, as `amx_UTF8Get` reads it, exactly when it begins
-- with that character's code, the shortest one, and the character is below 2 ^ 31 and not reserved.
pub get_ok_iff :
    (c : ℕ) (s : List ℕ) (v : ℕ) (rest : List ℕ)
    → (amx_utf8_get (c ∷ s) ≡ (err_none, v, rest)) ↔ Begins (c ∷ s) v rest
get_ok_iff c s v rest =
    (get-Begins c s v rest, λ b. ap amx_utf8_get b.spelled ∙ get-code v rest b.bounded b.free)
