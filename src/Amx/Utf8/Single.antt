-- ===== src/Amx/Utf8/Single.antt =====
-- One character in UTF-8, written and read (src/amx/amx.c, lines 4038 to 4190).
use samp_plugin_crashdetect.Prelude.{
  ℕ, ◌<◌, ◌≤◌, ◌≡◌, sym, arith, false, ◌||◌, ltb, slt, if◌then◌else◌, List, [], ◌++◌, sign_bit,
  Bool-cases, inl, inr, length,
}
use samp_plugin_crashdetect.Amx.Error.{err_none, err_params}
use samp_plugin_crashdetect.Amx.Utf8.{is_reserved, amx_utf8_get, put_bytes, amx_utf8_put}
use samp_plugin_crashdetect.Amx.Utf8.Codes.{code, get-1, get-2, get-3, get-4, get-5, get-6}

pub get-code :
    (v : ℕ) (rest : List ℕ)
    → v < sign_bit
    → is_reserved v ≡ false
    → amx_utf8_get (code v ++ rest) ≡ (err_none, v, rest)
unfolding code
get-code v rest h free = elim (Bool-cases (ltb v 128)) [
  | inl a ↦ rw a (get-1 v rest (ground (arith, a)))
  | inr a ↦ elim (Bool-cases (ltb v 2048)) [
    | inl b ↦ rw (a, b) (get-2 v rest (ground (arith, a)) (ground (arith, b)) free)
    | inr b ↦ elim (Bool-cases (ltb v 65536)) [
      | inl c ↦ rw (a, b, c) (get-3 v rest (ground (arith, b)) (ground (arith, c)) free)
      | inr c ↦ elim (Bool-cases (ltb v 2097152)) [
        | inl d ↦ rw (a, b, c, d) (get-4 v rest (ground (arith, c)) (ground (arith, d)) free)
        | inr d ↦ elim (Bool-cases (ltb v 67108864)) [
          | inl f ↦ rw (a, b, c, d, f) (get-5 v rest (ground (arith, d)) (ground (arith, f)) free)
          | inr f ↦ rw (a, b, c, d, f) (get-6 v rest (ground (arith, f)) h free)
        ]
      ]
    ]
  ]
]

not_reserved_low : (v : ℕ) → v < 55296 → is_reserved v ≡ false
unfolding is_reserved
not_reserved_low v h = ground arith

not_reserved_high : (v : ℕ) → 65536 ≤ v → is_reserved v ≡ false
unfolding is_reserved
not_reserved_high v h = ground arith

slt-ltb : (v k : ℕ) → v < sign_bit → k < sign_bit → slt v k ≡ ltb v k
slt-ltb v k h l = ground arith

-- What is written: the code, unless there is no room for it or the character is reserved
put-code :
    (maxchars v : ℕ)
    → v < sign_bit
    → amx_utf8_put maxchars v ≡ (
        if slt maxchars (length (code v)) || is_reserved v
        then (err_params, [])
        else (err_none, code v))
unfolding amx_utf8_put code put_bytes
put-code maxchars v h =
    rw
      (
        slt-ltb v 128 h (omega arith),
        slt-ltb v 2048 h (omega arith),
        slt-ltb v 65536 h (omega arith),
        slt-ltb v 2097152 h (omega arith),
        slt-ltb v 67108864 h (omega arith),
      )
      (elim (Bool-cases (ltb v 128)) [
        | inl a ↦ rw a (ground (arith, not_reserved_low v (ground (arith, a))))
        | inr a ↦ elim (Bool-cases (ltb v 2048)) [
          | inl b ↦ rw (a, b) (ground (arith, not_reserved_low v (ground (arith, b))))
          | inr b ↦ elim (Bool-cases (ltb v 65536)) [
            | inl c ↦ rw (a, b, c) (ground arith)
            | inr c ↦
                let free : is_reserved v ≡ false = not_reserved_high v (ground (arith, c)) in
                elim (Bool-cases (ltb v 2097152)) [
                  | inl d ↦ rw (a, b, c, d) (ground (arith, free))
                  | inr d ↦ elim (Bool-cases (ltb v 67108864)) [
                    | inl f ↦ rw (a, b, c, d, f) (ground (arith, free))
                    | inr f ↦ rw (a, b, c, d, f) (ground (arith, free))
                  ]
                ]
          ]
        ]
      ])

-- A character that is not negative, written where there is room, is read back, with what follows it.
pub get-put :
    (maxchars value : ℕ) (bytes rest : List ℕ)
    → value < sign_bit
    → amx_utf8_put maxchars value ≡ (err_none, bytes)
    → amx_utf8_get (bytes ++ rest) ≡ (err_none, value, rest)
get-put maxchars v bytes rest h e =
    elim (Bool-cases (slt maxchars (length (code v)) || is_reserved v)) [
      | inl bad ↦ absurd (ground (arith, e, put-code maxchars v h, bad))
      | inr good ↦
          let same : code v ≡ bytes = ground (arith, e, put-code maxchars v h, good) in
          rw (sym same) (get-code v rest h (ground (arith, good)))
    ]
