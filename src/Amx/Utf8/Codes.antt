-- ===== src/Amx/Utf8/Codes.antt =====
-- The codes of one to six bytes, read (src/amx/amx.c, lines 4047 to 4128).
use samp_plugin_crashdetect.Prelude.{
  ℕ, zero, suc, ◌+◌, ◌*◌, ◌/◌, ◌%◌, ◌^◌, ◌<◌, ◌≤◌, ◌≡◌, sym, ◌∙◌, refl, arith, true, false, ◌||◌,
  ◌==◌, ltb, leb, if◌then◌else◌, List, [], ◌∷◌, some,
}
use samp_plugin_crashdetect.Amx.Error.{err_none}
use samp_plugin_crashdetect.Amx.Utf8.{
  entry, utf8_count, utf8_lowmark, follow_up, is_reserved, checked, amx_utf8_get, follower,
}

-- The table of counts
unfoldable pub count : (n : ℕ) → ℕ
count n =
    if ltb n 8 then 0 else if ltb n 12 then 1 else if ltb n 14 then 2 else if ltb n 15 then 3 else 4

pub count_lem : (n : ℕ) → n < 16 → entry utf8_count n ≡ count n
unfolding entry count
count_lem zero h = refl
count_lem (suc zero) h = refl
count_lem (suc (suc zero)) h = refl
count_lem (suc (suc (suc zero))) h = refl
count_lem (suc (suc (suc (suc zero)))) h = refl
count_lem (suc (suc (suc (suc (suc zero))))) h = refl
count_lem (suc (suc (suc (suc (suc (suc zero)))))) h = refl
count_lem (suc (suc (suc (suc (suc (suc (suc zero))))))) h = refl
count_lem (suc (suc (suc (suc (suc (suc (suc (suc zero)))))))) h = refl
count_lem (suc (suc (suc (suc (suc (suc (suc (suc (suc zero))))))))) h = refl
count_lem (suc (suc (suc (suc (suc (suc (suc (suc (suc (suc zero)))))))))) h = refl
count_lem (suc (suc (suc (suc (suc (suc (suc (suc (suc (suc (suc zero))))))))))) h = refl
count_lem (suc (suc (suc (suc (suc (suc (suc (suc (suc (suc (suc (suc zero)))))))))))) h = refl
count_lem (suc (suc (suc (suc (suc (suc (suc (suc (suc (suc (suc (suc (suc zero))))))))))))) h =
    refl
count_lem (suc (suc (suc (suc (suc (suc (suc (suc (suc (suc (suc (suc (suc (suc zero))))))))))))))
      h =
    refl
count_lem
      (suc (suc (suc (suc (suc (suc (suc (suc (suc (suc (suc (suc (suc (suc (suc zero)))))))))))))))
      h =
    refl
count_lem
      (suc
        (suc (suc (suc (suc (suc (suc (suc (suc (suc (suc (suc (suc (suc (suc (suc n))))))))))))))))
      h =
    absurd (omega arith)

-- The first byte of a longer code
pub get-step :
    (c f : ℕ) (s : List ℕ)
    → 192 ≤ c
    → c < 254
    → count (c / 4 % 16) ≡ f
    → amx_utf8_get (c ∷ s) ≡ checked (c ∷ s) f (follow_up (suc f) (c % (32 / 2 ^ f)) s)
unfolding amx_utf8_get
get-step c f s low high e =
    let k : ltb c 128 ≡ false = ground arith in
    let l : ltb c 192 || leb 254 c ≡ false = ground arith in
    rw (k, l, count_lem (c / 4 % 16) (omega arith), e) refl

-- A follow-up byte
pub follow-step :
    (n r d : ℕ) (s : List ℕ)
    → d < 64
    → follow_up (suc n) r ((d + 128) ∷ s) ≡ follow_up n (r * 64 + d) s
unfolding follow_up
follow-step n r d s h =
    let k : (d + 128) / 64 == 2 ≡ true = ground arith in
    let l : (d + 128) % 64 ≡ d = omega arith in rw (k, l) refl

pub checked-ok :
    (s t : List ℕ) (f v w : ℕ)
    → v ≡ w
    → ltb v (entry utf8_lowmark f) ≡ false
    → is_reserved v ≡ false
    → checked s f (some (w, t)) ≡ (err_none, v, t)
unfolding checked
checked-ok s t f v w e low free = rw (sym e) (rw (low, free) refl)

-- A code of two bytes
pub get-2 :
    (v : ℕ) (s : List ℕ)
    → 128 ≤ v
    → v < 2048
    → is_reserved v ≡ false
    → amx_utf8_get ((v / 64 % 32 + 192) ∷ follower v 1 ∷ s) ≡ (err_none, v, s)
unfolding entry count follow_up
get-2 v s low high free =
    let c = v / 64 % 32 + 192 in
    let r0 = (c % (32 / 2 ^ 0)) in
    let w = r0 * 64 + v / 1 % 64 in
    let whole = follower v 1 ∷ s in
    let all : follow_up 1 r0 whole ≡ some (w, s) =
      follow-step 0 r0 (v / 1 % 64) (s) (omega arith) in
    get-step c 0 whole (omega arith) (omega arith) (ground arith)
    ∙ rw all (checked-ok (c ∷ whole) s 0 v w (omega arith) (ground (arith, low)) free)

-- A code of three bytes
pub get-3 :
    (v : ℕ) (s : List ℕ)
    → 2048 ≤ v
    → v < 65536
    → is_reserved v ≡ false
    → amx_utf8_get ((v / 4096 % 16 + 224) ∷ follower v 64 ∷ follower v 1 ∷ s) ≡ (err_none, v, s)
unfolding entry count follow_up
get-3 v s low high free =
    let c = v / 4096 % 16 + 224 in
    let r0 = (c % (32 / 2 ^ 1)) in
    let r1 = r0 * 64 + v / 64 % 64 in
    let w = r1 * 64 + v / 1 % 64 in
    let whole = follower v 64 ∷ follower v 1 ∷ s in
    let all : follow_up 2 r0 whole ≡ some (w, s) =
      follow-step 1 r0 (v / 64 % 64) (follower v 1 ∷ s) (omega arith)
      ∙ follow-step 0 r1 (v / 1 % 64) (s) (omega arith) in
    get-step c 1 whole (omega arith) (omega arith) (ground arith)
    ∙ rw all (checked-ok (c ∷ whole) s 1 v w (omega arith) (ground (arith, low)) free)

-- A code of four bytes
pub get-4 :
    (v : ℕ) (s : List ℕ)
    → 65536 ≤ v
    → v < 2097152
    → is_reserved v ≡ false
    → amx_utf8_get ((v / 262144 % 8 + 240) ∷ follower v 4096 ∷ follower v 64 ∷ follower v 1 ∷ s)
      ≡ (err_none, v, s)
unfolding entry count follow_up
get-4 v s low high free =
    let c = v / 262144 % 8 + 240 in
    let r0 = (c % (32 / 2 ^ 2)) in
    let r1 = r0 * 64 + v / 4096 % 64 in
    let r2 = r1 * 64 + v / 64 % 64 in
    let w = r2 * 64 + v / 1 % 64 in
    let whole = follower v 4096 ∷ follower v 64 ∷ follower v 1 ∷ s in
    let all : follow_up 3 r0 whole ≡ some (w, s) =
      follow-step 2 r0 (v / 4096 % 64) (follower v 64 ∷ follower v 1 ∷ s) (omega arith)
      ∙ follow-step 1 r1 (v / 64 % 64) (follower v 1 ∷ s) (omega arith)
      ∙ follow-step 0 r2 (v / 1 % 64) (s) (omega arith) in
    get-step c 2 whole (omega arith) (omega arith) (ground arith)
    ∙ rw all (checked-ok (c ∷ whole) s 2 v w (omega arith) (ground (arith, low)) free)

-- A code of five bytes
pub get-5 :
    (v : ℕ) (s : List ℕ)
    → 2097152 ≤ v
    → v < 67108864
    → is_reserved v ≡ false
    → amx_utf8_get (
        (v / 16777216 % 4 + 248)
        ∷ follower v 262144
        ∷ follower v 4096
        ∷ follower v 64
        ∷ follower v 1
        ∷ s)
      ≡ (err_none, v, s)
unfolding entry count follow_up
get-5 v s low high free =
    let c = v / 16777216 % 4 + 248 in
    let r0 = (c % (32 / 2 ^ 3)) in
    let r1 = r0 * 64 + v / 262144 % 64 in
    let r2 = r1 * 64 + v / 4096 % 64 in
    let r3 = r2 * 64 + v / 64 % 64 in
    let w = r3 * 64 + v / 1 % 64 in
    let whole = follower v 262144 ∷ follower v 4096 ∷ follower v 64 ∷ follower v 1 ∷ s in
    let all : follow_up 4 r0 whole ≡ some (w, s) =
      follow-step 3 r0 (v / 262144 % 64) (follower v 4096 ∷ follower v 64 ∷ follower v 1 ∷ s)
        (omega arith)
      ∙ follow-step 2 r1 (v / 4096 % 64) (follower v 64 ∷ follower v 1 ∷ s) (omega arith)
      ∙ follow-step 1 r2 (v / 64 % 64) (follower v 1 ∷ s) (omega arith)
      ∙ follow-step 0 r3 (v / 1 % 64) (s) (omega arith) in
    get-step c 3 whole (omega arith) (omega arith) (ground arith)
    ∙ rw all (checked-ok (c ∷ whole) s 3 v w (omega arith) (ground (arith, low)) free)

-- A code of six bytes
pub get-6 :
    (v : ℕ) (s : List ℕ)
    → 67108864 ≤ v
    → v < 2147483648
    → is_reserved v ≡ false
    → amx_utf8_get (
        (v / 1073741824 % 2 + 252)
        ∷ follower v 16777216
        ∷ follower v 262144
        ∷ follower v 4096
        ∷ follower v 64
        ∷ follower v 1
        ∷ s)
      ≡ (err_none, v, s)
unfolding entry count follow_up
get-6 v s low high free =
    let c = v / 1073741824 % 2 + 252 in
    let r0 = (c % (32 / 2 ^ 4)) in
    let r1 = r0 * 64 + v / 16777216 % 64 in
    let r2 = r1 * 64 + v / 262144 % 64 in
    let r3 = r2 * 64 + v / 4096 % 64 in
    let r4 = r3 * 64 + v / 64 % 64 in
    let w = r4 * 64 + v / 1 % 64 in
    let whole =
      follower v 16777216
      ∷ follower v 262144
      ∷ follower v 4096
      ∷ follower v 64
      ∷ follower v 1
      ∷ s in
    let all : follow_up 5 r0 whole ≡ some (w, s) =
      follow-step 4 r0 (v / 16777216 % 64)
        (follower v 262144 ∷ follower v 4096 ∷ follower v 64 ∷ follower v 1 ∷ s) (omega arith)
      ∙ follow-step 3 r1 (v / 262144 % 64) (follower v 4096 ∷ follower v 64 ∷ follower v 1 ∷ s)
          (omega arith)
      ∙ follow-step 2 r2 (v / 4096 % 64) (follower v 64 ∷ follower v 1 ∷ s) (omega arith)
      ∙ follow-step 1 r3 (v / 64 % 64) (follower v 1 ∷ s) (omega arith)
      ∙ follow-step 0 r4 (v / 1 % 64) (s) (omega arith) in
    get-step c 4 whole (omega arith) (omega arith) (ground arith)
    ∙ rw all (checked-ok (c ∷ whole) s 4 v w (omega arith) (ground (arith, low)) free)

pub get-1 : (v : ℕ) (s : List ℕ) → v < 128 → amx_utf8_get ((v % 256) ∷ s) ≡ (err_none, v, s)
unfolding amx_utf8_get
get-1 v s h =
    let k : ltb (v % 256) 128 ≡ true = ground arith in
    let e : v % 256 ≡ v = omega arith in rw (k, e) refl

-- The UTF-8 code of a character
unfoldable pub code : ℕ → List ℕ
code v =
    if ltb v 128
    then v % 256 ∷ []
    else if ltb v 2048
    then (v / 64 % 32 + 192) ∷ follower v 1 ∷ []
    else if ltb v 65536
    then (v / 4096 % 16 + 224) ∷ follower v 64 ∷ follower v 1 ∷ []
    else if ltb v 2097152
    then (v / 262144 % 8 + 240) ∷ follower v 4096 ∷ follower v 64 ∷ follower v 1 ∷ []
    else if ltb v 67108864
    then (v / 16777216 % 4 + 248)
      ∷ follower v 262144
      ∷ follower v 4096
      ∷ follower v 64
      ∷ follower v 1
      ∷ []
    else (v / 1073741824 % 2 + 252)
      ∷ follower v 16777216
      ∷ follower v 262144
      ∷ follower v 4096
      ∷ follower v 64
      ∷ follower v 1
      ∷ []
