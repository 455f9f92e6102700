-- ===== src/Amx/Utf8/Whole.antt =====
-- A whole string of UTF-8 codes (src/amx/amx.c, lines 4192 to 4208).
use mathlib.Core.Path.{subst}
use samp_plugin_crashdetect.Prelude.{
  ℕ, zero, suc, ◌+◌, ◌/◌, ◌%◌, ◌^◌, ◌≤◌, ◌≡◌, ◌∙◌, ap, sym, refl, arith, ◌||◌, ltb, leb, List, [],
  ◌∷◌, Option, none, some, Bool-cases, inl, inr, ◌⊎◌, length, length-append,
}
use samp_plugin_crashdetect.Amx.Error.{err_none, err_params}
use samp_plugin_crashdetect.Amx.Utf8.{
  Got, utf8_count, utf8_lowmark, entry, follow_up, checked, amx_utf8_get, check_loop,
  amx_utf8_check, is_reserved,
}
use samp_plugin_crashdetect.Amx.Utf8.Codes.{code}
use samp_plugin_crashdetect.Amx.Utf8.Inverse.{Begins}
use samp_plugin_crashdetect.Amx.Utf8.Shortest.{get-Begins, get_ok_iff}

-- A string of so many codes
pub data Spelled : List ℕ → ℕ → Type 0 where
  nothing : Spelled [] 0
  next :
      (c : ℕ) (s : List ℕ) (v : ℕ) (rest : List ℕ) (n : ℕ)
      → Begins (c ∷ s) v rest
      → Spelled rest n
      → Spelled (c ∷ s) (suc n)

length-code : (v : ℕ) → 1 ≤ length (code v)
unfolding code
length-code v = ground arith

Begins-shorter :
    (c : ℕ) (s : List ℕ) (v : ℕ) (rest : List ℕ) → Begins (c ∷ s) v rest → length rest ≤ length s
Begins-shorter c s v rest b =
    omega (arith, ap length b.spelled, length-append {0} (code v) rest, length-code v)

-- The only error that is given
checked-error :
    (s : List ℕ) (f : ℕ) (o : Option (ℕ × List ℕ))
    → ((checked s f o).0 ≡ err_none) ⊎ ((checked s f o).0 ≡ err_params)
unfolding checked
checked-error s f none = inr refl
checked-error s f (some (w, t)) =
    elim (Bool-cases (ltb w (entry utf8_lowmark f) || is_reserved w)) [
      | inl e ↦ rw e (inr refl)
      | inr e ↦ rw e (inl refl)
    ]

get-error :
    (c : ℕ) (s : List ℕ)
    → ((amx_utf8_get (c ∷ s)).0 ≡ err_none) ⊎ ((amx_utf8_get (c ∷ s)).0 ≡ err_params)
unfolding amx_utf8_get
get-error c s = elim (Bool-cases (ltb c 128)) [
  | inl a ↦ rw a (inl refl)
  | inr a ↦ elim (Bool-cases (ltb c 192 || leb 254 c)) [
    | inl b ↦ rw (a, b) (inr refl)
    | inr b ↦
        rw (a, b)
          (checked-error (c ∷ s) (entry utf8_count (c / 4 % 16)) (
            follow_up (suc (entry utf8_count (c / 4 % 16)))
              (c % (32 / 2 ^ entry utf8_count (c / 4 % 16))) s))
  ]
]

-- The loop stops behind an error
check_loop-stop :
    (fuel len : ℕ) (s : List ℕ) → check_loop fuel err_params len s ≡ some (err_params, len)
unfolding check_loop
check_loop-stop fuel len [] = refl
check_loop-stop zero len (c ∷ s) = refl
check_loop-stop (suc fuel) len (c ∷ s) = refl

-- One round
check_loop-round :
    (fuel len : ℕ) (c : ℕ) (s : List ℕ)
    → check_loop (suc fuel) err_none len (c ∷ s)
      ≡ check_loop fuel ((amx_utf8_get (c ∷ s)).0) (len + 1) ((amx_utf8_get (c ∷ s)).2)
unfolding check_loop
check_loop-round fuel len c s = refl

record Leads (c : ℕ) (s : List ℕ) (m : ℕ) : Type 0 where
  v : ℕ
  rest : List ℕ
  count : ℕ
  begins : Begins (c ∷ s) v rest
  following : Spelled rest count

leading_code : (c : ℕ) (s : List ℕ) (m : ℕ) → Spelled (c ∷ s) m → Leads c s m
leading_code _ _ _ (next c s v rest n b t) = record {
  v = v;
  rest = rest;
  count = n;
  begins = b;
  following = t;
}

data Loops (s : List ℕ) (len : ℕ) (o : Option (ℕ × ℕ)) : Type 0 where
  through : (n : ℕ) → o ≡ some (err_none, len + n) → Spelled s n → Loops s len o
  broken : (n : ℕ) → o ≡ some (err_params, n) → ((m : ℕ) → ¬ Spelled s m) → Loops s len o

after :
    (c : ℕ) (s : List ℕ) (v : ℕ) (rest : List ℕ) (len : ℕ) (o : Option (ℕ × ℕ))
    → Begins (c ∷ s) v rest
    → Loops rest (len + 1) o
    → Loops (c ∷ s) len o
after c s v rest len o b (through n e t) =
    through (suc n) (e ∙ ap (λ (k : ℕ). some (err_none, k)) (omega arith)) (next c s v rest n b t)
after c s v rest len o b (broken n e never) = broken n e (λ m t.
    let f = leading_code c s m t in
    let here : ◌≡◌ {A = Got} (err_none, v, rest) (err_none, f.v, f.rest) =
      sym ((get_ok_iff c s v rest).1 b) ∙ (get_ok_iff c s f.v f.rest).1 f.begins in
    let same : f.rest ≡ rest = sym (ap (λ (p : Got). p.2) here) in
    never f.count (subst (λ (k : List ℕ). Spelled k f.count) same f.following))

loops :
    (fuel : ℕ) (s : List ℕ) (len : ℕ)
    → length s ≤ fuel
    → Loops s len (check_loop fuel err_none len s)
unfolding check_loop
loops fuel [] len h = through 0 (ap (λ (k : ℕ). some (err_none, k)) (omega arith)) nothing
loops zero (c ∷ s) len h = absurd (omega (arith, h))
loops (suc fuel) (c ∷ s) len h =
    let g = amx_utf8_get (c ∷ s) in
    elim (get-error c s) [
      | inl fine ↦
          let got : g ≡ (err_none, g.1, g.2) = ap (λ (k : ℕ). (k, g.1, g.2)) fine in
          let b = get-Begins c s g.1 g.2 got in
          let shorter = Begins-shorter c s g.1 g.2 b in
          let ih = loops fuel g.2 (len + 1) (omega (arith, shorter, h)) in
          after c s g.1 g.2 len (check_loop (suc fuel) err_none len (c ∷ s)) b
            (subst (λ (k : ℕ). Loops g.2 (len + 1) (check_loop fuel k (len + 1) g.2)) (sym fine) ih)
      | inr wrong ↦
          broken (len + 1)
            (ap (λ (k : ℕ). check_loop fuel k (len + 1) g.2) wrong
              ∙ check_loop-stop fuel (len + 1) g.2)
            (λ m t.
              let f = leading_code c s m t in
              let got = (get_ok_iff c s f.v f.rest).1 f.begins in
              let clash : err_none ≡ err_params = sym (ap (λ (p : Got). p.0) got) ∙ wrong in
              absurd (ground (arith, clash)))
    ]

-- `amx_UTF8Check` always comes to an end. A string of nothing but codes is accepted with the number of
-- its characters as `length`, and any other string is refused with the error for a wrong parameter.
pub check-judges :
    (s : List ℕ)
    → (n : ℕ) × (((amx_utf8_check s ≡ some (err_none, n)) × Spelled s n)
        ⊎ ((amx_utf8_check s ≡ some (err_params, n)) × ((m : ℕ) → ¬ Spelled s m)))
unfolding amx_utf8_check
check-judges s = elim (loops (suc (length s)) s 0 (omega arith)) [
  | through n e t ↦ (n, inl (e ∙ ap (λ (k : ℕ). some (err_none, k)) (omega arith), t))
  | broken n e never ↦ (n, inr (e, never))
]
