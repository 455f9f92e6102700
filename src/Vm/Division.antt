-- ===== src/Vm/Division.antt =====
-- The rounding of SDIV (src/amx/amx.c, lines 3436 to 3455), whose remainder is `(pri % alt + alt) % alt`.
use native.Mathlib.Nat.{mod_self, mod-lt, mod-eq_of_lt, div-add-mod', mul-div_cancel}
use samp_plugin_crashdetect.Prelude.{
  ℕ, ℕ_discrete, ap, ◌+◌, ◌-◌, ◌*◌, ◌/◌, ◌%◌, ◌≡◌, ◌<◌, ◌≤◌, refl, arith, add32, sub32, neg32,
  abs32, quot32, rem32, is_neg, true, false, Bool-cases, inl, inr, ◌∙◌, sign_bit, word_mod,
}
use samp_plugin_crashdetect.Vm.Alu.{floor_div}

rem_pos : (a b : ℕ) → a < sign_bit → b < sign_bit → rem32 a b ≡ a % b
unfolding rem32
rem_pos a b ha hb = ground arith

quot_pos : (a b : ℕ) → a < sign_bit → b < sign_bit → quot32 a b ≡ a / b
unfolding quot32
quot_pos a b ha hb = ground arith

rem_neg : (n b : ℕ) → 0 < n → n ≤ sign_bit → b < sign_bit → rem32 (word_mod - n) b ≡ neg32 (n % b)
unfolding rem32
rem_neg n b h0 hn hb = ground arith

quot_neg : (n b : ℕ) → 0 < n → n ≤ sign_bit → b < sign_bit → quot32 (word_mod - n) b ≡ neg32 (n / b)
unfolding quot32
quot_neg n b h0 hn hb = ground arith

mod-add_self : (x b : ℕ) → x < b → (x + b) % b ≡ x
mod-add_self x b h = grind arith

div-sub-mod : (a b : ℕ) → 0 < b → (a - a % b) / b ≡ a / b
div-sub-mod a b h =
    let e : a - a % b ≡ a / b * b = omega (arith, div-add-mod' a b) in
    rw e (mul-div_cancel (a / b) h)

-- A dividend that is not negative.
floor_div_pos : (a b : ℕ) → 0 < b → a + b < sign_bit → floor_div a b ≡ (a / b, a % b)
unfolding floor_div
floor_div_pos a b h0 h =
    let low : a % b < b = mod-lt a h0 in
    let le : a % b ≤ a = omega (arith, div-add-mod' a b) in
    let e₁ : rem32 a b ≡ a % b = rem_pos a b (omega arith) (omega arith) in
    let e₂ : add32 (a % b) b ≡ a % b + b = omega arith in
    let e₃ : rem32 (a % b + b) b ≡ a % b =
      rem_pos (a % b + b) b (omega arith) (omega arith) ∙ mod-add_self (a % b) b low in
    let e₄ : sub32 a (a % b) ≡ a - a % b = omega arith in
    let e₅ : quot32 (a - a % b) b ≡ a / b =
      quot_pos (a - a % b) b (omega arith) (omega arith) ∙ div-sub-mod a b h0 in
    rw (e₁, e₂, e₃, e₄, e₅) refl

-- How far a number is below the next multiple of `b`.
abbrev gap : ℕ → ℕ → ℕ
gap n b = (b - n % b) % b

gap-divides : (n b : ℕ) → 0 < b → (n + gap n b) / b * b ≡ n + gap n b
gap-divides n b h = elim (ℕ_discrete (n % b) 0) [
  | yes z ↦
      let whole : b - n % b ≡ b = omega arith in
      let self : (b - n % b) % b ≡ 0 = rw whole (mod_self b) in
      let e : n + 0 ≡ n / b * b = omega (arith, div-add-mod' n b) in
      rw self (rw e (ap (λ q. q * b) (mul-div_cancel (n / b) h)))
  | no nz ↦
      let low : n % b < b = mod-lt n h in
      let is : gap n b ≡ b - n % b = mod-eq_of_lt (omega arith) in
      let e : n + gap n b ≡ (n / b + 1) * b = omega (arith, div-add-mod' n b) in
      rw e (ap (λ q. q * b) (mul-div_cancel (n / b + 1) h))
]

-- A dividend of magnitude `n` that is negative.
floor_div_neg :
    (n b : ℕ)
    → 0 < n
    → 0 < b
    → n + b < sign_bit
    → floor_div (word_mod - n) b ≡ (neg32 ((n + gap n b) / b), gap n b)
unfolding floor_div
floor_div_neg n b hn h0 h =
    let low : n % b < b = mod-lt n h0 in
    let small : gap n b < b = mod-lt (b - n % b) h0 in
    let e₁ : rem32 (word_mod - n) b ≡ neg32 (n % b) = rem_neg n b hn (omega arith) (omega arith) in
    let e₂ : add32 (neg32 (n % b)) b ≡ b - n % b = omega arith in
    let e₃ : rem32 (b - n % b) b ≡ gap n b = rem_pos (b - n % b) b (omega arith) (omega arith) in
    let e₄ : sub32 (word_mod - n) (gap n b) ≡ word_mod - (n + gap n b) = omega arith in
    let e₅ : quot32 (word_mod - (n + gap n b)) b ≡ neg32 ((n + gap n b) / b) =
      quot_neg (n + gap n b) b (omega arith) (omega arith) (omega arith) in
    rw (e₁, e₂, e₃, e₄, e₅) refl

-- The divisor is positive, and the dividend's magnitude and the divisor add up to less than 2 ^ 31.
-- Then the remainder of SDIV lies in `0 .. b-1`, and the quotient is that of floor division: for a
-- dividend `a` that is not negative, quotient times divisor plus remainder is `a`; for a negative one
-- the quotient is some `-k`, and `k` times the divisor is the magnitude of `a` plus the remainder.
pub floor_div_lem :
    (a b : ℕ)
    → a < word_mod
    → 0 < b
    → abs32 a + b < sign_bit
    → let (q, m) = floor_div a b in
      (m < b)
      × ((is_neg a ≡ false → q * b + m ≡ a)
          × (is_neg a ≡ true → (k : ℕ) × (q ≡ neg32 k) × (k * b ≡ abs32 a + m)))
floor_div_lem a b cell h0 h = elim (Bool-cases (is_neg a)) [
  | inl neg ↦
      let n = word_mod - a in
      let is : word_mod - n ≡ a = omega arith in
      let e : floor_div a b ≡ (neg32 ((n + gap n b) / b), gap n b) =
        rw is at (floor_div_neg n b (ground arith) h0 (ground arith)) in
      rw e (
        mod-lt (b - n % b) h0,
        ((λ pos. cc), (λ _. ((n + gap n b) / b, refl, ground (arith, gap-divides n b h0)))),
      )
  | inr pos ↦
      let e : floor_div a b ≡ (a / b, a % b) = floor_div_pos a b h0 (ground arith) in
      rw e (mod-lt a h0, ((λ _. div-add-mod' a b), (λ neg. cc)))
]
