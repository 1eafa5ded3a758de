-- ===== src/TestContext/Printing.antt =====
-- `strtol` reads back the decimal digits of a number.
use spdlog_stress_test.Prelude.{
  ℕ, zero, suc, ◌+◌, ◌-◌, ◌*◌, ◌/◌, ◌%◌, ◌≤◌, ◌<◌, ◌≡◌, refl, ap, sym, ◌==◌, ◌∙◌, true, false, [],
  ◌∷◌, some, arith, ltb, Text, decimal, digits_from, all_chars, is_decimal_digit, decimal-digits,
  Bool-cases, inl, inr,
}
use spdlog_stress_test.TestContext.Numbers.{pos, strtol, digits_value, clamp_up, is_space, long_max}
use spdlog_stress_test.TestContext.{positive}

digits_value-digits_from :
    (f n : ℕ) (out : Text) → n < f → digits_value 0 (digits_from f n out) ≡ digits_value n out
unfolding digits_from digits_value
digits_value-digits_from zero n out h = absurd (omega arith)
digits_value-digits_from (suc f) n out h = elim (Bool-cases (ltb n 10)) [
  | inl small ↦
      let digit : is_decimal_digit (b'0' + n) ≡ true = ground arith in
      let value : 0 * 10 + (b'0' + n - b'0') ≡ n = omega arith in rw (small, digit, value) refl
  | inr large ↦
      let digit : is_decimal_digit (b'0' + n % 10) ≡ true = ground arith in
      let value : n / 10 * 10 + (b'0' + n % 10 - b'0') ≡ n = omega arith in
      rw large (
        digits_value-digits_from f (n / 10) ((b'0' + n % 10) ∷ out) (ground arith)
        ∙ rw (digit, value) refl)
]

digits_value-decimal : (n : ℕ) → digits_value 0 (decimal n) ≡ n
unfolding decimal digits_value
digits_value-decimal n = digits_value-digits_from (suc n) n [] (omega arith)

clamp_up-small : (n : ℕ) → n ≤ long_max → some (pos (clamp_up n)) ≡ some (pos n)
unfolding clamp_up
clamp_up-small n h = ground arith

-- Of a text of digits, not empty and of a value that fits, `strtol` gives the value.
strtol-digits :
    (c : ℕ) (s : Text)
    → all_chars is_decimal_digit (c ∷ s) ≡ true
    → digits_value 0 (c ∷ s) ≤ long_max
    → strtol (c ∷ s) ≡ some (pos (digits_value 0 (c ∷ s)))
unfolding strtol
strtol-digits c s digits fits =
    let digit : is_decimal_digit c ≡ true = ground arith in
    let no_space : is_space c ≡ false = ground arith in
    let no_minus : (c == b'-') ≡ false = ground arith in
    let no_plus : (c == b'+') ≡ false = ground arith in
    rw (no_space, no_minus, no_plus, digit)
      (clamp_up-small (digits_value (0 + (c - b'0')) s) (rw digit at fits))

-- The digits of a number are at least one.
digits_from-ne-nil :
    (f n : ℕ) (c : ℕ) (out : Text) → (d : ℕ) × (s : Text) × (digits_from f n (c ∷ out) ≡ d ∷ s)
unfolding digits_from
digits_from-ne-nil zero n c out = (c, out, refl)
digits_from-ne-nil (suc f) n c out = elim (Bool-cases (ltb n 10)) [
  | inl small ↦ rw small (b'0' + n, c ∷ out, refl)
  | inr large ↦ rw large (digits_from-ne-nil f (n / 10) (b'0' + n % 10) (c ∷ out))
]

decimal-ne-nil : (n : ℕ) → (d : ℕ) × (s : Text) × (decimal n ≡ d ∷ s)
unfolding decimal digits_from
decimal-ne-nil n = elim (Bool-cases (ltb n 10)) [
  | inl small ↦ rw small (b'0' + n, [], refl)
  | inr large ↦ rw large (digits_from-ne-nil n (n / 10) (b'0' + n % 10) [])
]

strtol-decimal : (n : ℕ) → n ≤ long_max → strtol (decimal n) ≡ some (pos n)
strtol-decimal n fits =
    let (d, s, e) = decimal-ne-nil n in
    let value : digits_value 0 (d ∷ s) ≡ n = sym (ap (digits_value 0) e) ∙ digits_value-decimal n in
    ap strtol e
    ∙ strtol-digits d s (sym (ap (all_chars is_decimal_digit) e) ∙ decimal-digits n)
        (omega (arith, value, fits))
    ∙ ap (λ m. some (pos m)) value

pub positive-decimal :
    (n bound : ℕ)
    → 1 ≤ n
    → n ≤ bound
    → bound ≤ long_max
    → positive (strtol (decimal n)) bound ≡ some n
positive-decimal n bound low high fits = rw (strtol-decimal n (omega arith)) (ground arith)
