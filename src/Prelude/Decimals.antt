-- ===== src/Prelude/Decimals.antt =====
-- A number as decimal digits: `%u` of `printf`, `std::to_string` of an integer.
use Prim.Native.Nat.{ℕ, zero, suc, ◌+◌, ◌/◌, ◌%◌, ◌^◌, ◌≤◌, ◌<◌}
use mathlib.Core.Path.{◌≡◌, refl}
use mathlib.Core.Bool.{Bool, true, ◌&&◌}
use mathlib.Core.List.{[], ◌∷◌}
use native.Mathlib.Omega.{arith}
use spdlog_stress_test.Prelude.Tests.{ltb, leb, if◌then◌else◌}
use spdlog_stress_test.Prelude.Lists.{length}
use spdlog_stress_test.Prelude.Texts.{Text, codes}

-- The digits of `n` in front of `out`, with fuel.
unfoldable pub digits_from : ℕ → ℕ → Text → Text
digits_from zero n out = out
digits_from (suc f) n out =
    let more = digits_from f (n / 10) ((b'0' + n % 10) ∷ out) in
    if ltb n 10 then (b'0' + n) ∷ out else more

unfoldable pub decimal : ℕ → Text
unfolding digits_from
decimal n = digits_from (suc n) n []

-- A test that every character of a text passes.
abbrev pub all_chars : (ℕ → Bool) → Text → Bool
all_chars p [] = true
all_chars p (c ∷ cs) = p c && all_chars p cs

abbrev pub is_decimal_digit : ℕ → Bool
is_decimal_digit c = leb b'0' c && leb c b'9'

digits_from-digits :
    (f n : ℕ) (out : Text)
    → all_chars is_decimal_digit out ≡ true
    → all_chars is_decimal_digit (digits_from f n out) ≡ true
unfolding digits_from
digits_from-digits zero n out h = h
digits_from-digits (suc f) n out h =
    ground (arith, digits_from-digits f (n / 10) ((b'0' + n % 10) ∷ out))

pub decimal-digits : (n : ℕ) → all_chars is_decimal_digit (decimal n) ≡ true
unfolding decimal
decimal-digits n = digits_from-digits (suc n) n [] refl

length-digits_from :
    (k f n : ℕ) (out : Text) → n < 10 ^ suc k → length (digits_from f n out) ≤ length out + suc k
unfolding digits_from
length-digits_from k zero n out h = omega arith
length-digits_from zero (suc f) n out h = ground arith
length-digits_from (suc k) (suc f) n out h =
    let tenth : n / 10 < 10 ^ suc k = omega arith in
    ground (arith, length-digits_from k f (n / 10) ((b'0' + n % 10) ∷ out))

-- A number below 10^(k + 1) has at most k + 1 digits.
pub length-decimal : (k n : ℕ) → n < 10 ^ suc k → length (decimal n) ≤ suc k
unfolding decimal
length-decimal k n h = omega (arith, length-digits_from k (suc n) n [] h)

decimal_max : decimal 4_294_967_295 ≡ codes "4294967295"
unfolding decimal
decimal_max = refl
