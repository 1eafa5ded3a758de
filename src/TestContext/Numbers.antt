-- ===== src/TestContext/Numbers.antt =====
-- `strtol` in base 10, where `long` has 64 bits.
use spdlog_stress_test.Prelude.{
  ℕ, ◌+◌, ◌-◌, ◌*◌, ◌^◌, Bool, ◌||◌, ◌&&◌, [], ◌∷◌, Option, none, some, leb, ◌==◌, if◌then◌else◌,
  Text, codes, ◌≡◌, refl,
}

-- `negsuc n` is -(n + 1).
pub data ℤ : Type 0 where
  pos : ℕ → ℤ
  negsuc : ℕ → ℤ

abbrev pub long_max : ℕ
long_max = 2 ^ 63 - 1

abbrev pub is_digit : ℕ → Bool
is_digit c = leb b'0' c && leb c b'9'

-- `isspace` of the C locale.
abbrev pub is_space : ℕ → Bool
is_space c = (c == 32) || (leb 9 c && leb c 13)

-- The number that the digits at the front stand for, after `acc`.
unfoldable pub digits_value : ℕ → Text → ℕ
digits_value acc [] = acc
digits_value acc (c ∷ cs) =
    let rest = digits_value (acc * 10 + (c - b'0')) cs in if is_digit c then rest else acc

unfoldable pub clamp_up : ℕ → ℕ
clamp_up n = if leb n long_max then n else long_max

-- The least `long` is -2^63, `negsuc long_max`.
unfoldable pub negate : ℕ → ℤ
negate n = if n == 0 then pos 0 else if leb n long_max then negsuc (n - 1) else negsuc long_max

-- No conversion, `none`, where no digit follows.
unfoldable pub convert_digits : (ℕ → ℤ) → Text → Option ℤ
unfolding digits_value
convert_digits sign [] = none
convert_digits sign (c ∷ cs) = if is_digit c then some (sign (digits_value 0 (c ∷ cs))) else none

unfoldable pub convert_signed : Text → Option ℤ
unfolding convert_digits clamp_up negate
convert_signed [] = none
convert_signed (c ∷ cs) =
    if c == b'-'
    then convert_digits negate cs
    else if c == b'+'
    then convert_digits (λ n. pos (clamp_up n)) cs
    else convert_digits (λ n. pos (clamp_up n)) (c ∷ cs)

-- `none` where `strtol` sets `end` to the start of the text.
unfoldable pub strtol : Text → Option ℤ
unfolding convert_signed
strtol [] = none
strtol (c ∷ cs) = let rest = strtol cs in if is_space c then rest else convert_signed (c ∷ cs)

strtol_trailing : strtol (codes "  42x") ≡ some (pos 42)
unfolding strtol
strtol_trailing = refl

strtol_negative : strtol (codes "-7") ≡ some (negsuc 6)
unfolding strtol
strtol_negative = refl
