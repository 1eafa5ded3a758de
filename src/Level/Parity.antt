-- ===== src/Level/Parity.antt =====
-- The log is right about the parity, also where the count has wrapped.
use spdlog_stress_test.Prelude.{
  ℕ, zero, suc, ◌+◌, ◌%◌, ◌≤◌, ◌≡◌, refl, ap, sym, ◌∙◌, List, [], ◌∷◌, ◌++◌, map, arith,
}
use mathlib.Core.List.{map-append}
use spdlog_stress_test.ThreadPair.{Event, launch}
use spdlog_stress_test.ThreadPair.Lifecycle.{run-keeps}
use spdlog_stress_test.Level.{
  Line, odd, even, Counter, u32, reset, write_round, line_of, read_round, run,
}

-- Each number is at least the one before it and at most `top`.
abbrev pub Climbs : ℕ → ℕ → List ℕ → Type 0
Climbs low top [] = low ≤ top
Climbs low top (n ∷ ns) = (low ≤ n) × Climbs n top ns

-- Whether a number is odd, by counting up to it.
abbrev pub parity : ℕ → Line
parity zero = even
parity (suc zero) = odd
parity (suc (suc n)) = parity n

line_of-parity : (n : ℕ) → line_of n ≡ parity n
unfolding line_of
line_of-parity zero = refl
line_of-parity (suc zero) = refl
line_of-parity (suc (suc n)) =
    let bit : suc (suc n) % 2 ≡ n % 2 = omega arith in rw bit (line_of-parity n)

map-parity : (ns : List ℕ) → map line_of ns ≡ map parity ns
map-parity [] = refl
map-parity (n ∷ ns) = rw (line_of-parity n, map-parity ns) refl

pub record Inv (c : Counter) : Type 0 where
  pub counted : c.level ≡ u32 c.increments
  pub logged : c.log ≡ map line_of c.looks
  pub climbing : Climbs 0 c.increments c.looks

Climbs-suc : (low top : ℕ) (ns : List ℕ) → Climbs low top ns → Climbs low (top + 1) ns
Climbs-suc low top [] h = omega arith
Climbs-suc low top (n ∷ ns) h = (h.0, Climbs-suc n top ns h.1)

Climbs-snoc : (low top : ℕ) (ns : List ℕ) → Climbs low top ns → Climbs low top (ns ++ top ∷ [])
Climbs-snoc low top [] h = (h, omega arith)
Climbs-snoc low top (n ∷ ns) h = (h.0, Climbs-snoc n top ns h.1)

write_round-Inv : (c : Counter) → Inv c → Inv (write_round c)
unfolding write_round
write_round-Inv c v = record {
  counted = omega (arith, v.counted);
  logged = v.logged;
  climbing = Climbs-suc 0 c.increments c.looks v.climbing;
}

-- The lowest bit survives the wrap.
line_of-u32 : (n : ℕ) → line_of (u32 n) ≡ line_of n
unfolding line_of
line_of-u32 n = let bit : u32 n % 2 ≡ n % 2 = omega arith in rw bit refl

read_round-Inv : (c : Counter) → Inv c → Inv (read_round c)
unfolding read_round
read_round-Inv c v = record {
  counted = v.counted;
  logged =
      ap (λ l. l ++ line_of c.level ∷ []) v.logged
      ∙ ap (λ x. map line_of c.looks ++ x ∷ []) (ap line_of v.counted ∙ line_of-u32 c.increments)
      ∙ sym (map-append line_of c.looks (c.increments ∷ []));
  climbing = Climbs-snoc 0 c.increments c.looks v.climbing;
}

-- Under every schedule: the lines are "odd" or "even" as the number of times that the writer had
-- counted when the reader looked, also where the `int` has wrapped; these numbers never fall; and the
-- level is the number of times that the writer has counted, modulo 2^32.
pub parity_log :
    (es : List Event)
    → let c = (run es).shared in
      (c.log ≡ map parity c.looks) × Climbs 0 c.increments c.looks × (c.level ≡ u32 c.increments)
unfolding run
parity_log es =
    let v =
      run-keeps write_round read_round (λ c. c) Inv write_round-Inv read_round-Inv (λ c v. v)
        (launch reset) es (record { counted = refl; logged = refl; climbing = omega arith }) in
    (v.logged ∙ map-parity (run es).shared.looks, v.climbing, v.counted)
