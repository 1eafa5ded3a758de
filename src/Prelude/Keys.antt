-- ===== src/Prelude/Keys.antt =====
-- The equality of a key type, with its law.
use mathlib.Core.Path.{◌≡◌}
use mathlib.Core.Logic.{◌↔◌}
use mathlib.Core.Bool.{Bool, true}
use Prim.Native.Nat.{ℕ}
use spdlog_stress_test.Prelude.Tests.{◌==◌, ==_iff}

pub record Keys {ℓ} (K : Type ℓ) : Type ℓ where
  pub same : K → K → Bool
  pub same_iff : (a b : K) → (same a b ≡ true) ↔ (a ≡ b)

instance abbrev pub nat_keys : Keys ℕ
nat_keys = record { same = λ a b. a == b; same_iff = ==_iff }
