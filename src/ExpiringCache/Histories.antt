-- ===== src/ExpiringCache/Histories.antt =====
-- Histories of a cache: its methods, interleaved with the passing of time and with the sweeps of the
-- handler thread; and the record of the latest `put` of each key.
use spdlog_stress_test.Prelude.{
  ℕ, ◌+◌, ◌*◌, ◌^◌, ◌<◌, List, [], ◌∷◌, Option, none, some, leb, if◌then◌else◌,
}
use spdlog_stress_test.Prelude.Keys.{Keys}
use spdlog_stress_test.ExpiringCache.{Cache, empty_cache, put, remove, sweep}

-- What happens to a cache.
pub data Event {ℓ κ} (K : Type ℓ) (V : Type κ) : Type (ℓ ⊔ κ) where
  puts : K → V → ℕ → Event K V
  removes : K → Event K V
  passes : ℕ → Event K V
  sweeps : Event K V

pub record Clocked {ℓ κ} (K : Type ℓ) (V : Type κ) : Type (ℓ ⊔ κ) where
  pub cache : Cache K V
  pub now : ℕ

-- The specification: for each key, when its latest value expires, and the value; and the time.
pub record Latest {ℓ κ} (K : Type ℓ) (V : Type κ) : Type (ℓ ⊔ κ) where
  pub entry : K → Option (ℕ × V)
  pub time : ℕ

abbrev pub recall {κ} : {V : Type κ} → ℕ → Option (ℕ × V) → Option V
recall t none = none
recall t (some (x, v)) = if leb x t then none else some v

-- Before the first call.
abbrev pub fresh_cache {ℓ κ} : {K : Type ℓ} {V : Type κ} → Clocked K V
fresh_cache = record { cache = empty_cache; now = 0 }

abbrev pub no_entries {ℓ κ} : {K : Type ℓ} {V : Type κ} → Latest K V
no_entries = record { entry = λ k. none; time = 0 }

module _ {ℓ κ} {K : Type ℓ} {V : Type κ} ⦃keys : Keys K⦄ where
  open keys use {same}

  unfoldable pub step : Clocked K V → Event K V → Clocked K V
  unfolding put remove sweep
  step s (puts k v ttl) = record s { cache = (put k v ttl s.now s.cache).0 }
  step s (removes k) = record s { cache = (remove k s.cache).0 }
  step s (passes n) = record s { now = s.now + n }
  step s sweeps = record s { cache = sweep s.now s.cache }

  unfoldable pub run : Clocked K V → List (Event K V) → Clocked K V
  unfolding step
  run s [] = s
  run s (e ∷ es) = run (step s e) es

  abbrev pub record_event : Latest K V → Event K V → Latest K V
  record_event l (puts k v ttl) = record l {
    entry = λ j. if same k j then some (l.time + 1000000 * ttl, v) else l.entry j;
  }
  record_event l (removes k) = record l { entry = λ j. if same k j then none else l.entry j }
  record_event l (passes n) = record l { time = l.time + n }
  record_event l sweeps = l

  -- No `put` overflows the `time_point`: each time of expiration is less than 2^64.
  abbrev pub Lasting : Latest K V → List (Event K V) → Type 0
  Lasting l [] = Unit
  Lasting l (puts k v ttl ∷ es) =
      (l.time + 1000000 * ttl < 2 ^ 64) × Lasting (record_event l (puts k v ttl)) es
  Lasting l (e ∷ es) = Lasting (record_event l e) es

  abbrev pub record_all : Latest K V → List (Event K V) → Latest K V
  record_all l [] = l
  record_all l (e ∷ es) = record_all (record_event l e) es
