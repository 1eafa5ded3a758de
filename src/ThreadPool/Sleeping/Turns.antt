-- ===== src/ThreadPool/Sleeping/Turns.antt =====
-- What a turn does to the counts of the threads that are awake and asleep.
use spdlog_stress_test.Prelude.{
  ℕ, zero, suc, ◌+◌, ◌≤◌, ◌≡◌, refl, Bool, true, false, not, ◌&&◌, List, [], ◌∷◌, arith,
  if◌then◌else◌, length,
}
use spdlog_stress_test.ThreadPool.Progress.{is_worker}
use spdlog_stress_test.ThreadPool.Sleeping.{Thread, some_asleep, wake_one, wake_all, wake_at}

module _ {ℓ κ} {F : Type ℓ} {E : Type κ} where
  abbrev pub count_awake : List (Thread F E) → ℕ
  count_awake [] = 0
  count_awake (t ∷ ts) = (if is_worker t.phase && not t.asleep then 1 else 0) + count_awake ts

  abbrev pub count_asleep : List (Thread F E) → ℕ
  count_asleep [] = 0
  count_asleep (t ∷ ts) = (if t.asleep then 1 else 0) + count_asleep ts

  abbrev pub all_staff : List (Thread F E) → Bool
  all_staff [] = true
  all_staff (t ∷ ts) = is_worker t.phase && all_staff ts

  -- Of staff, who does not sleep is awake.
  pub awake-asleep :
      (ts : List (Thread F E)) → all_staff ts ≡ true → count_awake ts + count_asleep ts ≡ length ts
  awake-asleep [] h = refl
  awake-asleep (t ∷ ts) h = ground (arith, awake-asleep ts)

  pub length-wake_one : (k : ℕ) (ts : List (Thread F E)) → length (wake_one k ts) ≡ length ts
  unfolding wake_one
  length-wake_one k [] = refl
  length-wake_one zero (t ∷ ts) = ground (arith, length-wake_one zero ts)
  length-wake_one (suc k) (t ∷ ts) =
      ground (arith, length-wake_one k ts, length-wake_one (suc k) ts)

  pub all_staff-wake_one :
      (k : ℕ) (ts : List (Thread F E)) → all_staff (wake_one k ts) ≡ all_staff ts
  unfolding wake_one
  all_staff-wake_one k [] = refl
  all_staff-wake_one zero (t ∷ ts) = ground (arith, all_staff-wake_one zero ts)
  all_staff-wake_one (suc k) (t ∷ ts) =
      ground (arith, all_staff-wake_one k ts, all_staff-wake_one (suc k) ts)

  -- Of sleepers, one is woken.
  pub count_asleep-wake_one :
      (k : ℕ) (ts : List (Thread F E))
      → count_asleep (wake_one k ts) + (if some_asleep ts then 1 else 0) ≡ count_asleep ts
  unfolding wake_one
  count_asleep-wake_one k [] = refl
  count_asleep-wake_one zero (t ∷ ts) = ground (arith, count_asleep-wake_one zero ts)
  count_asleep-wake_one (suc k) (t ∷ ts) =
      ground (arith, count_asleep-wake_one k ts, count_asleep-wake_one (suc k) ts)

  pub asleep_of_some : (ts : List (Thread F E)) → some_asleep ts ≡ false → count_asleep ts ≡ 0
  asleep_of_some [] h = refl
  asleep_of_some (t ∷ ts) h = ground (arith, asleep_of_some ts)

  pub count_asleep-wake_all : (ts : List (Thread F E)) → count_asleep (wake_all ts) ≡ 0
  unfolding wake_all
  count_asleep-wake_all [] = refl
  count_asleep-wake_all (t ∷ ts) = omega (arith, count_asleep-wake_all ts)

  pub wake_all-staff :
      (ts : List (Thread F E))
      → (all_staff (wake_all ts) ≡ all_staff ts)
        × (length (wake_all ts) ≡ length ts)
        × (count_awake ts ≤ count_awake (wake_all ts))
  unfolding wake_all
  wake_all-staff [] = (refl, refl, omega arith)
  wake_all-staff (t ∷ ts) = ground (arith, wake_all-staff ts)

  pub wake_at-staff :
      (i : ℕ) (ts : List (Thread F E))
      → (all_staff (wake_at i ts) ≡ all_staff ts)
        × (length (wake_at i ts) ≡ length ts)
        × (count_awake ts ≤ count_awake (wake_at i ts))
        × (count_asleep (wake_at i ts) ≤ count_asleep ts)
  unfolding wake_at
  wake_at-staff i [] = (refl, refl, omega arith, omega arith)
  wake_at-staff zero (t ∷ ts) = ground arith
  wake_at-staff (suc i) (t ∷ ts) = ground (arith, wake_at-staff i ts)
