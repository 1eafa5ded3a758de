-- ===== src/ExpiringCache/HandlerThread.antt =====
-- The constructor's thread in expiring_cache.h, a turn at a time. The wait has a fixed deadline, read
-- when it begins; before the deadline a notification, or a wake-up by chance, makes it look at its
-- predicate again.
pub mod Oversleeping
pub mod Stopping
use spdlog_stress_test.Prelude.{
  ℕ, ◌+◌, Bool, true, false, ◌||◌, List, [], ◌∷◌, Option, none, some, leb, if◌then◌else◌,
}
use spdlog_stress_test.Prelude.Keys.{Keys}
use spdlog_stress_test.ExpiringCache.{HeapEntry, Cache, put, remove, sweep, begin_stop}

-- At the head of the loop, in the wait with its deadline (`none` is `time_point::max()`), or over.
pub data Phase : Type 0 where
  at_head : Phase
  waits_until : Option ℕ → Phase
  finished : Phase

-- `notified`: a notification, or a wake-up by chance, has come since the thread last looked.
pub record System {ℓ κ} (K : Type ℓ) (V : Type κ) : Type (ℓ ⊔ κ) where
  pub cache : Cache K V
  pub now : ℕ
  pub phase : Phase
  pub notified : Bool

abbrev pub deadline {ℓ} : {K : Type ℓ} → List (HeapEntry K) → Option ℕ
deadline [] = none
deadline (h ∷ hs) = some h.expiration

abbrev pub is_due {ℓ} : {K : Type ℓ} → ℕ → List (HeapEntry K) → Bool
is_due now [] = false
is_due now (h ∷ hs) = leb h.expiration now

-- The predicate of the wait.
abbrev pub may_proceed {ℓ κ} : {K : Type ℓ} {V : Type κ} → ℕ → Cache K V → Bool
may_proceed now c = c.is_stopping || is_due now c.expiration_queue

abbrev pub is_over : ℕ → Option ℕ → Bool
is_over now none = false
is_over now (some d) = leb d now

pub data Event {ℓ κ} (K : Type ℓ) (V : Type κ) : Type (ℓ ⊔ κ) where
  puts : K → V → ℕ → Event K V
  removes : K → Event K V
  stops : Event K V
  passes : ℕ → Event K V
  wakes_by_chance : Event K V
  turns : Event K V

module _ {ℓ κ} {K : Type ℓ} {V : Type κ} ⦃keys : Keys K⦄ where
  -- What follows the wait.
  after_wait : System K V → System K V
  after_wait s =
      if s.cache.is_stopping
      then record s { phase = finished }
      else record s { cache = sweep s.now s.cache; phase = at_head }

  pub turn : Phase → System K V → System K V
  unfolding after_wait
  turn at_head s =
      if may_proceed s.now s.cache
      then after_wait s
      else record s { phase = waits_until (deadline s.cache.expiration_queue); notified = false }
  turn (waits_until d) s =
      if is_over s.now d
      then after_wait s
      else if s.notified
      then (if may_proceed s.now s.cache then after_wait s else record s { notified = false })
      else s
  turn finished s = s

  pub step : System K V → Event K V → System K V
  unfolding turn put remove begin_stop
  step s (puts k v ttl) =
      let r = put k v ttl s.now s.cache in record s { cache = r.0; notified = s.notified || r.1 }
  step s (removes k) =
      let r = remove k s.cache in record s { cache = r.0; notified = s.notified || r.2 }
  step s stops = record s { cache = begin_stop s.cache; notified = true }
  step s wakes_by_chance = record s { notified = true }
  step s (passes n) = record s { now = s.now + n }
  step s turns = turn s.phase s

  pub run : System K V → List (Event K V) → System K V
  unfolding step
  run s [] = s
  run s (e ∷ es) = run (step s e) es
