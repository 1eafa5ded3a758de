-- ===== src/ThreadPool/Events.antt =====
-- The destructor of the pool, and the runs of a pool as lists of events.
use spdlog_stress_test.Prelude.{ℕ, List, [], ◌∷◌, Option, none, some}
use spdlog_stress_test.ThreadPool.{
  ThreadPool, submit, turn, wait, WaitResult, blocked, returned, rethrown, begin_stop,
}

-- What the destructor comes to. It lets no exception out: one that `wait` throws there ends the
-- program.
pub data Destruction {κ} (E : Type κ) : Type κ where
  still_waiting : Destruction E
  ends_program : E → Destruction E
  joins_workers : Destruction E

module _ {ℓ κ} {F : Type ℓ} {E : Type κ} where
  unfoldable pub stop_if : Option ℕ → ThreadPool F E → ThreadPool F E
  stop_if none p = p
  stop_if (some n) p = begin_stop p

  unfoldable pub after_wait : ThreadPool F E → WaitResult E → ThreadPool F E × Destruction E
  after_wait p blocked = (p, still_waiting)
  after_wait p returned = (stop_if p.max_threads p, joins_workers)
  after_wait p (rethrown e) = (p, ends_program e)

  -- The destructor up to the joins of its workers.
  unfoldable pub destroy : ThreadPool F E → ThreadPool F E × Destruction E
  unfolding after_wait stop_if begin_stop wait
  destroy p = after_wait (wait p).0 (wait p).1

-- What happens to a pool, in the order in which the mutex is taken.
pub data Event {ℓ} (F : Type ℓ) : Type ℓ where
  submits : F → Event F
  turns : ℕ → Event F
  waits : Event F
  stops : Event F

module _ {ℓ κ} {F : Type ℓ} {E : Type κ} where
  abbrev pub then_run :
      (ThreadPool F E → Option (ThreadPool F E)) → Option (ThreadPool F E) → Option (ThreadPool F E)
  then_run k none = none
  then_run k (some p) = k p

module _ {ℓ κ} {F : Type ℓ} {E : Type κ} (outcome : F → Option E) where
  unfoldable pub step : ThreadPool F E → Event F → Option (ThreadPool F E)
  unfolding submit turn wait begin_stop
  step p (submits f) = submit f p
  step p (turns i) = some (turn outcome i p)
  step p waits = some (wait p).0
  step p stops = some (begin_stop p)

  -- `none` where the numbering of the tasks has overflowed.
  unfoldable pub run : ThreadPool F E → List (Event F) → Option (ThreadPool F E)
  unfolding step
  run p [] = some p
  run p (e ∷ es) = then_run (λ q. run q es) (step p e)
