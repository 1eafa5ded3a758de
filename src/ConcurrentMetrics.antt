-- ===== src/ConcurrentMetrics.antt =====
-- C++ Project/src/include/concurrent_metrics.h: workers that collect events in batches and merge them
-- into shared data, and a reporter. `double` and its arithmetic are a parameter; the random events
-- are an input of the schedule.
pub mod Sums
pub mod Workers
pub mod Random
mod Tests
use spdlog_stress_test.Prelude.{
  ℕ, ◌+◌, ◌%◌, ◌^◌, Bool, true, false, ◌||◌, List, [], ◌∷◌, ◌++◌, Option, none, some, ltb, leb,
  if◌then◌else◌, is_empty, length, Text,
}

-- What the program uses of `double`.
pub record Doubles {ℓ} (D : Type ℓ) : Type ℓ where
  pub zero_value : D
  pub of_unsigned : ℕ → D
  pub add : D → D → D
  pub mul : D → D → D
  pub div : D → D → D

-- The message is what stands before the first zero of the array.
pub record Event {ℓ} (D : Type ℓ) : Type ℓ where
  pub processed_count : ℕ  -- unsigned
  pub failed_count : ℕ  -- unsigned
  pub average_latency_us : D
  pub last_error_message : Text

abbrev pub u32 : ℕ → ℕ
u32 n = n % 2 ^ 32

module _ {ℓ} {D : Type ℓ} (doubles : Doubles D) where
  open doubles use {zero_value, of_unsigned, add, mul, div}

  abbrev pub empty_event : Event D
  empty_event = record {
    processed_count = 0;
    failed_count = 0;
    average_latency_us = zero_value;
    last_error_message = [];
  }

  unfoldable pub envelope_with : Event D → Event D → Event D
  envelope_with self event =
      let combined = u32 (self.processed_count + event.processed_count) in
      record {
        average_latency_us =
            if ltb 0 combined
            then div
                (add (mul self.average_latency_us (of_unsigned self.processed_count))
                  (mul event.average_latency_us (of_unsigned event.processed_count)))
                (of_unsigned combined)
            else self.average_latency_us;
        processed_count = u32 (self.processed_count + event.processed_count);
        failed_count = u32 (self.failed_count + event.failed_count);
        last_error_message =
            if is_empty event.last_error_message
            then self.last_error_message
            else event.last_error_message;
      }

  -- The loop of `consolidate`.
  unfoldable pub envelope_all : Event D → List (Event D) → Event D
  unfolding envelope_with
  envelope_all self [] = self
  envelope_all self (e ∷ es) = envelope_all (envelope_with self e) es

  unfoldable pub consolidate : List (Event D) → Option (Event D)
  unfolding envelope_all
  consolidate [] = none
  consolidate (e ∷ es) = some (envelope_all empty_event (e ∷ es))

  -- Under the lock: the first event is stored, a later one merged.
  unfoldable pub merge_shared : Option (Event D) → Option (Event D) → Option (Event D)
  unfolding envelope_with
  merge_shared none shared = shared
  merge_shared (some e) none = some e
  merge_shared (some e) (some s) = some (envelope_with s e)

  -- `flushLambda`, on the data shared; the worker's own events are cleared.
  unfoldable pub flush : List (Event D) → Option (Event D) → Option (Event D)
  unfolding consolidate merge_shared
  flush unreported shared = merge_shared (consolidate unreported) shared
