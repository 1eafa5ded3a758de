-- ===== src/ConcurrentMetrics/Random.antt =====
-- `Event::createRandom`: the numbers that are drawn are an input. `snprintf` is that of C, which
-- writes at most the size of the array less one, and a zero.
use spdlog_stress_test.Prelude.{
  length-decimal, length-append, arith, take_all, ap, ◌≡◌, ℕ, ◌-◌, ◌≤◌, Bool, [], ◌++◌,
  if◌then◌else◌, take, Text, codes, decimal,
}
use spdlog_stress_test.ConcurrentMetrics.{Event}

-- What the five distributions give.
pub record Draws {ℓ} (D : Type ℓ) : Type ℓ where
  pub processed : ℕ
  pub failed : ℕ
  pub latency : D
  pub has_error : Bool
  pub error_id : ℕ

abbrev pub message_size : ℕ
message_size = 128

abbrev pub failure_text : Text
failure_text = codes "Random worker processing failure #"

module _ {ℓ} {D : Type ℓ} where
  unfoldable pub create_random : Draws D → Event D
  create_random d = record {
    processed_count = d.processed;
    failed_count = d.failed;
    average_latency_us = d.latency;
    last_error_message =
        if d.has_error then take (message_size - 1) (failure_text ++ decimal d.error_id) else [];
  }

  -- The bounds that the distributions are made with.
  pub record IsDrawn (d : Draws D) : Type 0 where
    pub processed_low : 50 ≤ d.processed
    pub processed_high : d.processed ≤ 500
    pub failed_high : d.failed ≤ 10
    pub id_low : 1000 ≤ d.error_id
    pub id_high : d.error_id ≤ 9999

  -- The message is whole.
  pub create_random-message :
      (d : Draws D)
      → IsDrawn d
      → (create_random d).last_error_message
        ≡ (if d.has_error then failure_text ++ decimal d.error_id else [])
  unfolding create_random
  create_random-message d v =
      ap (λ t. if d.has_error then t else [])
        (take_all (message_size - 1) (failure_text ++ decimal d.error_id) (
          omega (
            arith,
            v.id_high,
            length-append failure_text (decimal d.error_id),
            length-decimal 3 d.error_id (omega (arith, v.id_high)),
          )))
