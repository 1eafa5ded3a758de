-- ===== src/ConcurrentMetrics/Sums.antt =====
-- What merging does to the counts and to the last message.
use spdlog_stress_test.Prelude.{
  ◌≤◌, ℕ, ◌+◌, ◌≡◌, refl, List, [], ◌∷◌, Option, none, some, arith, is_empty, if◌then◌else◌, Text,
}
use spdlog_stress_test.ConcurrentMetrics.{
  Doubles, Event, u32, empty_event, envelope_with, envelope_all, consolidate, merge_shared, flush,
}

module _ {ℓ} {D : Type ℓ} where
  abbrev pub processed_sum : List (Event D) → ℕ
  processed_sum [] = 0
  processed_sum (e ∷ es) = e.processed_count + processed_sum es

  abbrev pub failed_sum : List (Event D) → ℕ
  failed_sum [] = 0
  failed_sum (e ∷ es) = e.failed_count + failed_sum es

  -- The last message that is not empty, or else the one given.
  abbrev pub last_message : Text → List (Event D) → Text
  last_message t [] = t
  last_message t (e ∷ es) =
      last_message (if is_empty e.last_error_message then t else e.last_error_message) es

  abbrev pub processed_of : Option (Event D) → ℕ
  processed_of none = 0
  processed_of (some e) = e.processed_count

  abbrev pub failed_of : Option (Event D) → ℕ
  failed_of none = 0
  failed_of (some e) = e.failed_count

module _ {ℓ} {D : Type ℓ} (doubles : Doubles D) where
  envelope_all-sums :
      (self : Event D) (es : List (Event D))
      → (u32 (envelope_all doubles self es).processed_count
          ≡ u32 (self.processed_count + processed_sum es))
        × (u32 (envelope_all doubles self es).failed_count
            ≡ u32 (self.failed_count + failed_sum es))
        × ((envelope_all doubles self es).last_error_message
            ≡ last_message self.last_error_message es)
  unfolding envelope_all envelope_with
  envelope_all-sums self [] = (omega arith, omega arith, refl)
  envelope_all-sums self (e ∷ es) =
      let ih = envelope_all-sums (envelope_with doubles self e) es in
      (omega (arith, ih.0), omega (arith, ih.1), ih.2)

  -- Of a batch that is not empty, `consolidate` makes one event with the sums of the counts, modulo
  -- 2^32, and with the last message that is not empty.
  pub consolidate_lem :
      (e : Event D) (es : List (Event D))
      → (r : Event D) × (consolidate doubles (e ∷ es) ≡ some r)
        × (u32 r.processed_count ≡ u32 (processed_sum (e ∷ es)))
        × (u32 r.failed_count ≡ u32 (failed_sum (e ∷ es)))
        × (r.last_error_message ≡ last_message [] (e ∷ es))
  unfolding consolidate
  consolidate_lem e es =
      let sums = envelope_all-sums (empty_event doubles) (e ∷ es) in
      (
        envelope_all doubles (empty_event doubles) (e ∷ es),
        refl,
        omega (arith, sums.0),
        omega (arith, sums.1),
        sums.2,
      )

  -- A flush adds the counts of the batch to those shared.
  pub flush-sums :
      (es : List (Event D)) (shared : Option (Event D))
      → (u32 (processed_of (flush doubles es shared))
          ≡ u32 (processed_of shared + processed_sum es))
        × (u32 (failed_of (flush doubles es shared)) ≡ u32 (failed_of shared + failed_sum es))
  unfolding flush consolidate merge_shared
  flush-sums [] shared = (omega arith, omega arith)
  flush-sums (e ∷ es) none =
      let sums = envelope_all-sums (empty_event doubles) (e ∷ es) in
      (omega (arith, sums.0), omega (arith, sums.1))
  flush-sums (e ∷ es) (some s) =
      let sums = envelope_all-sums (empty_event doubles) (e ∷ es) in
      (omega (arith, sums.0), omega (arith, sums.1))

  envelope_all-le :
      (self : Event D) (es : List (Event D))
      → ((envelope_all doubles self es).processed_count ≤ self.processed_count + processed_sum es)
        × ((envelope_all doubles self es).failed_count ≤ self.failed_count + failed_sum es)
  unfolding envelope_all envelope_with
  envelope_all-le self [] = (omega arith, omega arith)
  envelope_all-le self (e ∷ es) =
      let ih = envelope_all-le (envelope_with doubles self e) es in
      (omega (arith, ih.0), omega (arith, ih.1))

  -- A flush adds no more than the counts of the batch.
  pub flush-le :
      (es : List (Event D)) (shared : Option (Event D))
      → (processed_of (flush doubles es shared) ≤ processed_of shared + processed_sum es)
        × (failed_of (flush doubles es shared) ≤ failed_of shared + failed_sum es)
  unfolding flush consolidate merge_shared envelope_with
  flush-le [] shared = (omega arith, omega arith)
  flush-le (e ∷ es) none =
      let sums = envelope_all-le (empty_event doubles) (e ∷ es) in
      (omega (arith, sums.0), omega (arith, sums.1))
  flush-le (e ∷ es) (some s) =
      let sums = envelope_all-le (empty_event doubles) (e ∷ es) in
      (omega (arith, sums.0), omega (arith, sums.1))
