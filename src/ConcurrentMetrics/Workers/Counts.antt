-- ===== src/ConcurrentMetrics/Workers/Counts.antt =====
-- The counts of the shared data, of the workers and of the records, through each change of the state.
use spdlog_stress_test.Prelude.{ℕ, ◌+◌, ◌≤◌, ◌≡◌, ap, true, List, [], ◌∷◌, ◌++◌, arith}
use spdlog_stress_test.ConcurrentMetrics.{Doubles, Event, u32, flush}
use spdlog_stress_test.ConcurrentMetrics.Sums.{
  processed_sum, failed_sum, processed_of, failed_of, flush-sums, flush-le,
}
use spdlog_stress_test.ConcurrentMetrics.Workers.{
  WorkerId, first, second, third, Phase, checking, gone, Worker, System, update,
}

module _ {ℓ} {D : Type ℓ} where
  -- What the workers have not flushed.
  abbrev pub pending : (List (Event D) → ℕ) → (WorkerId → Worker D) → ℕ
  pending sum ws =
      sum (ws first).unreported_events
      + sum (ws second).unreported_events
      + sum (ws third).unreported_events

  pub record Inv (s : System D) : Type ℓ where
    pub processed :
        u32 (processed_of s.shared_data + pending processed_sum s.workers + processed_sum s.lost)
        ≡ u32 (processed_sum s.created)
    pub failed :
        u32 (failed_of s.shared_data + pending failed_sum s.workers + failed_sum s.lost)
        ≡ u32 (failed_sum s.created)
    pub processed_le :
        processed_of s.shared_data + pending processed_sum s.workers + processed_sum s.lost
        ≤ processed_sum s.created
    pub failed_le :
        failed_of s.shared_data + pending failed_sum s.workers + failed_sum s.lost
        ≤ failed_sum s.created

  pending-update :
      (sum : List (Event D) → ℕ) (ws : WorkerId → Worker D) (i : WorkerId) (w : Worker D)
      → pending sum (update ws i w) + sum (ws i).unreported_events
        ≡ pending sum ws + sum w.unreported_events
  pending-update sum ws first w = omega arith
  pending-update sum ws second w = omega arith
  pending-update sum ws third w = omega arith

  pub processed_sum-append :
      (xs ys : List (Event D)) → processed_sum (xs ++ ys) ≡ processed_sum xs + processed_sum ys
  processed_sum-append [] ys = omega arith
  processed_sum-append (x ∷ xs) ys = omega (arith, processed_sum-append xs ys)

  pub failed_sum-append :
      (xs ys : List (Event D)) → failed_sum (xs ++ ys) ≡ failed_sum xs + failed_sum ys
  failed_sum-append [] ys = omega arith
  failed_sum-append (x ∷ xs) ys = omega (arith, failed_sum-append xs ys)

  pub checked-Inv :
      (i : WorkerId) (p : Phase) (s : System D)
      → Inv s
      → Inv (record s { workers = update s.workers i (record (s.workers i) { phase = p }) })
  checked-Inv i p s v = record {
    processed = omega (
      arith,
      pending-update processed_sum s.workers i (record (s.workers i) { phase = p }),
      v.processed,
    );
    processed_le = omega (
      arith,
      pending-update processed_sum s.workers i (record (s.workers i) { phase = p }),
      v.processed_le,
    );
    failed = omega (
      arith,
      pending-update failed_sum s.workers i (record (s.workers i) { phase = p }),
      v.failed,
    );
    failed_le = omega (
      arith,
      pending-update failed_sum s.workers i (record (s.workers i) { phase = p }),
      v.failed_le,
    );
  }

  pub failed-Inv :
      (i : WorkerId) (s : System D)
      → Inv s
      → Inv (record s {
        internal_stop = true;
        workers = update s.workers i (record { phase = gone; unreported_events = [] });
        lost = s.lost ++ (s.workers i).unreported_events;
      })
  failed-Inv i s v = record {
    processed = omega (
      arith,
      processed_sum-append s.lost (s.workers i).unreported_events,
      pending-update processed_sum s.workers i (record { phase = gone; unreported_events = [] }),
      v.processed,
    );
    processed_le = omega (
      arith,
      processed_sum-append s.lost (s.workers i).unreported_events,
      pending-update processed_sum s.workers i (record { phase = gone; unreported_events = [] }),
      v.processed_le,
    );
    failed = omega (
      arith,
      failed_sum-append s.lost (s.workers i).unreported_events,
      pending-update failed_sum s.workers i (record { phase = gone; unreported_events = [] }),
      v.failed,
    );
    failed_le = omega (
      arith,
      failed_sum-append s.lost (s.workers i).unreported_events,
      pending-update failed_sum s.workers i (record { phase = gone; unreported_events = [] }),
      v.failed_le,
    );
  }

  -- What leaves the data, the workers and the records alone keeps the counts.
  pub Inv-same :
      (s t : System D)
      → t.shared_data ≡ s.shared_data
      → t.workers ≡ s.workers
      → t.lost ≡ s.lost
      → t.created ≡ s.created
      → Inv s
      → Inv t
  Inv-same s t a b c d v = record {
    processed = rw (a, b, c, d) v.processed;
    failed = rw (a, b, c, d) v.failed;
    processed_le = rw (a, b, c, d) v.processed_le;
    failed_le = rw (a, b, c, d) v.failed_le;
  }

module _ {ℓ} {D : Type ℓ} (doubles : Doubles D) where
  pub full-Inv :
      (i : WorkerId) (e : Event D) (batch : List (Event D)) (s : System D)
      → (s.workers i).unreported_events ≡ batch
      → Inv s
      → Inv (record s {
        shared_data = flush doubles (batch ++ e ∷ []) s.shared_data;
        workers = update s.workers i (record { phase = checking; unreported_events = [] });
        created = s.created ++ e ∷ [];
      })
  full-Inv i e batch s q v =
      let flushed = flush-sums doubles (batch ++ e ∷ []) s.shared_data in
      let bounded = flush-le doubles (batch ++ e ∷ []) s.shared_data in
      record {
        processed = omega (
          arith,
          (flushed.0),
          processed_sum-append batch (e ∷ []),
          processed_sum-append s.created (e ∷ []),
          pending-update processed_sum s.workers i
              (record { phase = checking; unreported_events = [] }),
          ap processed_sum q,
          v.processed,
        );
        processed_le = omega (
          arith,
          (bounded.0),
          processed_sum-append batch (e ∷ []),
          processed_sum-append s.created (e ∷ []),
          pending-update processed_sum s.workers i
              (record { phase = checking; unreported_events = [] }),
          ap processed_sum q,
          v.processed_le,
        );
        failed = omega (
          arith,
          (flushed.1),
          failed_sum-append batch (e ∷ []),
          failed_sum-append s.created (e ∷ []),
          pending-update failed_sum s.workers i
              (record { phase = checking; unreported_events = [] }),
          ap failed_sum q,
          v.failed,
        );
        failed_le = omega (
          arith,
          (bounded.1),
          failed_sum-append batch (e ∷ []),
          failed_sum-append s.created (e ∷ []),
          pending-update failed_sum s.workers i
              (record { phase = checking; unreported_events = [] }),
          ap failed_sum q,
          v.failed_le,
        );
      }

  pub room-Inv :
      (i : WorkerId) (e : Event D) (batch : List (Event D)) (s : System D)
      → (s.workers i).unreported_events ≡ batch
      → Inv s
      → Inv (record s {
        workers =
            update s.workers i (record { phase = checking; unreported_events = batch ++ e ∷ [] });
        created = s.created ++ e ∷ [];
      })
  room-Inv i e batch s q v = record {
    processed = omega (
      arith,
      processed_sum-append batch (e ∷ []),
      processed_sum-append s.created (e ∷ []),
      pending-update processed_sum s.workers i
          (record { phase = checking; unreported_events = batch ++ e ∷ [] }),
      ap processed_sum q,
      v.processed,
    );
    processed_le = omega (
      arith,
      processed_sum-append batch (e ∷ []),
      processed_sum-append s.created (e ∷ []),
      pending-update processed_sum s.workers i
          (record { phase = checking; unreported_events = batch ++ e ∷ [] }),
      ap processed_sum q,
      v.processed_le,
    );
    failed = omega (
      arith,
      failed_sum-append batch (e ∷ []),
      failed_sum-append s.created (e ∷ []),
      pending-update failed_sum s.workers i
          (record { phase = checking; unreported_events = batch ++ e ∷ [] }),
      ap failed_sum q,
      v.failed,
    );
    failed_le = omega (
      arith,
      failed_sum-append batch (e ∷ []),
      failed_sum-append s.created (e ∷ []),
      pending-update failed_sum s.workers i
          (record { phase = checking; unreported_events = batch ++ e ∷ [] }),
      ap failed_sum q,
      v.failed_le,
    );
  }

  pub last-Inv :
      (i : WorkerId) (s : System D)
      → Inv s
      → Inv (record s {
        shared_data = flush doubles (s.workers i).unreported_events s.shared_data;
        workers = update s.workers i (record { phase = gone; unreported_events = [] });
      })
  last-Inv i s v =
      let flushed = flush-sums doubles (s.workers i).unreported_events s.shared_data in
      let bounded = flush-le doubles (s.workers i).unreported_events s.shared_data in
      record {
        processed = omega (
          arith,
          (flushed.0),
          pending-update processed_sum s.workers i
              (record { phase = gone; unreported_events = [] }),
          v.processed,
        );
        processed_le = omega (
          arith,
          (bounded.0),
          pending-update processed_sum s.workers i
              (record { phase = gone; unreported_events = [] }),
          v.processed_le,
        );
        failed = omega (
          arith,
          (flushed.1),
          pending-update failed_sum s.workers i (record { phase = gone; unreported_events = [] }),
          v.failed,
        );
        failed_le = omega (
          arith,
          (bounded.1),
          pending-update failed_sum s.workers i (record { phase = gone; unreported_events = [] }),
          v.failed_le,
        );
      }
