-- ===== src/ProducerConsumerQueue/Tests.antt =====
-- A short schedule of the producers and the consumers.
use spdlog_stress_test.Prelude.{
  count, Bool, true, arith, ◌+◌, ◌≤◌, ◌≡◌, refl, List, [], ◌∷◌, ◌++◌, map, length,
}
use spdlog_stress_test.ProducerConsumerQueue.{
  WorkItem, Producer, Consumer, first, second, System, max_queue_size, initial, Event, produces,
  consumes, passes, stops, run,
}
use spdlog_stress_test.ProducerConsumerQueue.Ending.{stop_ends_threads}
use spdlog_stress_test.ProducerConsumerQueue.Order.{numbers, items, holds, queue_history}

abbrev short : List Event
short =
    produces first
    ∷ produces second
    ∷ produces second
    ∷ produces first
    ∷ passes 3
    ∷ consumes second
    ∷ consumes second
    ∷ consumes second
    ∷ stops
    ∷ consumes second
    ∷ consumes second
    ∷ []

abbrev short_end : System
short_end = run initial short

short_reports : map (λ r. r.latency) short_end.reports ≡ 3 ∷ []
unfolding run
short_reports = refl

short_left : map (λ w. w.sequence_id) short_end.work_items ≡ 1 ∷ []
unfolding run
short_left = refl

queue_history_example :
    (short_end.pushed ≡ short_end.popped ++ short_end.work_items)
    × (map (λ w. w.sequence_id) short_end.pushed ≡ numbers (length short_end.pushed))
    × (length short_end.work_items ≤ max_queue_size)
    × ((f : WorkItem → Bool)
        → count f (items short_end.reports)
            + holds f (short_end.consumers first)
            + holds f (short_end.consumers second)
          ≡ count f short_end.popped)
queue_history_example = queue_history short

-- The first producer is producing, and an item waits for the first consumer, when `stop` is set.
abbrev asked : System
asked =
    run initial (produces second ∷ produces second ∷ consumes first ∷ produces first ∷ stops ∷ [])

abbrev last_turns : List Event
last_turns =
    consumes first
    ∷ produces first
    ∷ consumes first
    ∷ produces second
    ∷ produces first
    ∷ consumes first
    ∷ []

asked_stop : asked.stop ≡ true
unfolding run
asked_stop = refl

stop_ends_threads_example :
    ((run asked last_turns).producers first ≡ Producer.gone)
    × ((run asked last_turns).consumers first ≡ Consumer.gone)
stop_ends_threads_example =
    stop_ends_threads first first asked last_turns asked_stop (omega arith) (omega arith)
