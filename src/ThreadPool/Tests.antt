-- ===== src/ThreadPool/Tests.antt =====
-- Small runs of the pool: tasks are numbers, and an odd task throws itself.
use Prim.Native.Nat.{◌%◌}
use spdlog_stress_test.Prelude.{
  ℕ, ◌+◌, ◌≡◌, ◌≢◌, refl, true, List, [], ◌∷◌, ◌++◌, Option, none, some, ◌==◌, if◌then◌else◌,
}
use spdlog_stress_test.ThreadPool.{
  worker_turn, erase, insert, ThreadPool, create, wait, blocked, rethrown, is_done,
}
use spdlog_stress_test.ThreadPool.Events.{
  Event, submits, turns, run, destroy, ends_program, joins_workers,
}
use spdlog_stress_test.ThreadPool.Leaving.{Leaves, workers_leave}
use spdlog_stress_test.ThreadPool.Counting.{occurs, upto, held_ids, ids}
use spdlog_stress_test.ThreadPool.Waiting.{
  Over, result_of, tasks_in_order, tasks_accounted, wait_complete, destroy-ends_program,
}
use spdlog_stress_test.ThreadPool.Finishing.{Finishes, tasks_finish}

abbrev odd_throws : ℕ → Option ℕ
odd_throws n = if n % 2 == 1 then some n else none

abbrev end_state : Option (ThreadPool ℕ ℕ) → ThreadPool ℕ ℕ
end_state none = create none
end_state (some p) = p

-- Two workers and three tasks, the first of which throws.
abbrev busy_schedule : List (Event ℕ)
busy_schedule = submits 7 ∷ submits 4 ∷ submits 9 ∷ turns 1 ∷ turns 0 ∷ turns 1 ∷ turns 0 ∷ []

abbrev busy : ThreadPool ℕ ℕ
busy = end_state (run odd_throws (create (some 2)) busy_schedule)

abbrev done_schedule : List (Event ℕ)
done_schedule =
    submits 7 ∷ submits 4 ∷ turns 0 ∷ turns 0 ∷ turns 0 ∷ turns 0 ∷ turns 1 ∷ turns 1 ∷ turns 1 ∷ []

abbrev done : ThreadPool ℕ ℕ
done = end_state (run odd_throws (create (some 2)) done_schedule)

busy_runs : run odd_throws (create (some 2)) busy_schedule ≡ some busy
unfolding run
busy_runs = refl

done_runs : run odd_throws (create (some 2)) done_schedule ≡ some done
unfolding run worker_turn erase insert
done_runs = refl

done-wait : (wait done).1 ≡ rethrown 7
unfolding run wait worker_turn erase insert
done-wait = refl

tasks_in_order_example :
    busy.started ++ ids busy.shared.queued_tasks ≡ upto busy.shared.next_task_id
tasks_in_order_example = tasks_in_order odd_throws (some 2) busy_schedule busy busy_runs

tasks_accounted_example :
    (occurs 1 busy.shared.in_progress_tasks ≡ occurs 1 (held_ids busy.worker_threads))
    × (occurs 1 busy.started ≡ occurs 1 busy.finished + occurs 1 (held_ids busy.worker_threads))
tasks_accounted_example = tasks_accounted odd_throws (some 2) busy_schedule busy busy_runs 1

done_over : (wait done).1 ≢ blocked
done_over h = cc (done-wait)

wait_complete_example : Over done × ((wait done).1 ≡ result_of done.unreported)
wait_complete_example = wait_complete odd_throws 2 done_schedule done done_runs done_over

tasks_finish_example : Finishes odd_throws busy
tasks_finish_example = tasks_finish odd_throws 1 busy_schedule busy refl busy_runs

done_is_done : is_done done.shared ≡ true
unfolding run worker_turn erase insert
done_is_done = refl

done_unreported : done.unreported ≡ 7 ∷ []
unfolding run worker_turn erase insert
done_unreported = refl

destroy-ends_program_example : (destroy done).1 ≡ ends_program 7
destroy-ends_program_example =
    destroy-ends_program odd_throws 2 done_schedule done 7 [] done_runs done_is_done done_unreported

-- Two tasks that throw nothing.
abbrev quiet_schedule : List (Event ℕ)
quiet_schedule =
    submits 2 ∷ submits 4 ∷ turns 0 ∷ turns 0 ∷ turns 0 ∷ turns 1 ∷ turns 1 ∷ turns 1 ∷ []

abbrev quiet : ThreadPool ℕ ℕ
quiet = end_state (run odd_throws (create (some 2)) quiet_schedule)

quiet_runs : run odd_throws (create (some 2)) quiet_schedule ≡ some quiet
unfolding run
quiet_runs = refl

quiet_joins : (destroy quiet).1 ≡ joins_workers
unfolding run destroy worker_turn erase insert
quiet_joins = refl

workers_leave_example : Leaves odd_throws (destroy quiet).0
workers_leave_example = workers_leave odd_throws 1 quiet_schedule quiet refl quiet_runs quiet_joins
