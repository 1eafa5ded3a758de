-- ===== src/Ride/Tests.antt =====
-- Small runs of the ride manager and of its observer thread.
use spdlog_stress_test.Prelude.{
  if◌then◌else◌, ◌⊎◌, ◌≤◌, ◌≡◌, ◌↔◌, refl, true, false, List, [], ◌∷◌, ◌++◌, some, arith, length,
  count, ◌==◌,
}
use spdlog_stress_test.Ride.{
  idle, requested, passenger_boarding, completed, NotificationData, ObserverData, Owners, Manager,
  initial, try_changing_state, subscribe, unsubscribe, is_pair, max_pending_notifications,
}
use spdlog_stress_test.Ride.Transitions.{notice, changed, Accepts, try_changing_state_lem}
use spdlog_stress_test.Ride.Observers.{IsUnique, is_observer, subscribe_lem, unsubscribe_lem}
use spdlog_stress_test.Ride.ObserverThread.{
  popped, Outcome, threw_exception, System, Event, turns, changes, subscribes, stops, waiting,
  start_of, run,
}
use spdlog_stress_test.Ride.ObserverThread.History.{Chain, history}
use spdlog_stress_test.Ride.ObserverThread.Registered.{registered_once}
use spdlog_stress_test.Ride.ObserverThread.Stopping.{
  SleepsOn, IsOver, stop-abandons, run-stops_asleep,
}

abbrev everyone : Owners
everyone = record { dispatcher_alive = λ d. true; observer_alive = λ o. o == 2 }

abbrev pair : ObserverData
pair = record { dispatcher = 1; observer = 2 }

abbrev expired : ObserverData
expired = record { dispatcher = 1; observer = 3 }

abbrev watched : Manager
watched = record initial { observers = pair ∷ expired ∷ [] }

-- The first call throws.
abbrev react : ObserverData → NotificationData → Outcome
react o n = threw_exception

abbrev schedule : List Event
schedule =
    subscribes (some 1) (some 2)
    ∷ changes requested
    ∷ turns
    ∷ turns
    ∷ changes completed
    ∷ changes passenger_boarding
    ∷ turns
    ∷ turns
    ∷ []

abbrev request_notice : NotificationData
request_notice = record { previous_state = idle; current_state = requested }

abbrev board_notice : NotificationData
board_notice = record { previous_state = requested; current_state = passenger_boarding }

abbrev loaded : System
loaded = record (start_of everyone) {
  manager = record watched {
    notifications_queue = request_notice ∷ board_notice ∷ [];
    is_shutting_down = true;
  };
}

abbrev sleeping : System
sleeping = record (start_of everyone) { phase = waiting }

schedule_taken : (run react (start_of everyone) schedule).taken ≡ request_notice ∷ []
unfolding run try_changing_state subscribe
schedule_taken = refl

history_example :
    let s = run react (start_of everyone) schedule in
    Chain idle s.accepted s.manager.current_ride_state
    × (s.accepted ≡ s.taken ++ s.manager.notifications_queue)
    × (length s.manager.notifications_queue ≤ max_pending_notifications)
history_example = history react everyone schedule

abbrev stopped : System
stopped = record loaded { stop = true }

stop-abandons_example :
    IsOver react stopped (run react stopped (turns ∷ changes requested ∷ turns ∷ []))
stop-abandons_example = stop-abandons react stopped (changes requested ∷ turns ∷ []) refl refl

run-stops_asleep_example :
    let t = run react sleeping (stops ∷ turns ∷ subscribes (some 5) (some 6) ∷ turns ∷ []) in
    SleepsOn react sleeping t
    × ((run react t (changes requested ∷ turns ∷ [])).phase ≡ (
        if (try_changing_state requested t.manager).1
        then popped (notice t.manager requested)
        else waiting))
run-stops_asleep_example =
    run-stops_asleep react sleeping (turns ∷ subscribes (some 5) (some 6) ∷ turns ∷ []) requested
      (refl, refl, refl) refl

registered_once_example :
    IsUnique
      (run react
        (start_of everyone)
        (subscribes (some 1) (some 2) ∷ subscribes (some 1) (some 2) ∷ [])).manager.observers
registered_once_example =
    registered_once react everyone
      (subscribes (some 1) (some 2) ∷ subscribes (some 1) (some 2) ∷ [])

try_changing_state_lem_example :
    (((try_changing_state requested watched).1 ≡ true) ↔ Accepts requested watched)
    × ((Accepts requested watched
          × (try_changing_state requested watched ≡ (changed requested watched, true)))
        ⊎ (¬ Accepts requested watched × (try_changing_state requested watched ≡ (watched, false))))
try_changing_state_lem_example = try_changing_state_lem requested watched

watched-IsUnique : IsUnique watched.observers
watched-IsUnique d o = ground arith

subscribe_lem_example :
    let r = subscribe everyone (some 1) (some 2) initial in
    ((r.1 ≡ true) ↔ (count (is_pair 1 2) initial.observers ≡ 0))
    × (count (is_pair 1 2) r.0.observers ≡ 1)
subscribe_lem_example =
    subscribe_lem everyone 1 2 1 2 initial refl refl refl refl refl (λ d o. omega arith)

unsubscribe_lem_example :
    let r = unsubscribe everyone (some 2) watched in
    (r.1 ≡ true)
    × (count (is_observer 2) r.0.observers ≡ 0)
    × (count (is_pair 1 2) r.0.observers ≡ 0)
unsubscribe_lem_example = unsubscribe_lem everyone 2 1 2 watched refl refl
