-- ===== src/Ride.antt =====
-- C++ Project/src/include/ride_state_manager.h: the ride's state machine, its observers and its
-- queue of notifications, one function to a method. The mutexes make each method one step.
pub mod Transitions
pub mod Observers
pub mod ObserverThread
mod Tests
use spdlog_stress_test.Prelude.{
  ℕ, Bool, true, false, not, ◌&&◌, ◌||◌, List, [], ◌∷◌, ◌++◌, Option, none, some, leb, ◌==◌,
  if◌then◌else◌, length, is_empty,
}

-- `enum class RideState`
pub data RideState : Type 0 where
  idle requested passenger_boarding in_progress completed : RideState

-- The `==` of `RideState`.
unfoldable pub same_state : RideState → RideState → Bool
same_state idle idle = true
same_state requested requested = true
same_state passenger_boarding passenger_boarding = true
same_state in_progress in_progress = true
same_state completed completed = true
same_state _ _ = false

pub record NotificationData : Type 0 where
  pub previous_state : RideState
  pub current_state : RideState

-- Two weak pointers, each the identity of the object that it points to.
pub record ObserverData : Type 0 where
  pub dispatcher : ℕ
  pub observer : ℕ

-- Which objects some `shared_ptr` still owns: what `weak_ptr::lock` finds out.
pub record Owners : Type 0 where
  pub dispatcher_alive : ℕ → Bool
  pub observer_alive : ℕ → Bool

abbrev pub is_healthy : Owners → ObserverData → Bool
is_healthy own o = own.dispatcher_alive o.dispatcher && own.observer_alive o.observer

pub record Manager : Type 0 where
  pub current_ride_state : RideState
  pub observers : List ObserverData
  pub notifications_queue : List NotificationData
  pub is_shutting_down : Bool

abbrev pub initial : Manager
initial = record {
  current_ride_state = idle;
  observers = [];
  notifications_queue = [];
  is_shutting_down = false;
}

-- `k_maxPendingNotifications`
abbrev pub max_pending_notifications : ℕ
max_pending_notifications = 1024

unfoldable pub is_valid_transition : RideState → RideState → Bool
unfolding same_state
is_valid_transition current idle = not (same_state current idle)
is_valid_transition current requested = same_state current idle
is_valid_transition current passenger_boarding = same_state current requested
is_valid_transition current in_progress = same_state current passenger_boarding
is_valid_transition current completed = same_state current in_progress

unfoldable pub try_changing_state : RideState → Manager → Manager × Bool
unfolding is_valid_transition
try_changing_state next m =
    if not (is_valid_transition m.current_ride_state next)
      || leb max_pending_notifications (length m.notifications_queue)
      || m.is_shutting_down
    then (m, false)
    else (
      record m {
        current_ride_state = next;
        notifications_queue =
            m.notifications_queue
            ++ record { previous_state = m.current_ride_state; current_state = next } ∷ [];
      },
      true,
    )

pub reset_to_idle : Manager → Manager × Bool
unfolding try_changing_state
reset_to_idle = try_changing_state idle

pub request_ride : Manager → Manager × Bool
unfolding try_changing_state
request_ride = try_changing_state requested

pub start_boarding : Manager → Manager × Bool
unfolding try_changing_state
start_boarding = try_changing_state passenger_boarding

pub start_ride : Manager → Manager × Bool
unfolding try_changing_state
start_ride = try_changing_state in_progress

pub complete_ride : Manager → Manager × Bool
unfolding try_changing_state
complete_ride = try_changing_state completed

pub get_current_state : Manager → RideState
get_current_state m = m.current_ride_state

abbrev pub is_pair : ℕ → ℕ → ObserverData → Bool
is_pair d o e = (e.dispatcher == d) && (e.observer == o)

-- The loop of `subscribe`: the entries left, and whether it stopped at an equal pair. The entries
-- behind that pair are not looked at.
unfoldable pub scan : Owners → ℕ → ℕ → List ObserverData → List ObserverData × Bool
scan own d o [] = ([], false)
scan own d o (e ∷ es) =
    let rest = scan own d o es in
    if is_healthy own e
    then (if is_pair d o e then (e ∷ es, true) else (e ∷ rest.0, rest.1))
    else rest

-- The lock is held: the shutdown test, the loop, and the new entry.
unfoldable pub subscribe_pair : Owners → ℕ → ℕ → Manager → Manager × Bool
unfolding scan
subscribe_pair own d o m =
    let (left, found) = scan own d o m.observers in
    if m.is_shutting_down
    then (m, false)
    else if found
    then (record m { observers = left }, false)
    else (record m { observers = left ++ record { dispatcher = d; observer = o } ∷ [] }, true)

-- A null pointer is `none`.
unfoldable pub subscribe : Owners → Option ℕ → Option ℕ → Manager → Manager × Bool
unfolding subscribe_pair
subscribe own (some d) (some o) m = subscribe_pair own d o m
subscribe own _ _ m = (m, false)

-- The loop of `unsubscribe`: of the two weak pointers it locks the observer's alone.
unfoldable pub drop_observer : Owners → ℕ → List ObserverData → List ObserverData
drop_observer own o [] = []
drop_observer own o (e ∷ es) =
    let rest = drop_observer own o es in
    if own.observer_alive e.observer then (if e.observer == o then rest else e ∷ rest) else rest

unfoldable pub unsubscribe : Owners → Option ℕ → Manager → Manager × Bool
unfolding drop_observer
unsubscribe own none m = (m, false)
unsubscribe own (some o) m =
    if m.is_shutting_down
    then (m, false)
    else (record m { observers = drop_observer own o m.observers }, true)

-- The first block of the destructor.
unfoldable pub shut_down : Manager → Manager
shut_down m = record m { is_shutting_down = true }
