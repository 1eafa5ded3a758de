-- ===== src/Ride/Transitions.antt =====
-- `isValidTransition` against the life cycle of a ride, and `tryChangingState` on every branch.
use spdlog_stress_test.Prelude.{
  ◌⊎◌, ◌<◌, ◌≡◌, ◌≢◌, ◌↔◌, inl, inr, refl, ap, true, false, ◌++◌, [], ◌∷◌, arith, length,
  Bool-cases,
}
use spdlog_stress_test.Ride.{
  RideState, idle, requested, passenger_boarding, in_progress, completed, is_valid_transition,
  Manager, max_pending_notifications, try_changing_state, NotificationData,
}

-- A ride goes through its states in order, and back to idle from any other state.
pub data Edge : RideState → RideState → Type 0 where
  request : Edge idle requested
  board : Edge requested passenger_boarding
  depart : Edge passenger_boarding in_progress
  arrive : Edge in_progress completed
  reset : {s : RideState} → s ≢ idle → Edge s idle

reset_valid : (s : RideState) → s ≢ idle → is_valid_transition s idle ≡ true
unfolding is_valid_transition
reset_valid idle h = absurd (h refl)
reset_valid _ h = refl

pub valid_of_Edge : {a b : RideState} → Edge a b → is_valid_transition a b ≡ true
unfolding is_valid_transition
valid_of_Edge request = refl
valid_of_Edge board = refl
valid_of_Edge depart = refl
valid_of_Edge arrive = refl
valid_of_Edge (reset {s} h) = reset_valid s h

pub Edge-of_valid : (a b : RideState) → is_valid_transition a b ≡ true → Edge a b
unfolding is_valid_transition
Edge-of_valid idle requested h = request
Edge-of_valid requested passenger_boarding h = board
Edge-of_valid passenger_boarding in_progress h = depart
Edge-of_valid in_progress completed h = arrive
Edge-of_valid requested idle h = reset (cc)
Edge-of_valid passenger_boarding idle h = reset (cc)
Edge-of_valid in_progress idle h = reset (cc)
Edge-of_valid completed idle h = reset (cc)
Edge-of_valid a b h = cc

-- The transition test accepts exactly the edges of the life cycle.
pub is_valid_transition_iff : (a b : RideState) → (is_valid_transition a b ≡ true) ↔ Edge a b
is_valid_transition_iff a b = (Edge-of_valid a b, valid_of_Edge)

-- What `try_changing_state` asks for: an edge of the life cycle, room in the queue, no shutdown.
pub record Accepts (next : RideState) (m : Manager) : Type 0 where
  pub edge : Edge m.current_ride_state next
  pub room : length m.notifications_queue < max_pending_notifications
  pub running : m.is_shutting_down ≡ false

abbrev pub notice : Manager → RideState → NotificationData
notice m next = record { previous_state = m.current_ride_state; current_state = next }

pub try_changing_state-Accepts :
    (next : RideState) (m : Manager) → (try_changing_state next m).1 ≡ true → Accepts next m
unfolding try_changing_state
try_changing_state-Accepts next m h = record {
  edge = Edge-of_valid m.current_ride_state next (ground arith);
  room = ground arith;
  running = ground arith;
}

-- The manager after a change of state.
abbrev pub changed : RideState → Manager → Manager
changed next m = record m {
  current_ride_state = next;
  notifications_queue = m.notifications_queue ++ notice m next ∷ [];
}

pub try_changing_state-success :
    (next : RideState) (m : Manager)
    → Accepts next m
    → try_changing_state next m ≡ (changed next m, true)
unfolding try_changing_state
try_changing_state-success next m a = ground (arith, valid_of_Edge a.edge)

pub try_changing_state-same :
    (next : RideState) (m : Manager)
    → (try_changing_state next m).1 ≡ false
    → try_changing_state next m ≡ (m, false)
unfolding try_changing_state
try_changing_state-same next m h = ground arith

-- A change of state succeeds exactly when its conditions hold; then the state is the new one and
-- one notice of the change stands at the end of the queue. Otherwise nothing changes at all.
pub try_changing_state_lem :
    (next : RideState) (m : Manager)
    → (((try_changing_state next m).1 ≡ true) ↔ Accepts next m)
      × ((Accepts next m × (try_changing_state next m ≡ (changed next m, true)))
          ⊎ (¬ Accepts next m × (try_changing_state next m ≡ (m, false))))
try_changing_state_lem next m = (
  (try_changing_state-Accepts next m, λ a. ap (λ r. r.1) (try_changing_state-success next m a)),
  elim (Bool-cases (try_changing_state next m).1) [
    | inl done ↦
        let a = try_changing_state-Accepts next m done in
        inl (a, try_changing_state-success next m a)
    | inr refused ↦ inr (
      λ a. cc (ap (λ r. r.1) (try_changing_state-success next m a), refused),
      try_changing_state-same next m refused,
    )
  ],
)
