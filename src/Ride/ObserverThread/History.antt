-- ===== src/Ride/ObserverThread/History.antt =====
-- What any schedule of the clients and of the observer thread leaves behind.
use spdlog_stress_test.Prelude.{
  some, Option, ℕ, ◌≤◌, ◌≡◌, refl, sym, ap, ◌∙◌, ◌&&◌, is_empty, false, List, [], ◌∷◌, ◌++◌, arith,
  length, length-append, append_assoc, Bool-cases, inl, inr,
}
use spdlog_stress_test.Ride.{
  RideState, idle, NotificationData, ObserverData, Manager, Owners, max_pending_notifications,
  try_changing_state, subscribe, unsubscribe, shut_down,
}
use spdlog_stress_test.Ride.Transitions.{
  Edge, Accepts, notice, try_changing_state-Accepts, try_changing_state-success,
  try_changing_state-same,
}
use mathlib.Core.Option.{Option, some, none}
use spdlog_stress_test.Ride.ObserverThread.{
  at_head, waiting, popped, calling, exited, turns, changes, subscribes, unsubscribes, shuts_down,
  stops, owners_become, can_wake, start_of, Outcome, Phase, System, Event, thread_step, wake,
  take_front, change, step, run,
}

-- Notices that lead from one state to another, each along an edge of the life cycle.
abbrev pub Chain : RideState → List NotificationData → RideState → Type 0
Chain a [] b = a ≡ b
Chain a (n ∷ ns) b =
    (n.previous_state ≡ a) × Edge n.previous_state n.current_state × Chain n.current_state ns b

pub Chain-snoc :
    (a : RideState) (ns : List NotificationData) (b c : RideState)
    → Chain a ns b
    → Edge b c
    → Chain a (ns ++ record { previous_state = b; current_state = c } ∷ []) c
Chain-snoc a [] b c h e = (ground arith, e, refl)
Chain-snoc a (n ∷ ns) b c h e = (h.0, h.1, Chain-snoc n.current_state ns b c h.2 e)

pub record Inv (s : System) : Type 0 where
  pub chained : Chain idle s.accepted s.manager.current_ride_state
  pub kept : s.accepted ≡ s.taken ++ s.manager.notifications_queue
  pub bounded : length s.manager.notifications_queue ≤ max_pending_notifications

-- Clients that leave the state and the queue alone.
abbrev SameRide : Manager → Manager → Type 0
SameRide m m' =
    (m'.current_ride_state ≡ m.current_ride_state)
    × (m'.notifications_queue ≡ m.notifications_queue)

subscribe-SameRide :
    (own : Owners) (d o : Option ℕ) (m : Manager) → SameRide m (subscribe own d o m).0
unfolding subscribe
subscribe-SameRide own none none m = (refl, refl)
subscribe-SameRide own none (some o) m = (refl, refl)
subscribe-SameRide own (some d) none m = (refl, refl)
subscribe-SameRide own (some d) (some o) m = ground arith

unsubscribe-SameRide :
    (own : Owners) (o : Option ℕ) (m : Manager) → SameRide m (unsubscribe own o m).0
unfolding unsubscribe
unsubscribe-SameRide own none m = (refl, refl)
unsubscribe-SameRide own (some o) m = ground arith

accepted-Inv :
    (next : RideState) (s : System) → Accepts next s.manager → Inv s → Inv (change next s)
unfolding change
accepted-Inv next s a v = rw (try_changing_state-success next s.manager a) (record {
  chained = Chain-snoc idle s.accepted s.manager.current_ride_state next v.chained a.edge;
  kept =
      rw v.kept (append_assoc s.taken s.manager.notifications_queue (notice s.manager next ∷ []));
  bounded =
      omega
        (arith, a.room, length-append s.manager.notifications_queue (notice s.manager next ∷ []));
})

refused-Inv :
    (next : RideState) (s : System)
    → (try_changing_state next s.manager).1 ≡ false
    → Inv s
    → Inv (change next s)
unfolding change
refused-Inv next s e v = rw (try_changing_state-same next s.manager e) v

change-Inv : (next : RideState) (s : System) → Inv s → Inv (change next s)
change-Inv next s v = elim (Bool-cases (try_changing_state next s.manager).1) [
  | inl done ↦ accepted-Inv next s (try_changing_state-Accepts next s.manager done) v
  | inr refused ↦ refused-Inv next s refused v
]

take_front-Inv :
    (q : List NotificationData) (s : System)
    → s.manager.notifications_queue ≡ q
    → Inv s
    → Inv (take_front q s)
unfolding take_front
take_front-Inv [] s e v = record { chained = v.chained; kept = v.kept; bounded = v.bounded }
take_front-Inv (n ∷ ns) s e v = record {
  chained = v.chained;
  kept = v.kept ∙ ap (◌++◌ s.taken) e ∙ sym (append_assoc s.taken (n ∷ []) ns);
  bounded = omega (arith, ap length e, v.bounded);
}

wake-Inv : (s : System) → Inv s → Inv (wake s)
unfolding wake
wake-Inv s v =
    elim (Bool-cases (s.manager.is_shutting_down && is_empty s.manager.notifications_queue)) [
      | inl leaving ↦
          rw leaving (record { chained = v.chained; kept = v.kept; bounded = v.bounded })
      | inr staying ↦ rw staying (take_front-Inv s.manager.notifications_queue s refl v)
    ]

-- Steps that leave the ride, the queue and the records of it alone.
abbrev SameHistory : System → System → Type 0
SameHistory s t = SameRide s.manager t.manager × (t.accepted ≡ s.accepted) × (t.taken ≡ s.taken)

SameHistory-Inv : (s t : System) → SameHistory s t → Inv s → Inv t
SameHistory-Inv s t ((ride, queue), accepted, taken) v = record {
  chained = rw (ride, accepted) v.chained;
  kept = rw (accepted, taken, queue) v.kept;
  bounded = rw queue v.bounded;
}

thread_step-Inv :
    (react : ObserverData → NotificationData → Outcome) (p : Phase) (s : System)
    → Inv s
    → Inv (thread_step react p s)
unfolding thread_step
thread_step-Inv react at_head s v = SameHistory-Inv s _ (ground arith) v
thread_step-Inv react waiting s v = elim (Bool-cases (can_wake s.manager)) [
  | inl awake ↦ rw awake (wake-Inv s v)
  | inr asleep ↦ rw asleep v
]
thread_step-Inv react (popped n) s v = SameHistory-Inv s _ ((refl, refl), refl, refl) v
thread_step-Inv react (calling n []) s v = SameHistory-Inv s _ ((refl, refl), refl, refl) v
thread_step-Inv react (calling n (o ∷ os)) s v = SameHistory-Inv s _ ((refl, refl), refl, refl) v
thread_step-Inv react exited s v = v

step-Inv :
    (react : ObserverData → NotificationData → Outcome) (s : System) (e : Event)
    → Inv s
    → Inv (step react s e)
unfolding step shut_down
step-Inv react s turns v = thread_step-Inv react s.phase s v
step-Inv react s (changes next) v = change-Inv next s v
step-Inv react s (subscribes d o) v =
    SameHistory-Inv s _ (subscribe-SameRide s.owners d o s.manager, refl, refl) v
step-Inv react s (unsubscribes o) v =
    SameHistory-Inv s _ (unsubscribe-SameRide s.owners o s.manager, refl, refl) v
step-Inv react s shuts_down v = SameHistory-Inv s _ ((refl, refl), refl, refl) v
step-Inv react s stops v = SameHistory-Inv s _ ((refl, refl), refl, refl) v
step-Inv react s (owners_become own) v = SameHistory-Inv s _ ((refl, refl), refl, refl) v

-- Under every schedule: the notices of the accepted changes lead from idle to the current state
-- along the life cycle; those taken by the thread, followed by the queue, are all of them in their
-- order; and the queue stays within its limit.
pub run-Inv :
    (react : ObserverData → NotificationData → Outcome) (s : System) (es : List Event)
    → Inv s
    → Inv (run react s es)
unfolding run
run-Inv react s [] v = v
run-Inv react s (e ∷ es) v = run-Inv react (step react s e) es (step-Inv react s e v)

pub start_of-Inv : (own : Owners) → Inv (start_of own)
start_of-Inv own = record { chained = refl; kept = refl; bounded = omega arith }

-- Whatever the clients, the owners of the observers and the thread do, and in whatever order: the
-- notices of the accepted changes lead from idle to the current state along the life cycle; those
-- that the thread has taken, followed by those in the queue, are the accepted ones in their order;
-- and the queue holds at most `max_pending_notifications`.
pub history :
    (react : ObserverData → NotificationData → Outcome) (own : Owners) (es : List Event)
    → let s = run react (start_of own) es in
      Chain idle s.accepted s.manager.current_ride_state
      × (s.accepted ≡ s.taken ++ s.manager.notifications_queue)
      × (length s.manager.notifications_queue ≤ max_pending_notifications)
history react own es =
    let v = run-Inv react (start_of own) es (start_of-Inv own) in (v.chained, v.kept, v.bounded)
