-- ===== src/Ride/ObserverThread.antt =====
-- The thread that `run` starts in ride_state_manager.h, a step at a time, among the calls of the
-- manager's clients. A schedule is a list of events, in the order in which the locks are taken.
pub mod History
pub mod Draining
pub mod Stopping
pub mod Registered
use spdlog_stress_test.Prelude.{
  ℕ, Bool, true, false, not, ◌&&◌, ◌||◌, List, [], ◌∷◌, ◌++◌, Option, if◌then◌else◌, is_empty,
}
use spdlog_stress_test.Ride.{
  RideState, NotificationData, ObserverData, Owners, is_healthy, Manager, initial,
  try_changing_state, subscribe, unsubscribe, shut_down,
}

-- What a call of `dispatch` does: it returns, or throws and is caught.
pub data Outcome : Type 0 where
  returned threw_exception threw_unknown : Outcome

pub record Delivery : Type 0 where
  pub receiver : ObserverData
  pub notification : NotificationData
  pub outcome : Outcome

-- Where the thread stands, with the locals that are live there.
pub data Phase : Type 0 where
  at_head : Phase
  waiting : Phase
  popped : NotificationData → Phase
  calling : NotificationData → List ObserverData → Phase
  exited : Phase

-- The state of the program, with three records of what happened: the changes accepted, the
-- notifications taken from the queue, and the calls of `dispatch`.
pub record System : Type 0 where
  pub manager : Manager
  pub phase : Phase
  pub owners : Owners
  pub stop : Bool
  pub accepted : List NotificationData
  pub taken : List NotificationData
  pub calls : List Delivery

-- The thread has just been started, on a manager that nobody has called.
abbrev pub start_of : Owners → System
start_of own = record {
  manager = initial;
  phase = at_head;
  owners = own;
  stop = false;
  accepted = [];
  taken = [];
  calls = [];
}

-- The predicate of the wait on `notificationQueueCv_`.
abbrev pub can_wake : Manager → Bool
can_wake m = m.is_shutting_down || not (is_empty m.notifications_queue)

-- The cleaning loop: the live pairs. The healthy pairs and the entries left are the same list.
unfoldable pub collect : Owners → List ObserverData → List ObserverData
collect own [] = []
collect own (e ∷ es) = let rest = collect own es in if is_healthy own e then e ∷ rest else rest

-- `front` and `pop`; an empty queue goes round to the head of the loop.
unfoldable pub take_front : List NotificationData → System → System
take_front [] s = record s { phase = at_head }
take_front (n ∷ ns) s = record s {
  manager = record s.manager { notifications_queue = ns };
  phase = popped n;
  taken = s.taken ++ n ∷ [];
}

-- The loop's body up to the `unlock`, once the wait has returned.
unfoldable pub wake : System → System
unfolding take_front
wake s =
    if s.manager.is_shutting_down && is_empty s.manager.notifications_queue
    then record s { phase = exited }
    else take_front s.manager.notifications_queue s

-- One step of the thread; `react` says what each call of `dispatch` does.
unfoldable pub thread_step : (ObserverData → NotificationData → Outcome) → Phase → System → System
unfolding wake collect
thread_step react at_head s =
    if s.stop then record s { phase = exited } else record s { phase = waiting }
thread_step react waiting s = if can_wake s.manager then wake s else s
thread_step react (popped n) s = record s {
  manager = record s.manager { observers = collect s.owners s.manager.observers };
  phase = calling n (collect s.owners s.manager.observers);
}
thread_step react (calling n []) s = record s { phase = at_head }
thread_step react (calling n (o ∷ os)) s = record s {
  phase = calling n os;
  calls = s.calls ++ record { receiver = o; notification = n; outcome = react o n } ∷ [];
}
thread_step react exited s = s

pub data Event : Type 0 where
  turns : Event
  changes : RideState → Event
  subscribes : Option ℕ → Option ℕ → Event
  unsubscribes : Option ℕ → Event
  shuts_down : Event
  stops : Event
  owners_become : Owners → Event

-- A client's change of state, with its notice recorded if it is accepted.
unfoldable pub change : RideState → System → System
change next s =
    let (m, done) = try_changing_state next s.manager in
    record s {
      manager = m;
      accepted =
          if done
          then s.accepted
            ++ record { previous_state = s.manager.current_ride_state; current_state = next } ∷ []
          else s.accepted;
    }

unfoldable pub step : (ObserverData → NotificationData → Outcome) → System → Event → System
unfolding thread_step change
step react s turns = thread_step react s.phase s
step react s (changes next) = change next s
step react s (subscribes d o) = record s { manager = (subscribe s.owners d o s.manager).0 }
step react s (unsubscribes o) = record s { manager = (unsubscribe s.owners o s.manager).0 }
step react s shuts_down = record s { manager = shut_down s.manager }
step react s stops = record s { stop = true }
step react s (owners_become own) = record s { owners = own }

unfoldable pub run : (ObserverData → NotificationData → Outcome) → System → List Event → System
unfolding step
run react s [] = s
run react s (e ∷ es) = run react (step react s e) es
