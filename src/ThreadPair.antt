-- ===== src/ThreadPair.antt =====
-- `run` of C++ Project/src/include/diagnostics.h and level.h: it starts a thread, then a second one,
-- joins the first before it passes on a failure to start the second, or else joins both. Either
-- thread runs the rounds of its loop until `stop` is set. The rounds act on a state that they share; a
-- turn is a read of `stop`, one round, or a step of `run` itself.
pub mod Lifecycle
pub mod Turns
pub mod Ending
mod Tests
use spdlog_stress_test.Prelude.{Bool, true, false, ◌&&◌, List, [], ◌∷◌, if◌then◌else◌}

pub data Phase : Type 0 where
  not_started checking acting gone : Phase

pub data Caller : Type 0 where
  starting_first starting_second joining_to_throw joining_first joining_second returned threw :
      Caller

pub record System {ℓ} (S : Type ℓ) : Type ℓ where
  pub stop : Bool
  pub caller : Caller
  pub first : Phase
  pub second : Phase
  pub shared : S

abbrev pub launch {ℓ} : {S : Type ℓ} → S → System S
launch s = record {
  stop = false;
  caller = starting_first;
  first = not_started;
  second = not_started;
  shared = s;
}

abbrev pub is_gone : Phase → Bool
is_gone gone = true
is_gone _ = false

-- `starts` is a turn of the caller in which it starts a thread, if it has one to start, and whether
-- that succeeds; a failure to start the first leaves `run` at once.
pub data Event : Type 0 where
  starts : Bool → Event
  joins : Event
  first_turns : Event
  second_turns : Event
  stops : Event

pub start_thread {ℓ} : {S : Type ℓ} → Caller → Bool → System S → System S
start_thread starting_first true s = record s { caller = starting_second; first = checking }
start_thread starting_first false s = record s { caller = threw }
start_thread starting_second true s = record s { caller = joining_first; second = checking }
start_thread starting_second false s = record s { caller = joining_to_throw }
start_thread _ b s = s

-- A join ends when its thread is gone. `finish` is what `run` does behind both.
pub join_thread {ℓ} : {S : Type ℓ} → (S → S) → Caller → System S → System S
join_thread finish joining_to_throw s = if is_gone s.first then record s { caller = threw } else s
join_thread finish joining_first s =
    if is_gone s.first then record s { caller = joining_second } else s
join_thread finish joining_second s =
    if is_gone s.second then record s { caller = returned; shared = finish s.shared } else s
join_thread finish _ s = s

abbrev pub checked : Bool → Phase
checked stop = if stop then gone else acting

module _ {ℓ} {S : Type ℓ} (first_round second_round finish : S → S) where
  pub first_turn : Phase → System S → System S
  first_turn checking s = record s { first = checked s.stop }
  first_turn acting s = record s { first = checking; shared = first_round s.shared }
  first_turn _ s = s

  pub second_turn : Phase → System S → System S
  second_turn checking s = record s { second = checked s.stop }
  second_turn acting s = record s { second = checking; shared = second_round s.shared }
  second_turn _ s = s

  unfoldable pub step : System S → Event → System S
  unfolding start_thread join_thread first_turn second_turn
  step s (starts b) = start_thread s.caller b s
  step s joins = join_thread finish s.caller s
  step s first_turns = first_turn s.first s
  step s second_turns = second_turn s.second s
  step s stops = record s { stop = true }

  unfoldable pub run : System S → List Event → System S
  unfolding step
  run s [] = s
  run s (e ∷ es) = run (step s e) es
