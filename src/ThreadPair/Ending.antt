-- ===== src/ThreadPair/Ending.antt =====
-- Once `stop` is set, the two threads leave and `run` ends, whatever the order of their turns.
use spdlog_stress_test.Prelude.{
  ◌≤◌, ◌≡◌, refl, ap, Bool, true, false, List, [], ◌∷◌, arith, Bool-cases, inl, inr,
}
use spdlog_stress_test.ThreadPair.{
  Phase, not_started, checking, acting, gone, Caller, starting_first, starting_second,
  joining_to_throw, joining_first, joining_second, returned, threw, System, launch, is_gone, Event,
  starts, joins, first_turns, second_turns, stops, start_thread, join_thread, checked, first_turn,
  second_turn, step, run,
}
use spdlog_stress_test.ThreadPair.Turns.{
  started, begun, begun-first, begun-second, caller_left, thread_left, caller_left-le,
  thread_left-le, starts_in, firsts_in, seconds_in, has_ended, Brings, Brings-then, still,
  start_thread-Brings,
}

checked-started : (b : Bool) → started (checked b) ≡ true
checked-started true = refl
checked-started false = refl

gone_of : (p : Phase) → thread_left p ≡ 0 → started p ≡ true → p ≡ gone
gone_of p a h = ground arith

module _ {ℓ} {S : Type ℓ} where
  join_thread-Brings :
      (finish : S → S) (c : Caller) (s : System S)
      → s.caller ≡ c
      → Brings s (join_thread finish c s) 0 0 0
  unfolding join_thread
  join_thread-Brings finish joining_to_throw s at = elim (Bool-cases (is_gone s.first)) [
    | inl over ↦ simp over (record {
      stop = λ h. h;
      begins = λ v. refl;
      caller = omega arith;
      first = λ h z. omega arith;
      second = λ h z. omega arith;
    })
    | inr busy ↦ simp busy (still s 0 0 0 (omega arith))
  ]
  join_thread-Brings finish joining_first s at = elim (Bool-cases (is_gone s.first)) [
    | inl over ↦ simp over (record {
      stop = λ h. h;
      begins =
          λ v. let w : begun joining_first s.first s.second ≡ true = rw at at v in ground arith;
      caller = omega arith;
      first = λ h z. omega arith;
      second = λ h z. omega arith;
    })
    | inr busy ↦ simp busy (still s 0 0 0 (omega arith))
  ]
  join_thread-Brings finish joining_second s at = elim (Bool-cases (is_gone s.second)) [
    | inl over ↦ simp over (record {
      stop = λ h. h;
      begins = λ v. refl;
      caller = omega arith;
      first = λ h z. omega arith;
      second = λ h z. omega arith;
    })
    | inr busy ↦ simp busy (still s 0 0 0 (omega arith))
  ]
  join_thread-Brings finish starting_first s at = still s 0 0 0 (omega arith)
  join_thread-Brings finish starting_second s at = still s 0 0 0 (omega arith)
  join_thread-Brings finish returned s at = still s 0 0 0 (omega arith)
  join_thread-Brings finish threw s at = still s 0 0 0 (omega arith)

module _ {ℓ} {S : Type ℓ} (first_round second_round finish : S → S) where
  first_turn-Brings :
      (p : Phase) (s : System S)
      → s.first ≡ p
      → Brings s (first_turn first_round second_round finish p s) 0 1 0
  unfolding first_turn
  first_turn-Brings checking s at = record {
    stop = λ h. h;
    begins = begun-first s.caller s.first (checked s.stop) s.second (checked-started s.stop);
    caller = omega arith;
    first = λ h z. rw h (omega arith);
    second = λ h z. omega arith;
  }
  first_turn-Brings acting s at = record {
    stop = λ h. h;
    begins = begun-first s.caller s.first checking s.second refl;
    caller = omega arith;
    first = λ h z. omega (arith, ap thread_left at);
    second = λ h z. omega arith;
  }
  first_turn-Brings not_started s at = still s 0 1 0 (omega (arith, ap thread_left at))
  first_turn-Brings gone s at = still s 0 1 0 (omega (arith, ap thread_left at))

  second_turn-Brings :
      (p : Phase) (s : System S)
      → s.second ≡ p
      → Brings s (second_turn first_round second_round finish p s) 0 0 1
  unfolding second_turn
  second_turn-Brings checking s at = record {
    stop = λ h. h;
    begins = begun-second s.caller s.first s.second (checked s.stop) (checked-started s.stop);
    caller = omega arith;
    first = λ h z. omega arith;
    second = λ h z. rw h (omega arith);
  }
  second_turn-Brings acting s at = record {
    stop = λ h. h;
    begins = begun-second s.caller s.first s.second checking refl;
    caller = omega arith;
    first = λ h z. omega arith;
    second = λ h z. omega (arith, ap thread_left at);
  }
  second_turn-Brings not_started s at = still s 0 0 1 (omega (arith, ap thread_left at))
  second_turn-Brings gone s at = still s 0 0 1 (omega (arith, ap thread_left at))

  stops-Brings : (s : System S) → Brings s (record s { stop = true }) 0 0 0
  stops-Brings s = record {
    stop = λ h. refl;
    begins = λ v. v;
    caller = omega arith;
    first = λ h z. omega arith;
    second = λ h z. omega arith;
  }

  abbrev pub after : System S → List Event → System S
  after s es = run first_round second_round finish s es

  run-Brings :
      (es : List Event) (s : System S)
      → Brings s (after s es) (starts_in es) (firsts_in es) (seconds_in es)
  unfolding run step
  run-Brings [] s = still s 0 0 0 (omega arith)
  run-Brings (starts b ∷ es) s =
      Brings-then (omega arith) (start_thread-Brings s.caller b s refl)
        (run-Brings es (start_thread s.caller b s))
  run-Brings (joins ∷ es) s =
      Brings-then (omega arith) (join_thread-Brings finish s.caller s refl)
        (run-Brings es (join_thread finish s.caller s))
  run-Brings (first_turns ∷ es) s =
      Brings-then (omega arith) (first_turn-Brings s.first s refl)
        (run-Brings es (first_turn first_round second_round finish s.first s))
  run-Brings (second_turns ∷ es) s =
      Brings-then (omega arith) (second_turn-Brings s.second s refl)
        (run-Brings es (second_turn first_round second_round finish s.second s))
  run-Brings (stops ∷ es) s =
      Brings-then (omega arith) (stops-Brings s) (run-Brings es (record s { stop = true }))

  -- Two joins end `run` where no thread has a turn left.
  joined :
      (c : Caller) (s : System S)
      → s.caller ≡ c
      → caller_left c ≡ 0
      → thread_left s.first ≡ 0
      → thread_left s.second ≡ 0
      → begun c s.first s.second ≡ true
      → has_ended (after s (joins ∷ joins ∷ [])).caller ≡ true
  unfolding run step join_thread
  joined joining_to_throw s at a p q v = rw (at, gone_of s.first p v) refl
  joined joining_first s at a p q v =
      rw (at, gone_of s.first p (ground arith), gone_of s.second q (ground arith)) refl
  joined joining_second s at a p q v = rw (at, gone_of s.second q v) refl
  joined returned s at a p q v = rw at refl
  joined threw s at a p q v = rw at refl
  joined starting_first s at a p q v = absurd (omega arith)
  joined starting_second s at a p q v = absurd (omega arith)

  -- In every state that a run comes to in which `stop` is set: after a schedule in which `run` has two
  -- turns for its starts, which may fail, and one in which each thread has two turns, two joins end
  -- `run`. What else happens in these schedules, and in what order, is free.
  pub stop_ends_pair :
      (s : S) (es ms ns : List Event)
      → (after (launch s) es).stop ≡ true
      → 2 ≤ starts_in ms
      → 2 ≤ firsts_in ns
      → 2 ≤ seconds_in ns
      → has_ended (after (after (after (after (launch s) es) ms) ns) (joins ∷ joins ∷ [])).caller
        ≡ true
  stop_ends_pair s es ms ns h two firsts seconds =
      let t = after (launch s) es in
      let u = after t ms in
      let v = after u ns in
      let past = run-Brings es (launch s) in
      let starting = run-Brings ms t in
      let ending = run-Brings ns u in
      let none_left : caller_left u.caller ≡ 0 =
        omega (arith, starting.caller, caller_left-le t.caller, two) in
      joined v.caller v refl (omega (arith, ending.caller, none_left))
        (omega (arith, ending.first (starting.stop h) none_left, thread_left-le u.first, firsts))
        (omega (arith, ending.second (starting.stop h) none_left, thread_left-le u.second, seconds))
        (ending.begins (starting.begins (past.begins refl)))
