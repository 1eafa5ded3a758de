-- ===== src/ThreadPair/Lifecycle.antt =====
-- When the threads are over, and how an invariant of the shared state carries over to every schedule.
use spdlog_stress_test.Prelude.{
  sym, subst, ap, ◌≡◌, refl, Bool, true, false, List, [], ◌∷◌, arith, Bool-cases, inl, inr,
}
use spdlog_stress_test.ThreadPair.{
  Phase, not_started, checking, acting, gone, Caller, starting_first, starting_second,
  joining_to_throw, joining_first, joining_second, returned, threw, System, launch, is_gone, Event,
  starts, joins, first_turns, second_turns, stops, start_thread, join_thread, checked, first_turn,
  second_turn, step, run,
}

abbrev pub is_over : Phase → Bool
is_over not_started = true
is_over gone = true
is_over _ = false

-- What a caller knows of its two threads.
abbrev pub Knows : Caller → Phase → Phase → Type 0
Knows starting_first p q = (p ≡ not_started) × (q ≡ not_started)
Knows starting_second p q = q ≡ not_started
Knows joining_to_throw p q = q ≡ not_started
Knows joining_first p q = Unit
Knows joining_second p q = p ≡ gone
Knows returned p q = (p ≡ gone) × (q ≡ gone)
Knows threw p q = (is_over p ≡ true) × (q ≡ not_started)

gone_of : (p : Phase) → is_gone p ≡ true → p ≡ gone
gone_of p h = ground arith

-- Only a thread that runs changes its phase.
Knows-first : (c : Caller) (p p' q : Phase) → is_over p ≡ false → Knows c p q → Knows c p' q
Knows-first starting_first p p' q busy k = cc (ap is_over k.0, busy)
Knows-first starting_second p p' q busy k = k
Knows-first joining_to_throw p p' q busy k = k
Knows-first joining_first p p' q busy k = tt
Knows-first joining_second p p' q busy k = cc (ap is_over k, busy)
Knows-first returned p p' q busy k = cc (ap is_over k.0, busy)
Knows-first threw p p' q busy k = cc (k.0, busy)

Knows-second : (c : Caller) (p q q' : Phase) → is_over q ≡ false → Knows c p q → Knows c p q'
Knows-second starting_first p q q' busy k = cc (ap is_over k.1, busy)
Knows-second starting_second p q q' busy k = cc (ap is_over k, busy)
Knows-second joining_to_throw p q q' busy k = cc (ap is_over k, busy)
Knows-second joining_first p q q' busy k = tt
Knows-second joining_second p q q' busy k = k
Knows-second returned p q q' busy k = cc (ap is_over k.1, busy)
Knows-second threw p q q' busy k = cc (ap is_over k.1, busy)

module _ {ℓ} {S : Type ℓ} where
  abbrev pub IsKnown : System S → Type 0
  IsKnown s = Knows s.caller s.first s.second

  start_thread-IsKnown :
      (c : Caller) (b : Bool) (s : System S)
      → s.caller ≡ c
      → IsKnown s
      → IsKnown (start_thread c b s)
  unfolding start_thread
  start_thread-IsKnown starting_first true s at v = (rw at at v).1
  start_thread-IsKnown starting_first false s at v = let (p, q) = rw at at v in (ap is_over p, q)
  start_thread-IsKnown starting_second true s at v = tt
  start_thread-IsKnown starting_second false s at v = rw at at v
  start_thread-IsKnown joining_to_throw b s at v = v
  start_thread-IsKnown joining_first b s at v = v
  start_thread-IsKnown joining_second b s at v = v
  start_thread-IsKnown returned b s at v = v
  start_thread-IsKnown threw b s at v = v

  join_thread-IsKnown :
      (finish : S → S) (c : Caller) (s : System S)
      → s.caller ≡ c
      → IsKnown s
      → IsKnown (join_thread finish c s)
  unfolding join_thread
  join_thread-IsKnown finish joining_to_throw s at v = elim (Bool-cases (is_gone s.first)) [
    | inl over ↦ simp over (ap is_over (gone_of s.first over), rw at at v)
    | inr busy ↦ simp busy v
  ]
  join_thread-IsKnown finish joining_first s at v = elim (Bool-cases (is_gone s.first)) [
    | inl over ↦ simp over (gone_of s.first over)
    | inr busy ↦ simp busy v
  ]
  join_thread-IsKnown finish joining_second s at v = elim (Bool-cases (is_gone s.second)) [
    | inl over ↦ simp over (rw at at v, gone_of s.second over)
    | inr busy ↦ simp busy v
  ]
  join_thread-IsKnown finish starting_first s at v = v
  join_thread-IsKnown finish starting_second s at v = v
  join_thread-IsKnown finish returned s at v = v
  join_thread-IsKnown finish threw s at v = v

module _ {ℓ} {S : Type ℓ} (first_round second_round finish : S → S) where
  first_turn-IsKnown :
      (p : Phase) (s : System S)
      → s.first ≡ p
      → IsKnown s
      → IsKnown (first_turn first_round second_round finish p s)
  unfolding first_turn
  first_turn-IsKnown checking s at v =
      Knows-first s.caller s.first (checked s.stop) s.second (ap is_over at) v
  first_turn-IsKnown acting s at v =
      Knows-first s.caller s.first checking s.second (ap is_over at) v
  first_turn-IsKnown not_started s at v = v
  first_turn-IsKnown gone s at v = v

  second_turn-IsKnown :
      (p : Phase) (s : System S)
      → s.second ≡ p
      → IsKnown s
      → IsKnown (second_turn first_round second_round finish p s)
  unfolding second_turn
  second_turn-IsKnown checking s at v =
      Knows-second s.caller s.first s.second (checked s.stop) (ap is_over at) v
  second_turn-IsKnown acting s at v =
      Knows-second s.caller s.first s.second checking (ap is_over at) v
  second_turn-IsKnown not_started s at v = v
  second_turn-IsKnown gone s at v = v

  step-IsKnown :
      (s : System S) (e : Event) → IsKnown s → IsKnown (step first_round second_round finish s e)
  unfolding step
  step-IsKnown s (starts b) v = start_thread-IsKnown s.caller b s refl v
  step-IsKnown s joins v = join_thread-IsKnown finish s.caller s refl v
  step-IsKnown s first_turns v = first_turn-IsKnown s.first s refl v
  step-IsKnown s second_turns v = second_turn-IsKnown s.second s refl v
  step-IsKnown s stops v = v

  run-IsKnown :
      (s : System S) (es : List Event)
      → IsKnown s
      → IsKnown (run first_round second_round finish s es)
  unfolding run
  run-IsKnown s [] v = v
  run-IsKnown s (e ∷ es) v =
      run-IsKnown (step first_round second_round finish s e) es (step-IsKnown s e v)

  -- Under every schedule, what `run` knows of its threads holds: where it has returned, both are
  -- gone; where it has thrown, the first is not running and the second was never started.
  pub launch-IsKnown :
      (s : S) (es : List Event) → IsKnown (run first_round second_round finish (launch s) es)
  launch-IsKnown s es = run-IsKnown (launch s) es (refl, refl)

-- A property of the shared state that each round and the end of `run` keep.
module _ {ℓ κ} {S : Type ℓ} (first_round second_round finish : S → S) (P : S → Type κ)
    (first_keeps : (s : S) → P s → P (first_round s))
    (second_keeps : (s : S) → P s → P (second_round s))
    (finish_keeps : (s : S) → P s → P (finish s)) where
  start_thread-shared :
      (c : Caller) (b : Bool) (s : System S) → (start_thread c b s).shared ≡ s.shared
  unfolding start_thread
  start_thread-shared starting_first true s = refl
  start_thread-shared starting_first false s = refl
  start_thread-shared starting_second true s = refl
  start_thread-shared starting_second false s = refl
  start_thread-shared joining_to_throw b s = refl
  start_thread-shared joining_first b s = refl
  start_thread-shared joining_second b s = refl
  start_thread-shared returned b s = refl
  start_thread-shared threw b s = refl

  join_thread-keeps : (c : Caller) (s : System S) → P s.shared → P (join_thread finish c s).shared
  unfolding join_thread
  join_thread-keeps joining_to_throw s h = elim (Bool-cases (is_gone s.first)) [
    | inl over ↦ simp over h
    | inr busy ↦ simp busy h
  ]
  join_thread-keeps joining_first s h = elim (Bool-cases (is_gone s.first)) [
    | inl over ↦ simp over h
    | inr busy ↦ simp busy h
  ]
  join_thread-keeps joining_second s h = elim (Bool-cases (is_gone s.second)) [
    | inl over ↦ simp over (finish_keeps s.shared h)
    | inr busy ↦ simp busy h
  ]
  join_thread-keeps starting_first s h = h
  join_thread-keeps starting_second s h = h
  join_thread-keeps returned s h = h
  join_thread-keeps threw s h = h

  first_turn-keeps :
      (p : Phase) (s : System S)
      → P s.shared
      → P (first_turn first_round second_round finish p s).shared
  unfolding first_turn
  first_turn-keeps checking s h = h
  first_turn-keeps acting s h = first_keeps s.shared h
  first_turn-keeps not_started s h = h
  first_turn-keeps gone s h = h

  second_turn-keeps :
      (p : Phase) (s : System S)
      → P s.shared
      → P (second_turn first_round second_round finish p s).shared
  unfolding second_turn
  second_turn-keeps checking s h = h
  second_turn-keeps acting s h = second_keeps s.shared h
  second_turn-keeps not_started s h = h
  second_turn-keeps gone s h = h

  step-keeps :
      (s : System S) (e : Event) → P s.shared → P (step first_round second_round finish s e).shared
  unfolding step
  step-keeps s (starts b) h = subst P (sym (start_thread-shared s.caller b s)) h
  step-keeps s joins h = join_thread-keeps s.caller s h
  step-keeps s first_turns h = first_turn-keeps s.first s h
  step-keeps s second_turns h = second_turn-keeps s.second s h
  step-keeps s stops h = h

  pub run-keeps :
      (s : System S) (es : List Event)
      → P s.shared
      → P (run first_round second_round finish s es).shared
  unfolding run
  run-keeps s [] h = h
  run-keeps s (e ∷ es) h =
      run-keeps (step first_round second_round finish s e) es (step-keeps s e h)
