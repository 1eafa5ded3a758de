-- ===== src/ConcurrentMetrics/Workers/Left.antt =====
-- How many turns the threads and `run` have left once a flag is set, and what a turn does to that.
use spdlog_stress_test.Prelude.{
  ℕ, ◌+◌, ◌-◌, ◌≤◌, ◌≡◌, refl, Bool, true, false, ◌||◌, List, [], ◌∷◌, arith,
}
use spdlog_stress_test.ConcurrentMetrics.Workers.{
  WorkerId, first, second, third, Phase, not_started, checking, creating, last_flush, gone, Worker,
  System, Reporter, reporting, last_report, Caller, starting, starting_reporter, joining, returned,
  threw, update, after_start, worker_over, reporter_over, Move, calls, works, reports_now,
}

-- How many turns each has at most until its end, or until the joins, once a flag is set.
abbrev pub caller_left : Caller → ℕ
caller_left (starting first) = 4
caller_left (starting second) = 3
caller_left (starting third) = 2
caller_left starting_reporter = 1
caller_left joining = 0
caller_left returned = 0
caller_left threw = 0

abbrev pub worker_left : Phase → ℕ
worker_left not_started = 0
worker_left checking = 2
worker_left creating = 3
worker_left last_flush = 1
worker_left gone = 0

abbrev pub reporter_left : Reporter → ℕ
reporter_left Reporter.not_started = 0
reporter_left Reporter.checking = 2
reporter_left reporting = 3
reporter_left last_report = 1
reporter_left Reporter.gone = 0

abbrev pub own : WorkerId → WorkerId → ℕ
own first first = 1
own second second = 1
own third third = 1
own i j = 0

abbrev pub has_ended : Caller → Bool
has_ended returned = true
has_ended threw = true
has_ended c = false

pub started : (i : WorkerId) → caller_left (after_start i) + 1 ≡ caller_left (starting i)
started first = refl
started second = refl
started third = refl

pub late : (i : WorkerId) → 2 ≤ caller_left (starting i)
late first = omega arith
late second = omega arith
late third = omega arith

pub worker_over_of : (p : Phase) → worker_left p ≡ 0 → worker_over p ≡ true
worker_over_of not_started h = refl
worker_over_of gone h = refl
worker_over_of checking h = absurd (omega arith)
worker_over_of creating h = absurd (omega arith)
worker_over_of last_flush h = absurd (omega arith)

pub reporter_over_of : (p : Reporter) → reporter_left p ≡ 0 → reporter_over p ≡ true
reporter_over_of Reporter.not_started h = refl
reporter_over_of Reporter.gone h = refl
reporter_over_of Reporter.checking h = absurd (omega arith)
reporter_over_of reporting h = absurd (omega arith)
reporter_over_of last_report h = absurd (omega arith)

pub worker_left-le : (p : Phase) → worker_left p ≤ 3
worker_left-le not_started = omega arith
worker_left-le checking = omega arith
worker_left-le creating = omega arith
worker_left-le last_flush = omega arith
worker_left-le gone = omega arith

pub reporter_left-le : (p : Reporter) → reporter_left p ≤ 3
reporter_left-le Reporter.not_started = omega arith
reporter_left-le Reporter.checking = omega arith
reporter_left-le reporting = omega arith
reporter_left-le last_report = omega arith
reporter_left-le Reporter.gone = omega arith

pub caller_left-le : (c : Caller) → caller_left c ≤ 4
caller_left-le (starting first) = omega arith
caller_left-le (starting second) = omega arith
caller_left-le (starting third) = omega arith
caller_left-le starting_reporter = omega arith
caller_left-le joining = omega arith
caller_left-le returned = omega arith
caller_left-le threw = omega arith

-- The turns that a schedule gives to `run`, to a worker, and to the reporter.
module _ {ℓ} {D : Type ℓ} where
  abbrev pub caller_turns : List (Move D) → ℕ
  caller_turns [] = 0
  caller_turns (calls b ∷ ms) = 1 + caller_turns ms
  caller_turns (m ∷ ms) = caller_turns ms

  abbrev pub worker_turns : WorkerId → List (Move D) → ℕ
  worker_turns i [] = 0
  worker_turns i (works j e ∷ ms) = own i j + worker_turns i ms
  worker_turns i (m ∷ ms) = worker_turns i ms

  abbrev pub reporter_turns : List (Move D) → ℕ
  reporter_turns [] = 0
  reporter_turns (reports_now ∷ ms) = 1 + reporter_turns ms
  reporter_turns (m ∷ ms) = reporter_turns ms

  -- The loops of the threads end.
  abbrev pub is_stopping : System D → Bool
  is_stopping s = s.stop || s.internal_stop

  -- What a turn does to the turns left, of `run`, a worker and the reporter.
  pub record Brings (s t : System D) (c w r : ℕ) (i : WorkerId) : Type 0 where
    pub stopping : is_stopping s ≡ true → is_stopping t ≡ true
    pub caller : caller_left t.caller ≤ caller_left s.caller - c
    pub worker :
        is_stopping s ≡ true
        → caller_left s.caller ≡ 0
        → worker_left (t.workers i).phase ≤ worker_left (s.workers i).phase - w
    pub reporter :
        is_stopping s ≡ true
        → caller_left s.caller ≡ 0
        → reporter_left t.reporter ≤ reporter_left s.reporter - r

  pub updated :
      (i j : WorkerId) (ws : WorkerId → Worker D) (w : Worker D)
      → worker_left w.phase ≤ worker_left (ws j).phase - 1
      → worker_left (update ws j w i).phase ≤ worker_left (ws i).phase - own i j
  updated first first ws w h = h
  updated second second ws w h = h
  updated third third ws w h = h
  updated first second ws w h = omega arith
  updated first third ws w h = omega arith
  updated second first ws w h = omega arith
  updated second third ws w h = omega arith
  updated third first ws w h = omega arith
  updated third second ws w h = omega arith

  pub idle :
      (i j : WorkerId) (ws : WorkerId → Worker D)
      → worker_left (ws j).phase ≡ 0
      → worker_left (ws i).phase ≤ worker_left (ws i).phase - own i j
  idle first first ws h = omega arith
  idle second second ws h = omega arith
  idle third third ws h = omega arith
  idle first second ws h = omega arith
  idle first third ws h = omega arith
  idle second first ws h = omega arith
  idle second third ws h = omega arith
  idle third first ws h = omega arith
  idle third second ws h = omega arith

  pub still : (i : WorkerId) (s : System D) → caller_left s.caller ≡ 0 → Brings s s 1 0 0 i
  still i s a = record {
    stopping = λ h. h;
    caller = omega arith;
    worker = λ h a. omega arith;
    reporter = λ h a. omega arith;
  }

  pub unmoved : (i : WorkerId) (s : System D) → Brings s s 0 0 0 i
  unmoved i s = record {
    stopping = λ h. h;
    caller = omega arith;
    worker = λ h a. omega arith;
    reporter = λ h a. omega arith;
  }

  pub stopped-Brings : (i : WorkerId) (s : System D) → Brings s (record s { stop = true }) 0 0 0 i
  stopped-Brings i s = record {
    stopping = λ h. refl;
    caller = omega arith;
    worker = λ h a. omega arith;
    reporter = λ h a. omega arith;
  }

  pub unreported : (i : WorkerId) (s : System D) → reporter_left s.reporter ≡ 0 → Brings s s 0 0 1 i
  unreported i s r = record {
    stopping = λ h. h;
    caller = omega arith;
    worker = λ h a. omega arith;
    reporter = λ h a. omega arith;
  }

  pub idling :
      (i j : WorkerId) (s : System D)
      → worker_left (s.workers j).phase ≡ 0
      → Brings s s 0 (own i j) 0 i
  idling i j s w = record {
    stopping = λ h. h;
    caller = omega arith;
    worker = λ h a. idle i j s.workers w;
    reporter = λ h a. omega arith;
  }

  pub Brings-then :
      {s t u : System D} {c w r c2 w2 r2 c3 w3 r3 : ℕ} {i : WorkerId}
      → (c3 ≡ c + c2) × (w3 ≡ w + w2) × (r3 ≡ r + r2)
      → Brings s t c w r i
      → Brings t u c2 w2 r2 i
      → Brings s u c3 w3 r3 i
  Brings-then n p q = record {
    stopping = λ h. q.stopping (p.stopping h);
    caller = omega (arith, n, p.caller, q.caller);
    worker = λ h a.
        let x = p.worker h a in
        let y = q.worker (p.stopping h) (omega (arith, a, p.caller)) in omega (arith, n, x, y);
    reporter = λ h a.
        let x = p.reporter h a in
        let y = q.reporter (p.stopping h) (omega (arith, a, p.caller)) in omega (arith, n, x, y);
  }

  -- Every thread has had its last turns.
  abbrev pub HasTurns : List (Move D) → Type 0
  HasTurns ms = ((i : WorkerId) → 3 ≤ worker_turns i ms) × (3 ≤ reporter_turns ms)
