-- ===== src/ThreadPair/Turns.antt =====
-- How many turns `run` and its two threads have left once `stop` is set, and what a turn of `run` does
-- to that.
use spdlog_stress_test.Prelude.{
  ℕ, ◌+◌, ◌-◌, ◌≤◌, ◌≡◌, refl, ap, Bool, true, false, ◌&&◌, List, [], ◌∷◌, arith,
}
use spdlog_stress_test.ThreadPair.{
  Phase, not_started, checking, acting, Caller, starting_first, starting_second, joining_to_throw,
  joining_first, joining_second, returned, threw, System, Event, starts, first_turns, second_turns,
  start_thread,
}

-- What has been started where `run` stands.
abbrev pub started : Phase → Bool
started not_started = false
started _ = true

abbrev pub begun : Caller → Phase → Phase → Bool
begun starting_first p q = true
begun starting_second p q = started p
begun joining_to_throw p q = started p
begun joining_first p q = started p && started q
begun joining_second p q = started q
begun returned p q = true
begun threw p q = true

pub begun-first :
    (c : Caller) (p r q : Phase) → started r ≡ true → begun c p q ≡ true → begun c r q ≡ true
begun-first starting_first p r q h v = refl
begun-first starting_second p r q h v = h
begun-first joining_to_throw p r q h v = h
begun-first joining_first p r q h v = ground arith
begun-first joining_second p r q h v = v
begun-first returned p r q h v = refl
begun-first threw p r q h v = refl

pub begun-second :
    (c : Caller) (p q r : Phase) → started r ≡ true → begun c p q ≡ true → begun c p r ≡ true
begun-second starting_first p q r h v = refl
begun-second starting_second p q r h v = v
begun-second joining_to_throw p q r h v = v
begun-second joining_first p q r h v = ground arith
begun-second joining_second p q r h v = h
begun-second returned p q r h v = refl
begun-second threw p q r h v = refl

-- The turns left: of `run` until its joins, and of a thread once `stop` is set.
abbrev pub caller_left : Caller → ℕ
caller_left starting_first = 2
caller_left starting_second = 1
caller_left _ = 0

abbrev pub thread_left : Phase → ℕ
thread_left acting = 2
thread_left checking = 1
thread_left _ = 0

pub caller_left-le : (c : Caller) → caller_left c ≤ 2
caller_left-le c = ground arith

pub thread_left-le : (p : Phase) → thread_left p ≤ 2
thread_left-le p = ground arith

-- The turns that a schedule gives to `run` for its starts, and to each thread.
abbrev pub starts_in : List Event → ℕ
starts_in [] = 0
starts_in (starts b ∷ es) = 1 + starts_in es
starts_in (e ∷ es) = starts_in es

abbrev pub firsts_in : List Event → ℕ
firsts_in [] = 0
firsts_in (first_turns ∷ es) = 1 + firsts_in es
firsts_in (e ∷ es) = firsts_in es

abbrev pub seconds_in : List Event → ℕ
seconds_in [] = 0
seconds_in (second_turns ∷ es) = 1 + seconds_in es
seconds_in (e ∷ es) = seconds_in es

abbrev pub has_ended : Caller → Bool
has_ended returned = true
has_ended threw = true
has_ended _ = false

module _ {ℓ} {S : Type ℓ} where
  abbrev is_begun : System S → Bool
  is_begun s = begun s.caller s.first s.second

  -- What some turns do: `c` starts, and `p` and `q` turns of the threads.
  pub record Brings (s t : System S) (c p q : ℕ) : Type 0 where
    pub stop : s.stop ≡ true → t.stop ≡ true
    pub begins : is_begun s ≡ true → is_begun t ≡ true
    pub caller : caller_left t.caller ≤ caller_left s.caller - c
    pub first :
        s.stop ≡ true → caller_left s.caller ≡ 0 → thread_left t.first ≤ thread_left s.first - p
    pub second :
        s.stop ≡ true → caller_left s.caller ≡ 0 → thread_left t.second ≤ thread_left s.second - q

  pub Brings-then :
      {s t u : System S} {c p q c2 p2 q2 c3 p3 q3 : ℕ}
      → (c3 ≡ c + c2) × (p3 ≡ p + p2) × (q3 ≡ q + q2)
      → Brings s t c p q
      → Brings t u c2 p2 q2
      → Brings s u c3 p3 q3
  Brings-then n a b = record {
    stop = λ h. b.stop (a.stop h);
    begins = λ v. b.begins (a.begins v);
    caller = omega (arith, n, a.caller, b.caller);
    first = λ h z.
        let x = a.first h z in
        let y = b.first (a.stop h) (omega (arith, z, a.caller)) in omega (arith, n, x, y);
    second = λ h z.
        let x = a.second h z in
        let y = b.second (a.stop h) (omega (arith, z, a.caller)) in omega (arith, n, x, y);
  }

  -- A turn with no effect.
  pub still :
      (s : System S) (c p q : ℕ)
      → (caller_left s.caller ≤ caller_left s.caller - c)
        × (thread_left s.first ≤ thread_left s.first - p)
        × (thread_left s.second ≤ thread_left s.second - q)
      → Brings s s c p q
  still s c p q n = record {
    stop = λ h. h;
    begins = λ v. v;
    caller = n.0;
    first = λ h z. n.1;
    second = λ h z. n.2;
  }

  pub start_thread-Brings :
      (c : Caller) (b : Bool) (s : System S) → s.caller ≡ c → Brings s (start_thread c b s) 1 0 0
  unfolding start_thread
  start_thread-Brings starting_first true s at = record {
    stop = λ h. h;
    begins = λ v. refl;
    caller = omega (arith, ap caller_left at);
    first = λ h z. absurd (omega (arith, ap caller_left at));
    second = λ h z. omega arith;
  }
  start_thread-Brings starting_first false s at = record {
    stop = λ h. h;
    begins = λ v. refl;
    caller = omega arith;
    first = λ h z. omega arith;
    second = λ h z. omega arith;
  }
  start_thread-Brings starting_second true s at = record {
    stop = λ h. h;
    begins = λ v. let w : begun starting_second s.first s.second ≡ true = rw at at v in rw w refl;
    caller = omega arith;
    first = λ h z. omega arith;
    second = λ h z. absurd (omega (arith, ap caller_left at));
  }
  start_thread-Brings starting_second false s at = record {
    stop = λ h. h;
    begins = λ v. rw at at v;
    caller = omega arith;
    first = λ h z. omega arith;
    second = λ h z. omega arith;
  }
  start_thread-Brings joining_to_throw b s at = still s 1 0 0 (omega (arith, ap caller_left at))
  start_thread-Brings joining_first b s at = still s 1 0 0 (omega (arith, ap caller_left at))
  start_thread-Brings joining_second b s at = still s 1 0 0 (omega (arith, ap caller_left at))
  start_thread-Brings returned b s at = still s 1 0 0 (omega (arith, ap caller_left at))
  start_thread-Brings threw b s at = still s 1 0 0 (omega (arith, ap caller_left at))
