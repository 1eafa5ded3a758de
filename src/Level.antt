-- ===== src/Level.antt =====
-- C++ Project/src/include/level.h: a thread that counts up, and one that logs whether the count is odd.
-- The atomic `int` is its pattern of 32 bits: it wraps, and its lowest bit is that of the pattern.
pub mod Parity
mod Tests
use spdlog_stress_test.Prelude.{ℕ, ◌+◌, ◌%◌, ◌^◌, Bool, List, [], ◌∷◌, ◌++◌, ◌==◌, if◌then◌else◌}
use spdlog_stress_test.ThreadPair
use spdlog_stress_test.ThreadPair.{System, Event, launch}

-- A line of the log.
pub data Line : Type 0 where
  odd even : Line

-- `g_level`, the log, and two records: how often the writer has counted, and how often it had when the
-- reader looked, for each look.
pub record Counter : Type 0 where
  pub level : ℕ
  pub log : List Line
  pub increments : ℕ
  pub looks : List ℕ

abbrev pub u32 : ℕ → ℕ
u32 n = n % 2 ^ 32

-- `store(0)`, before the threads are started.
abbrev pub reset : Counter
reset = record { level = 0; log = []; increments = 0; looks = [] }

pub write_round : Counter → Counter
write_round c = record c { level = u32 (c.level + 1); increments = c.increments + 1 }

pub line_of : ℕ → Line
line_of level = if level % 2 == 1 then odd else even

pub read_round : Counter → Counter
unfolding line_of
read_round c = record c {
  log = c.log ++ line_of c.level ∷ [];
  looks = c.looks ++ c.increments ∷ [];
}

pub run : List Event → System Counter
unfolding ThreadPair.run write_round read_round
run es = ThreadPair.run write_round read_round (λ c. c) (launch reset) es
