-- ===== src/StringUaf.antt =====
-- C++ Project/src/include/string_uaf.h: a text that is formatted into a buffer and logged later. The
-- random numbers are an input; `snprintf` is that of C, which writes at most the size of the buffer
-- less one, and a zero, and returns the length of the whole text.
pub mod Deferred
mod Tests
use spdlog_stress_test.Prelude.{
  ℕ, zero, suc, ◌-◌, List, [], ◌∷◌, ◌++◌, Option, none, some, length, take, Text, codes, decimal,
}

-- The bytes of `data`, which is never resized.
pub record DeferredLog : Type 0 where
  pub chars : List ℕ
  pub data_len : ℕ

abbrev pub data_size : ℕ
data_size = 32

abbrev pub zeros : ℕ → List ℕ
zeros zero = []
zeros (suc n) = 0 ∷ zeros n

abbrev pub fresh_log : DeferredLog
fresh_log = record { chars = zeros data_size; data_len = 0 }

-- The bytes behind the text keep what they held.
pub overwrite : List ℕ → List ℕ → List ℕ
overwrite [] bytes = bytes
overwrite (c ∷ s) [] = []
overwrite (c ∷ s) (b ∷ bytes) = c ∷ overwrite s bytes

pub snprintf : Text → DeferredLog → DeferredLog
unfolding overwrite
snprintf text d = record {
  chars = overwrite (take (length d.chars - 1) text ++ 0 ∷ []) d.chars;
  data_len = length text;
}

pub set : ℕ → DeferredLog → DeferredLog
unfolding snprintf decimal
set random d = snprintf (codes "deferred=uaf:" ++ decimal random) d

abbrev pub put_first : ℕ → Option Text → Option Text
put_first c none = none
put_first c (some s) = some (c ∷ s)

-- `none` is a read behind the end of the buffer.
pub read_chars : ℕ → List ℕ → Option Text
read_chars zero bytes = some []
read_chars (suc n) [] = none
read_chars (suc n) (b ∷ bytes) = put_first b (read_chars n bytes)

-- The text that is logged.
pub emit : DeferredLog → Option Text
unfolding read_chars
emit d = read_chars d.data_len d.chars

abbrev pub put_line : Option Text → Option (List Text) → Option (List Text)
put_line none rest = none
put_line (some line) none = none
put_line (some line) (some rest) = some (line ∷ rest)

-- The loop of `run`, a round for each random number, on the one buffer.
pub run : DeferredLog → List ℕ → Option (List Text)
unfolding set emit
run d [] = some []
run d (random ∷ rest) = put_line (emit (set random d)) (run (set random d) rest)
