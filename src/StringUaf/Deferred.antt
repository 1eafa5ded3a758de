-- ===== src/StringUaf/Deferred.antt =====
-- The buffer is large enough, and nothing of an earlier text is logged again.
use spdlog_stress_test.Prelude.{
  ℕ, ◌^◌, ◌<◌, ◌≤◌, ◌≡◌, refl, List, [], ◌∷◌, ◌++◌, map, some, arith, All, length, length-append,
  take_all, ◌-◌, Text, codes, decimal, length-decimal,
}
use spdlog_stress_test.StringUaf.{
  DeferredLog, data_size, overwrite, snprintf, set, read_chars, emit, run,
}

length-overwrite : (s bytes : List ℕ) → length (overwrite s bytes) ≡ length bytes
unfolding overwrite
length-overwrite [] bytes = refl
length-overwrite (c ∷ s) [] = refl
length-overwrite (c ∷ s) (b ∷ bytes) = omega (arith, length-overwrite s bytes)

read_chars-overwrite :
    (s t bytes : List ℕ)
    → length s ≤ length bytes
    → read_chars (length s) (overwrite (s ++ t) bytes) ≡ some s
unfolding read_chars overwrite
read_chars-overwrite [] t bytes h = refl
read_chars-overwrite (c ∷ s) t [] h = absurd (omega arith)
read_chars-overwrite (c ∷ s) t (b ∷ bytes) h = rw (read_chars-overwrite s t bytes (omega arith))

emit-snprintf :
    (s : Text) (d : DeferredLog) → length s < length d.chars → emit (snprintf s d) ≡ some s
unfolding emit snprintf
emit-snprintf s d h =
    rw (take_all (length d.chars - 1) s (omega arith))
      (read_chars-overwrite s (0 ∷ []) d.chars (omega arith))

abbrev pub deferred_text : ℕ → Text
deferred_text n = codes "deferred=uaf:" ++ decimal n

emit-set :
    (n : ℕ) (d : DeferredLog)
    → length d.chars ≡ data_size
    → n < 2 ^ 32
    → emit (set n d) ≡ some (deferred_text n)
unfolding set
emit-set n d size small =
    emit-snprintf (deferred_text n) d
      (omega (arith, length-append (codes "deferred=uaf:") (decimal n), length-decimal 9 n, size))

set-size : (n : ℕ) (d : DeferredLog) → length (set n d).chars ≡ length d.chars
unfolding set snprintf
set-size n d = length-overwrite _ d.chars

-- For any 32-bit random numbers, and whatever the buffer of 32 bytes has held: no round reads behind
-- the buffer, and each logs its own text in full.
pub run-deferred_text :
    (d : DeferredLog) (numbers : List ℕ)
    → length d.chars ≡ data_size
    → All (λ n. n < 2 ^ 32) numbers
    → run d numbers ≡ some (map deferred_text numbers)
unfolding run
run-deferred_text d [] size small = refl
run-deferred_text d (n ∷ rest) size small =
    rw
      (
        emit-set n d size small.0,
        run-deferred_text (set n d) rest (omega (arith, set-size n d, size)) small.1,
      )
      refl
