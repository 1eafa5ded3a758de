-- ===== src/Timebase/Chunks.antt =====
-- The loop against the samples cut into chunks of one size.
use mathlib.Core.List.{flatten}
use spdlog_stress_test.Prelude.{
  ℕ, ◌+◌, ◌-◌, ◌*◌, ◌/◌, ◌^◌, ◌<◌, ◌≤◌, ◌≡◌, refl, sym, ap, ◌∙◌, Bool, true, false, List, [], ◌∷◌,
  ◌++◌, map, some, arith, All, length, length-append, append_assoc, append-nil, leb, dec_lt,
}
use spdlog_stress_test.Timebase.{
  Sums, Average, log_every, long_long_max, average, run_from, run, add_sample,
}

abbrev pub sum : List ℕ → ℕ
sum [] = 0
sum (x ∷ xs) = x + sum xs

-- The line of one chunk.
abbrev pub mean : List ℕ → Average
mean c = record { average_us = sum c / length c; samples = length c }

-- `samples` are the chunks one after the other, each of `every` samples, and a rest of fewer.
pub record IsChunked (every : ℕ) (samples : List ℕ) (chunks : List (List ℕ)) (rest : List ℕ)
    : Type 0 where
  pub whole : samples ≡ flatten chunks ++ rest
  pub full : All (λ c. length c ≡ every) chunks
  pub short : length rest < every

-- Below this a sum of 64 samples fits the `long long`.
abbrev pub sample_limit : ℕ
sample_limit = 2 ^ 57 - 1

sum-append : (xs ys : List ℕ) → sum (xs ++ ys) ≡ sum xs + sum ys
sum-append [] ys = omega arith
sum-append (x ∷ xs) ys = omega (arith, sum-append xs ys)

abbrev pub sums_of : List ℕ → Sums
sums_of pre = record { sample_count = length pre; sum_us = sum pre }

added-sums : (pre : List ℕ) (us : ℕ) → add_sample us (sums_of pre) ≡ sums_of (pre ++ us ∷ [])
added-sums pre us = rw (length-append pre (us ∷ []), sum-append pre (us ∷ [])) (ground arith)

-- From the loop's state behind a part of a chunk.
abbrev pub Logs : ℕ → List ℕ → List ℕ → Type 0
Logs every pre samples =
    (chunks : List (List ℕ)) × (rest : List ℕ) × IsChunked every (pre ++ samples) chunks rest
    × (run_from every (sums_of pre) samples ≡ some (map mean chunks))

run_from-logged :
    (every : ℕ) (pre : List ℕ) (us : ℕ) (samples : List ℕ)
    → sum pre + us ≤ long_long_max
    → length pre + 1 ≡ every
    → Logs every [] samples
    → Logs every pre (us ∷ samples)
unfolding run_from flatten
run_from-logged every pre us samples fits full (chunks, rest, cut, logs) = (
  (pre ++ us ∷ []) ∷ chunks,
  rest,
  record {
    whole =
        sym (append_assoc pre (us ∷ []) samples)
        ∙ ap (λ l. (pre ++ us ∷ []) ++ l) cut.whole
        ∙ sym (append_assoc (pre ++ us ∷ []) (flatten chunks) rest);
    full = (omega (arith, length-append pre (us ∷ []), full), cut.full);
    short = cut.short;
  },
  let fits' : leb (sum pre + us) long_long_max ≡ true = ground arith in
      let full' : leb every (length pre + 1) ≡ true = ground arith in
      rw (fits', full')
        (rw logs (ap (λ s. some (average s ∷ map mean chunks)) (added-sums pre us))),
)

run_from-silent :
    (every : ℕ) (pre : List ℕ) (us : ℕ) (samples : List ℕ)
    → sum pre + us ≤ long_long_max
    → length pre + 1 < every
    → Logs every (pre ++ us ∷ []) samples
    → Logs every pre (us ∷ samples)
unfolding run_from flatten
run_from-silent every pre us samples fits room (chunks, rest, cut, logs) = (
  chunks,
  rest,
  record {
    whole = sym (append_assoc pre (us ∷ []) samples) ∙ cut.whole;
    full = cut.full;
    short = cut.short;
  },
  let fits' : leb (sum pre + us) long_long_max ≡ true = ground arith in
      let room' : leb every (length pre + 1) ≡ false = ground arith in
      rw (fits', room') (ap (λ s. run_from every s samples) (added-sums pre us) ∙ logs),
)

-- Every sample is small, and so is the sum of a part of a chunk.
run_from-Logs :
    (every : ℕ) (pre samples : List ℕ)
    → every ≤ 64
    → length pre < every
    → sum pre ≤ length pre * sample_limit
    → All (λ us. us ≤ sample_limit) samples
    → Logs every pre samples
unfolding run_from flatten
run_from-Logs every pre [] le short small h =
    ([], pre, record { whole = append-nil pre; full = tt; short = short }, refl)
run_from-Logs every pre (us ∷ samples) le short small h = elim (dec_lt (length pre + 1) every) [
  | yes room ↦ run_from-silent every pre us samples (omega (arith, h.0)) room (
      run_from-Logs every (pre ++ us ∷ []) samples le (omega (arith, length-append pre (us ∷ [])))
        (omega (arith, length-append pre (us ∷ []), sum-append pre (us ∷ []), h.0)) h.1)
  | no full ↦
      run_from-logged every pre us samples (omega (arith, h.0)) (omega (arith, full))
        (run_from-Logs every [] samples le (omega arith) (omega arith) h.1)
]

log_every-le : (stress : Bool) → (0 < log_every stress) × (log_every stress ≤ 64)
log_every-le true = omega arith
log_every-le false = omega arith

-- For samples of less than 2^57 microseconds each: the sum does not overflow, and the loop logs, for
-- the samples cut into chunks of 64 (in stress mode) or 16 with a shorter rest, one line for each
-- chunk, with its mean and its size, and nothing for the rest.
pub run_lem :
    (stress : Bool) (samples : List ℕ)
    → All (λ us. us ≤ sample_limit) samples
    → (chunks : List (List ℕ)) × (rest : List ℕ) × IsChunked (log_every stress) samples chunks rest
      × (run stress samples ≡ some (map mean chunks))
unfolding run
run_lem stress samples small =
    let bounds = log_every-le stress in
    run_from-Logs (log_every stress) [] samples bounds.1 bounds.0 (omega arith) small
