-- ===== src/TestContext/Bounds.antt =====
-- Every command line gives a configuration within its bounds.
use spdlog_stress_test.Prelude.{
  ℕ, ◌≤◌, ◌≡◌, refl, Bool, true, false, not, ◌&&◌, List, [], ◌∷◌, Option, none, some, arith, All,
  is_empty, Text, codes, text_eq, Bool-cases, inl, inr, ◌^◌, ◌-◌, ◌==◌, ◌++◌, ◌||◌,
}
use spdlog_stress_test.TestContext.Numbers.{ℤ, pos, negsuc, strtol}
use spdlog_stress_test.TestContext.{
  invalid_seconds, set_seconds, set_queue_size, set_max_threads, Levels, TestContext, Kind, seconds,
  stress, loglevel, queuesize, filename, maxthreads, ignoretests, unknown, int_max, contains, split,
  insert_tokens, classify, takes_value, positive, defaults, apply_value, apply_flag, parse_args,
  parse,
}

-- A number of at least one and at most the bound, if there is one.
abbrev pub Within : ℕ → Option ℕ → Type 0
Within bound none = Unit
Within bound (some n) = (1 ≤ n) × (n ≤ bound)

positive-Within : (o : Option ℤ) (bound : ℕ) → Within bound (positive o bound)
positive-Within none bound = tt
positive-Within (some (negsuc n)) bound = tt
positive-Within (some (pos n)) bound = ground arith

abbrev pub no_commas : Text → Bool
no_commas [] = true
no_commas (c ∷ cs) = not (c == b',') && no_commas cs

-- What `--ignoretests` can name: a text that is not empty and has no comma.
abbrev pub IsToken : Text → Type 0
IsToken t = (is_empty t ≡ false) × (no_commas t ≡ true)

pub record IsValid {ℓ} {L : Type ℓ} (ctx : TestContext L) : Type ℓ where
  pub seconds_bounds : Within int_max (some ctx.seconds)
  pub queue_bounds : Within (2 ^ 63 - 1) (some ctx.queue_size)
  pub threads_bounds : Within int_max ctx.max_threads
  pub names : All IsToken ctx.ignore_tests

no_commas-append :
    (s t : Text) → no_commas s ≡ true → no_commas t ≡ true → no_commas (s ++ t) ≡ true
no_commas-append [] t hs ht = ht
no_commas-append (c ∷ s) t hs ht = ground (arith, no_commas-append s t)

NoCommas : Text → Type 0
NoCommas t = no_commas t ≡ true

split-no_commas : (word s : Text) → no_commas word ≡ true → All NoCommas (split word s)
unfolding split NoCommas
split-no_commas [] [] h = tt
split-no_commas (c ∷ cs) [] h = (h, tt)
split-no_commas word (c ∷ cs) h = elim (Bool-cases (c == b',')) [
  | inl comma ↦ rw (comma, split) (h, split-no_commas [] cs refl)
  | inr other ↦
      rw (other, split)
        (split-no_commas (word ++ c ∷ []) cs (no_commas-append word (c ∷ []) h (rw other)))
]

insert_tokens-IsToken :
    (ts known : List Text)
    → All NoCommas ts
    → All IsToken known
    → All IsToken (insert_tokens ts known)
unfolding insert_tokens NoCommas
insert_tokens-IsToken [] known h k = k
insert_tokens-IsToken (t ∷ ts) known h k = elim (Bool-cases (is_empty t || contains known t)) [
  | inl skipped ↦ rw skipped (insert_tokens-IsToken ts known h.1 k)
  | inr added ↦ rw added (insert_tokens-IsToken ts (t ∷ known) h.1 ((ground arith, h.0), k))
]

module _ {ℓ} {L : Type ℓ} where
  set_seconds-IsValid :
      (v : Text) (o : Option ℕ) (ctx : TestContext L)
      → Within int_max o
      → IsValid ctx
      → IsValid (set_seconds v o ctx).0
  unfolding set_seconds
  set_seconds-IsValid v none ctx w i = i
  set_seconds-IsValid v (some n) ctx w i = record {
    seconds_bounds = w;
    queue_bounds = i.queue_bounds;
    threads_bounds = i.threads_bounds;
    names = i.names;
  }

  set_queue_size-IsValid :
      (v : Text) (o : Option ℕ) (ctx : TestContext L)
      → Within (2 ^ 63 - 1) o
      → IsValid ctx
      → IsValid (set_queue_size v o ctx).0
  unfolding set_queue_size
  set_queue_size-IsValid v none ctx w i = i
  set_queue_size-IsValid v (some n) ctx w i = record {
    seconds_bounds = i.seconds_bounds;
    queue_bounds = w;
    threads_bounds = i.threads_bounds;
    names = i.names;
  }

  set_max_threads-IsValid :
      (v : Text) (o : Option ℕ) (ctx : TestContext L)
      → Within int_max o
      → IsValid ctx
      → IsValid (set_max_threads v o ctx).0
  unfolding set_max_threads
  set_max_threads-IsValid v none ctx w i = i
  set_max_threads-IsValid v (some n) ctx w i = record {
    seconds_bounds = i.seconds_bounds;
    queue_bounds = i.queue_bounds;
    threads_bounds = w;
    names = i.names;
  }

module _ {ℓ} {L : Type ℓ} (levels : Levels L) where
  defaults-IsValid : IsValid (defaults levels)
  defaults-IsValid = record {
    seconds_bounds = omega arith;
    queue_bounds = omega arith;
    threads_bounds = tt;
    names = tt;
  }

  apply_value-IsValid :
      (k : Kind) (v : Text) (ctx : TestContext L)
      → IsValid ctx
      → IsValid (apply_value levels k v ctx).0
  unfolding apply_value
  apply_value-IsValid seconds v ctx i =
      set_seconds-IsValid v (positive (strtol v) int_max) ctx (positive-Within (strtol v) int_max) i
  apply_value-IsValid loglevel v ctx i =
      elim (Bool-cases
        (levels.same_level (levels.from_str v) levels.off && not (text_eq v (codes "off")))) [
          | inl bad ↦ simp bad i
          | inr good ↦ simp good (record {
            seconds_bounds = i.seconds_bounds;
            queue_bounds = i.queue_bounds;
            threads_bounds = i.threads_bounds;
            names = i.names;
          })
        ]
  apply_value-IsValid queuesize v ctx i =
      set_queue_size-IsValid v (positive (strtol v) (2 ^ 63 - 1)) ctx
        (positive-Within (strtol v) (2 ^ 63 - 1)) i
  apply_value-IsValid filename v ctx i = record {
    seconds_bounds = i.seconds_bounds;
    queue_bounds = i.queue_bounds;
    threads_bounds = i.threads_bounds;
    names = i.names;
  }
  apply_value-IsValid maxthreads v ctx i =
      set_max_threads-IsValid v (positive (strtol v) int_max) ctx
        (positive-Within (strtol v) int_max) i
  apply_value-IsValid ignoretests v ctx i = record {
    seconds_bounds = i.seconds_bounds;
    queue_bounds = i.queue_bounds;
    threads_bounds = i.threads_bounds;
    names = insert_tokens-IsToken (split [] v) ctx.ignore_tests (split-no_commas [] v refl) i.names;
  }
  apply_value-IsValid stress v ctx i = i
  apply_value-IsValid unknown v ctx i = i

  apply_flag-IsValid :
      (k : Kind) (ctx : TestContext L) → IsValid ctx → IsValid (apply_flag levels k ctx)
  unfolding apply_flag
  apply_flag-IsValid stress ctx i = record {
    seconds_bounds = i.seconds_bounds;
    queue_bounds = i.queue_bounds;
    threads_bounds = i.threads_bounds;
    names = i.names;
  }
  apply_flag-IsValid _ ctx i = i

  parse_args-IsValid :
      (args : List Text) (ctx : TestContext L)
      → IsValid ctx
      → IsValid (parse_args levels args ctx).0
  unfolding parse_args
  parse_args-IsValid [] ctx i = i
  parse_args-IsValid (a ∷ []) ctx i = apply_flag-IsValid (classify a) ctx i
  parse_args-IsValid (a ∷ v ∷ rest) ctx i = elim (Bool-cases (takes_value (classify a))) [
    | inl valued ↦ simp valued (
        parse_args-IsValid rest (apply_value levels (classify a) v ctx).0
          (apply_value-IsValid (classify a) v ctx i))
    | inr plain ↦ simp plain (
        parse_args-IsValid (v ∷ rest) (apply_flag levels (classify a) ctx)
          (apply_flag-IsValid (classify a) ctx i))
  ]

  -- Whatever the command line: the run takes from 1 to `int_max` seconds, the queue has from 1 to
  -- 2^63 - 1 places, a maximum of threads is from 1 to `int_max`, and no name to ignore is empty or
  -- holds a comma.
  pub parse-IsValid : (args : List Text) → IsValid (parse levels args).0
  unfolding parse
  parse-IsValid args = parse_args-IsValid args (defaults levels) defaults-IsValid

  -- An invalid number of seconds leaves the number that an earlier `--seconds` has set, whatever the
  -- default; the warning shows that number.
  pub invalid_seconds-kept :
      (v w : Text) (n : ℕ)
      → positive (strtol v) int_max ≡ some n
      → positive (strtol w) int_max ≡ none
      → let r = parse levels (codes "--seconds" ∷ v ∷ codes "--seconds" ∷ w ∷ []) in
        (r.0.seconds ≡ n) × (r.1 ≡ invalid_seconds w n ∷ [])
  unfolding parse
  invalid_seconds-kept v w n good bad = rw (good, bad) (refl, refl)
