-- ===== src/TestContext.antt =====
-- C++ Project/src/include/test_context.h: the command line. The arguments are the texts of `argv`
-- behind the program's name. The level type and `spdlog::level::from_str` are parameters; `long` has
-- 64 bits.
pub mod Numbers
pub mod Bounds
pub mod Tokens
pub mod Printing
pub mod RoundTrip
mod Tests
use spdlog_stress_test.Prelude.{
  ℕ, ◌-◌, ◌^◌, Bool, true, false, not, ◌&&◌, ◌||◌, List, [], ◌∷◌, ◌++◌, Option, none, some, ltb,
  leb, ◌==◌, if◌then◌else◌, is_empty, Text, codes, text_eq,
}
use spdlog_stress_test.TestContext.Numbers.{ℤ, pos, negsuc, strtol}

-- What the program uses of spdlog's levels.
pub record Levels {ℓ} (L : Type ℓ) : Type ℓ where
  pub from_str : Text → L
  pub off : L
  pub info : L
  pub same_level : L → L → Bool

pub record TestContext {ℓ} (L : Type ℓ) : Type ℓ where
  pub seconds : ℕ
  pub stress : Bool
  pub log_level : L
  pub queue_size : ℕ
  pub filename : Option Text
  pub max_threads : Option ℕ
  pub ignore_tests : List Text

-- What `parse` prints on stderr, with the values that it shows.
pub data Warning : Type 0 where
  invalid_seconds : Text → ℕ → Warning
  unknown_loglevel : Text → Warning
  invalid_queuesize : Text → ℕ → Warning
  invalid_maxthreads : Text → Warning

abbrev pub int_max : ℕ
int_max = 2 ^ 31 - 1

-- Membership in `ignoreTests`.
abbrev pub contains : List Text → Text → Bool
contains [] name = false
contains (t ∷ ts) name = text_eq t name || contains ts name

-- The tokens that `getline` reads up to each comma; `word` is what has been read of the current one.
-- At the end of the text it reads a last token if a character is left.
unfoldable pub split : Text → Text → List Text
split [] [] = []
split (c ∷ cs) [] = (c ∷ cs) ∷ []
split word (c ∷ cs) =
    let rest = split (if c == b',' then [] else word ++ c ∷ []) cs in
    if c == b',' then word ∷ rest else rest

-- `insert` of the set, for each token that is not empty.
unfoldable pub insert_tokens : List Text → List Text → List Text
insert_tokens [] known = known
insert_tokens (t ∷ ts) known =
    insert_tokens ts (if is_empty t || contains known t then known else t ∷ known)

-- Which branch of the loop an argument takes.
pub data Kind : Type 0 where
  seconds stress loglevel queuesize filename maxthreads ignoretests unknown : Kind

pub classify : Text → Kind
classify a =
    if text_eq a (codes "--seconds")
    then seconds
    else if text_eq a (codes "--stress")
    then stress
    else if text_eq a (codes "--loglevel")
    then loglevel
    else if text_eq a (codes "--queuesize")
    then queuesize
    else if text_eq a (codes "--filename")
    then filename
    else if text_eq a (codes "--maxthreads")
    then maxthreads
    else if text_eq a (codes "--ignoretests")
    then ignoretests
    else unknown

abbrev pub takes_value : Kind → Bool
takes_value stress = false
takes_value unknown = false
takes_value _ = true

-- The value of a converted number that is positive, and at most the bound.
abbrev pub positive : Option ℤ → ℕ → Option ℕ
positive none bound = none
positive (some (negsuc n)) bound = none
positive (some (pos n)) bound = if ltb 0 n && leb n bound then some n else none

module _ {ℓ} {L : Type ℓ} where
  set_seconds : Text → Option ℕ → TestContext L → TestContext L × List Warning
  set_seconds v (some n) ctx = (record ctx { seconds = n }, [])
  set_seconds v none ctx = (ctx, invalid_seconds v ctx.seconds ∷ [])

  set_queue_size : Text → Option ℕ → TestContext L → TestContext L × List Warning
  set_queue_size v (some n) ctx = (record ctx { queue_size = n }, [])
  set_queue_size v none ctx = (ctx, invalid_queuesize v ctx.queue_size ∷ [])

  set_max_threads : Text → Option ℕ → TestContext L → TestContext L × List Warning
  set_max_threads v (some n) ctx = (record ctx { max_threads = some n }, [])
  set_max_threads v none ctx = (ctx, invalid_maxthreads v ∷ [])

module _ {ℓ} {L : Type ℓ} (levels : Levels L) where
  open levels use {from_str, off, info, same_level}

  -- The members' initial values.
  abbrev pub defaults : TestContext L
  defaults = record {
    seconds = 5;
    stress = false;
    log_level = info;
    queue_size = 8192;
    filename = none;
    max_threads = none;
    ignore_tests = [];
  }

  -- A branch with a value.
  pub apply_value : Kind → Text → TestContext L → TestContext L × List Warning
  unfolding set_seconds set_queue_size set_max_threads
  apply_value seconds v ctx = set_seconds v (positive (strtol v) int_max) ctx
  apply_value loglevel v ctx =
      if same_level (from_str v) off && not (text_eq v (codes "off"))
      then (ctx, unknown_loglevel v ∷ [])
      else (record ctx { log_level = from_str v }, [])
  apply_value queuesize v ctx = set_queue_size v (positive (strtol v) (2 ^ 63 - 1)) ctx
  apply_value filename v ctx = (record ctx { filename = some v }, [])
  apply_value maxthreads v ctx = set_max_threads v (positive (strtol v) int_max) ctx
  apply_value ignoretests v ctx =
      (record ctx { ignore_tests = insert_tokens (split [] v) ctx.ignore_tests }, [])
  apply_value _ v ctx = (ctx, [])

  -- A branch without.
  pub apply_flag : Kind → TestContext L → TestContext L
  apply_flag stress ctx = record ctx { stress = true }
  apply_flag _ ctx = ctx

  -- The loop. An option that is the last argument has no value, and is passed over.
  pub parse_args : List Text → TestContext L → TestContext L × List Warning
  unfolding apply_value apply_flag classify
  parse_args [] ctx = (ctx, [])
  parse_args (a ∷ []) ctx = (apply_flag (classify a) ctx, [])
  parse_args (a ∷ v ∷ rest) ctx =
      let applied = apply_value (classify a) v ctx in
      let taken = parse_args rest applied.0 in
      let skipped = parse_args (v ∷ rest) (apply_flag (classify a) ctx) in
      if takes_value (classify a) then (taken.0, applied.1 ++ taken.1) else skipped

  unfoldable pub parse : List Text → TestContext L × List Warning
  unfolding parse_args
  parse args = parse_args args defaults

unfoldable pub should_run {ℓ} : {L : Type ℓ} → TestContext L → Text → Bool
should_run ctx name = not (contains ctx.ignore_tests name)
