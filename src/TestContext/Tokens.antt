-- ===== src/TestContext/Tokens.antt =====
-- `--ignoretests` and `shouldRun`: the names between the commas are the tests left out.
use spdlog_stress_test.Prelude.{
  ◌≡◌, refl, ap, sym, ◌∙◌, true, false, not, ◌||◌, List, [], ◌∷◌, ◌++◌, arith, All, if◌then◌else◌,
  is_empty, Text, codes, text_eq, text_eq→eq, append-nil, append_assoc, ◌==◌,
}
use spdlog_stress_test.TestContext.{Levels, contains, split, insert_tokens, parse, should_run}
use spdlog_stress_test.TestContext.Bounds.{no_commas, IsToken}

-- The argument for a list of names.
abbrev pub join : List Text → Text
join [] = []
join (n ∷ []) = n
join (n ∷ m ∷ ns) = n ++ b',' ∷ join (m ∷ ns)

split-last :
    (word s : Text)
    → no_commas s ≡ true
    → is_empty (word ++ s) ≡ false
    → split word s ≡ (word ++ s) ∷ []
unfolding split
split-last [] [] h e = cc
split-last (c ∷ cs) [] h e = ap (λ t. t ∷ []) (sym (append-nil (c ∷ cs)))
split-last word (c ∷ cs) h e =
    let other : (c == b',') ≡ false = ground arith in
    rw other (
      split-last (word ++ c ∷ []) cs (ground arith) (rw (append_assoc word (c ∷ []) cs) e)
      ∙ ap (λ t. t ∷ []) (append_assoc word (c ∷ []) cs))

split-comma :
    (word s rest : Text)
    → no_commas s ≡ true
    → split word (s ++ b',' ∷ rest) ≡ (word ++ s) ∷ split [] rest
unfolding split
split-comma word [] rest h = ap (λ t. t ∷ split [] rest) (sym (append-nil word))
split-comma word (c ∷ s) rest h =
    let other : (c == b',') ≡ false = ground arith in
    rw other (
      split-comma (word ++ c ∷ []) s rest (ground arith)
      ∙ ap (λ t. t ∷ split [] rest) (append_assoc word (c ∷ []) s))

-- Splitting the argument gives the names back.
pub split-join : (ns : List Text) → All IsToken ns → split [] (join ns) ≡ ns
unfolding split
split-join [] h = refl
split-join (n ∷ []) h = split-last [] n h.0.1 h.0.0
split-join (n ∷ m ∷ ns) h =
    split-comma [] n (join (m ∷ ns)) h.0.1 ∙ ap (λ l. n ∷ l) (split-join (m ∷ ns) h.1)

-- A text that is equal to a known one is known.
contains_of_eq :
    (known : List Text) (s t : Text)
    → contains known s ≡ true
    → text_eq s t ≡ true
    → contains known t ≡ true
contains_of_eq known s t h e = rw (← text_eq→eq s t e) h

insert_one :
    (t : Text) (known : List Text) (name : Text)
    → is_empty t ≡ false
    → contains (if is_empty t || contains known t then known else t ∷ known) name
      ≡ text_eq t name || contains known name
insert_one t known name e = ground (arith, contains_of_eq known t name)

-- A name is known afterwards if it was among the tokens or known before.
pub contains-insert_tokens :
    (ts known : List Text) (name : Text)
    → All IsToken ts
    → contains (insert_tokens ts known) name ≡ contains ts name || contains known name
unfolding insert_tokens
contains-insert_tokens [] known name h = refl
contains-insert_tokens (t ∷ ts) known name h = ground (
  arith,
  insert_one t known name h.0.0,
  contains-insert_tokens ts (if is_empty t || contains known t then known else t ∷ known) name h.1,
)

module _ {ℓ} {L : Type ℓ} (levels : Levels L) where
  -- With `--ignoretests` and names joined by commas, where no name is empty or has a comma, exactly
  -- the tests of other names run.
  pub should_run-ignoretests :
      (names : List Text) (name : Text)
      → All IsToken names
      → should_run (parse levels (codes "--ignoretests" ∷ join names ∷ [])).0 name
        ≡ not (contains names name)
  unfolding should_run parse
  should_run-ignoretests names name h =
      rw split-join (ground (arith, contains-insert_tokens names [] name h))

  -- Without arguments every test runs.
  should_run-default : (name : Text) → should_run (parse levels []).0 name ≡ true
  unfolding should_run parse
  should_run-default name = refl
