-- ===== src/ThreadPool/Counting.antt =====
-- Identifiers counted: in the set of tasks in progress, among the threads, and in the queue.
use spdlog_stress_test.Prelude.{
  ap, ℕ, zero, suc, ◌+◌, ◌≤◌, ◌≡◌, refl, List, [], ◌∷◌, ◌++◌, map, arith, count, count-append, ◌==◌,
  if◌then◌else◌, ltb,
}
use spdlog_stress_test.ThreadPool.{
  spawned, QueuedTask, Phase, running, catching, finishing, insert, erase,
}

-- How often an identifier stands in a list.
abbrev pub occurs : ℕ → List ℕ → ℕ
occurs i = count (λ j. j == i)

pub occurs-insert :
    (i j : ℕ) (js : List ℕ)
    → occurs j js ≡ 0
    → occurs i (insert j js) ≡ (if j == i then 1 else 0) + occurs i js
unfolding insert
occurs-insert i j [] h = refl
occurs-insert i j (k ∷ ks) h = ground (arith, occurs-insert i j ks)

pub occurs-erase :
    (i j : ℕ) (js : List ℕ) → occurs i (erase j js) ≡ (if j == i then 0 else occurs i js)
unfolding erase
occurs-erase i j [] = ground arith
occurs-erase i j (k ∷ ks) = ground (arith, occurs-erase i j ks)

-- The numbers below a bound, in order.
abbrev pub upto : ℕ → List ℕ
upto zero = []
upto (suc n) = upto n ++ n ∷ []

pub occurs-upto : (i n : ℕ) → occurs i (upto n) ≡ (if ltb i n then 1 else 0)
occurs-upto i zero = ground arith
occurs-upto i (suc n) =
    ground (arith, count-append (λ j. j == i) (upto n) (n ∷ []), occurs-upto i n)

pub occurs-upto-le : (i n : ℕ) → occurs i (upto n) ≤ 1
occurs-upto-le i n = ground (arith, occurs-upto i n)

module _ {ℓ κ} {F : Type ℓ} {E : Type κ} where
  -- The task that a worker has taken and not finished.
  abbrev pub held : Phase F E → List ℕ
  held (running t) = t.id ∷ []
  held (catching t e) = t.id ∷ []
  held (finishing t) = t.id ∷ []
  held _ = []

  abbrev pub held_ids : List (Phase F E) → List ℕ
  held_ids [] = []
  held_ids (w ∷ ws) = held w ++ held_ids ws

  pub held_ids-spawned :
      (f : F) (ws : List (Phase F E)) → held_ids (ws ++ spawned f ∷ []) ≡ held_ids ws
  held_ids-spawned f [] = refl
  held_ids-spawned f (w ∷ ws) = ap (◌++◌ (held w)) (held_ids-spawned f ws)

abbrev pub ids {ℓ} : {F : Type ℓ} → List (QueuedTask F) → List ℕ
ids = map (λ t. t.id)
