-- ===== src/StringUaf/Tests.antt =====
-- Two rounds, the second with a shorter text than the first.
use spdlog_stress_test.Prelude.{◌≡◌, refl, List, ℕ, [], ◌∷◌, map, some, codes, decimal, arith}
use spdlog_stress_test.StringUaf.{fresh_log, run}
use spdlog_stress_test.StringUaf.Deferred.{deferred_text, run-deferred_text}

abbrev randoms : List ℕ
randoms = 4_294_967_295 ∷ 7 ∷ []

two_rounds :
    run fresh_log randoms ≡ some (codes "deferred=uaf:4294967295" ∷ codes "deferred=uaf:7" ∷ [])
unfolding run decimal
two_rounds = refl

run-deferred_text_example : run fresh_log randoms ≡ some (map deferred_text randoms)
run-deferred_text_example = run-deferred_text fresh_log randoms refl (omega arith)
