-- ===== src/ExpiringCache/HandlerThread/Oversleeping.antt =====
-- The deadline of a wait that has begun is never moved forward: an entry put into an empty cache is
-- not swept.
use spdlog_stress_test.Prelude.{Bool, true, false, List, [], ◌∷◌}
use spdlog_stress_test.Prelude.Keys.{Keys}
use spdlog_stress_test.ExpiringCache.HandlerThread.{Event, passes, turns}

-- Only time passes, and the thread takes turns.
abbrev pub is_quiet {ℓ κ} : {K : Type ℓ} {V : Type κ} → List (Event K V) → Bool
is_quiet [] = true
is_quiet (passes n ∷ es) = is_quiet es
is_quiet (turns ∷ es) = is_quiet es
is_quiet (_ ∷ es) = false
