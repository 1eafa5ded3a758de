-- ===== src/ExpiringCache/Tests.antt =====
-- Small histories of a cache with numbers for keys and values.
use spdlog_stress_test.Prelude.{false, ◌++◌, ℕ, ◌<◌, ◌≡◌, refl, List, [], ◌∷◌, none, some, arith}
use spdlog_stress_test.Prelude.Keys.{nat_keys}
use spdlog_stress_test.ExpiringCache.{begin_stop, empty_cache, get, size, find, sweep, MapEntry}
use spdlog_stress_test.ExpiringCache.Histories.{
  Event, puts, passes, sweeps, run, fresh_cache, recall, record_all, no_entries,
}
use spdlog_stress_test.ExpiringCache.Refinement.{get-recall}
use spdlog_stress_test.ExpiringCache.Expiration.{sweep_complete}
use spdlog_stress_test.ExpiringCache.HandlerThread
use spdlog_stress_test.ExpiringCache.HandlerThread.{System, waits_until, finished}
use spdlog_stress_test.ExpiringCache.HandlerThread.Stopping.{stop_ends}

-- Key 1 is put twice; the first lifetime is over after 10 ms, the second after 25.
abbrev renewed : List (Event ℕ ℕ)
renewed = puts 1 70 10 ∷ puts 2 80 12 ∷ passes 5000000 ∷ puts 1 71 20 ∷ passes 8000000 ∷ sweeps ∷ []

read_renewed : get 1 (run fresh_cache renewed).now (run fresh_cache renewed).cache ≡ some 71
unfolding get run
read_renewed = refl

count_renewed : size (run fresh_cache renewed).cache ≡ 1
unfolding size run
count_renewed = refl

get-recall_example :
    get 1 (run fresh_cache renewed).now (run fresh_cache renewed).cache
    ≡ recall (record_all no_entries renewed).time ((record_all no_entries renewed).entry 1)
get-recall_example = get-recall renewed 1 (omega arith) (omega arith)

abbrev latest_entry : MapEntry ℕ
latest_entry = record { expiration = 25000000; generation = 3; value = 71 }

renewed_found :
    find 1 (sweep (run fresh_cache renewed).now (run fresh_cache renewed).cache).lookup_map
    ≡ some latest_entry
unfolding find sweep run
renewed_found = refl

sweep_complete_example : (run fresh_cache renewed).now < 25000000
sweep_complete_example = sweep_complete renewed 1 latest_entry (omega arith) renewed_found

abbrev asleep : System ℕ ℕ
asleep = record { cache = empty_cache; now = 100; phase = waits_until none; notified = false }

abbrev long_wait : List (HandlerThread.Event ℕ ℕ)
long_wait = HandlerThread.passes 1000000000 ∷ HandlerThread.turns ∷ []

stop_ends_example :
    let r =
      HandlerThread.run asleep
        (HandlerThread.stops ∷ (HandlerThread.puts 1 70 10 ∷ []) ++ HandlerThread.turns ∷ []) in
    (r.phase ≡ finished)
    × (r.cache ≡ begin_stop asleep.cache)
    × (get 1 100 r.cache ≡ none)
    × (size r.cache ≡ 0)
stop_ends_example = stop_ends asleep (HandlerThread.puts 1 70 10 ∷ []) 1 100
