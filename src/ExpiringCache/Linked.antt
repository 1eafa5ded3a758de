-- ===== src/ExpiringCache/Linked.antt =====
-- In every history the map and the heap belong together, also where a time of expiration overflows.
use spdlog_stress_test.Prelude.{
  ℕ, ◌+◌, ◌^◌, ◌≤◌, ◌<◌, ◌≡◌, refl, false, List, [], ◌∷◌, arith, length,
}
use spdlog_stress_test.Prelude.Keys.{Keys}
use spdlog_stress_test.ExpiringCache.{u64, put, remove, find, sweep, put_entry, put_time}
use spdlog_stress_test.ExpiringCache.Histories.{
  Event, puts, removes, passes, sweeps, Clocked, step, run, fresh_cache,
}
use spdlog_stress_test.ExpiringCache.Links.{Links, put-Links, erase-Links, sweep-Links}

module _ {ℓ κ} {K : Type ℓ} {V : Type κ} ⦃keys : Keys K⦄ where
  pub record Linked (s : Clocked K V) : Type (ℓ ⊔ κ) where
    pub open_for_calls : s.cache.is_stopping ≡ false
    pub links : Links s.cache.current_generation s.cache.lookup_map s.cache.expiration_queue

  put-Linked :
      (k : K) (v : V) (ttl : ℕ) (s : Clocked K V)
      → s.cache.current_generation + 1 < 2 ^ 64
      → Linked s
      → Linked (step s (puts k v ttl))
  unfolding step put
  put-Linked k v ttl s room r = rw r.open_for_calls (record {
    open_for_calls = refl;
    links =
        let g = s.cache.current_generation in
        let fresh : u64 (g + 1) ≡ g + 1 = omega arith in
        rw fresh (
          put-Links g k (put_entry v ttl s.now (g + 1)) (put_time k ttl s.now (g + 1))
            s.cache.lookup_map s.cache.expiration_queue refl refl refl refl r.links);
  })

  pub step-Linked :
      (s : Clocked K V) (e : Event K V)
      → s.cache.current_generation + 1 < 2 ^ 64
      → Linked s
      → Linked (step s e)
  unfolding step remove sweep
  step-Linked s (puts k v ttl) room r = put-Linked k v ttl s room r
  step-Linked s (removes k) room r = rw r.open_for_calls (record {
    open_for_calls = refl;
    links =
        erase-Links s.cache.current_generation k s.cache.lookup_map s.cache.expiration_queue
          r.links;
  })
  step-Linked s (passes n) room r = record { open_for_calls = r.open_for_calls; links = r.links }
  step-Linked s sweeps room r = record {
    open_for_calls = r.open_for_calls;
    links =
        sweep-Links s.cache.current_generation s.now s.cache.expiration_queue s.cache.lookup_map
          r.links;
  }

  pub step-generation :
      (s : Clocked K V) (e : Event K V)
      → (step s e).cache.current_generation ≤ s.cache.current_generation + 1
  unfolding step put remove sweep
  step-generation s (puts k v ttl) = ground arith
  step-generation s (removes k) = ground arith
  step-generation s (passes n) = omega arith
  step-generation s sweeps = omega arith

  pub run-Linked :
      (s : Clocked K V) (es : List (Event K V))
      → s.cache.current_generation + length es < 2 ^ 64
      → Linked s
      → Linked (run s es)
  unfolding run
  run-Linked s [] room r = r
  run-Linked s (e ∷ es) room r =
      run-Linked (step s e) es (omega (arith, step-generation s e))
        (step-Linked s e (omega arith) r)

  pub fresh-Linked : Linked (fresh_cache {K = K} {V = V})
  unfolding find
  fresh-Linked = record {
    open_for_calls = refl;
    links = record {
      ordered = tt;
      heap_old = tt;
      map_old = λ k e found. cc;
      agreeing = tt;
      pending = λ k e found. cc;
    };
  }
