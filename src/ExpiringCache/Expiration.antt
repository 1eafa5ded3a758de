-- ===== src/ExpiringCache/Expiration.antt =====
-- A sweep leaves nothing that is expired.
use spdlog_stress_test.Prelude.{
  ℕ, suc, ◌^◌, ◌<◌, ◌≡◌, true, List, [], ◌∷◌, some, arith, leb, length, Bool-cases, inl, inr,
}
use spdlog_stress_test.Prelude.Keys.{Keys}
use spdlog_stress_test.ExpiringCache.{MapEntry, HeapEntry, find, sweep_entries, sweep}
use spdlog_stress_test.ExpiringCache.Histories.{Event, run, fresh_cache}
use spdlog_stress_test.ExpiringCache.Contents.{NoEarlier, NoEarlier-mono, IsOrdered}
use spdlog_stress_test.ExpiringCache.Links.{has, sweep-Links}
use spdlog_stress_test.ExpiringCache.Linked.{run-Linked, fresh-Linked}

module _ {ℓ κ} {K : Type ℓ} {V : Type κ} ⦃keys : Keys K⦄ where
  has-later :
      (now : ℕ) (k : K) (e : MapEntry V) (hs : List (HeapEntry K))
      → NoEarlier (suc now) hs
      → has k e hs ≡ true
      → now < e.expiration
  has-later now k e [] o h = cc
  has-later now k e (x ∷ xs) o h = ground (arith, has-later now k e xs)

  sweep_entries-NoEarlier :
      (now : ℕ) (hs : List (HeapEntry K)) (m : List (K × MapEntry V))
      → IsOrdered hs
      → NoEarlier (suc now) (sweep_entries now hs m).0
  unfolding sweep_entries
  sweep_entries-NoEarlier now [] m o = tt
  sweep_entries-NoEarlier now (h ∷ hs) m o = elim (Bool-cases (leb h.expiration now)) [
    | inl due ↦ rw due (sweep_entries-NoEarlier now hs _ o.1)
    | inr later ↦
        rw later (ground arith, NoEarlier-mono (suc now) h.expiration hs (ground arith) o.0)
  ]

  -- After any history of fewer than 2^64 events, a sweep leaves no entry in the map whose time is
  -- over.
  pub sweep_complete :
      (es : List (Event K V)) (k : K) (e : MapEntry V)
      → length es < 2 ^ 64
      → find k (sweep (run fresh_cache es).now (run fresh_cache es).cache).lookup_map ≡ some e
      → (run fresh_cache es).now < e.expiration
  unfolding sweep
  sweep_complete es k e room found =
      let s = run fresh_cache es in
      let r = run-Linked fresh_cache es (omega arith) fresh-Linked in
      let swept =
        sweep-Links s.cache.current_generation s.now s.cache.expiration_queue s.cache.lookup_map
          r.links in
      has-later s.now k e _
        (sweep_entries-NoEarlier s.now s.cache.expiration_queue s.cache.lookup_map r.links.ordered)
        (swept.pending k e found)
