-- ===== src/ExpiringCache/Refinement.antt =====
-- The cache against a plain record of the latest `put` of each key, and the heap's promise to sweep
-- all that is expired.
use spdlog_stress_test.Prelude.{
  ℕ, ◌+◌, ◌*◌, ◌^◌, ◌≤◌, ◌<◌, ◌≡◌, refl, ap, ◌∙◌, List, [], ◌∷◌, arith, leb, length, Bool-cases,
  Option-cases, inl, inr,
}
use spdlog_stress_test.Prelude.Keys.{Keys}
use spdlog_stress_test.ExpiringCache.{
  MapEntry, HeapEntry, u64, find, put, get, remove, unexpired, sweep_entries, sweep, put_entry,
}
use spdlog_stress_test.ExpiringCache.Histories.{
  Event, puts, removes, passes, sweeps, Clocked, Latest, Lasting, recall, step, run, record_event,
  record_all, fresh_cache, no_entries,
}
use spdlog_stress_test.ExpiringCache.Contents.{find-insert_or_assign, find-erase}
use spdlog_stress_test.ExpiringCache.Linked.{Linked, step-Linked, step-generation, fresh-Linked}
use spdlog_stress_test.ExpiringCache.Links.{Links, swept_map, swept-Links, find-swept_map}

module _ {ℓ κ} {K : Type ℓ} {V : Type κ} ⦃keys : Keys K⦄ where
  open keys use {same, same_iff}

  -- From now on the two look the same, to whoever reads only what is not expired.
  pub record Refines (s : Clocked K V) (l : Latest K V) : Type (ℓ ⊔ κ) where
    pub clock : l.time ≡ s.now
    pub linked : Linked s
    pub agree :
        (k : K) (t : ℕ) → s.now ≤ t → unexpired t (find k s.cache.lookup_map) ≡ recall t (l.entry k)

  unexpired-swept :
      (g now t : ℕ) (k : K) (h : HeapEntry K) (hs : List (HeapEntry K)) (m : List (K × MapEntry V))
      → Links g m (h ∷ hs)
      → h.expiration ≤ now
      → now ≤ t
      → unexpired t (find k (swept_map h m)) ≡ unexpired t (find k m)
  unexpired-swept g now t k h hs m l due le = elim (Option-cases (find h.key m)) [
    | inl gone ↦ ground (arith, find-swept_map k h m)
    | inr (e, found) ↦ ground (arith, find-swept_map k h m, same_iff h.key k, l.agreeing.0 e found)
  ]

  -- A sweep changes nothing that is not expired.
  sweep-unexpired :
      (g now t : ℕ) (k : K) (hs : List (HeapEntry K)) (m : List (K × MapEntry V))
      → Links g m hs
      → now ≤ t
      → unexpired t (find k (sweep_entries now hs m).1) ≡ unexpired t (find k m)
  unfolding sweep_entries
  sweep-unexpired g now t k [] m l le = refl
  sweep-unexpired g now t k (h ∷ hs) m l le = elim (Bool-cases (leb h.expiration now)) [
    | inl due ↦ rw due (
        sweep-unexpired g now t k hs (swept_map h m) (swept-Links g h m hs l) le
        ∙ unexpired-swept g now t k h hs m l (ground arith) le)
    | inr later ↦ rw later refl
  ]

  put-Refines :
      (k : K) (v : V) (ttl : ℕ) (s : Clocked K V) (l : Latest K V)
      → s.cache.current_generation + 1 < 2 ^ 64
      → l.time + 1000000 * ttl < 2 ^ 64
      → Refines s l
      → Refines (step s (puts k v ttl)) (record_event l (puts k v ttl))
  unfolding step put
  put-Refines k v ttl s l room lasts r =
      let kept = step-Linked s (puts k v ttl) room r.linked in
      record {
        clock = r.clock;
        linked = kept;
        agree = λ j t le. rw r.linked.open_for_calls (
            ground (
              arith,
              lasts,
              find-insert_or_assign j k
                  (put_entry v ttl s.now (u64 (s.cache.current_generation + 1))) s.cache.lookup_map,
              r.agree j t le,
              r.clock,
            ));
      }

  remove-Refines :
      (k : K) (s : Clocked K V) (l : Latest K V)
      → s.cache.current_generation + 1 < 2 ^ 64
      → Refines s l
      → Refines (step s (removes k)) (record_event l (removes k))
  unfolding step remove
  remove-Refines k s l room r = record {
    clock = r.clock;
    linked = step-Linked s (removes k) room r.linked;
    agree = λ j t le.
        rw r.linked.open_for_calls
          (ground (arith, find-erase j k s.cache.lookup_map, r.agree j t le));
  }

  passes-Refines :
      (n : ℕ) (s : Clocked K V) (l : Latest K V)
      → Refines s l
      → Refines (step s (passes n)) (record_event l (passes n))
  unfolding step
  passes-Refines n s l r = record {
    clock = ap (λ t. t + n) r.clock;
    linked = record { open_for_calls = r.linked.open_for_calls; links = r.linked.links };
    agree = λ j t le. r.agree j t (omega arith);
  }

  sweeps-Refines :
      (s : Clocked K V) (l : Latest K V)
      → s.cache.current_generation + 1 < 2 ^ 64
      → Refines s l
      → Refines (step s sweeps) l
  unfolding step sweep
  sweeps-Refines s l room r = record {
    clock = r.clock;
    linked = step-Linked s sweeps room r.linked;
    agree = λ j t le.
        sweep-unexpired s.cache.current_generation s.now t j s.cache.expiration_queue
          s.cache.lookup_map r.linked.links le
        ∙ r.agree j t le;
  }

  step-Refines :
      (s : Clocked K V) (l : Latest K V) (e : Event K V)
      → s.cache.current_generation + 1 < 2 ^ 64
      → Lasting l (e ∷ [])
      → Refines s l
      → Refines (step s e) (record_event l e)
  step-Refines s l (puts k v ttl) room w r = put-Refines k v ttl s l room w.0 r
  step-Refines s l (removes k) room w r = remove-Refines k s l room r
  step-Refines s l (passes n) room w r = passes-Refines n s l r
  step-Refines s l sweeps room w r = sweeps-Refines s l room r

  Lasting-split :
      (l : Latest K V) (e : Event K V) (es : List (Event K V))
      → Lasting l (e ∷ es)
      → Lasting l (e ∷ []) × Lasting (record_event l e) es
  Lasting-split l (puts k v ttl) es w = ((w.0, tt), w.1)
  Lasting-split l (removes k) es w = (tt, w)
  Lasting-split l (passes n) es w = (tt, w)
  Lasting-split l sweeps es w = (tt, w)

  pub run-Refines :
      (s : Clocked K V) (l : Latest K V) (es : List (Event K V))
      → s.cache.current_generation + length es < 2 ^ 64
      → Lasting l es
      → Refines s l
      → Refines (run s es) (record_all l es)
  unfolding run
  run-Refines s l [] room w r = r
  run-Refines s l (e ∷ es) room w r =
      let (first, later) = Lasting-split l e es w in
      run-Refines (step s e) (record_event l e) es (omega (arith, step-generation s e)) later
        (step-Refines s l e (omega arith) first r)

  fresh-Refines : Refines (fresh_cache {K = K} {V = V}) no_entries
  unfolding find
  fresh-Refines = record { clock = refl; linked = fresh-Linked; agree = λ k t le. refl }

  -- Over any history of fewer than 2^64 events in which no time of expiration overflows: `get` gives exactly the value of the key's latest
  -- `put`, if its lifetime is not over and the key was not removed since, whenever the handler has
  -- swept.
  pub get-recall :
      (es : List (Event K V)) (k : K)
      → length es < 2 ^ 64
      → Lasting no_entries es
      → get k (run fresh_cache es).now (run fresh_cache es).cache
        ≡ recall (record_all no_entries es).time ((record_all no_entries es).entry k)
  unfolding get
  get-recall es k room w =
      let r = run-Refines fresh_cache no_entries es (omega arith) w fresh-Refines in
      rw (r.linked.open_for_calls, r.clock) (r.agree k (run fresh_cache es).now (omega arith))
