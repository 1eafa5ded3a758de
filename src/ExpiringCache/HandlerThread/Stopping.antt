-- ===== src/ExpiringCache/HandlerThread/Stopping.antt =====
-- `stop`: the methods do nothing from then on, and the handler thread leaves.
use spdlog_stress_test.Prelude.{
  ◌∷◌, arith, ◌∙◌, ap, ◌++◌, ℕ, ◌≡◌, refl, true, ◌⊎◌, inl, inr, Bool-cases,
}
use spdlog_stress_test.Prelude.Keys.{Keys}
use spdlog_stress_test.ExpiringCache.{[], none, List, get, size, Cache, put, remove, begin_stop}
use spdlog_stress_test.ExpiringCache.HandlerThread.{
  passes, wakes_by_chance, removes, turns, stops, puts, Event, run, step, Phase, at_head,
  waits_until, finished, System, is_over, turn,
}

module _ {ℓ κ} {K : Type ℓ} {V : Type κ} ⦃keys : Keys K⦄ where
  -- The cache is `c`, and the thread is over or has been notified.
  pub record IsStopped (c : Cache K V) (s : System K V) : Type (ℓ ⊔ κ) where
    pub same_cache : s.cache ≡ c
    pub told : (s.phase ≡ finished) ⊎ (s.notified ≡ true)

  turn-finishes :
      (p : Phase) (s : System K V)
      → s.cache.is_stopping ≡ true
      → (p ≡ finished) ⊎ (s.notified ≡ true)
      → s.phase ≡ p
      → ((turn p s).phase ≡ finished) × ((turn p s).cache ≡ s.cache)
  unfolding turn
  turn-finishes at_head s down told at = rw down (refl, refl)
  turn-finishes (waits_until d) s down (inl over) at = cc
  turn-finishes (waits_until d) s down (inr notified) at = elim (Bool-cases (is_over s.now d)) [
    | inl late ↦ simp (late, down) (refl, refl)
    | inr early ↦ simp (early, down, notified) (refl, refl)
  ]
  turn-finishes finished s down told at = (at, refl)

  put-stopped :
      (k : K) (v : V) (ttl now : ℕ) (c : Cache K V)
      → c.is_stopping ≡ true
      → (put k v ttl now c).0 ≡ c
  unfolding put
  put-stopped k v ttl now c down = rw down refl

  remove-stopped : (k : K) (c : Cache K V) → c.is_stopping ≡ true → (remove k c).0 ≡ c
  unfolding remove
  remove-stopped k c down = rw down refl

  begin_stop-same : (c : Cache K V) → c.is_stopping ≡ true → begin_stop c ≡ c
  unfolding begin_stop
  begin_stop-same c down = rw (← down) refl

  step-IsStopped :
      (c : Cache K V) (s : System K V) (e : Event K V)
      → c.is_stopping ≡ true
      → IsStopped c s
      → IsStopped c (step s e)
  unfolding step
  step-IsStopped c s (puts k v ttl) down r = record {
    same_cache = ap (λ d. (put k v ttl s.now d).0) r.same_cache ∙ put-stopped k v ttl s.now c down;
    told = ground (arith, r.told);
  }
  step-IsStopped c s (removes k) down r = record {
    same_cache = ap (λ d. (remove k d).0) r.same_cache ∙ remove-stopped k c down;
    told = ground (arith, r.told);
  }
  step-IsStopped c s stops down r = record {
    same_cache = ap begin_stop r.same_cache ∙ begin_stop-same c down;
    told = inr refl;
  }
  step-IsStopped c s wakes_by_chance down r = record { same_cache = r.same_cache; told = inr refl }
  step-IsStopped c s (passes n) down r = record { same_cache = r.same_cache; told = r.told }
  step-IsStopped c s turns down r =
      let f = turn-finishes s.phase s (ap (λ d. d.is_stopping) r.same_cache ∙ down) r.told refl in
      record { same_cache = f.1 ∙ r.same_cache; told = inl f.0 }

  -- The first turn of the thread, wherever it stands among the events.
  run-IsStopped :
      (c : Cache K V) (s : System K V) (es : List (Event K V))
      → c.is_stopping ≡ true
      → IsStopped c s
      → ((run s (es ++ turns ∷ [])).cache ≡ c) × ((run s (es ++ turns ∷ [])).phase ≡ finished)
  unfolding run step
  run-IsStopped c s [] down r =
      let f = turn-finishes s.phase s (ap (λ d. d.is_stopping) r.same_cache ∙ down) r.told refl in
      (f.1 ∙ r.same_cache, f.0)
  run-IsStopped c s (e ∷ es) down r =
      run-IsStopped c (step s e) es down (step-IsStopped c s e down r)

  get-stopped : (k : K) (t : ℕ) (c : Cache K V) → c.is_stopping ≡ true → get k t c ≡ none
  unfolding get
  get-stopped k t c down = rw down refl

  size-stopped : (c : Cache K V) → c.is_stopping ≡ true → size c ≡ 0
  unfolding size
  size-stopped c down = rw down refl

  -- After `stop`, from any state: whatever calls and turns come, the next turn leaves the handler
  -- thread finished and the cache as `stop` left it; `get` gives nothing for any key at any time, and
  -- `size` is 0.
  pub stop_ends :
      (s : System K V) (es : List (Event K V)) (k : K) (t : ℕ)
      → let r = run s (stops ∷ es ++ turns ∷ []) in
        (r.phase ≡ finished)
        × (r.cache ≡ begin_stop s.cache)
        × (get k t r.cache ≡ none)
        × (size r.cache ≡ 0)
  unfolding run step begin_stop
  stop_ends s es k t =
      let c = begin_stop s.cache in
      let r =
        run-IsStopped c (step s stops) es refl (record { same_cache = refl; told = inr refl }) in
      (r.1, r.0, ap (get k t) r.0 ∙ get-stopped k t c refl, ap size r.0 ∙ size-stopped c refl)
