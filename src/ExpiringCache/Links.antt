-- ===== src/ExpiringCache/Links.antt =====
-- How the map and the heap belong together: kept by `put`, `remove` and the handler's sweep.
use spdlog_stress_test.Prelude.{
  ℕ, ◌+◌, ◌≤◌, ◌<◌, ◌≡◌, refl, Bool, true, false, ◌&&◌, ◌||◌, List, [], ◌∷◌, none, some, arith, All,
  ltb, leb, ◌==◌, if◌then◌else◌, Bool-cases, inl, inr,
}
use spdlog_stress_test.Prelude.Keys.{Keys}
use spdlog_stress_test.ExpiringCache.{
  MapEntry, HeapEntry, push, find, insert_or_assign, erase, is_current, sweep_entries,
}
use spdlog_stress_test.ExpiringCache.Contents.{
  find-insert_or_assign, find-erase, IsOrdered, push-IsOrdered,
}

module _ {ℓ} {K : Type ℓ} where
  All-push {μ} :
      (P : HeapEntry K → Type μ) (h : HeapEntry K) (hs : List (HeapEntry K))
      → P h
      → All P hs
      → All P (push h hs)
  unfolding push
  All-push P h [] p ps = (p, tt)
  All-push P h (x ∷ xs) p ps = elim (Bool-cases (ltb h.expiration x.expiration)) [
    | inl earlier ↦ rw earlier (p, ps)
    | inr later ↦ rw later (ps.0, All-push P h xs p ps.1)
  ]

  old-weaken :
      (g g' : ℕ) (hs : List (HeapEntry K))
      → g ≤ g'
      → All (λ h. h.generation ≤ g) hs
      → All (λ h. h.generation ≤ g') hs
  old-weaken g g' [] le old = tt
  old-weaken g g' (h ∷ hs) le old = (omega (arith, old.0), old-weaken g g' hs le old.1)

module _ {ℓ κ} {K : Type ℓ} {V : Type κ} ⦃keys : Keys K⦄ where
  open keys use {same, same_iff}

  -- The heap has the entry of `k`'s map entry.
  abbrev pub has : K → MapEntry V → List (HeapEntry K) → Bool
  has k e [] = false
  has k e (h ∷ hs) =
      (same h.key k && (h.generation == e.generation) && (h.expiration == e.expiration))
      || has k e hs

  -- A heap entry of a map entry's generation has its time.
  abbrev pub Agrees : List (K × MapEntry V) → HeapEntry K → Type κ
  Agrees m h =
      (e : MapEntry V)
      → find h.key m ≡ some e
      → e.generation ≡ h.generation
      → e.expiration ≡ h.expiration

  pub record Links (g : ℕ) (m : List (K × MapEntry V)) (hs : List (HeapEntry K))
      : Type (ℓ ⊔ κ) where
    pub ordered : IsOrdered hs
    pub heap_old : All (λ h. h.generation ≤ g) hs
    pub map_old : (k : K) (e : MapEntry V) → find k m ≡ some e → e.generation ≤ g
    pub agreeing : All (Agrees m) hs
    pub pending : (k : K) (e : MapEntry V) → find k m ≡ some e → has k e hs ≡ true

  has-push :
      (k : K) (e : MapEntry V) (h : HeapEntry K) (hs : List (HeapEntry K))
      → has k e (push h hs)
        ≡ (same h.key k && (h.generation == e.generation) && (h.expiration == e.expiration))
          || has k e hs
  unfolding push
  has-push k e h [] = refl
  has-push k e h (x ∷ xs) = ground (arith, has-push k e h xs)

  -- The heap entries from before a `put` agree with the map after it: the new generation is fresh.
  Agrees-put :
      (g : ℕ) (k : K) (e : MapEntry V) (m : List (K × MapEntry V)) (hs : List (HeapEntry K))
      → g < e.generation
      → All (λ h. h.generation ≤ g) hs
      → All (Agrees m) hs
      → All (Agrees (insert_or_assign k e m)) hs
  Agrees-put g k e m [] fresh old a = tt
  Agrees-put g k e m (h ∷ hs) fresh old a = (
    λ f found same_generation. ground (arith, find-insert_or_assign h.key k e m, a.0 f, old.0),
    Agrees-put g k e m hs fresh old.1 a.1,
  )

  pub put-Links :
      (g : ℕ) (k : K) (e : MapEntry V) (h : HeapEntry K) (m : List (K × MapEntry V))
      (hs : List (HeapEntry K))
      → e.generation ≡ g + 1
      → h.generation ≡ e.generation
      → h.expiration ≡ e.expiration
      → h.key ≡ k
      → Links g m hs
      → Links (g + 1) (insert_or_assign k e m) (push h hs)
  put-Links g k e h m hs next same_g same_t same_k l = record {
    ordered = push-IsOrdered h hs l.ordered;
    heap_old =
        All-push (λ x. x.generation ≤ g + 1) h hs (omega arith)
          (old-weaken g (g + 1) hs (omega arith) l.heap_old);
    map_old = λ j f found. ground (arith, find-insert_or_assign j k e m, l.map_old j f);
    agreeing =
        All-push (Agrees (insert_or_assign k e m)) h hs
          (λ f found same_generation.
            ground (arith, find-insert_or_assign h.key k e m, same_iff k h.key, same_iff h.key k))
          (Agrees-put g k e m hs (omega arith) l.heap_old l.agreeing);
    pending = λ j f found. ground (
      arith,
      find-insert_or_assign j k e m,
      l.pending j f,
      has-push j f h hs,
      same_iff k j,
      same_iff h.key j,
    );
  }

  Agrees-erase :
      (k : K) (m : List (K × MapEntry V)) (hs : List (HeapEntry K))
      → All (Agrees m) hs
      → All (Agrees (erase k m)) hs
  Agrees-erase k m [] a = tt
  Agrees-erase k m (h ∷ hs) a = (
    λ f found same_generation. ground (arith, find-erase h.key k m, a.0 f),
    Agrees-erase k m hs a.1,
  )

  pub erase-Links :
      (g : ℕ) (k : K) (m : List (K × MapEntry V)) (hs : List (HeapEntry K))
      → Links g m hs
      → Links g (erase k m) hs
  erase-Links g k m hs l = record {
    ordered = l.ordered;
    heap_old = l.heap_old;
    map_old = λ j f found. ground (arith, find-erase j k m, l.map_old j f);
    agreeing = Agrees-erase k m hs l.agreeing;
    pending = λ j f found. ground (arith, find-erase j k m, l.pending j f);
  }

  -- The handler takes the top off the heap, and its map entry with it if it is still the same one.
  abbrev pub swept_map : HeapEntry K → List (K × MapEntry V) → List (K × MapEntry V)
  swept_map h m = if is_current h (find h.key m) then erase h.key m else m

  pub find-swept_map :
      (k : K) (h : HeapEntry K) (m : List (K × MapEntry V))
      → find k (swept_map h m)
        ≡ (if is_current h (find h.key m) && same h.key k then none else find k m)
  find-swept_map k h m = ground (arith, find-erase k h.key m)

  swept-Agrees :
      (h : HeapEntry K) (m : List (K × MapEntry V)) (hs : List (HeapEntry K))
      → All (Agrees m) hs
      → All (Agrees (swept_map h m)) hs
  swept-Agrees h m hs a = elim (Bool-cases (is_current h (find h.key m))) [
    | inl current ↦ rw current (Agrees-erase h.key m hs a)
    | inr stale ↦ rw stale a
  ]

  pub swept-Links :
      (g : ℕ) (h : HeapEntry K) (m : List (K × MapEntry V)) (hs : List (HeapEntry K))
      → Links g m (h ∷ hs)
      → Links g (swept_map h m) hs
  swept-Links g h m hs l = record {
    ordered = l.ordered.1;
    heap_old = l.heap_old.1;
    map_old = λ j f found. l.map_old j f (still j f found);
    agreeing = swept-Agrees h m hs l.agreeing.1;
    pending = λ j f found.
        ground (arith, still j f found, find-swept_map j h m, l.pending j f, same_iff h.key j);
  }
    where
      still : (j : K) (f : MapEntry V) → find j (swept_map h m) ≡ some f → find j m ≡ some f
      still j f found = ground (arith, find-swept_map j h m)

  pub sweep-Links :
      (g now : ℕ) (hs : List (HeapEntry K)) (m : List (K × MapEntry V))
      → Links g m hs
      → Links g (sweep_entries now hs m).1 (sweep_entries now hs m).0
  unfolding sweep_entries
  sweep-Links g now [] m l = l
  sweep-Links g now (h ∷ hs) m l = elim (Bool-cases (leb h.expiration now)) [
    | inl due ↦ rw due (sweep-Links g now hs (swept_map h m) (swept-Links g h m hs l))
    | inr later ↦ rw later l
  ]
