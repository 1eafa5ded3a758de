-- ===== src/ExpiringCache/Contents.antt =====
-- The map's laws, the order of the heap, and what a sweep does to the map.
use spdlog_stress_test.Prelude.{ℕ, ◌≤◌, ◌≡◌, refl, List, [], ◌∷◌, none, some, arith, if◌then◌else◌}
use spdlog_stress_test.Prelude.Keys.{Keys}
use spdlog_stress_test.ExpiringCache.{MapEntry, HeapEntry, push, find, insert_or_assign, erase}

module _ {ℓ κ} {K : Type ℓ} {V : Type κ} ⦃keys : Keys K⦄ where
  open keys use {same, same_iff}

  pub find-insert_or_assign :
      (j k : K) (e : MapEntry V) (m : List (K × MapEntry V))
      → find j (insert_or_assign k e m) ≡ (if same k j then some e else find j m)
  unfolding find insert_or_assign
  find-insert_or_assign j k e [] = refl
  find-insert_or_assign j k e ((i, f) ∷ m) =
      ground (arith, same_iff i k, same_iff i j, same_iff k j, find-insert_or_assign j k e m)

  pub find-erase :
      (j k : K) (m : List (K × MapEntry V))
      → find j (erase k m) ≡ (if same k j then none else find j m)
  unfolding find erase
  find-erase j k [] = ground arith
  find-erase j k ((i, f) ∷ m) =
      ground (arith, same_iff i k, same_iff i j, same_iff k j, find-erase j k m)

abbrev pub NoEarlier {ℓ} : {K : Type ℓ} → ℕ → List (HeapEntry K) → Type 0
NoEarlier t [] = Unit
NoEarlier t (h ∷ hs) = (t ≤ h.expiration) × NoEarlier t hs

-- The heap's list is ordered by time.
abbrev pub IsOrdered {ℓ} : {K : Type ℓ} → List (HeapEntry K) → Type 0
IsOrdered [] = Unit
IsOrdered (h ∷ hs) = NoEarlier h.expiration hs × IsOrdered hs

module _ {ℓ} {K : Type ℓ} where
  pub NoEarlier-mono : (t u : ℕ) (hs : List (HeapEntry K)) → t ≤ u → NoEarlier u hs → NoEarlier t hs
  NoEarlier-mono t u [] le h = tt
  NoEarlier-mono t u (x ∷ xs) le h = (omega arith, NoEarlier-mono t u xs le h.1)

  NoEarlier-push :
      (t : ℕ) (h : HeapEntry K) (hs : List (HeapEntry K))
      → t ≤ h.expiration
      → NoEarlier t hs
      → NoEarlier t (push h hs)
  unfolding push
  NoEarlier-push t h [] le o = (le, tt)
  NoEarlier-push t h (x ∷ xs) le o = ground (arith, NoEarlier-push t h xs)

  pub push-IsOrdered :
      (h : HeapEntry K) (hs : List (HeapEntry K)) → IsOrdered hs → IsOrdered (push h hs)
  unfolding push
  push-IsOrdered h [] o = (tt, tt)
  push-IsOrdered h (x ∷ xs) o = ground (
    arith,
    NoEarlier-mono h.expiration x.expiration xs,
    NoEarlier-push x.expiration h xs,
    push-IsOrdered h xs,
  )
