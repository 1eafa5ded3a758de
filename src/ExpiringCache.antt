-- ===== src/ExpiringCache.antt =====
-- C++ Project/src/include/non_test/expiring_cache.h: a map whose entries expire, and a heap of their
-- times of expiration. Each method is one step under `dataMutex_`; the time that `steady_clock::now`
-- reads is an argument, a number of nanoseconds from the least `time_point`, and a lifetime is a number
-- of milliseconds, which may be negative as a pattern of 64 bits. The sum of the two is taken modulo
-- 2^64: a signed overflow, which C++ leaves undefined, wraps. Among entries of one time the heap
-- gives the oldest first.
pub mod Histories
pub mod Contents
pub mod Links
pub mod Linked
pub mod Refinement
pub mod Expiration
pub mod HandlerThread
mod Tests
use spdlog_stress_test.Prelude.{
  ℕ, ◌+◌, ◌*◌, ◌%◌, ◌^◌, Bool, true, false, ◌&&◌, List, [], ◌∷◌, Option, none, some, ltb, leb, ◌==◌,
  if◌then◌else◌, length,
}
use spdlog_stress_test.Prelude.Keys.{Keys}

-- Both structures begin with `ExpirationMetadata`.
pub record MapEntry {ℓ} (V : Type ℓ) : Type ℓ where
  pub expiration : ℕ
  pub generation : ℕ  -- uint64_t
  pub value : V

pub record HeapEntry {ℓ} (K : Type ℓ) : Type ℓ where
  pub expiration : ℕ
  pub generation : ℕ  -- uint64_t
  pub key : K

pub record Cache {ℓ κ} (K : Type ℓ) (V : Type κ) : Type (ℓ ⊔ κ) where
  pub current_generation : ℕ
  pub lookup_map : List (K × MapEntry V)
  pub expiration_queue : List (HeapEntry K)
  pub is_stopping : Bool

abbrev pub u64 : ℕ → ℕ
u64 n = n % 2 ^ 64

-- `push` of the priority queue, whose top is the head of the list.
unfoldable pub push {ℓ} : {K : Type ℓ} → HeapEntry K → List (HeapEntry K) → List (HeapEntry K)
push h [] = h ∷ []
push h (x ∷ xs) =
    let rest = push h xs in if ltb h.expiration x.expiration then h ∷ x ∷ xs else x ∷ rest

-- Whether the top of the heap is an entry of `k`.
pub is_top {ℓ} : {K : Type ℓ} ⦃keys : Keys K⦄ → K → List (HeapEntry K) → Bool
is_top ⦃keys⦄ k [] = false
is_top ⦃keys⦄ k (h ∷ hs) = keys.same h.key k

-- `now + ttl`.
abbrev pub expiration_of : ℕ → ℕ → ℕ
expiration_of now ttl = u64 (now + 1000000 * ttl)

-- The entry and the heap entry that `put` makes.
abbrev pub put_entry {κ} : {V : Type κ} → V → ℕ → ℕ → ℕ → MapEntry V
put_entry v ttl now generation = record {
  expiration = expiration_of now ttl;
  generation = generation;
  value = v;
}

abbrev pub put_time {ℓ} : {K : Type ℓ} → K → ℕ → ℕ → ℕ → HeapEntry K
put_time k ttl now generation = record {
  expiration = expiration_of now ttl;
  generation = generation;
  key = k;
}

abbrev pub unexpired {κ} : {V : Type κ} → ℕ → Option (MapEntry V) → Option V
unexpired now none = none
unexpired now (some e) = if leb e.expiration now then none else some e.value

abbrev pub is_some {ℓ} : {A : Type ℓ} → Option A → Bool
is_some none = false
is_some (some a) = true

-- Whether a heap entry is that of the entry in the map.
abbrev pub is_current {ℓ κ} : {K : Type ℓ} {V : Type κ} → HeapEntry K → Option (MapEntry V) → Bool
is_current h none = false
is_current h (some e) = e.generation == h.generation

module _ {ℓ κ} {K : Type ℓ} {V : Type κ} where
  abbrev pub empty_cache : Cache K V
  empty_cache = record {
    current_generation = 0;
    lookup_map = [];
    expiration_queue = [];
    is_stopping = false;
  }

  -- Physical size.
  pub size : Cache K V → ℕ
  size c = if c.is_stopping then 0 else length c.lookup_map

  -- The flag that `stop` sets under the lock.
  pub begin_stop : Cache K V → Cache K V
  begin_stop c = record c { is_stopping = true }

module _ {ℓ κ} {K : Type ℓ} {V : Type κ} ⦃keys : Keys K⦄ where
  open keys use {same}

  pub find : K → List (K × MapEntry V) → Option (MapEntry V)
  find k [] = none
  find k ((j, e) ∷ m) = if same j k then some e else find k m

  pub insert_or_assign : K → MapEntry V → List (K × MapEntry V) → List (K × MapEntry V)
  insert_or_assign k e [] = (k, e) ∷ []
  insert_or_assign k e ((j, f) ∷ m) =
      let rest = insert_or_assign k e m in if same j k then (j, e) ∷ m else (j, f) ∷ rest

  pub erase : K → List (K × MapEntry V) → List (K × MapEntry V)
  erase k [] = []
  erase k ((j, f) ∷ m) = let rest = erase k m in if same j k then rest else (j, f) ∷ rest

  -- The Boolean says whether the handler is notified.
  pub put : K → V → ℕ → ℕ → Cache K V → Cache K V × Bool
  unfolding insert_or_assign push is_top
  put k v ttl now c =
      let generation = u64 (c.current_generation + 1) in
      let queue = push (put_time k ttl now generation) c.expiration_queue in
      if c.is_stopping then (c, false) else (
        record c {
          current_generation = generation;
          lookup_map = insert_or_assign k (put_entry v ttl now generation) c.lookup_map;
          expiration_queue = queue;
        },
        is_top k queue,
      )

  pub get : K → ℕ → Cache K V → Option V
  unfolding find
  get k now c = if c.is_stopping then none else unexpired now (find k c.lookup_map)

  -- The result says whether an entry was removed, and then whether the handler is notified.
  pub remove : K → Cache K V → Cache K V × Bool × Bool
  unfolding erase find is_top
  remove k c = if c.is_stopping then (c, false, false) else (
    record c { lookup_map = erase k c.lookup_map },
    is_some (find k c.lookup_map),
    is_top k c.expiration_queue,
  )

  -- The handler's inner loop.
  pub sweep_entries :
      ℕ → List (HeapEntry K) → List (K × MapEntry V) → List (HeapEntry K) × List (K × MapEntry V)
  unfolding find erase
  sweep_entries now [] m = ([], m)
  sweep_entries now (h ∷ hs) m =
      let m' = if is_current h (find h.key m) then erase h.key m else m in
      let rest = sweep_entries now hs m' in if leb h.expiration now then rest else (h ∷ hs, m)

  pub sweep : ℕ → Cache K V → Cache K V
  unfolding sweep_entries
  sweep now c =
      let r = sweep_entries now c.expiration_queue c.lookup_map in
      record c { expiration_queue = r.0; lookup_map = r.1 }
