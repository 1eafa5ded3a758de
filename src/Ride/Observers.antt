-- ===== src/Ride/Observers.antt =====
-- The list of observers under `subscribe` and `unsubscribe`.
use spdlog_stress_test.Prelude.{
  ◌↔◌, ℕ, ◌+◌, ◌≤◌, ◌≡◌, refl, Bool, true, false, ◌&&◌, ◌++◌, List, [], ◌∷◌, some, arith, count,
  count-append, ◌==◌, Bool-cases, inl, inr, Option, none, if◌then◌else◌,
}
use spdlog_stress_test.Ride.{
  ObserverData, Owners, is_healthy, is_pair, Manager, scan, subscribe, drop_observer, unsubscribe,
}

-- No pair is registered twice.
abbrev pub IsUnique : List ObserverData → Type 0
IsUnique es = (d o : ℕ) → count (is_pair d o) es ≤ 1

scan-count-le :
    (own : Owners) (d o : ℕ) (es : List ObserverData) (d' o' : ℕ)
    → count (is_pair d' o') (scan own d o es).0 ≤ count (is_pair d' o') es
unfolding scan
scan-count-le own d o [] d' o' = omega arith
scan-count-le own d o (e ∷ es) d' o' = ground (arith, scan-count-le own d o es d' o')

-- Where the loop runs to its end, the pair does not stand among the entries left.
scan-absent :
    (own : Owners) (d o : ℕ) (es : List ObserverData)
    → (scan own d o es).1 ≡ false
    → count (is_pair d o) (scan own d o es).0 ≡ 0
unfolding scan
scan-absent own d o [] h = refl
scan-absent own d o (e ∷ es) h = ground (arith, scan-absent own d o es)

is_pair-is_healthy :
    (own : Owners) (d o : ℕ) (e : ObserverData)
    → own.dispatcher_alive d ≡ true
    → own.observer_alive o ≡ true
    → is_pair d o e ≡ true
    → is_healthy own e ≡ true
is_pair-is_healthy own d o e hd ho same =
    let eq_d : e.dispatcher ≡ d = ground arith in
    let eq_o : e.observer ≡ o = ground arith in rw (eq_d, eq_o, hd, ho)

-- The loop keeps every live pair, as often as it was there.
scan-count :
    (own : Owners) (d o : ℕ) (es : List ObserverData) (d' o' : ℕ)
    → own.dispatcher_alive d' ≡ true
    → own.observer_alive o' ≡ true
    → count (is_pair d' o') (scan own d o es).0 ≡ count (is_pair d' o') es
unfolding scan
scan-count own d o [] d' o' hd ho = refl
scan-count own d o (e ∷ es) d' o' hd ho = elim (Bool-cases (is_pair d' o' e)) [
  | inl same ↦
      let live : is_healthy own e ≡ true = is_pair-is_healthy own d' o' e hd ho same in
      rw same (ground (arith, scan-count own d o es d' o'))
  | inr other ↦ rw other (ground (arith, scan-count own d o es d' o'))
]

-- No call of `subscribe` registers a pair twice.
pub subscribe-IsUnique :
    (own : Owners) (d o : Option ℕ) (m : Manager)
    → IsUnique m.observers
    → IsUnique (subscribe own d o m).0.observers
unfolding subscribe
subscribe-IsUnique own none none m u d' o' = u d' o'
subscribe-IsUnique own none (some o) m u d' o' = u d' o'
subscribe-IsUnique own (some d) none m u d' o' = u d' o'
subscribe-IsUnique own (some d) (some o) m u d' o' =
    let left = (scan own d o m.observers).0 in
    ground (
      arith,
      u d' o',
      scan-count-le own d o m.observers d' o',
      scan-absent own d o m.observers,
      count-append (is_pair d' o') left (record { dispatcher = d; observer = o } ∷ []),
    )

-- How often the loop's outcome says that the pair was registered.
scan-found :
    (own : Owners) (d o : ℕ) (es : List ObserverData)
    → own.dispatcher_alive d ≡ true
    → own.observer_alive o ≡ true
    → (scan own d o es).1 ≡ true
    → 1 ≤ count (is_pair d o) es
unfolding scan
scan-found own d o [] hd ho h = cc
scan-found own d o (e ∷ es) hd ho h = ground (arith, scan-found own d o es hd ho)

-- While the manager runs and no pair is registered twice, `subscribe` of a live pair succeeds exactly
-- when the pair is not registered yet; afterwards, of all live pairs, this one is registered once, and every other as
-- often as before.
pub subscribe_lem :
    (own : Owners) (d o d' o' : ℕ) (m : Manager)
    → own.dispatcher_alive d ≡ true
    → own.observer_alive o ≡ true
    → own.dispatcher_alive d' ≡ true
    → own.observer_alive o' ≡ true
    → m.is_shutting_down ≡ false
    → IsUnique m.observers
    → let r = subscribe own (some d) (some o) m in
      ((r.1 ≡ true) ↔ (count (is_pair d o) m.observers ≡ 0))
      × (count (is_pair d' o') r.0.observers
          ≡ (if (d == d') && (o == o') then 1 else count (is_pair d' o') m.observers))
unfolding subscribe
subscribe_lem own d o d' o' m hd ho hd' ho' running u = (
  ground (arith, found, absent, kept),
  ground (
    arith,
    found,
    absent,
    kept,
    u d o,
    added d' o',
    scan-count own d o m.observers d' o' hd' ho',
  ),
)
  where
    found : (scan own d o m.observers).1 ≡ true → 1 ≤ count (is_pair d o) m.observers
    found = scan-found own d o m.observers hd ho

    absent :
        (scan own d o m.observers).1 ≡ false → count (is_pair d o) (scan own d o m.observers).0 ≡ 0
    absent = scan-absent own d o m.observers

    kept : count (is_pair d o) (scan own d o m.observers).0 ≡ count (is_pair d o) m.observers
    kept = scan-count own d o m.observers d o hd ho

    added :
        (d' o' : ℕ)
        → count
            (is_pair d' o')
            ((scan own d o m.observers).0 ++ record { dispatcher = d; observer = o } ∷ [])
          ≡ count (is_pair d' o') (scan own d o m.observers).0
            + count (is_pair d' o') (record { dispatcher = d; observer = o } ∷ [])
    added d' o' = count-append (is_pair d' o') _ _

-- The entries of one observer, whoever dispatches to it.
abbrev pub is_observer : ℕ → ObserverData → Bool
is_observer o e = e.observer == o

drop_observer-count :
    (own : Owners) (o : ℕ) (es : List ObserverData) (d' o' : ℕ)
    → own.observer_alive o' ≡ true
    → count (is_pair d' o') (drop_observer own o es)
      ≡ (if o == o' then 0 else count (is_pair d' o') es)
unfolding drop_observer
drop_observer-count own o [] d' o' h = ground arith
drop_observer-count own o (e ∷ es) d' o' h = elim (Bool-cases (is_pair d' o' e)) [
  | inl same ↦
      let eq_o : e.observer ≡ o' = ground arith in
      rw same (rw eq_o (rw h (ground (arith, drop_observer-count own o es d' o'))))
  | inr other ↦ rw other (ground (arith, drop_observer-count own o es d' o'))
]

drop_observer-absent :
    (own : Owners) (o : ℕ) (es : List ObserverData)
    → count (is_observer o) (drop_observer own o es) ≡ 0
unfolding drop_observer
drop_observer-absent own o [] = refl
drop_observer-absent own o (e ∷ es) = ground (arith, drop_observer-absent own o es)

-- While the manager runs, `unsubscribe` of an observer succeeds and removes it from every
-- dispatcher; any pair whose observer is another live one stays, as often as it was there.
pub unsubscribe_lem :
    (own : Owners) (o d' o' : ℕ) (m : Manager)
    → own.observer_alive o' ≡ true
    → m.is_shutting_down ≡ false
    → let r = unsubscribe own (some o) m in
      (r.1 ≡ true)
      × (count (is_observer o) r.0.observers ≡ 0)
      × (count (is_pair d' o') r.0.observers
          ≡ (if o == o' then 0 else count (is_pair d' o') m.observers))
unfolding unsubscribe
unsubscribe_lem own o d' o' m h running =
    rw running
      (refl, drop_observer-absent own o m.observers, drop_observer-count own o m.observers d' o' h)
