-- ===== src/ProducerConsumerQueue/Order.antt =====
-- What every schedule of the four threads keeps.
use spdlog_stress_test.Prelude.{
  ℕ, zero, suc, ◌+◌, ◌-◌, ◌≤◌, ◌≡◌, refl, ap, sym, ◌∙◌, List, [], ◌∷◌, ◌++◌, map, arith, length,
  length-append, count, count-append, append_assoc, ltb, Bool, true, false, Bool-cases, inl, inr,
  if◌then◌else◌,
}
use mathlib.Core.List.{map-append}
use native.Mathlib.Numerals.{add-one}
use spdlog_stress_test.ProducerConsumerQueue.{
  ThreadId, first, second, update, WorkItem, Producer, Consumer, waiting, reporting, System,
  max_queue_size, u32, initial, update, new_item, produce, producer_turn, consume, consumer_turn,
  Report, Event, produces, consumes, passes, stops, step, run,
}

-- The sequence numbers that the first `n` items have.
abbrev pub numbers : ℕ → List ℕ
numbers zero = []
numbers (suc n) = numbers n ++ u32 n ∷ []

-- The item that a consumer has popped and not reported.
abbrev pub held : Consumer → List WorkItem
held (reporting w size) = w ∷ []
held _ = []

-- How many of some items pass a test, of those that a consumer holds, and of those reported.
abbrev pub holds : (WorkItem → Bool) → Consumer → ℕ
holds f c = count f (held c)

abbrev pub items : List Report → List WorkItem
items = map (λ r. r.item)

pub record Inv (s : System) : Type 0 where
  pub in_order : s.pushed ≡ s.popped ++ s.work_items
  pub numbered : map (λ w. w.sequence_id) s.pushed ≡ numbers (length s.pushed)
  pub counter : s.latest_sequence_id ≡ u32 (length s.pushed)
  pub bounded : length s.work_items ≤ max_queue_size
  pub reported :
      (f : WorkItem → Bool)
      → count f (items s.reports) + holds f (s.consumers first) + holds f (s.consumers second)
        ≡ count f s.popped

pushed-Inv :
    (i : ThreadId) (s : System)
    → length s.work_items + 1 ≤ max_queue_size
    → Inv s
    → Inv (record s {
      work_items = s.work_items ++ new_item i s ∷ [];
      latest_sequence_id = u32 (s.latest_sequence_id + 1);
      pushed = s.pushed ++ new_item i s ∷ [];
    })
pushed-Inv i s room v = record {
  in_order =
      ap (λ l. l ++ new_item i s ∷ []) v.in_order
      ∙ append_assoc s.popped s.work_items (new_item i s ∷ []);
  numbered =
      rw (map-append, length-append s.pushed (new_item i s ∷ []), v.numbered, v.counter, add-one)
        refl;
  counter = omega (arith, v.counter, length-append s.pushed (new_item i s ∷ []));
  bounded = omega (arith, length-append s.work_items (new_item i s ∷ []));
  reported = v.reported;
}

produce-Inv : (i : ThreadId) (s : System) → Inv s → Inv (produce i s)
unfolding produce
produce-Inv i s v = elim (Bool-cases (ltb (length s.work_items) max_queue_size)) [
  | inl room ↦ simp room (pushed-Inv i s (ground arith) v)
  | inr full ↦ simp full v
]

producer_turn-Inv : (i : ThreadId) (p : Producer) (s : System) → Inv s → Inv (producer_turn i p s)
unfolding producer_turn
producer_turn-Inv i Producer.checking s v = record {
  in_order = v.in_order;
  numbered = v.numbered;
  counter = v.counter;
  bounded = v.bounded;
  reported = v.reported;
}
producer_turn-Inv i Producer.producing s v =
    let u = produce-Inv i s v in
    record {
      in_order = u.in_order;
      numbered = u.numbered;
      counter = u.counter;
      bounded = u.bounded;
      reported = u.reported;
    }
producer_turn-Inv i Producer.gone s v = v

holds-update :
    (t : WorkItem → Bool) (f : ThreadId → Consumer) (i : ThreadId) (p : Consumer)
    → holds t (update f i p first) + holds t (update f i p second) + holds t (f i)
      ≡ holds t (f first) + holds t (f second) + holds t p
holds-update t f first p = omega arith
holds-update t f second p = omega arith

holds-after_stop :
    (t : WorkItem → Bool) (b : Bool) (p : Consumer)
    → held p ≡ []
    → holds t (if b then Consumer.gone else p) ≡ 0
holds-after_stop t true p h = refl
holds-after_stop t false p h = ap (count t) h

items-append : (rs : List Report) (r : Report) → items (rs ++ r ∷ []) ≡ items rs ++ r.item ∷ []
items-append rs r = map-append (λ r. r.item) rs (r ∷ [])

consume-Inv :
    (i : ThreadId) (q : List WorkItem) (s : System)
    → s.work_items ≡ q
    → held (s.consumers i) ≡ []
    → Inv s
    → Inv (consume i q s)
unfolding consume
consume-Inv i [] s e none_held v = record {
  in_order = v.in_order;
  numbered = v.numbered;
  counter = v.counter;
  bounded = v.bounded;
  reported = λ f. omega (
    arith,
    holds-update f s.consumers i (if s.stop then Consumer.gone else Consumer.checking),
    holds-after_stop f s.stop Consumer.checking refl,
    ap (count f) none_held,
    v.reported f,
  );
}
consume-Inv i (w ∷ ws) s e none_held v = record {
  in_order = v.in_order ∙ ap (λ q. s.popped ++ q) e ∙ sym (append_assoc s.popped (w ∷ []) ws);
  numbered = v.numbered;
  counter = v.counter;
  bounded = omega (arith, ap length e, v.bounded);
  reported = λ f. omega (
    arith,
    holds-update f s.consumers i (reporting w (length ws)),
    count-append f s.popped (w ∷ []),
    ap (count f) none_held,
    v.reported f,
  );
}

consumer_turn-Inv :
    (i : ThreadId) (p : Consumer) (s : System)
    → s.consumers i ≡ p
    → Inv s
    → Inv (consumer_turn i p s)
unfolding consumer_turn
consumer_turn-Inv i Consumer.checking s e v = record {
  in_order = v.in_order;
  numbered = v.numbered;
  counter = v.counter;
  bounded = v.bounded;
  reported = λ f. omega (
    arith,
    holds-update f s.consumers i (if s.stop then Consumer.gone else waiting),
    holds-after_stop f s.stop waiting refl,
    ap (holds f) e,
    v.reported f,
  );
}
consumer_turn-Inv i waiting s e v = consume-Inv i s.work_items s refl (ap held e) v
consumer_turn-Inv i (reporting w size) s e v = record {
  in_order = v.in_order;
  numbered = v.numbered;
  counter = v.counter;
  bounded = v.bounded;
  reported = λ f. omega (
    arith,
    holds-update f s.consumers i Consumer.checking,
    ap (count f) (
        items-append s.reports
          (record { consumer = i; item = w; latency = s.now - w.created_at; queue_size = size })),
    count-append f (items s.reports) (w ∷ []),
    ap (holds f) e,
    v.reported f,
  );
}
consumer_turn-Inv i Consumer.gone s e v = v

step-Inv : (s : System) (e : Event) → Inv s → Inv (step s e)
unfolding step
step-Inv s (produces i) v = producer_turn-Inv i (s.producers i) s v
step-Inv s (consumes i) v = consumer_turn-Inv i (s.consumers i) s refl v
step-Inv s (passes n) v = record {
  in_order = v.in_order;
  numbered = v.numbered;
  counter = v.counter;
  bounded = v.bounded;
  reported = v.reported;
}
step-Inv s stops v = record {
  in_order = v.in_order;
  numbered = v.numbered;
  counter = v.counter;
  bounded = v.bounded;
  reported = v.reported;
}

run-Inv : (s : System) (es : List Event) → Inv s → Inv (run s es)
unfolding run
run-Inv s [] v = v
run-Inv s (e ∷ es) v = run-Inv (step s e) es (step-Inv s e v)

initial-Inv : Inv initial
initial-Inv = record {
  in_order = refl;
  numbered = refl;
  counter = refl;
  bounded = omega arith;
  reported = λ f. omega arith;
}

-- Under every schedule: the items are popped in the order in which they were pushed, and those
-- popped, followed by the queue, are all that were pushed; their sequence numbers count up from 0,
-- modulo 2^32, whichever producer pushed them; the queue holds at most `max_queue_size`; and the
-- items reported, with those that the two consumers hold, are the popped ones, each as often: of them,
-- as many pass any test.
pub queue_history :
    (es : List Event)
    → let s = run initial es in
      (s.pushed ≡ s.popped ++ s.work_items)
      × (map (λ w. w.sequence_id) s.pushed ≡ numbers (length s.pushed))
      × (length s.work_items ≤ max_queue_size)
      × ((f : WorkItem → Bool)
          → count f (items s.reports) + holds f (s.consumers first) + holds f (s.consumers second)
            ≡ count f s.popped)
queue_history es =
    let v = run-Inv initial es initial-Inv in (v.in_order, v.numbered, v.bounded, v.reported)
