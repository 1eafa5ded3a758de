-- ===== src/ProducerConsumerQueue/Ending.antt =====
-- Once `stop` is set, the producers and the consumers leave, in whatever order they take their turns,
-- so that the joins of `wait` end.
use spdlog_stress_test.Prelude.{
  ℕ, ◌+◌, ◌-◌, ◌≤◌, ◌≡◌, refl, ap, true, List, [], ◌∷◌, arith, Bool-cases, inl, inr, ltb, length,
}
use spdlog_stress_test.ProducerConsumerQueue.{
  ThreadId, first, second, WorkItem, Producer, Consumer, waiting, reporting, System, max_queue_size,
  update, produce, producer_turn, consume, consumer_turn, Event, produces, consumes, passes, stops,
  step, run,
}

-- The turns that a thread has left once `stop` is set.
abbrev producer_left : Producer → ℕ
producer_left Producer.checking = 1
producer_left Producer.producing = 2
producer_left Producer.gone = 0

abbrev consumer_left : Consumer → ℕ
consumer_left Consumer.checking = 1
consumer_left waiting = 3
consumer_left (reporting w n) = 2
consumer_left Consumer.gone = 0

abbrev own : ThreadId → ThreadId → ℕ
own first first = 1
own second second = 1
own i j = 0

-- The turns that a schedule gives to a producer, and to a consumer.
abbrev pub producer_turns : ThreadId → List Event → ℕ
producer_turns i [] = 0
producer_turns i (produces j ∷ es) = own i j + producer_turns i es
producer_turns i (e ∷ es) = producer_turns i es

abbrev pub consumer_turns : ThreadId → List Event → ℕ
consumer_turns i [] = 0
consumer_turns i (consumes j ∷ es) = own i j + consumer_turns i es
consumer_turns i (e ∷ es) = consumer_turns i es

-- What turns do, of a producer and of a consumer, once `stop` is set.
record Brings (i : ThreadId) (s t : System) (p c : ℕ) : Type 0 where
  stop : t.stop ≡ true
  producer : producer_left (t.producers i) ≤ producer_left (s.producers i) - p
  consumer : consumer_left (t.consumers i) ≤ consumer_left (s.consumers i) - c

Brings-then :
    {i : ThreadId} {s t u : System} {p c p2 c2 p3 c3 : ℕ}
    → (p3 ≡ p + p2) × (c3 ≡ c + c2)
    → Brings i s t p c
    → Brings i t u p2 c2
    → Brings i s u p3 c3
Brings-then n a b = record {
  stop = b.stop;
  producer = omega (arith, n, a.producer, b.producer);
  consumer = omega (arith, n, a.consumer, b.consumer);
}

-- A thread `j` takes a turn: its own count falls, and that of the other thread stays.
lowered :
    {A : Type 0} (left : A → ℕ) (i j : ThreadId) (ps : ThreadId → A) (p : A)
    → left p ≤ left (ps j) - 1
    → left (update ps j p i) ≤ left (ps i) - own i j
lowered left first first ps p h = h
lowered left second second ps p h = h
lowered left first second ps p h = omega arith
lowered left second first ps p h = omega arith

unmoved :
    {A : Type 0} (left : A → ℕ) (i j : ThreadId) (ps : ThreadId → A)
    → left (ps j) ≡ 0
    → left (ps i) ≤ left (ps i) - own i j
unmoved left first first ps h = omega arith
unmoved left second second ps h = omega arith
unmoved left first second ps h = omega arith
unmoved left second first ps h = omega arith

producer_turn-Brings :
    (i j : ThreadId) (p : Producer) (s : System)
    → s.stop ≡ true
    → s.producers j ≡ p
    → Brings i s (producer_turn j p s) (own i j) 0
unfolding producer_turn produce
producer_turn-Brings i j Producer.checking s h at = record {
  stop = h;
  producer = lowered producer_left i j s.producers _ (rw h (omega (arith, ap producer_left at)));
  consumer = omega arith;
}
producer_turn-Brings i j Producer.producing s h at =
    elim (Bool-cases (ltb (length s.work_items) max_queue_size)) [
      | inl room ↦ simp room (record {
        stop = h;
        producer =
            lowered producer_left i j s.producers Producer.checking
              (omega (arith, ap producer_left at));
        consumer = omega arith;
      })
      | inr full ↦ simp full (record {
        stop = h;
        producer =
            lowered producer_left i j s.producers Producer.checking
              (omega (arith, ap producer_left at));
        consumer = omega arith;
      })
    ]
producer_turn-Brings i j Producer.gone s h at = record {
  stop = h;
  producer = unmoved producer_left i j s.producers (ap producer_left at);
  consumer = omega arith;
}

-- Behind its wait a consumer that finds no item leaves.
consume-Brings :
    (i j : ThreadId) (ws : List WorkItem) (s : System)
    → s.stop ≡ true
    → s.consumers j ≡ waiting
    → Brings i s (consume j ws s) 0 (own i j)
unfolding consume
consume-Brings i j [] s h at = record {
  stop = h;
  producer = omega arith;
  consumer = lowered consumer_left i j s.consumers _ (rw h (omega (arith, ap consumer_left at)));
}
consume-Brings i j (w ∷ ws) s h at = record {
  stop = h;
  producer = omega arith;
  consumer =
      lowered consumer_left i j s.consumers (reporting w (length ws))
        (omega (arith, ap consumer_left at));
}

consumer_turn-Brings :
    (i j : ThreadId) (c : Consumer) (s : System)
    → s.stop ≡ true
    → s.consumers j ≡ c
    → Brings i s (consumer_turn j c s) 0 (own i j)
unfolding consumer_turn
consumer_turn-Brings i j Consumer.checking s h at = record {
  stop = h;
  producer = omega arith;
  consumer = lowered consumer_left i j s.consumers _ (rw h (omega (arith, ap consumer_left at)));
}
consumer_turn-Brings i j waiting s h at = consume-Brings i j s.work_items s h at
consumer_turn-Brings i j (reporting w n) s h at = record {
  stop = h;
  producer = omega arith;
  consumer =
      lowered consumer_left i j s.consumers Consumer.checking (omega (arith, ap consumer_left at));
}
consumer_turn-Brings i j Consumer.gone s h at = record {
  stop = h;
  producer = omega arith;
  consumer = unmoved consumer_left i j s.consumers (ap consumer_left at);
}

run-Brings :
    (i : ThreadId) (es : List Event) (s : System)
    → s.stop ≡ true
    → Brings i s (run s es) (producer_turns i es) (consumer_turns i es)
unfolding run step
run-Brings i [] s h = record { stop = h; producer = omega arith; consumer = omega arith }
run-Brings i (produces j ∷ es) s h =
    let now = producer_turn-Brings i j (s.producers j) s h refl in
    Brings-then (omega arith) now (run-Brings i es (producer_turn j (s.producers j) s) now.stop)
run-Brings i (consumes j ∷ es) s h =
    let now = consumer_turn-Brings i j (s.consumers j) s h refl in
    Brings-then (omega arith) now (run-Brings i es (consumer_turn j (s.consumers j) s) now.stop)
run-Brings i (passes n ∷ es) s h =
    let rest = run-Brings i es (record s { now = s.now + n }) h in
    record { stop = rest.stop; producer = rest.producer; consumer = rest.consumer }
run-Brings i (stops ∷ es) s h =
    let rest = run-Brings i es (record s { stop = true }) refl in
    record { stop = rest.stop; producer = rest.producer; consumer = rest.consumer }

producer_over : (p : Producer) → producer_left p ≡ 0 → p ≡ Producer.gone
producer_over Producer.gone h = refl
producer_over Producer.checking h = absurd (omega arith)
producer_over Producer.producing h = absurd (omega arith)

consumer_over : (c : Consumer) → consumer_left c ≡ 0 → c ≡ Consumer.gone
consumer_over Consumer.gone h = refl
consumer_over Consumer.checking h = absurd (omega arith)
consumer_over waiting h = absurd (omega arith)
consumer_over (reporting w n) h = absurd (omega arith)

producer_left-le : (p : Producer) → producer_left p ≤ 2
producer_left-le Producer.checking = omega arith
producer_left-le Producer.producing = omega arith
producer_left-le Producer.gone = omega arith

consumer_left-le : (c : Consumer) → consumer_left c ≤ 3
consumer_left-le Consumer.checking = omega arith
consumer_left-le waiting = omega arith
consumer_left-le (reporting w n) = omega arith
consumer_left-le Consumer.gone = omega arith

-- From any state in which `stop` is set, whatever is in the queue: after any schedule in which a
-- producer has two turns and a consumer has three, in whatever order, that producer and that consumer
-- have left, so that their joins end.
pub stop_ends_threads :
    (i j : ThreadId) (s : System) (es : List Event)
    → s.stop ≡ true
    → 2 ≤ producer_turns i es
    → 3 ≤ consumer_turns j es
    → ((run s es).producers i ≡ Producer.gone) × ((run s es).consumers j ≡ Consumer.gone)
stop_ends_threads i j s es h two three =
    let p = run-Brings i es s h in
    let c = run-Brings j es s h in
    (
      producer_over ((run s es).producers i)
          (omega (arith, p.producer, producer_left-le (s.producers i), two)),
      consumer_over ((run s es).consumers j)
          (omega (arith, c.consumer, consumer_left-le (s.consumers j), three)),
    )
