-- ===== src/ProducerConsumerQueue.antt =====
-- C++ Project/src/include/producer_consumer_queue.h: two producers and two consumers on a bounded
-- queue. A turn is a read of `stop`, or what a thread does under one hold of the mutex; a wait may
-- end at any turn, since it has a time limit. The number of ticks that the clock reads is part of
-- the state.
pub mod Order
pub mod Ending
mod Tests
use spdlog_stress_test.Prelude.{
  ℕ, ◌+◌, ◌-◌, ◌%◌, ◌^◌, Bool, false, List, [], ◌∷◌, ◌++◌, ltb, if◌then◌else◌, length,
}

-- The two producers, and the two consumers.
pub data ThreadId : Type 0 where
  first second : ThreadId

pub record WorkItem : Type 0 where
  pub producer_id : ThreadId
  pub sequence_id : ℕ  -- unsigned
  pub created_at : ℕ

pub data Producer : Type 0 where
  checking : Producer
  producing : Producer
  gone : Producer

pub data Consumer : Type 0 where
  checking : Consumer
  waiting : Consumer
  reporting : WorkItem → ℕ → Consumer
  gone : Consumer

-- A line of the log.
pub record Report : Type 0 where
  pub consumer : ThreadId
  pub item : WorkItem
  pub latency : ℕ
  pub queue_size : ℕ

-- The members, the threads, and three records of what happened.
pub record System : Type 0 where
  pub work_items : List WorkItem
  pub latest_sequence_id : ℕ
  pub stop : Bool
  pub now : ℕ
  pub producers : ThreadId → Producer
  pub consumers : ThreadId → Consumer
  pub pushed : List WorkItem
  pub popped : List WorkItem
  pub reports : List Report

abbrev pub max_queue_size : ℕ
max_queue_size = 2000

abbrev pub u32 : ℕ → ℕ
u32 n = n % 2 ^ 32

abbrev pub initial : System
initial = record {
  work_items = [];
  latest_sequence_id = 0;
  stop = false;
  now = 0;
  producers = λ i. Producer.checking;
  consumers = λ i. Consumer.checking;
  pushed = [];
  popped = [];
  reports = [];
}

abbrev pub update {ℓ} : {A : Type ℓ} → (ThreadId → A) → ThreadId → A → ThreadId → A
update f first a first = a
update f first a second = f second
update f second a first = f first
update f second a second = a

abbrev pub new_item : ThreadId → System → WorkItem
new_item i s = record { producer_id = i; sequence_id = s.latest_sequence_id; created_at = s.now }

-- Under the lock: a full queue takes nothing.
pub produce : ThreadId → System → System
produce i s =
    if ltb (length s.work_items) max_queue_size
    then record s {
      work_items = s.work_items ++ new_item i s ∷ [];
      latest_sequence_id = u32 (s.latest_sequence_id + 1);
      pushed = s.pushed ++ new_item i s ∷ [];
    }
    else s

pub producer_turn : ThreadId → Producer → System → System
unfolding produce
producer_turn i Producer.checking s = record s {
  producers = update s.producers i (if s.stop then Producer.gone else Producer.producing);
}
producer_turn i Producer.producing s =
    let t = produce i s in record t { producers = update t.producers i Producer.checking }
producer_turn i Producer.gone s = s

-- Behind the wait: the queue is empty, or its front is popped.
pub consume : ThreadId → List WorkItem → System → System
consume i [] s = record s {
  consumers = update s.consumers i (if s.stop then Consumer.gone else Consumer.checking);
}
consume i (w ∷ ws) s = record s {
  work_items = ws;
  popped = s.popped ++ w ∷ [];
  consumers = update s.consumers i (reporting w (length ws));
}

pub consumer_turn : ThreadId → Consumer → System → System
unfolding consume
consumer_turn i Consumer.checking s = record s {
  consumers = update s.consumers i (if s.stop then Consumer.gone else waiting);
}
consumer_turn i waiting s = consume i s.work_items s
consumer_turn i (reporting w size) s = record s {
  reports =
      s.reports
      ++ record { consumer = i; item = w; latency = s.now - w.created_at; queue_size = size } ∷ [];
  consumers = update s.consumers i Consumer.checking;
}
consumer_turn i Consumer.gone s = s

pub data Event : Type 0 where
  produces : ThreadId → Event
  consumes : ThreadId → Event
  passes : ℕ → Event
  stops : Event

pub step : System → Event → System
unfolding producer_turn consumer_turn
step s (produces i) = producer_turn i (s.producers i) s
step s (consumes i) = consumer_turn i (s.consumers i) s
step s (passes n) = record s { now = s.now + n }
step s stops = record s { stop = Bool.true }

pub run : System → List Event → System
unfolding step
run s [] = s
run s (e ∷ es) = run (step s e) es
