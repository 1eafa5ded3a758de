-- ===== src/Ride/ObserverThread/Draining.antt =====
-- Runs of the observer thread on its own: the calls for one notification, one round of the loop,
-- and the rounds after the destructor has asked for the end.
use spdlog_stress_test.Prelude.{
  ℕ, zero, suc, ◌≡◌, refl, sym, ap, ◌∙◌, Bool, Bool-cases, inl, inr, true, false, List, [], ◌∷◌,
  ◌++◌, map, length, append_assoc, append-nil, arith,
}
use spdlog_stress_test.Ride.{NotificationData, ObserverData, Owners}
use spdlog_stress_test.Ride.ObserverThread.{
  Outcome, Delivery, at_head, calling, exited, System, Event, turns, thread_step, collect, step,
  run,
}

module _ (react : ObserverData → NotificationData → Outcome) where
  abbrev pub delivery : NotificationData → ObserverData → Delivery
  delivery n o = record { receiver = o; notification = n; outcome = react o n }

  pub run-append :
      (s : System) (es fs : List Event) → run react s (es ++ fs) ≡ run react (run react s es) fs
  unfolding run
  run-append s [] fs = refl
  run-append s (e ∷ es) fs = run-append (step react s e) es fs

  -- The turns for the calls of `dispatch`, and for a whole round of the loop.
  abbrev pub call_turns : ℕ → List Event
  call_turns zero = turns ∷ []
  call_turns (suc k) = turns ∷ call_turns k

  abbrev pub round_turns : ℕ → List Event
  round_turns k = turns ∷ turns ∷ turns ∷ call_turns k

  abbrev pub drain_turns : ℕ → List NotificationData → List Event
  drain_turns k [] = turns ∷ turns ∷ []
  drain_turns k (n ∷ ns) = round_turns k ++ drain_turns k ns

  -- Every observer of the list is called once, in order, whatever the earlier calls did.
  pub run-calling :
      (n : NotificationData) (os : List ObserverData) (s : System)
      → run react (record s { phase = calling n os }) (call_turns (length os))
        ≡ record s { phase = at_head; calls = s.calls ++ map (delivery n) os }
  unfolding run step thread_step
  run-calling n [] s = ap (λ c. record s { phase = at_head; calls = c }) (sym (append-nil s.calls))
  run-calling n (o ∷ os) s =
      run-calling n os (record s { calls = s.calls ++ delivery n o ∷ [] })
      ∙ ap (λ c. record s { phase = at_head; calls = c })
          (append_assoc s.calls (delivery n o ∷ []) (map (delivery n) os))

  -- What one round of the loop makes of the state, when `n` stands first in the queue.
  abbrev pub served : NotificationData → List NotificationData → System → System
  served n ns s = record s {
    manager = record s.manager {
      notifications_queue = ns;
      observers = collect s.owners s.manager.observers;
    };
    phase = at_head;
    taken = s.taken ++ n ∷ [];
    calls = s.calls ++ map (delivery n) (collect s.owners s.manager.observers);
  }

  -- One undisturbed round serves the notification at the front: each live observer is called
  -- once with it, in the order of registration, also where earlier calls throw; the expired
  -- observers are dropped.
  pub run-round :
      (n : NotificationData) (ns : List NotificationData) (s : System)
      → s.phase ≡ at_head
      → s.stop ≡ false
      → s.manager.notifications_queue ≡ n ∷ ns
      → run react s (round_turns (length (collect s.owners s.manager.observers))) ≡ served n ns s
  unfolding run step thread_step
  run-round n ns s head running queue = elim (Bool-cases s.manager.is_shutting_down) [
    | inl down ↦ rw (head, running, queue, down) (run-calling n _ (called true))
    | inr up ↦ rw (head, running, queue, up) (run-calling n _ (called false))
  ]
    where
      called : Bool → System
      called down = record s {
        manager = record s.manager {
          notifications_queue = ns;
          observers = collect s.owners s.manager.observers;
          is_shutting_down = down;
        };
        phase = at_head;
        stop = false;
        taken = s.taken ++ n ∷ [];
      }

  -- Cleaning a clean list changes nothing.
  pub collect-collect :
      (own : Owners) (es : List ObserverData) → collect own (collect own es) ≡ collect own es
  unfolding collect
  collect-collect own [] = refl
  collect-collect own (e ∷ es) = ground (arith, collect-collect own es)

  abbrev pub deliveries : List NotificationData → List ObserverData → List Delivery
  deliveries [] os = []
  deliveries (n ∷ ns) os = map (delivery n) os ++ deliveries ns os

  -- What is left when the queue has been drained.
  pub record Drained (s t : System) : Type 0 where
    pub left : t.phase ≡ exited
    pub empty : t.manager.notifications_queue ≡ []
    pub all_taken : t.taken ≡ s.taken ++ s.manager.notifications_queue
    pub all_called :
        t.calls
        ≡ s.calls ++ deliveries s.manager.notifications_queue (collect s.owners s.manager.observers)
