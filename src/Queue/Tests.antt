-- ===== src/Queue/Tests.antt =====
-- The queue on concrete calls, and the instances of its properties.
use rhel_fapolicyd.Base.{ℕ, ◌≡◌, refl, true, false, List, [], ◌∷◌, arith}
use rhel_fapolicyd.Queue.{
  acquired, eintr, etimedout, Queue, failed, einval, enomem, got, nothing, waiting, q_open,
  q_enqueue, q_dequeue, q_timed_dequeue, q_shutdown, take_event,
}
use rhel_fapolicyd.Queue.Fifo.{IsQueue, wrap}
use rhel_fapolicyd.Queue.Refinement.{calls-refines, shows, view}
use rhel_fapolicyd.Queue.Spec.{
  Op, enqueue, dequeue, timed_dequeue, shutdown, enqueued, taken, posted, call, calls, spec_calls,
}

program : Unit {0}
unfolding q_open q_enqueue q_dequeue q_timed_dequeue q_shutdown take_event call calls
program = tt

-- A ring of two slots that was used once around: the oldest event is in slot 1.
abbrev turned : Queue ℕ
turned = record {
  events = 7 ∷ 8 ∷ [];
  num_entries = 2;
  q_next = 0;
  q_last = 1;
  queue_length = 1;
  sem = 1;
  max_depth = 2;
}

abbrev ops : List (Op ℕ)
ops =
    enqueue 9
    ∷ enqueue 10
    ∷ dequeue (eintr ∷ acquired ∷ [])
    ∷ timed_dequeue (etimedout ∷ [])
    ∷ timed_dequeue (acquired ∷ [])
    ∷ shutdown
    ∷ dequeue (acquired ∷ [])
    ∷ dequeue (acquired ∷ [])
    ∷ []

calls_runs :
    (calls 0 turned ops).1
    ≡ enqueued true
      ∷ enqueued false
      ∷ taken (got 8)
      ∷ taken nothing
      ∷ taken (got 9)
      ∷ posted
      ∷ taken nothing
      ∷ taken waiting
      ∷ []
unfolding program
calls_runs = refl

q_open_rejects :
    (q_open {A = ℕ} 0 24 true true true 0 ≡ failed einval)
    × (q_open {A = ℕ} 0 24 true true true 4_294_967_296 ≡ failed einval)
    × (q_open {A = ℕ} 0 24 true false true 4 ≡ failed enomem)
unfolding program
q_open_rejects = (refl, refl, refl)

turned-IsQueue : IsQueue turned
unfolding wrap
turned-IsQueue = record {
  sized = refl;
  small = omega arith;
  room = omega arith;
  last = omega arith;
  next = refl;
  tokens = omega arith;
  deepest = omega arith;
  depth_bound = omega arith;
}

calls-refines_example :
    (shows 0 (calls 0 turned ops) ≡ spec_calls (view 0 turned) ops) × IsQueue (calls 0 turned ops).0
calls-refines_example = calls-refines 0 turned ops turned-IsQueue
