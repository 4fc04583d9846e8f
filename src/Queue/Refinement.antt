-- ===== src/Queue/Refinement.antt =====
-- Every sequence of calls on the ring answers as the bounded list does.
use rhel_fapolicyd.Base.{
  ℕ, zero, suc, ◌+◌, ◌-◌, ◌<◌, ◌≡◌, refl, sym, ap, get_or, inl, inr, true, false, List, [], ◌∷◌,
  ◌==◌, arith, Bool-cases,
}
use rhel_fapolicyd.Queue.{
  SemWait, acquired, eintr, etimedout, other_errno, Queue, Got, got, nothing, uint_mod, q_enqueue,
  take_event, q_dequeue, q_timed_dequeue, q_shutdown,
}
use rhel_fapolicyd.Queue.Fifo.{
  IsQueue, contents, wrap, window, length-window, next_slot-wrap, q_enqueue-IsQueue,
  contents-q_enqueue, take_event-IsQueue,
}
use rhel_fapolicyd.Queue.Spec.{
  Op, enqueue, dequeue, timed_dequeue, shutdown, Out, enqueued, taken, call, calls, Bounded,
  take_first, wait_and_take, spec_call, spec_calls,
}

module _ {ℓ} {A : Type ℓ} (blank : A) where
  abbrev pub view : Queue A → Bounded A
  view q = record { items = contents blank q; capacity = q.num_entries; tokens = q.sem }

  -- What both sides of the refinement show.
  abbrev pub shows {κ} : {R : Type κ} → Queue A × R → Bounded A × R
  shows r = (view r.0, r.1)

  take_event-zero : (q : Queue A) → q.queue_length ≡ 0 → take_event blank q ≡ (q, nothing)
  unfolding take_event
  take_event-zero q e = ground arith

  take_event-suc :
      (q : Queue A) (n : ℕ)
      → q.q_last < q.num_entries
      → q.num_entries < uint_mod
      → q.queue_length ≡ suc n
      → take_event blank q ≡ (
        record q { q_last = wrap q.num_entries (q.q_last + 1); queue_length = n },
        got (get_or q.events q.q_last blank),
      )
  unfolding take_event
  take_event-suc q n l s e = ground (arith, next_slot-wrap q.num_entries q.q_last)

  take_event-view :
      (q : Queue A) (n : ℕ)
      → q.q_last < q.num_entries
      → q.num_entries < uint_mod
      → q.queue_length ≡ n
      → shows (take_event blank q) ≡ take_first (view q) (contents blank q)
  unfolding window take_first
  take_event-view q zero l s e =
      rw (take_event-zero q e)
        (ap (λ k. take_first (view q) (window blank q.events q.num_entries k q.q_last)) (sym e))
  take_event-view q (suc n) l s e =
      rw (take_event-suc q n l s e)
        (ap (λ k. take_first (view q) (window blank q.events q.num_entries k q.q_last)) (sym e))

  q_dequeue-view :
      (q : Queue A) (ws : List SemWait)
      → IsQueue q
      → shows (q_dequeue blank q ws) ≡ wait_and_take false (view q) ws
  unfolding q_dequeue wait_and_take
  q_dequeue-view q [] v = refl
  q_dequeue-view q (eintr ∷ ws) v = q_dequeue-view q ws v
  q_dequeue-view q (acquired ∷ ws) v = elim (Bool-cases (q.sem == 0)) [
    | inl none_left ↦ rw none_left
    | inr some_left ↦
        rw some_left
          (take_event-view (record q { sem = q.sem - 1 }) q.queue_length v.last v.small refl)
  ]
  q_dequeue-view q (etimedout ∷ ws) v = refl
  q_dequeue-view q (other_errno ∷ ws) v = refl

  q_timed_dequeue-view :
      (q : Queue A) (ws : List SemWait)
      → IsQueue q
      → shows (q_timed_dequeue blank q ws) ≡ wait_and_take true (view q) ws
  unfolding q_timed_dequeue wait_and_take
  q_timed_dequeue-view q [] v = refl
  q_timed_dequeue-view q (eintr ∷ ws) v = q_timed_dequeue-view q ws v
  q_timed_dequeue-view q (acquired ∷ ws) v = elim (Bool-cases (q.sem == 0)) [
    | inl none_left ↦ rw none_left
    | inr some_left ↦
        rw some_left
          (take_event-view (record q { sem = q.sem - 1 }) q.queue_length v.last v.small refl)
  ]
  q_timed_dequeue-view q (etimedout ∷ ws) v = refl
  q_timed_dequeue-view q (other_errno ∷ ws) v = refl

  q_dequeue-IsQueue :
      (q : Queue A) (ws : List SemWait) → IsQueue q → IsQueue (q_dequeue blank q ws).0
  unfolding q_dequeue
  q_dequeue-IsQueue q (eintr ∷ ws) v = q_dequeue-IsQueue q ws v
  q_dequeue-IsQueue q (acquired ∷ ws) v = elim (Bool-cases (q.sem == 0)) [
    | inl none_left ↦ rw none_left v
    | inr some_left ↦ rw some_left (take_event-IsQueue blank q v (ground arith))
  ]
  q_dequeue-IsQueue q _ v = v

  q_timed_dequeue-IsQueue :
      (q : Queue A) (ws : List SemWait) → IsQueue q → IsQueue (q_timed_dequeue blank q ws).0
  unfolding q_timed_dequeue
  q_timed_dequeue-IsQueue q (eintr ∷ ws) v = q_timed_dequeue-IsQueue q ws v
  q_timed_dequeue-IsQueue q (acquired ∷ ws) v = elim (Bool-cases (q.sem == 0)) [
    | inl none_left ↦ rw none_left v
    | inr some_left ↦ rw some_left (take_event-IsQueue blank q v (ground arith))
  ]
  q_timed_dequeue-IsQueue q _ v = v

  q_enqueue_full :
      (q : Queue A) (x : A) → (q.queue_length == q.num_entries) ≡ true → q_enqueue q x ≡ (q, false)
  unfolding q_enqueue
  q_enqueue_full q x full = rw full

  q_enqueue_free :
      (q : Queue A) (x : A)
      → (q.queue_length == q.num_entries) ≡ false
      → ((q_enqueue q x).0.num_entries ≡ q.num_entries)
        × ((q_enqueue q x).0.sem ≡ q.sem + 1)
        × ((q_enqueue q x).1 ≡ true)
  unfolding q_enqueue
  q_enqueue_free q x free = rw free (refl, refl, refl)

  q_enqueue-view :
      (q : Queue A) (x : A)
      → IsQueue q
      → (view (q_enqueue q x).0, enqueued (q_enqueue q x).1) ≡ spec_call (view q) (enqueue x)
  unfolding spec_call
  q_enqueue-view q x v = elim (Bool-cases (q.queue_length == q.num_entries)) [
    | inl full ↦ rw (length-window, full, q_enqueue_full q x full)
    | inr free ↦
        let (kept, posted_one, done) = q_enqueue_free q x free in
        let appended = contents-q_enqueue blank q x v free in
        rw (length-window, free)
          (λ i. (
            record { items = appended i; capacity = kept i; tokens = posted_one i },
            enqueued (done i),
          ))
  ]

  call-view :
      (q : Queue A) (op : Op A) → IsQueue q → shows (call blank q op) ≡ spec_call (view q) op
  unfolding call spec_call q_shutdown
  call-view q (enqueue x) v = q_enqueue-view q x v
  call-view q (dequeue ws) v =
      ap (λ (r : Bounded A × Got A). (r.0, taken r.1)) (q_dequeue-view q ws v)
  call-view q (timed_dequeue ws) v =
      ap (λ (r : Bounded A × Got A). (r.0, taken r.1)) (q_timed_dequeue-view q ws v)
  call-view q shutdown v = refl

  call-IsQueue : (q : Queue A) (op : Op A) → IsQueue q → IsQueue (call blank q op).0
  unfolding call q_shutdown
  call-IsQueue q (enqueue x) v = q_enqueue-IsQueue q x v
  call-IsQueue q (dequeue ws) v = q_dequeue-IsQueue q ws v
  call-IsQueue q (timed_dequeue ws) v = q_timed_dequeue-IsQueue q ws v
  call-IsQueue q shutdown v = record {
    sized = v.sized;
    small = v.small;
    room = v.room;
    last = v.last;
    next = v.next;
    tokens = omega arith;
    deepest = v.deepest;
    depth_bound = v.depth_bound;
  }

  -- From a well-formed ring, every sequence of enqueues, dequeues with any outcomes of their waits,
  -- timed dequeues and shutdowns returns what the bounded list returns, leaves the ring holding the
  -- events that the bounded list holds, in that order, and leaves it well formed.
  pub calls-refines :
      (q : Queue A) (ops : List (Op A))
      → IsQueue q
      → (shows (calls blank q ops) ≡ spec_calls (view q) ops) × IsQueue (calls blank q ops).0
  unfolding calls spec_calls
  calls-refines q [] v = (refl, v)
  calls-refines q (op ∷ ops) v =
      let (same, valid) = calls-refines (call blank q op).0 ops (call-IsQueue q op v) in
      (
        rw (← (call-view q op v))
            (ap (λ (r : Bounded A × List (Out A)). (r.0, (call blank q op).1 ∷ r.1)) same),
        valid,
      )
