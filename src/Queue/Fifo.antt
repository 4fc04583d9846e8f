-- ===== src/Queue/Fifo.antt =====
-- The ring buffer implements a bounded first-in first-out queue.
mod Window
use rhel_fapolicyd.Base.{
  ℕ, zero, suc, ◌+◌, ◌-◌, ◌/◌, ◌≤◌, ◌<◌, ◌≡◌, refl, ◌⊎◌, inl, inr, Bool, true, false, List, [], ◌∷◌,
  ◌++◌, ◌∙◌, ◌%◌, ltb, ◌==◌, if◌then◌else◌, arith, Bool-cases, length, length-append, length-set,
  length-replicate, replicate,
}
unfoldable pub use Window.{wrap, window}
pub use Window.{length-window, next_slot-wrap}
use Window.{window-set}
use rhel_fapolicyd.Queue.{
  SemWait, acquired, eintr, etimedout, other_errno, Queue, Opened, opened, failed, einval, Got, got,
  nothing, error, waiting, uint_mod, size_max, q_open, next_slot, q_enqueue, take_event, q_dequeue,
  q_timed_dequeue, q_shutdown,
}

module _ {ℓ} {A : Type ℓ} where
  -- The events that wait, oldest first.
  abbrev pub contents : A → Queue A → List A
  contents blank q = window blank q.events q.num_entries q.queue_length q.q_last

  pub record IsQueue (q : Queue A) : Type ℓ where
    pub sized : length q.events ≡ q.num_entries
    pub small : q.num_entries < uint_mod
    pub room : q.queue_length ≤ q.num_entries
    pub last : q.q_last < q.num_entries
    pub next : q.q_next ≡ wrap q.num_entries (q.q_last + q.queue_length)
    pub tokens : q.queue_length ≤ q.sem
    pub deepest : q.queue_length ≤ q.max_depth
    pub depth_bound : q.max_depth ≤ q.num_entries

  pub q_enqueue-IsQueue : (q : Queue A) (x : A) → IsQueue q → IsQueue (q_enqueue q x).0
  unfolding q_enqueue next_slot wrap
  q_enqueue-IsQueue q x v = elim (Bool-cases (q.queue_length == q.num_entries)) [
    | inl full ↦ rw full v
    | inr free ↦ rw free (record {
      sized = length-set q.events q.q_next x ∙ v.sized;
      small = v.small;
      room = ground arith;
      last = v.last;
      next = ground arith;
      tokens = ground arith;
      deepest = ground arith;
      depth_bound = ground arith;
    })
  ]

  pub contents-q_enqueue :
      (blank : A) (q : Queue A) (x : A)
      → IsQueue q
      → (q.queue_length == q.num_entries) ≡ false
      → contents blank (q_enqueue q x).0 ≡ contents blank q ++ x ∷ []
  unfolding q_enqueue
  contents-q_enqueue blank q x v free =
      let e : (q.queue_length + 1) % uint_mod ≡ suc q.queue_length = ground arith in
      rw (free, e)
        (window-set blank x q.events q.num_entries q.queue_length q.q_last q.q_next v.sized v.last
          (ground arith) v.next)

  pub take_event-IsQueue :
      (blank : A) (q : Queue A)
      → IsQueue q
      → 0 < q.sem
      → IsQueue (take_event blank (record q { sem = q.sem - 1 })).0
  unfolding take_event next_slot wrap
  take_event-IsQueue blank q v h = elim (Bool-cases (q.queue_length == 0)) [
    | inl none_left ↦ rw none_left (record {
      sized = v.sized;
      small = v.small;
      room = v.room;
      last = v.last;
      next = v.next;
      tokens = ground arith;
      deepest = v.deepest;
      depth_bound = v.depth_bound;
    })
    | inr some_left ↦ rw some_left (record {
      sized = v.sized;
      small = v.small;
      room = ground arith;
      last = ground arith;
      next = ground arith;
      tokens = ground arith;
      deepest = ground arith;
      depth_bound = v.depth_bound;
    })
  ]

  -- Whatever the parameters, a queue that `q_open` returns is well formed.
  pub q_open-IsQueue :
      (blank : A) (size : ℕ) (m c s : Bool) (n : ℕ) {q : Queue A}
      → q_open blank size m c s n ≡ opened q
      → IsQueue q × (contents blank q ≡ []) × (q.num_entries ≡ n)
  unfolding q_open wrap window
  q_open-IsQueue blank size m c s n h = ground (arith, length-replicate n blank)
