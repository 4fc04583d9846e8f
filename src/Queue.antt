-- ===== src/Queue.antt =====
-- src/library/queue.c and queue.h: the ring buffer between the thread that reads fanotify events
-- and the thread that decides them. The two static or shared counters (`max_depth`, the
-- semaphore's value) are fields of the state. A call of `sem_wait` or `sem_timedwait` is an outcome
-- that the caller of the model supplies; taking a token from a semaphore at 0 is still waiting.
pub mod Fifo
pub mod Spec
pub mod Refinement
mod Tests
use rhel_fapolicyd.Base.{
  ℕ, ◌+◌, ◌-◌, ◌/◌, ◌%◌, ◌^◌, Bool, true, false, not, ◌||◌, List, [], ◌∷◌, ltb, ◌==◌, if◌then◌else◌,
  set, get_or, replicate,
}

pub data Errno : Type 0 where
  einval enomem enospc sem_error : Errno

-- What one call of `sem_wait` or `sem_timedwait` does.
pub data SemWait : Type 0 where
  acquired eintr etimedout other_errno : SemWait

pub record Queue {ℓ} (A : Type ℓ) : Type ℓ where
  pub events : List A
  pub num_entries : ℕ
  pub q_next : ℕ
  pub q_last : ℕ
  pub queue_length : ℕ
  pub sem : ℕ
  pub max_depth : ℕ

pub data Opened {ℓ} (A : Type ℓ) : Type ℓ where
  opened : Queue A → Opened A
  failed : Errno → Opened A

-- 1, 0 and -1 of `q_dequeue`, and a call that has not returned.
pub data Got {ℓ} (A : Type ℓ) : Type ℓ where
  got : A → Got A
  nothing error waiting : Got A

abbrev pub uint_mod : ℕ
uint_mod = 2 ^ 32

abbrev pub size_max : ℕ
size_max = 2 ^ 64 - 1

-- `n++; if (n == q->num_entries) n = 0;`
unfoldable pub next_slot : ℕ → ℕ → ℕ
next_slot entries n = let n' = (n + 1) % uint_mod in if n' == entries then 0 else n'

module _ {ℓ} {A : Type ℓ} where
  -- `blank` is the zeroed event of `calloc`; the three flags are the outcomes of `malloc`,
  -- `calloc` and `sem_init`.
  unfoldable pub q_open : A → ℕ → Bool → Bool → Bool → ℕ → Opened A
  q_open blank event_size malloc_ok calloc_ok sem_ok num_entries =
      if num_entries == 0
        || (ltb (uint_mod - 1) num_entries || ltb (size_max / event_size) num_entries)
      then failed einval
      else if not malloc_ok
      then failed enomem
      else if not calloc_ok
      then failed enomem
      else if not sem_ok
      then failed sem_error
      else opened (record {
        events = replicate num_entries blank;
        num_entries = num_entries;
        q_next = 0;
        q_last = 0;
        queue_length = 0;
        sem = 0;
        max_depth = 0;
      })

  -- The flag is true for 0 and false for -1 with ENOSPC.
  unfoldable pub q_enqueue : Queue A → A → Queue A × Bool
  unfolding next_slot
  q_enqueue q event =
      if q.queue_length == q.num_entries
      then (q, false)
      else let n = (q.queue_length + 1) % uint_mod in
        (
          record q {
            events = set q.events q.q_next event;
            q_next = next_slot q.num_entries q.q_next;
            queue_length = n;
            max_depth = if ltb q.max_depth n then n else q.max_depth;
            sem = q.sem + 1;
          },
          true,
        )

  -- What follows the wait, in both dequeue functions. `blank` stands for a read out of bounds.
  unfoldable pub take_event : A → Queue A → Queue A × Got A
  unfolding next_slot
  take_event blank q = if q.queue_length == 0 then (q, nothing) else (
    record q { q_last = next_slot q.num_entries q.q_last; queue_length = q.queue_length - 1 },
    got (get_or q.events q.q_last blank),
  )

  unfoldable pub q_dequeue : A → Queue A → List SemWait → Queue A × Got A
  q_dequeue blank q [] = (q, waiting)
  q_dequeue blank q (eintr ∷ ws) = q_dequeue blank q ws
  q_dequeue blank q (acquired ∷ ws) =
      if q.sem == 0 then (q, waiting) else take_event blank (record q { sem = q.sem - 1 })
  q_dequeue blank q (etimedout ∷ ws) = (q, error)
  q_dequeue blank q (other_errno ∷ ws) = (q, error)

  unfoldable pub q_timed_dequeue : A → Queue A → List SemWait → Queue A × Got A
  q_timed_dequeue blank q [] = (q, waiting)
  q_timed_dequeue blank q (eintr ∷ ws) = q_timed_dequeue blank q ws
  q_timed_dequeue blank q (acquired ∷ ws) =
      if q.sem == 0 then (q, waiting) else take_event blank (record q { sem = q.sem - 1 })
  q_timed_dequeue blank q (etimedout ∷ ws) = (q, nothing)
  q_timed_dequeue blank q (other_errno ∷ ws) = (q, error)

  unfoldable pub q_shutdown : Queue A → Queue A
  q_shutdown q = record q { sem = q.sem + 1 }
