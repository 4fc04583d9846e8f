-- ===== src/Queue/Spec.antt =====
-- What the queue promises, with no ring: a bounded list of events beside a count of tokens.
use rhel_fapolicyd.Base.{
  ℕ, ◌+◌, ◌-◌, Bool, true, false, List, [], ◌∷◌, ◌++◌, ◌==◌, if◌then◌else◌, length,
}
use rhel_fapolicyd.Queue.{
  SemWait, acquired, eintr, etimedout, other_errno, Queue, Got, got, nothing, error, waiting,
  q_enqueue, q_dequeue, q_timed_dequeue, q_shutdown,
}

-- The calls that the two threads make.
pub data Op {ℓ} (A : Type ℓ) : Type ℓ where
  enqueue : A → Op A
  dequeue timed_dequeue : List SemWait → Op A
  shutdown : Op A

pub data Out {ℓ} (A : Type ℓ) : Type ℓ where
  enqueued : Bool → Out A
  taken : Got A → Out A
  posted : Out A

pub record Bounded {ℓ} (A : Type ℓ) : Type ℓ where
  pub items : List A
  pub capacity : ℕ
  pub tokens : ℕ

module _ {ℓ} {A : Type ℓ} where
  -- One call on the ring.
  unfoldable pub call : A → Queue A → Op A → Queue A × Out A
  call blank q (enqueue x) = let r = q_enqueue q x in (r.0, enqueued r.1)
  call blank q (dequeue ws) = let r = q_dequeue blank q ws in (r.0, taken r.1)
  call blank q (timed_dequeue ws) = let r = q_timed_dequeue blank q ws in (r.0, taken r.1)
  call blank q shutdown = (q_shutdown q, posted)

  unfoldable pub calls : A → Queue A → List (Op A) → Queue A × List (Out A)
  calls blank q [] = (q, [])
  calls blank q (op ∷ ops) =
      let r = call blank q op in let rest = calls blank r.0 ops in (rest.0, r.1 ∷ rest.1)

  unfoldable pub take_first : Bounded A → List A → Bounded A × Got A
  take_first f [] = (f, nothing)
  take_first f (x ∷ xs) = (record f { items = xs }, got x)

  -- A wait that is interrupted starts again; one that gets a token takes the oldest event, if any.
  -- The flag says whether a timeout is reported as `nothing`.
  unfoldable pub wait_and_take : Bool → Bounded A → List SemWait → Bounded A × Got A
  unfolding take_first
  wait_and_take timed f [] = (f, waiting)
  wait_and_take timed f (eintr ∷ ws) = wait_and_take timed f ws
  wait_and_take timed f (acquired ∷ ws) =
      if f.tokens == 0
      then (f, waiting)
      else take_first (record f { tokens = f.tokens - 1 }) f.items
  wait_and_take timed f (etimedout ∷ ws) = (f, if timed then nothing else error)
  wait_and_take timed f (other_errno ∷ ws) = (f, error)

  unfoldable pub spec_call : Bounded A → Op A → Bounded A × Out A
  spec_call f (enqueue x) =
      if length f.items == f.capacity
      then (f, enqueued false)
      else (record f { items = f.items ++ x ∷ []; tokens = f.tokens + 1 }, enqueued true)
  spec_call f (dequeue ws) = let r = wait_and_take false f ws in (r.0, taken r.1)
  spec_call f (timed_dequeue ws) = let r = wait_and_take true f ws in (r.0, taken r.1)
  spec_call f shutdown = (record f { tokens = f.tokens + 1 }, posted)

  unfoldable pub spec_calls : Bounded A → List (Op A) → Bounded A × List (Out A)
  spec_calls f [] = (f, [])
  spec_calls f (op ∷ ops) =
      let r = spec_call f op in let rest = spec_calls r.0 ops in (rest.0, r.1 ∷ rest.1)
