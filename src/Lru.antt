-- ===== src/Lru.antt =====
-- src/library/lru.c and lru.h: the cache of subjects and the cache of objects, a hash table of nodes
-- that also form a doubly linked list, the one used last in front. Nodes live in a store, and a
-- pointer is an address or NULL (`none`). What `malloc` gives is an argument. `cleaned` is the trace
-- of the items that were passed to `cleanup`, and to `evict_cb` where there is one. Compiled without
-- DEBUG.
pub mod Destroyed
pub mod Evictions
pub mod Failures
pub mod Insertion
pub mod Linked
pub mod Moves
pub mod Removal
pub mod Unlinks
pub mod Slots
pub mod Steps
mod Tests
pub mod Touch
pub mod Uses
pub mod Enqueued
use rhel_fapolicyd.Base.{
  ℕ, zero, suc, ◌+◌, ◌*◌, ◌%◌, ◌^◌, ◌-◌, Bool, true, false, Option, none, some, List, [], ◌∷◌, ltb,
  ◌==◌, if◌then◌else◌, length, get_elem?, set, replicate,
}

abbrev pub Ptr : Type 0
Ptr = ℕ

abbrev pub ptr_eq : Option Ptr → Option Ptr → Bool
ptr_eq none none = true
ptr_eq (some p) (some q) = p == q
ptr_eq _ _ = false

pub record QNode {ℓ} (A : Type ℓ) : Type ℓ where
  pub prev : Option Ptr
  pub next : Option Ptr
  pub uses : ℕ
  pub item : Option A

abbrev pub Store {ℓ} : Type ℓ → Type ℓ
Store A = Ptr → Option (QNode A)

-- `array` and its length are the `Hash`.
pub record Lru {ℓ} (A : Type ℓ) : Type ℓ where
  pub count : ℕ
  pub total : ℕ
  pub hits : ℕ
  pub misses : ℕ
  pub evictions : ℕ
  pub front : Option Ptr
  pub end : Option Ptr
  pub array : List (Option Ptr)
  pub store : Store A
  pub cleaned : List (Option A)

-- A call returns, calls `abort`, or uses a pointer to no node; a loop may go on behind its fuel.
pub data Run {ℓ} (R : Type ℓ) : Type ℓ where
  ok : R → Run R
  aborted fault looping : Run R

infixl 5 ◌>>=◌
abbrev pub ◌>>=◌ {ℓ κ} : {R : Type ℓ} {S : Type κ} → Run R → (R → Run S) → Run S
ok r >>= f = f r
aborted >>= f = aborted
fault >>= f = fault
looping >>= f = looping

-- `count++`, `count--` on `unsigned int`, and the counters of `unsigned long`.
abbrev pub inc32 : ℕ → ℕ
inc32 n = (n + 1) % 2 ^ 32

abbrev pub dec32 : ℕ → ℕ
dec32 n = (n + (2 ^ 32 - 1)) % 2 ^ 32

abbrev pub inc64 : ℕ → ℕ
inc64 n = (n + 1) % 2 ^ 64

-- `hash->array[key]`, for a key below the size.
abbrev pub slot : List (Option Ptr) → ℕ → Option Ptr
slot array key = elim (get_elem? array key) [ none ↦ none | some p ↦ p ]

module _ {ℓ} {A : Type ℓ} where
  unfoldable pub write : Store A → Ptr → Option (QNode A) → Store A
  write h p c a = if a == p then c else h a

  -- `*p`
  unfoldable pub load : Store A → Option Ptr → Run (QNode A)
  load h none = fault
  load h (some p) = elim (h p) [ none ↦ fault | some n ↦ ok n ]

  abbrev pub with_prev : QNode A → Option Ptr → QNode A
  with_prev n p = record n { prev = p }

  abbrev pub with_next : QNode A → Option Ptr → QNode A
  with_next n p = record n { next = p }

  unfoldable pub set_prev : Store A → Option Ptr → Option Ptr → Run (Store A)
  unfolding load
  set_prev h none v = fault
  set_prev h (some p) v = load h (some p) >>= λ n. ok (write h p (some (with_prev n v)))

  unfoldable pub set_next : Store A → Option Ptr → Option Ptr → Run (Store A)
  unfolding load
  set_next h none v = fault
  set_next h (some p) v = load h (some p) >>= λ n. ok (write h p (some (with_next n v)))

  abbrev pub new_QNode : QNode A
  new_QNode = record { prev = none; next = none; uses = 1; item = none }

  -- Both allocations given. The hash table has `qsize` empty slots.
  unfoldable pub init_lru : ℕ → Lru A
  init_lru qsize = record {
    count = 0;
    total = qsize;
    hits = 0;
    misses = 0;
    evictions = 0;
    front = none;
    end = none;
    array = replicate qsize none;
    store = λ a. none;
    cleaned = [];
  }

  -- `insert_before`, of a node before the front or another one.
  unfoldable pub insert_before : Lru A → Option Ptr → Option Ptr → Run (Lru A)
  insert_before q none new_node = ok q
  insert_before q (some node) none = ok q
  insert_before q (some node) (some new_node) = load q.store (some node) >>= λ n.
      set_prev q.store (some new_node) n.prev >>= λ h.
      set_next h (some new_node) (some node) >>= λ h'. elim n.prev [
        | none ↦ set_prev h' (some node) (some new_node) >>= λ h3.
            ok (record q { front = some new_node; store = h3 })
        | some before ↦ set_next h' (some before) (some new_node) >>= λ h2.
            set_prev h2 (some node) (some new_node) >>= λ h3. ok (record q { store = h3 })
      ]

  unfoldable pub insert_beginning : Lru A → Option Ptr → Run (Lru A)
  unfolding insert_before
  insert_beginning q none = ok q
  insert_beginning q (some new_node) = elim q.front [
    | none ↦ set_prev q.store (some new_node) none >>= λ h.
        set_next h (some new_node) none >>= λ h'.
        ok (record q { front = some new_node; end = some new_node; store = h' })
    | some f ↦ insert_before q (some f) (some new_node)
  ]

  -- The first branch of `remove_node`: the node has no predecessor.
  unfoldable pub remove_first : Lru A → QNode A → Run (Lru A)
  remove_first q n = elim n.next [
    | none ↦ ok (record q { front = none })
    | some f ↦ set_prev q.store (some f) none >>= λ h. ok (record q { front = some f; store = h })
  ]

  -- `node->prev->next = node->next`, behind the check of the list.
  unfoldable pub unlink_before : Lru A → Ptr → QNode A → Ptr → Run (Lru A)
  unlink_before q node n before = load q.store (some before) >>= λ b.
      if ptr_eq b.next (some node)
      then ok (record q { store = write q.store before (some (with_next b n.next)) })
      else aborted

  -- The end of `remove_node`: the node is last, or has a successor.
  unfoldable pub unlink_after : Lru A → Ptr → QNode A → Run (Lru A)
  unlink_after q node n = elim n.next [
    | none ↦ elim n.prev [
      | none ↦ ok (record q { end = none })
      | some b ↦ set_next q.store (some b) none >>= λ h. ok (record q { end = some b; store = h })
    ]
    | some after ↦ load q.store (some after) >>= λ a.
        if ptr_eq a.prev (some node)
        then ok (record q { store = write q.store after (some (with_prev a n.prev)) })
        else aborted
  ]

  unfoldable pub remove_node : Lru A → Option Ptr → Run (Lru A)
  unfolding remove_first unlink_before unlink_after
  remove_node q none = fault
  remove_node q (some node) = load q.store (some node) >>= λ n. elim n.prev [
    | none ↦ remove_first q n
    | some before ↦ unlink_before q node n before >>= λ q'. unlink_after q' node n
  ]

  -- The callbacks and the two calls of `free`.
  unfoldable pub release : Lru A → Option Ptr → Run (Lru A)
  release q none = fault
  release q (some p) = load q.store (some p) >>= λ n. ok (record q {
    store = write q.store p none;
    cleaned = n.item ∷ q.cleaned;
    count = dec32 q.count;
  })

  unfoldable pub dequeue : Lru A → Run (Lru A)
  unfolding remove_node release
  dequeue q = elim q.end [
    | none ↦ ok q
    | some temp ↦ remove_node q (some temp) >>= λ q'. release q' (some temp)
  ]

  -- The loop of `destroy_queue`, for that many turns.
  unfoldable pub destroy_queue : ℕ → Lru A → Run (Lru A)
  unfolding dequeue
  destroy_queue zero q = if q.count == 0 then ok q else looping
  destroy_queue (suc fuel) q =
      if q.count == 0 then ok q else (dequeue q >>= λ q'. destroy_queue fuel q')

  unfoldable pub lru_evict : Lru A → ℕ → Run (Lru A)
  unfolding remove_node release
  lru_evict q key = elim q.end [
    | none ↦ ok q
    | some e ↦
        if ltb key q.total
        then (if ptr_eq (slot q.array key) q.front
            then (remove_node (record q { array = set q.array key none }) q.front >>= λ q1.
                release q1 q.front >>= λ q2. ok (record q2 { evictions = inc64 q2.evictions }))
            else aborted)
        else ok q
  ]

  -- `temp` is what `malloc` gives for the new node.
  unfoldable pub enqueue : Lru A → ℕ → Option Ptr → Run (Lru A)
  unfolding dequeue insert_beginning
  enqueue q key temp =
      (if q.count == q.total then dequeue (record q { array = set q.array key none }) else ok q)
      >>= λ q1.
          insert_beginning
            (elim temp [
              | none ↦ q1
              | some p ↦ record q1 { store = write q1.store p (some new_QNode) }
            ])
            temp
          >>= λ q2. ok (record q2 { array = set q2.array key temp; count = inc32 q2.count })

  -- A hit on a node that is not in front.
  unfoldable pub move_to_front : Lru A → Ptr → Run (Lru A)
  unfolding remove_node insert_beginning
  move_to_front q page = remove_node q (some page) >>= λ q1.
      set_next q1.store (some page) none >>= λ h. set_prev h (some page) none >>= λ h'.
      insert_beginning (record q1 { store = h' }) (some page) >>= λ q2.
      load q2.store q2.front >>= λ f. elim q2.front [
        | none ↦ fault
        | some p ↦ ok (record q2 {
          store = write q2.store p (some (record f { uses = inc64 f.uses }));
          hits = inc64 q2.hits;
        })
      ]

  -- The cache, and the pointer that the call returns.
  unfoldable pub check_lru_cache : Lru A → ℕ → Option Ptr → Run (Lru A × Option Ptr)
  unfolding enqueue move_to_front
  check_lru_cache q key temp =
      if ltb key q.total
      then (elim (slot q.array key) [
        | none ↦ enqueue q key temp >>= λ q1. ok (record q1 { misses = inc64 q1.misses })
        | some page ↦
            if ptr_eq (some page) q.front
            then ok (record q { hits = inc64 q.hits })
            else move_to_front q page
      ]
          >>= λ q'. ok (q', q'.front))
      else ok (q, none)

  unfoldable pub compute_subject_key : Option (Lru A) → ℕ → ℕ
  compute_subject_key none pid = 0
  compute_subject_key (some q) pid = pid % length q.array

  unfoldable pub compute_object_key : Option (Lru A) → ℕ → ℕ
  compute_object_key none num = 0
  compute_object_key (some q) num = num % length q.array
