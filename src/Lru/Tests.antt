-- ===== src/Lru/Tests.antt =====
-- Small caches, and the instances of the properties.
use rhel_fapolicyd.Base.{
  ℕ, zero, suc, ◌≡◌, ◌≢◌, refl, Option, none, some, List, [], ◌∷◌, ◌==◌, if◌then◌else◌, arith,
}
use rhel_fapolicyd.Lru.{
  destroy_queue, Ptr, Store, Lru, Run, ok, ◌>>=◌, slot, write, load, set_prev, set_next, init_lru,
  insert_before, insert_beginning, remove_first, unlink_before, unlink_after, remove_node, release,
  dequeue, lru_evict, enqueue, move_to_front, check_lru_cache,
}
use rhel_fapolicyd.Lru.Destroyed.{destroy_queue-items}
use rhel_fapolicyd.Lru.Evictions.{Evicted, lru_evict-Evicted}
use rhel_fapolicyd.Lru.Failures.{check_lru_cache-no_memory}
use rhel_fapolicyd.Lru.Linked.{Entry}
use rhel_fapolicyd.Lru.Slots.{taken, ptr_of}
use rhel_fapolicyd.Lru.Steps.{Reach, opened, used, check_lru_cache-reached}
use rhel_fapolicyd.Lru.Touch.{touch, IsLru}
use rhel_fapolicyd.Lru.Uses.{Used, check_lru_cache-Used}

program : Unit {0}
unfolding write load set_prev set_next init_lru insert_before insert_beginning remove_first
    unlink_before unlink_after remove_node release dequeue lru_evict enqueue move_to_front
    check_lru_cache touch
program = tt

abbrev older_entry : Entry ℕ
older_entry = record { key = 1; ptr = 10; uses = 1; item = some 5 }

abbrev newer_entry : Entry ℕ
newer_entry = record { key = 2; ptr = 11; uses = 1; item = some 7 }

abbrev two_store : Store ℕ
two_store a =
    if a == 10
    then some (record { prev = some 11; next = none; uses = 1; item = some 5 })
    else if a == 11
    then some (record { prev = none; next = some 10; uses = 1; item = some 7 })
    else none

-- A table of three slots, two of them in use.
abbrev two : Lru ℕ
two = record {
  count = 2;
  total = 3;
  hits = 0;
  misses = 2;
  evictions = 0;
  front = some 11;
  end = some 10;
  array = none ∷ some 10 ∷ some 11 ∷ [];
  store = two_store;
  cleaned = [];
}

two_slots : (k : ℕ) → slot two.array k ≡ ptr_of k (newer_entry ∷ older_entry ∷ [])
two_slots zero = refl
two_slots (suc zero) = refl
two_slots (suc (suc zero)) = refl
two_slots (suc (suc (suc k))) = ground arith

two-IsLru : IsLru two (newer_entry ∷ older_entry ∷ [])
two-IsLru = record {
  front = refl;
  back = refl;
  linked = (refl, (refl, tt));
  distinct = (refl, (refl, tt));
  keys = (refl, (refl, tt));
  slots = two_slots;
  filled = refl;
  counted = refl;
  size = refl;
  small = omega arith;
}

abbrev shows : Lru ℕ → Run (Option Ptr × Option Ptr × List (Option Ptr) × List (Option ℕ))
shows q = ok (q.front, q.end, q.array, q.cleaned)

-- The older of the two entries is used, and then taken away.
use_and_evict :
    (check_lru_cache two 1 (some 12) >>= λ r. lru_evict r.0 1 >>= shows)
    ≡ ok (some 11, some 11, none ∷ none ∷ some 11 ∷ [], some 5 ∷ [])
unfolding program
use_and_evict = refl

check_lru_cache-Used_example :
    Used two 1 12 (newer_entry ∷ older_entry ∷ []) (check_lru_cache two 1 (some 12))
check_lru_cache-Used_example =
    check_lru_cache-Used two (newer_entry ∷ older_entry ∷ []) 1 12 two-IsLru (omega arith) refl

lru_evict-Evicted_example : Evicted two newer_entry (older_entry ∷ []) (lru_evict two 2)
lru_evict-Evicted_example =
    lru_evict-Evicted two newer_entry (older_entry ∷ []) two-IsLru (omega arith)

check_lru_cache-no_memory_example :
    (out : Lru ℕ) × (check_lru_cache two 0 none ≡ ok (out, some 11))
    × (newer_entry.key ≢ 0)
    × (out.count ≡ suc (taken out.array))
check_lru_cache-no_memory_example =
    check_lru_cache-no_memory two newer_entry (older_entry ∷ []) 0 two-IsLru (omega arith) refl

abbrev only_entry : Entry ℕ
only_entry = record { key = 1; ptr = 10; uses = 1; item = none }

-- The cache after the first use.
abbrev one : Lru ℕ
one = record {
  count = 1;
  total = 3;
  hits = 0;
  misses = 1;
  evictions = 0;
  front = some 10;
  end = some 10;
  array = none ∷ some 10 ∷ none ∷ [];
  store = λ a.
      if a == 10 then some (record { prev = none; next = none; uses = 1; item = none }) else none;
  cleaned = [];
}

one_slots : (k : ℕ) → slot one.array k ≡ ptr_of k (only_entry ∷ [])
one_slots zero = refl
one_slots (suc zero) = refl
one_slots (suc (suc zero)) = refl
one_slots (suc (suc (suc k))) = ground arith

one-IsLru : IsLru one (only_entry ∷ [])
one-IsLru = record {
  front = refl;
  back = refl;
  linked = (refl, tt);
  distinct = (refl, tt);
  keys = (refl, tt);
  slots = one_slots;
  filled = refl;
  counted = refl;
  size = refl;
  small = omega arith;
}

abbrev after_run : Run (Lru ℕ × Option Ptr) → Lru ℕ
after_run (ok r) = r.0
after_run _ = one

-- The cache that a first use builds.
abbrev built : Lru ℕ
unfolding program
built = after_run (check_lru_cache (init_lru 3) 1 (some 10))

built-Reach : Reach 3 built
unfolding program
built-Reach = used {q = init_lru 3} {key = 1} {p = 10} opened (omega arith) refl refl

check_lru_cache-reached_example :
    (out : Lru ℕ) × (node : Ptr) × (check_lru_cache built 2 (some 11) ≡ ok (out, some node))
    × (slot out.array 2 ≡ some node)
unfolding program
check_lru_cache-reached_example =
    check_lru_cache-reached built 3 2 11 (omega arith) built-Reach (omega arith) refl

destroy_queue-items_example :
    (out : Lru ℕ) × (destroy_queue 2 two ≡ ok out) × (out.cleaned ≡ some 7 ∷ some 5 ∷ [])
destroy_queue-items_example = destroy_queue-items two (newer_entry ∷ older_entry ∷ []) two-IsLru
