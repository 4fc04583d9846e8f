-- ===== src/Lru/Failures.antt =====
-- A use of a key whose allocation fails, and a second eviction.
use rhel_fapolicyd.Base.{
  ℕ, zero, suc, ◌<◌, ◌≡◌, ◌≢◌, refl, sym, ap, ◌∙◌, Option, none, some, List, [], ◌∷◌, ==_iff,
  lt→ltb, arith, set,
}
use rhel_fapolicyd.Lru.{
  Ptr, Lru, ok, fault, ◌>>=◌, inc32, inc64, slot, remove_first, remove_node, release, write, dec32,
  lru_evict, insert_beginning, enqueue, check_lru_cache,
}
use rhel_fapolicyd.Lru.Evictions.{lru_evict-runs, slots_cleared}
use rhel_fapolicyd.Lru.Linked.{Entry, load-ok}
use rhel_fapolicyd.Lru.Slots.{taken, taken_free}
use rhel_fapolicyd.Lru.Touch.{IsLru}
use rhel_fapolicyd.Lru.Enqueued.{not_full}
use rhel_fapolicyd.Lru.Unlinks.{ptr_eq_refl}

taken-same : (s : List (Option Ptr)) (k : ℕ) → slot s k ≡ none → taken (set s k none) ≡ taken s
taken-same [] k e = refl
taken-same (none ∷ s) zero e = refl
taken-same (some a ∷ s) zero e = cc
taken-same (none ∷ s) (suc k) e = taken-same s k e
taken-same (some a ∷ s) (suc k) e = ap suc (taken-same s k e)

module _ {ℓ} {A : Type ℓ} where
  -- When no memory is given for the node of a key that has none, a cache in use counts a node more
  -- than its table holds, and the call returns the node in front, which is another key's.
  pub check_lru_cache-no_memory :
      (q : Lru A) (f : Entry A) (fs : List (Entry A)) (key : ℕ)
      → IsLru q (f ∷ fs)
      → key < q.total
      → slot q.array key ≡ none
      → (out : Lru A) × (check_lru_cache q key none ≡ ok (out, some f.ptr))
        × (f.key ≢ key)
        × (out.count ≡ suc (taken out.array))
  unfolding check_lru_cache enqueue insert_beginning
  check_lru_cache-no_memory q f fs key v bound free =
      let room = taken_free q.array key (omega (arith, v.size)) free in
      (
        record q { array = set q.array key none; count = inc32 q.count; misses = inc64 q.misses },
        rw
            (
              check_lru_cache,
              lt→ltb key q.total bound,
              free,
              enqueue,
              not_full q (f ∷ fs) key v bound free,
            )
            (ap
              (λ p. ok (
                record q {
                  array = set q.array key none;
                  count = inc32 q.count;
                  misses = inc64 q.misses;
                },
                p,
              ))
              v.front),
        (λ same.
            let at : none ≡ some f.ptr =
              sym free ∙ v.slots key ∙ rw ((==_iff f.key key).1 same) refl in
            cc),
        omega (arith, taken-same q.array key free, v.filled, v.size, v.small, room),
      )

  -- `end` points at a node that is gone, so the test for an empty list does not see that there is none.
  evict_dangling :
      (q : Lru A) (k b : ℕ)
      → q.end ≡ some b
      → q.front ≡ none
      → slot q.array k ≡ none
      → k < q.total
      → lru_evict q k ≡ fault
  unfolding lru_evict remove_node
  evict_dangling q k b at_end front at bound =
      rw (lru_evict, at_end, lt→ltb k q.total bound, at, front) refl

  evict_only :
      (q : Lru A) (e : Entry A)
      → IsLru q (e ∷ [])
      → e.key < q.total
      → lru_evict q e.key
        ≡ ok (record q {
          front = none;
          array = set q.array e.key none;
          store = write q.store e.ptr none;
          cleaned = e.item ∷ q.cleaned;
          count = dec32 q.count;
          evictions = inc64 q.evictions;
        })
  unfolding release remove_node remove_first
  evict_only q e v bound =
      let at : slot q.array e.key ≡ some e.ptr = v.slots e.key ∙ rw (ptr_eq_refl e.key) refl in
      lru_evict-runs q e.key e.ptr e.ptr v.back v.front at bound
      ∙ rw
          (
            remove_node,
            load-ok q.store e.ptr _ v.linked.0,
            release,
            load-ok q.store e.ptr _ v.linked.0,
          )
          refl

  -- After the eviction of the only entry, a second eviction, for any key below the size, uses a NULL
  -- pointer.
  pub lru_evict-twice :
      (q : Lru A) (e : Entry A) (k : ℕ)
      → IsLru q (e ∷ [])
      → e.key < q.total
      → k < q.total
      → (lru_evict q e.key >>= λ q'. lru_evict q' k) ≡ fault
  lru_evict-twice q e k v bound bound' =
      let only = evict_only q e v bound in
      let out = record q {
        front = none;
        array = set q.array e.key none;
        store = write q.store e.ptr none;
        cleaned = e.item ∷ q.cleaned;
        count = dec32 q.count;
        evictions = inc64 q.evictions;
      } in
      ap (λ x. x >>= λ q'. lru_evict q' k) only
      ∙ evict_dangling out k e.ptr v.back refl (slots_cleared q e [] k v bound) bound'
