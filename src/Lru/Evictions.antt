-- ===== src/Lru/Evictions.antt =====
-- `lru_evict`, which takes the entry in front away, and the calls whose allocation fails.
use rhel_fapolicyd.Base.{
  ℕ, ◌<◌, ◌≤◌, ◌≡◌, refl, sym, ap, ◌∙◌, inl, inr, none, some, List, [], ◌∷◌, ◌==◌, ==_iff, lt→ltb,
  Bool-cases, arith, set, length-set,
}
use rhel_fapolicyd.Lru.{
  Ptr, Lru, Run, ok, ◌>>=◌, write, dec32, inc64, slot, remove_node, release, lru_evict,
}
use rhel_fapolicyd.Lru.Linked.{Entry, Distinct, first_of, last_of, Linked, Linked-write, load-ok}
use rhel_fapolicyd.Lru.Unlinks.{Relinked, IsBack, ptr_eq_refl}
use rhel_fapolicyd.Lru.Removal.{remove_only, remove_front}
use rhel_fapolicyd.Lru.Slots.{
  taken, ptr_of, slot-set_self, slot-set_other, taken-clear, taken_bound,
}
use rhel_fapolicyd.Lru.Touch.{IsLru}

module _ {ℓ} {A : Type ℓ} where
  -- The run took `e` away, passed its item to the callbacks, and left `es`.
  pub record Evicted (q : Lru A) (e : Entry A) (es : List (Entry A)) (r : Run (Lru A))
      : Type ℓ where
    pub out : Lru A
    pub result : r ≡ ok out
    pub holds : IsLru out es
    pub cleaned : out.cleaned ≡ e.item ∷ q.cleaned
    pub freed : out.store e.ptr ≡ none
    pub evictions : out.evictions ≡ inc64 q.evictions

  last_is_some : (es : List (Entry A)) (p : Ptr) → (b : Ptr) × (last_of es (some p) ≡ some b)
  last_is_some [] p = (p, refl)
  last_is_some (e ∷ es) p = last_is_some es e.ptr

  remove_head :
      (q : Lru A) (e : Entry A) (es : List (Entry A))
      → Distinct (e ∷ es)
      → Linked q.store none (e ∷ es) none
      → IsBack q.end (e ∷ es)
      → Relinked q es (remove_node q (some e.ptr))
  remove_head q e [] d k back = remove_only q e k
  remove_head q e (b ∷ bs) (out, d) k back = remove_front q e b bs d k back

  small_count : (q : Lru A) (es : List (Entry A)) → IsLru q es → q.count ≤ q.total
  small_count q es v = omega (arith, taken_bound q.array, v.filled, v.size)

  pub slots_cleared :
      (q : Lru A) (e : Entry A) (es : List (Entry A)) (k : ℕ)
      → IsLru q (e ∷ es)
      → e.key < q.total
      → slot (set q.array e.key none) k ≡ ptr_of k es
  slots_cleared q e es k v bound = elim (Bool-cases (e.key == k)) [
    | inl same ↦
        let is_k = (==_iff e.key k).0 same in
        ap (λ j. slot (set q.array e.key none) j) (sym is_k)
        ∙ slot-set_self q.array e.key none (omega (arith, v.size))
        ∙ sym v.keys.0
        ∙ ap (λ j. ptr_of j es) is_k
    | inr other ↦
        slot-set_other q.array e.key k none (λ same. ground (arith, ==_iff e.key k, same))
        ∙ v.slots k
        ∙ rw other refl
  ]

  pub lru_evict-runs :
      (q : Lru A) (key b p : ℕ)
      → q.end ≡ some b
      → q.front ≡ some p
      → slot q.array key ≡ some p
      → key < q.total
      → lru_evict q key ≡ (
          remove_node (record q { front = some p; array = set q.array key none }) (some p) >>= λ q1.
          release q1 (some p) >>= λ q2. ok (record q2 { evictions = inc64 q2.evictions }))
  unfolding lru_evict
  lru_evict-runs q key b p at_end front at bound =
      rw (lru_evict, at_end, lt→ltb key q.total bound, at, front, ptr_eq_refl p) refl

  -- On a sound cache, the eviction of the key of the entry in front succeeds: it leaves a sound cache
  -- of the other entries, passes the item to the callbacks, frees the node and counts the eviction.
  pub lru_evict-Evicted :
      (q : Lru A) (e : Entry A) (es : List (Entry A))
      → IsLru q (e ∷ es)
      → e.key < q.total
      → Evicted q e es (lru_evict q e.key)
  unfolding lru_evict release write
  lru_evict-Evicted q e es v bound =
      let (b, at_end) = last_is_some es e.ptr in
      let q0 : Lru A = record q { front = some e.ptr; array = set q.array e.key none } in
      let (out_e, d) = v.distinct in
      let r = remove_head q0 e es v.distinct v.linked v.back in
      let at : slot q.array e.key ≡ some e.ptr = v.slots e.key ∙ rw (ptr_eq_refl e.key) refl in
      let still = r.same e.ptr out_e ∙ v.linked.0 in
      let cleared = taken-clear q.array e.key e.ptr at in
      let one_less : taken (set q.array e.key none) ≡ dec32 q.count =
        omega (arith, cleared, v.filled, v.counted, v.small, small_count q (e ∷ es) v) in
      record {
        out = record q {
          front = first_of es none;
          end = r.back;
          store = write r.left e.ptr none;
          array = set q.array e.key none;
          cleaned = e.item ∷ q.cleaned;
          count = dec32 q.count;
          evictions = inc64 q.evictions;
        };
        result =
            lru_evict-runs q e.key b e.ptr (v.back ∙ at_end) v.front at bound
            ∙ rw (r.result, release, load-ok r.left e.ptr _ still) refl;
        holds = record {
          front = refl;
          back = r.is_back;
          linked = Linked-write r.left none es none e.ptr none out_e r.linked;
          distinct = d;
          keys = v.keys.1;
          slots = λ k. slots_cleared q e es k v bound;
          filled = one_less;
          counted = sym one_less ∙ omega (arith, cleared, v.filled, v.counted);
          size = length-set q.array e.key none ∙ v.size;
          small = v.small;
        };
        cleaned = refl;
        freed = rw (ptr_eq_refl e.ptr) refl;
        evictions = refl;
      }
