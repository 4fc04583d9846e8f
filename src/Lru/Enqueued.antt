-- ===== src/Lru/Enqueued.antt =====
-- `enqueue`, a use of a key that has no node.
use rhel_fapolicyd.Base.{
  ℕ, ◌<◌, ◌≡◌, refl, sym, ap, ◌∙◌, inl, inr, false, none, some, List, ◌∷◌, ◌==◌, ==_iff, Bool-cases,
  arith, set, length-set,
}
use rhel_fapolicyd.Lru.{Ptr, Lru, Run, ok, write, inc32, slot, new_QNode, enqueue}
use rhel_fapolicyd.Lru.Insertion.{insert_beginning-ok}
use rhel_fapolicyd.Lru.Linked.{Entry, has, write_self, Linked-write}
use rhel_fapolicyd.Lru.Slots.{ptr_of, slot-set_self, slot-set_other, taken-fill, taken_free}
use rhel_fapolicyd.Lru.Touch.{IsLru}

module _ {ℓ} {A : Type ℓ} where
  abbrev pub new_entry : ℕ → Ptr → Entry A
  new_entry key p = record { key = key; ptr = p; uses = 1; item = none }

  -- The run gives a cache that holds `es`.
  pub record Gives (q : Lru A) (es : List (Entry A)) (r : Run (Lru A)) : Type ℓ where
    pub out : Lru A
    pub result : r ≡ ok out
    pub holds : IsLru out es
    pub hits : out.hits ≡ q.hits
    pub misses : out.misses ≡ q.misses

  -- The bound that keeps `dequeue` from being called.
  pub not_full :
      (q : Lru A) (es : List (Entry A)) (key : ℕ)
      → IsLru q es
      → key < q.total
      → slot q.array key ≡ none
      → (q.count == q.total) ≡ false
  not_full q es key v bound free =
      let room = taken_free q.array key (omega (arith, v.size)) free in
      let e1 = v.size in let e2 = v.filled in ground arith

  slots_after :
      (q : Lru A) (es : List (Entry A)) (key k : ℕ) (p : Ptr)
      → IsLru q es
      → key < q.total
      → slot (set q.array key (some p)) k ≡ ptr_of k (new_entry key p ∷ es)
  slots_after q es key k p v bound = elim (Bool-cases (key == k)) [
    | inl same ↦
        let e = (==_iff key k).0 same in
        rw same (
          ap (λ j. slot (set q.array key (some p)) j) (sym e)
          ∙ slot-set_self q.array key (some p) (omega (arith, v.size)))
    | inr other ↦
        rw other (slot-set_other q.array key k (some p) (λ e. ground (arith, e)) ∙ v.slots k)
  ]

  pub enqueue-Gives :
      (q : Lru A) (es : List (Entry A)) (key : ℕ) (p : Ptr)
      → IsLru q es
      → key < q.total
      → slot q.array key ≡ none
      → has p es ≡ false
      → Gives q (new_entry key p ∷ es) (enqueue q key (some p))
  unfolding enqueue
  enqueue-Gives q es key p v bound free fresh =
      let h = write q.store p (some new_QNode) in
      let q1 : Lru A = record q { store = h } in
      let room = taken_free q.array key (omega (arith, v.size)) free in
      let r =
        insert_beginning-ok q1 (new_entry key p) none none es v.front v.back (fresh, v.distinct)
          (Linked-write q.store none es none p _ fresh v.linked) (write_self q.store p _) in
      record {
        out = record q {
          front = some p;
          end = r.back;
          store = r.left;
          array = set q.array key (some p);
          count = inc32 q.count;
        };
        result = rw (enqueue, not_full q es key v bound free, r.result) refl;
        holds = record {
          front = refl;
          back = r.is_back;
          linked = r.linked;
          distinct = (fresh, v.distinct);
          keys = (sym (v.slots key) ∙ free, v.keys);
          slots = λ k. slots_after q es key k p v bound;
          filled =
              taken-fill q.array key p (omega (arith, v.size)) free
              ∙ omega (arith, v.filled, v.size, v.small, room);
          counted = omega (arith, v.filled, v.size, v.small, room, v.counted);
          size = length-set q.array key (some p) ∙ v.size;
          small = v.small;
        };
        hits = refl;
        misses = refl;
      }
