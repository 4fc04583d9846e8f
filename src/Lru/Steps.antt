-- ===== src/Lru/Steps.antt =====
-- Every cache that the program can build.
use mathlib.Core.Path.{subst}
use rhel_fapolicyd.Base.{
  ℕ, ◌^◌, ◌<◌, ◌≡◌, refl, sym, ap, ◌∙◌, inl, inr, true, false, Option, none, some, List, [], ◌∷◌,
  ◌==◌, ==_iff, Bool-cases, Option-cases, arith,
}
use rhel_fapolicyd.Lru.{Ptr, QNode, Lru, ok, write, slot, init_lru, check_lru_cache, lru_evict}
use rhel_fapolicyd.Lru.Evictions.{lru_evict-Evicted}
use rhel_fapolicyd.Lru.Linked.{Entry, has, Linked, node_of, Linked-write, write_self, first_of}
use rhel_fapolicyd.Lru.Slots.{ptr_of, find_key}
use rhel_fapolicyd.Lru.Touch.{touch, IsLru, init_lru-IsLru}
use rhel_fapolicyd.Lru.Uses.{check_lru_cache-Used}

module _ {ℓ} {A : Type ℓ} where
  -- The calls of event.c: a key is used, with a node at an address that no node has; the node in
  -- front gets an item; the entry in front is evicted.
  pub data Reach (qsize : ℕ) : Lru A → Type ℓ where
    opened : Reach qsize (init_lru qsize)
    used :
        {q q' : Lru A} {key : ℕ} {p : Ptr} {r : Option Ptr}
        → Reach qsize q
        → key < q.total
        → q.store p ≡ none
        → check_lru_cache q key (some p) ≡ ok (q', r)
        → Reach qsize q'
    stored :
        {q : Lru A} {p : Ptr} {n : QNode A} (i : Option A)
        → Reach qsize q
        → q.front ≡ some p
        → q.store p ≡ some n
        → Reach qsize (record q { store = write q.store p (some (record n { item = i })) })
    evicted :
        {q q' : Lru A} {key : ℕ} {p : Ptr}
        → Reach qsize q
        → key < q.total
        → slot q.array key ≡ some p
        → q.front ≡ some p
        → lru_evict q key ≡ ok q'
        → Reach qsize q'

  fresh-has :
      (q : Lru A) (b : Option Ptr) (es : List (Entry A)) (c : Option Ptr) (p : Ptr)
      → Linked q.store b es c
      → q.store p ≡ none
      → has p es ≡ false
  fresh-has q b [] c p k free = refl
  fresh-has q b (e ∷ es) c p (at, k) free = elim (Bool-cases (p == e.ptr)) [
    | inl same ↦
        let clash : none ≡ some (node_of e b (first_of es c)) =
          sym free ∙ ap q.store ((==_iff p e.ptr).0 same) ∙ at in
        cc
    | inr other ↦ rw other (fresh-has q (some e.ptr) es c p k free)
  ]

  ptr_of-has : (k p : ℕ) (es : List (Entry A)) → ptr_of k es ≡ some p → has p es ≡ true
  ptr_of-has k p [] h = cc
  ptr_of-has k p (e ∷ es) h = elim (Bool-cases (e.key == k)) [
    | inl here ↦ let same : e.ptr ≡ p = ground arith in rw ((==_iff p e.ptr).1 (sym same)) refl
    | inr there ↦ let i = ptr_of-has k p es (ground arith) in ground arith
  ]

  front_key :
      (q : Lru A) (e : Entry A) (es : List (Entry A)) (key : ℕ)
      → IsLru q (e ∷ es)
      → slot q.array key ≡ some e.ptr
      → e.key ≡ key
  front_key q e es key v at = elim (Bool-cases (e.key == key)) [
    | inl same ↦ (==_iff e.key key).0 same
    | inr other ↦
        let both : ptr_of key (e ∷ es) ≡ some e.ptr = sym (v.slots key) ∙ at in
        let behind : ptr_of key es ≡ some e.ptr = ground arith in
        let i = ptr_of-has key e.ptr es behind in let d = v.distinct.0 in cc
  ]

  stored-IsLru :
      (q : Lru A) (es : List (Entry A)) (p : Ptr) (n : QNode A) (i : Option A)
      → IsLru q es
      → q.front ≡ some p
      → q.store p ≡ some n
      → (es' : List (Entry A)) × IsLru
          (record q { store = write q.store p (some (record n { item = i })) })
          es'
  stored-IsLru q [] p n i v front at = let clash : none ≡ some p = sym v.front ∙ front in cc
  stored-IsLru q (e ∷ es) p n i v front at =
      let at_front : some e.ptr ≡ some p = sym v.front ∙ front in
      let same : e.ptr ≡ p = cc in
      let both : some n ≡ some (node_of e none (first_of es none)) =
        sym at ∙ ap q.store (sym same) ∙ v.linked.0 in
      let node : n ≡ node_of e none (first_of es none) = cc in
      let h = write q.store p (some (record n { item = i })) in
      let here : h e.ptr ≡ some (record n { item = i }) = ap h same ∙ write_self q.store p _ in
      (
        record e { item = i } ∷ es,
        record {
          front = v.front;
          back = v.back;
          linked = (
            here ∙ ap {A = QNode A} (λ m. some (record m { item = i })) node,
            Linked-write q.store (some e.ptr) es none p _
                (sym (ap (λ a. has a es) same) ∙ v.distinct.0) v.linked.1,
          );
          distinct = v.distinct;
          keys = v.keys;
          slots = v.slots;
          filled = v.filled;
          counted = v.counted;
          size = v.size;
          small = v.small;
        },
      )

  evicted-IsLru :
      (q : Lru A) (es : List (Entry A)) (q' : Lru A) (key p : ℕ)
      → IsLru q es
      → key < q.total
      → slot q.array key ≡ some p
      → q.front ≡ some p
      → lru_evict q key ≡ ok q'
      → (es' : List (Entry A)) × IsLru q' es'
  evicted-IsLru q [] q' key p v bound at front run =
      let clash : none ≡ some p = sym v.front ∙ front in cc
  evicted-IsLru q (e ∷ es) q' key p v bound at front run =
      let is_key = front_key q e es key v (at ∙ sym front ∙ v.front) in
      let r = lru_evict-Evicted q e es v (subst (λ k. k < q.total) (sym is_key) bound) in
      let both : ok r.out ≡ ok q' = sym r.result ∙ ap (lru_evict q) is_key ∙ run in
      let same : r.out ≡ q' = cc in (es, subst (λ x. IsLru x es) same r.holds)

  touch-nonempty :
      (key p : ℕ) (es : List (Entry A)) → (f : Ptr) × (first_of (touch key p es) none ≡ some f)
  unfolding touch
  touch-nonempty key p [] = (p, refl)
  touch-nonempty key p (f ∷ fs) = elim (Bool-cases (f.key == key)) [
    | inl here ↦ (f.ptr, rw here refl)
    | inr there ↦ elim (Option-cases (find_key key fs)) [
      | inl miss ↦ (p, rw (there, miss) refl)
      | inr (e, hit) ↦ (e.ptr, rw (there, hit) refl)
    ]
  ]

  -- Whatever calls built it, the cache is sound.
  pub Reach-IsLru :
      (qsize : ℕ)
      → qsize < 2 ^ 32
      → {q : Lru A} → Reach qsize q
      → (es : List (Entry A)) × IsLru q es
  Reach-IsLru qsize small opened = ([], init_lru-IsLru qsize small)
  Reach-IsLru qsize small (used {q} {q'} {key} {p} {r} before bound free run) =
      let (es, v) = Reach-IsLru qsize small before in
      let u = check_lru_cache-Used q es key p v bound (fresh-has q none es none p v.linked free) in
      let both : ok (u.out, u.out.front) ≡ ok (q', r) = sym u.result ∙ run in
      let same : u.out ≡ q' = cc in
      (touch key p es, subst (λ x. IsLru x (touch key p es)) same u.holds)
  Reach-IsLru qsize small (stored {q} {p} {n} i before front at) =
      let (es, v) = Reach-IsLru qsize small before in stored-IsLru q es p n i v front at
  Reach-IsLru qsize small (evicted {q} {q'} {key} {p} before bound at front run) =
      let (es, v) = Reach-IsLru qsize small before in
      evicted-IsLru q es q' key p v bound at front run

  -- In a cache that any uses, stores and evictions have built, of a size below 2 ^ 32, a use of a key
  -- below the size, with a node at a free address, returns a node, the one in the slot of the key.
  pub check_lru_cache-reached :
      (q : Lru A) (qsize key : ℕ) (p : Ptr)
      → qsize < 2 ^ 32
      → Reach qsize q
      → key < q.total
      → q.store p ≡ none
      → (out : Lru A) × (node : Ptr) × (check_lru_cache q key (some p) ≡ ok (out, some node))
        × (slot out.array key ≡ some node)
  check_lru_cache-reached q qsize key p small before bound free =
      let (es, v) = Reach-IsLru qsize small before in
      let u = check_lru_cache-Used q es key p v bound (fresh-has q none es none p v.linked free) in
      let (f, front) = touch-nonempty key p es in
      let at : u.out.front ≡ some f = u.holds.front ∙ front in
      (u.out, f, u.result ∙ ap (λ x. ok (u.out, x)) at, u.in_front ∙ at)
