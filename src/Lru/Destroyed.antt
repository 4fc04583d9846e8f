-- ===== src/Lru/Destroyed.antt =====
-- `destroy_queue`, which takes the nodes away from the end on.
use mathlib.Core.List.{append-nil, append_assoc}
use mathlib.Core.Path.{subst}
use rhel_fapolicyd.Base.{
  ℕ, zero, suc, ◌+◌, ◌^◌, ◌<◌, ◌≡◌, refl, sym, ap, ◌∙◌, true, false, Option, none, some, List, [],
  ◌∷◌, ◌++◌, ◌==◌, arith, length, length-append,
}
use rhel_fapolicyd.Lru.{
  Ptr, Lru, Run, ok, ◌>>=◌, write, dec32, remove_node, release, dequeue, destroy_queue,
}
use rhel_fapolicyd.Lru.Linked.{
  Entry, has, Distinct, first_of, Linked, Linked-split, Linked-write, last_of-append, load-ok,
}
use rhel_fapolicyd.Lru.Unlinks.{Relinked, IsBack, Distinct-remove}
use rhel_fapolicyd.Lru.Removal.{remove_only, remove_node-Relinked, last_part}
use rhel_fapolicyd.Lru.Slots.{taken_bound}
use rhel_fapolicyd.Lru.Touch.{IsLru}

module _ {ℓ} {A : Type ℓ} where
  abbrev pub items : List (Entry A) → List (Option A)
  items [] = []
  items (e ∷ es) = e.item ∷ items es

  items-append : (xs ys : List (Entry A)) → items (xs ++ ys) ≡ items xs ++ items ys
  items-append [] ys = refl
  items-append (x ∷ xs) ys = ap (λ r. x.item ∷ r) (items-append xs ys)

  -- The list without its table.
  record IsChain (q : Lru A) (es : List (Entry A)) : Type ℓ where
    front : q.front ≡ first_of es none
    back : IsBack q.end es
    linked : Linked q.store none es none
    distinct : Distinct es
    counted : q.count ≡ length es
    small : q.count < 2 ^ 32

  IsBack-last :
      (xs : List (Entry A)) (e : Entry A) {p : Option Ptr}
      → IsBack p (xs ++ e ∷ [])
      → p ≡ some e.ptr
  IsBack-last [] e h = h
  IsBack-last (x ∷ xs) e h = h ∙ last_of-append xs (e ∷ []) (some x.ptr)

  remove_last :
      (q : Lru A) (xs : List (Entry A)) (e : Entry A)
      → q.front ≡ first_of (xs ++ e ∷ []) none
      → IsBack q.end (xs ++ e ∷ [])
      → Distinct (xs ++ e ∷ [])
      → Linked q.store none (xs ++ e ∷ []) none
      → Relinked q xs (remove_node q (some e.ptr))
  remove_last q [] e front back d k = remove_only q e k
  remove_last q (f ∷ xs) e front back d k =
      subst (λ ys. Relinked q ys (remove_node q (some e.ptr))) (append-nil (f ∷ xs))
        (remove_node-Relinked q f xs e [] front back d k)

  dequeue-runs :
      (q : Lru A) (b : Ptr)
      → q.end ≡ some b
      → dequeue q ≡ (remove_node q (some b) >>= λ q'. release q' (some b))
  unfolding dequeue
  dequeue-runs q b e = rw (dequeue, e) refl

  record Dequeued (q : Lru A) (xs : List (Entry A)) (e : Entry A) (r : Run (Lru A)) : Type ℓ where
    out : Lru A
    result : r ≡ ok out
    holds : IsChain out xs
    cleaned : out.cleaned ≡ e.item ∷ q.cleaned

  dequeue-Dequeued :
      (q : Lru A) (xs : List (Entry A)) (e : Entry A)
      → IsChain q (xs ++ e ∷ [])
      → Dequeued q xs e (dequeue q)
  unfolding release
  dequeue-Dequeued q xs e v =
      let at_end = IsBack-last xs e v.back in
      let r = remove_last q xs e v.front v.back v.distinct v.linked in
      let (d, out) = Distinct-remove xs e [] v.distinct in
      let apart : has e.ptr xs ≡ false = subst (λ ys. has e.ptr ys ≡ false) (append-nil xs) out in
      let (_, (at, _)) = Linked-split q.store none xs (e ∷ []) none v.linked in
      let size : q.count ≡ length xs + 1 = v.counted ∙ length-append xs (e ∷ []) in
      let one_less : dec32 q.count ≡ length xs = omega (arith, size, v.small) in
      record {
        out = record q {
          front = first_of xs none;
          end = r.back;
          store = write r.left e.ptr none;
          cleaned = e.item ∷ q.cleaned;
          count = dec32 q.count;
        };
        result =
            dequeue-runs q e.ptr at_end
            ∙ rw (r.result, release, load-ok r.left e.ptr _ (r.same e.ptr apart ∙ at)) refl;
        holds = record {
          front = refl;
          back = r.is_back;
          linked = Linked-write r.left none xs none e.ptr none apart r.linked;
          distinct = subst (λ ys. Distinct ys) (append-nil xs) d;
          counted = one_less;
          small = omega (arith, one_less, size, v.small);
        };
        cleaned = refl;
      }

  destroy_chain :
      (n : ℕ) (q : Lru A) (es : List (Entry A))
      → length es ≡ n
      → IsChain q es
      → (out : Lru A) × (destroy_queue n q ≡ ok out) × (out.cleaned ≡ items es ++ q.cleaned)
  unfolding destroy_queue
  destroy_chain zero q [] size v =
      let empty : (q.count == 0) ≡ true = ground (arith, v.counted) in
      (q, rw (destroy_queue, empty) refl, refl)
  destroy_chain zero q (e ∷ es) size v = ground arith
  destroy_chain (suc n) q [] size v = ground arith
  destroy_chain (suc n) q (f ∷ fs) size v =
      let l = last_part f fs in
      let whole : f ∷ fs ≡ l.init ++ l.last ∷ [] = sym (append-nil (f ∷ fs)) ∙ l.parts [] in
      let one = dequeue-Dequeued q l.init l.last (subst (λ es. IsChain q es) whole v) in
      let left : length l.init ≡ n =
        omega (arith, sym size ∙ ap length whole ∙ length-append l.init (l.last ∷ [])) in
      let (out, run, cleaned) = destroy_chain n one.out l.init left one.holds in
      let used : (q.count == 0) ≡ false = ground (arith, v.counted) in
      (
        out,
        rw (destroy_queue, used, one.result) run,
        cleaned
            ∙ ap (λ r. items l.init ++ r) one.cleaned
            ∙ sym (append_assoc (items l.init) (l.last.item ∷ []) q.cleaned)
            ∙ ap (λ r. r ++ q.cleaned)
                (sym (items-append l.init (l.last ∷ [])) ∙ ap items (sym whole)),
      )

  -- The destruction of a sound cache comes to an end in as many turns as it has entries, reaches no
  -- `abort` and no pointer to no node, and passes each item to `cleanup` once, the one used last at
  -- the end.
  pub destroy_queue-items :
      (q : Lru A) (es : List (Entry A))
      → IsLru q es
      → (out : Lru A) × (destroy_queue (length es) q ≡ ok out)
        × (out.cleaned ≡ items es ++ q.cleaned)
  destroy_queue-items q es v = destroy_chain (length es) q es refl (record {
    front = v.front;
    back = v.back;
    linked = v.linked;
    distinct = v.distinct;
    counted = v.counted;
    small = omega (arith, v.small, v.filled, v.size, taken_bound q.array);
  })
