-- ===== src/Lru/Unlinks.antt =====
-- The two halves of `remove_node`, and lists without one of their entries.
use rhel_fapolicyd.Base.{
  ℕ, ◌≡◌, refl, sym, ◌∙◌, true, false, ◌||◌, Option, none, some, List, [], ◌∷◌, ◌++◌, ◌==◌, ==_iff,
  arith,
}
use rhel_fapolicyd.Lru.{
  Ptr, ptr_eq, QNode, Store, Lru, Run, ok, ◌>>=◌, write, with_prev, with_next, unlink_before,
  unlink_after, remove_node,
}
use rhel_fapolicyd.Lru.Linked.{
  Entry, has, Distinct, first_of, last_of, node_of, Linked, has-append, last_of-append, has_differs,
  load-ok, set_next-ok,
}

eq_sym : (a b : ℕ) → (b == a) ≡ false → (a == b || false) ≡ false
eq_sym a b h = ground arith

pub ptr_eq_refl : (p : Ptr) → ptr_eq (some p) (some p) ≡ true
ptr_eq_refl p = (==_iff p p).1 refl

module _ {ℓ} {A : Type ℓ} where
  pub Distinct-split :
      (xs ys : List (Entry A))
      → Distinct (xs ++ ys)
      → Distinct xs × Distinct ys × ((a : Ptr) → has a ys ≡ true → has a xs ≡ false)
  Distinct-split [] ys d = (tt, d, λ a i. refl)
  Distinct-split (x ∷ xs) ys (out, d) =
      let (left, right, apart) = Distinct-split xs ys d in
      let outside = sym (has-append x.ptr xs ys) ∙ out in
      (
        (ground (arith), left),
        right,
        λ a i. rw (has_differs a x.ptr ys i (ground arith), apart a i) refl,
      )

  pub Distinct-remove :
      (xs : List (Entry A)) (e : Entry A) (ys : List (Entry A))
      → Distinct (xs ++ e ∷ ys)
      → Distinct (xs ++ ys) × (has e.ptr (xs ++ ys) ≡ false)
  Distinct-remove [] e ys (out, d) = (d, out)
  Distinct-remove (x ∷ xs) e ys (out, d) =
      let (rest, gone) = Distinct-remove xs e ys d in
      let all = sym (has-append x.ptr xs (e ∷ ys)) ∙ out in
      let some_ = has-append x.ptr xs ys in
      ((some_ ∙ ground arith, rest), rw gone (eq_sym e.ptr x.ptr (ground arith)))

  pub outside_middle :
      (a : Ptr) (xs : List (Entry A)) (l : Entry A) (ys : List (Entry A))
      → has a (xs ++ l ∷ ys) ≡ false
      → ((a == l.ptr) ≡ false) × (has a ys ≡ false)
  outside_middle a xs l ys out =
      let all = sym (has-append a xs (l ∷ ys)) ∙ out in (ground arith, ground arith)

  -- `end` after a list: it is meaningless when the list is empty.
  abbrev pub IsBack : Option Ptr → List (Entry A) → Type 0
  IsBack p [] = Unit
  IsBack p (x ∷ xs) = p ≡ last_of xs (some x.ptr)

  pub IsBack-append :
      (xs : List (Entry A)) (l : Entry A) (ys : List (Entry A))
      → IsBack (last_of ys (some l.ptr)) (xs ++ l ∷ ys)
  IsBack-append [] l ys = refl
  IsBack-append (x ∷ xs) l ys = sym (last_of-append xs (l ∷ ys) (some x.ptr))

  pub IsBack-end :
      (xs : List (Entry A)) (l e b : Entry A) (bs : List (Entry A)) {p : Option Ptr}
      → IsBack p (xs ++ l ∷ e ∷ b ∷ bs)
      → p ≡ last_of bs (some b.ptr)
  IsBack-end [] l e b bs h = h
  IsBack-end (x ∷ xs) l e b bs h = h ∙ last_of-append xs (l ∷ e ∷ b ∷ bs) (some x.ptr)

  pub unlink_before-ok :
      (q : Lru A) (node : Ptr) (n : QNode A) (before : Ptr) (b : QNode A)
      → q.store before ≡ some b
      → b.next ≡ some node
      → unlink_before q node n before
        ≡ ok (record q { store = write q.store before (some (with_next b n.next)) })
  unfolding unlink_before
  unlink_before-ok q node n before b at linked =
      rw (unlink_before, load-ok q.store before b at, linked, ptr_eq_refl node) refl

  pub unlink_after-ok :
      (q : Lru A) (node : Ptr) (n : QNode A) (after : Ptr) (a : QNode A)
      → n.next ≡ some after
      → q.store after ≡ some a
      → a.prev ≡ some node
      → unlink_after q node n
        ≡ ok (record q { store = write q.store after (some (with_prev a n.prev)) })
  unfolding unlink_after
  unlink_after-ok q node n after a next at linked =
      rw (unlink_after, next, load-ok q.store after a at, linked, ptr_eq_refl node) refl

  pub unlink_after_last :
      (q : Lru A) (node : Ptr) (n : QNode A) (before : Ptr) (b : QNode A)
      → n.next ≡ none
      → n.prev ≡ some before
      → q.store before ≡ some b
      → unlink_after q node n
        ≡ ok
            (record q { end = some before; store = write q.store before (some (with_next b none)) })
  unfolding unlink_after
  unlink_after_last q node n before b last prev at =
      rw (unlink_after, last, prev, set_next-ok q.store before b none at) refl

  pub remove_node_behind :
      (q : Lru A) (e : Entry A) (before : Ptr) (c : Option Ptr)
      → q.store e.ptr ≡ some (node_of e (some before) c)
      → remove_node q (some e.ptr) ≡ (
          unlink_before q e.ptr (node_of e (some before) c) before >>= λ q'.
          unlink_after q' e.ptr (node_of e (some before) c))
  unfolding remove_node
  remove_node_behind q e before c at =
      rw (remove_node, load-ok q.store e.ptr (node_of e (some before) c) at) refl

  -- A run that leaves the cache with the list `rest`, nothing outside it changed.
  pub record Relinked (q : Lru A) (rest : List (Entry A)) (r : Run (Lru A)) : Type ℓ where
    pub left : Store A
    pub back : Option Ptr
    pub result : r ≡ ok (record q { front = first_of rest none; end = back; store = left })
    pub linked : Linked left none rest none
    pub is_back : IsBack back rest
    pub same : (a : Ptr) → has a rest ≡ false → left a ≡ q.store a
