-- ===== src/Lru/Removal.antt =====
-- `remove_node` takes a node out of the list, wherever it stands.
use rhel_fapolicyd.Base.{
  ◌≡◌, refl, sym, ap, ◌∙◌, false, none, some, List, [], ◌∷◌, ◌++◌, ◌==◌, arith,
}
use mathlib.Core.Path.{subst}
use rhel_fapolicyd.Lru.{QNode, Lru, ok, ◌>>=◌, write, remove_first, unlink_after, remove_node}
use rhel_fapolicyd.Lru.Linked.{
  Entry, has, Distinct, first_of, last_of, node_of, Linked, first_of-append, Linked-join,
  Linked-split, write_other, write_self, Linked-write, Linked-first, load-ok, set_prev-ok,
}
use rhel_fapolicyd.Lru.Unlinks.{
  Distinct-split, IsBack, IsBack-append, IsBack-end, Relinked, outside_middle, ptr_eq_refl,
  remove_node_behind, unlink_after-ok, unlink_after_last, unlink_before-ok,
}

module _ {ℓ} {A : Type ℓ} where
  pub remove_only :
      (q : Lru A) (e : Entry A)
      → Linked q.store none (e ∷ []) none
      → Relinked q [] (remove_node q (some e.ptr))
  unfolding remove_node
  remove_only q e (at, l) = record {
    left = q.store;
    back = q.end;
    result = rw (remove_node, load-ok q.store e.ptr _ at) refl;
    linked = tt;
    is_back = tt;
    same = λ a i. refl;
  }

  pub remove_front :
      (q : Lru A) (e b : Entry A) (bs : List (Entry A))
      → Distinct (b ∷ bs)
      → Linked q.store none (e ∷ b ∷ bs) none
      → q.end ≡ last_of bs (some b.ptr)
      → Relinked q (b ∷ bs) (remove_node q (some e.ptr))
  unfolding remove_node remove_first
  remove_front q e b bs (out, d) (at, l) back = record {
    left = write q.store b.ptr (some (node_of b none (first_of bs none)));
    back = q.end;
    result =
        rw (remove_node, load-ok q.store e.ptr _ at, set_prev-ok q.store b.ptr _ none l.0) refl;
    linked = Linked-first q.store (some e.ptr) none b bs none out l;
    is_back = back;
    same = λ a i. write_other q.store b.ptr a _ (ground arith);
  }

  -- A node behind `l` and the nodes `as_`.
  module _ (q : Lru A) (as_ : List (Entry A)) (l e : Entry A) where
    -- What holds at the nodes around it.
    abbrev Before : List (Entry A) → Type ℓ
    Before bs =
        Linked q.store none as_ (some l.ptr)
        × (q.store l.ptr ≡ some (node_of l (last_of as_ none) (some e.ptr)))
        × (q.store e.ptr ≡ some (node_of e (some l.ptr) (first_of bs none)))
        × Linked q.store (some e.ptr) bs none

    Linked-Before : (bs : List (Entry A)) → Linked q.store none (as_ ++ l ∷ e ∷ bs) none → Before bs
    Linked-Before bs k =
        let (left, right) = Linked-split q.store none as_ (l ∷ e ∷ bs) none k in
        (left, right.0, right.1.0, right.1.1)

    first_same :
        (xs ys : List (Entry A)) → first_of (as_ ++ l ∷ xs) none ≡ first_of (as_ ++ l ∷ ys) none
    first_same xs ys = first_of-append as_ (l ∷ xs) none ∙ sym (first_of-append as_ (l ∷ ys) none)

    remove_back :
        q.front ≡ first_of (as_ ++ l ∷ e ∷ []) none
        → has l.ptr as_ ≡ false
        → Linked q.store none (as_ ++ l ∷ e ∷ []) none
        → Relinked q (as_ ++ l ∷ []) (remove_node q (some e.ptr))
    remove_back front out k =
        let (left, at_l, at_e, right) = Linked-Before [] k in
        let n : QNode A = node_of l (last_of as_ none) none in
        let h1 = write q.store l.ptr (some n) in
        let q1 : Lru A = record q { store = h1 } in
        record {
          left = write h1 l.ptr (some n);
          back = some l.ptr;
          result =
              remove_node_behind q e l.ptr none at_e
              ∙ ap (λ r. r >>= λ q'. unlink_after q' e.ptr (node_of e (some l.ptr) none))
                  (unlink_before-ok q e.ptr (node_of e (some l.ptr) none) l.ptr
                    (node_of l (last_of as_ none) (some e.ptr)) at_l refl)
              ∙ unlink_after_last q1 e.ptr (node_of e (some l.ptr) none) l.ptr n refl refl
                  (write_self q.store l.ptr (some n))
              ∙ ap
                  (λ f.
                    ok (record q { front = f; end = some l.ptr; store = write h1 l.ptr (some n) }))
                  (front ∙ first_same (e ∷ []) []);
          linked =
              Linked-join _ none as_ (l ∷ []) none
                (Linked-write h1 none as_ (some l.ptr) l.ptr (some n) out
                  (Linked-write q.store none as_ (some l.ptr) l.ptr (some n) out left))
                (write_self h1 l.ptr _, tt);
          is_back = IsBack-append as_ l [];
          same = λ a i.
              let (differs, _) = outside_middle a as_ l [] i in
              write_other h1 l.ptr a (some n) differs
              ∙ write_other q.store l.ptr a (some n) differs;
        }

    remove_middle :
        (b : Entry A) (bs : List (Entry A))
        → q.front ≡ first_of (as_ ++ l ∷ e ∷ b ∷ bs) none
        → q.end ≡ last_of bs (some b.ptr)
        → Distinct (as_ ++ l ∷ e ∷ b ∷ bs)
        → Linked q.store none (as_ ++ l ∷ e ∷ b ∷ bs) none
        → Relinked q (as_ ++ l ∷ b ∷ bs) (remove_node q (some e.ptr))
    remove_middle b bs front back d k =
        let (left, at_l, at_e, right) = Linked-Before (b ∷ bs) k in
        let (d_as, (out_l, (out_e, (out_b, d_bs))), apart) =
          Distinct-split as_ (l ∷ e ∷ b ∷ bs) d in
        let n : QNode A = node_of l (last_of as_ none) (some b.ptr) in
        let m : QNode A = node_of b (some l.ptr) (first_of bs none) in
        let h1 = write q.store l.ptr (some n) in
        let q1 : Lru A = record q { store = h1 } in
        let b_other : (b.ptr == l.ptr) ≡ false = ground arith in
        let l_other : (l.ptr == b.ptr) ≡ false = ground arith in
        let out_as : has l.ptr as_ ≡ false = apart l.ptr (ground (arith, ptr_eq_refl l.ptr)) in
        let out_as' : has b.ptr as_ ≡ false = apart b.ptr (ground (arith, ptr_eq_refl b.ptr)) in
        let right1 =
          Linked-write q.store (some e.ptr) (b ∷ bs) none l.ptr (some n) (ground arith) right in
        record {
          left = write h1 b.ptr (some m);
          back = q.end;
          result =
              remove_node_behind q e l.ptr (some b.ptr) at_e
              ∙ ap (λ r. r >>= λ q'. unlink_after q' e.ptr (node_of e (some l.ptr) (some b.ptr)))
                  (unlink_before-ok q e.ptr (node_of e (some l.ptr) (some b.ptr)) l.ptr
                    (node_of l (last_of as_ none) (some e.ptr)) at_l refl)
              ∙ unlink_after-ok q1 e.ptr (node_of e (some l.ptr) (some b.ptr)) b.ptr
                  (node_of b (some e.ptr) (first_of bs none)) refl right1.0 refl
              ∙ ap (λ f. ok (record q { front = f; store = write h1 b.ptr (some m) }))
                  (front ∙ first_same (e ∷ b ∷ bs) (b ∷ bs));
          linked =
              Linked-join _ none as_ (l ∷ b ∷ bs) none
                (Linked-write h1 none as_ (some l.ptr) b.ptr (some m) out_as'
                  (Linked-write q.store none as_ (some l.ptr) l.ptr (some n) out_as left))
                (
                  write_other h1 b.ptr l.ptr (some m) l_other ∙ write_self q.store l.ptr (some n),
                  Linked-first h1 (some e.ptr) (some l.ptr) b bs none out_b right1,
                );
          is_back = rw back (IsBack-append as_ l (b ∷ bs));
          same = λ a i.
              let (differs, out) = outside_middle a as_ l (b ∷ bs) i in
              write_other h1 b.ptr a (some m) (ground arith)
              ∙ write_other q.store l.ptr a (some n) differs;
        }

    remove_later :
        (bs : List (Entry A))
        → q.front ≡ first_of (as_ ++ l ∷ e ∷ bs) none
        → IsBack q.end (as_ ++ l ∷ e ∷ bs)
        → Distinct (as_ ++ l ∷ e ∷ bs)
        → Linked q.store none (as_ ++ l ∷ e ∷ bs) none
        → Relinked q (as_ ++ l ∷ bs) (remove_node q (some e.ptr))
    remove_later [] front back d k =
        let (d_as, rest, apart) = Distinct-split as_ (l ∷ e ∷ []) d in
        remove_back front (apart l.ptr (ground (arith, ptr_eq_refl l.ptr))) k
    remove_later (b ∷ bs) front back d k =
        remove_middle b bs front (IsBack-end as_ l e b bs back) d k

  -- The last of a nonempty list, before which something else may follow.
  pub record LastOf (f : Entry A) (xs : List (Entry A)) : Type ℓ where
    pub init : List (Entry A)
    pub last : Entry A
    pub parts : (ys : List (Entry A)) → f ∷ xs ++ ys ≡ init ++ last ∷ ys

  pub last_part : (f : Entry A) (xs : List (Entry A)) → LastOf f xs
  last_part f [] = record { init = []; last = f; parts = λ ys. refl }
  last_part f (x ∷ xs) =
      let r = last_part x xs in
      record { init = f ∷ r.init; last = r.last; parts = λ ys. ap (λ zs. f ∷ zs) (r.parts ys) }

  -- Any node but the one in front.
  pub remove_node-Relinked :
      (q : Lru A) (f : Entry A) (newer : List (Entry A)) (e : Entry A) (older : List (Entry A))
      → q.front ≡ some f.ptr
      → IsBack q.end (f ∷ newer ++ e ∷ older)
      → Distinct (f ∷ newer ++ e ∷ older)
      → Linked q.store none (f ∷ newer ++ e ∷ older) none
      → Relinked q (f ∷ newer ++ older) (remove_node q (some e.ptr))
  remove_node-Relinked q f newer e older front back d k =
      let r = last_part f newer in
      let whole = r.parts (e ∷ older) in
      subst (λ xs. Relinked q xs (remove_node q (some e.ptr))) (sym (r.parts older))
        (remove_later q r.init r.last e older (front ∙ ap (λ xs. first_of xs none) whole)
          (subst (λ xs. IsBack q.end xs) whole back) (subst (λ xs. Distinct xs) whole d)
          (subst (λ xs. Linked q.store none xs none) whole k))
