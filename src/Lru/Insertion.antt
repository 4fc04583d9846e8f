-- ===== src/Lru/Insertion.antt =====
-- `insert_beginning` puts a node in front of the list.
use rhel_fapolicyd.Base.{◌≡◌, refl, ◌∙◌, false, Option, none, some, List, [], ◌∷◌, ◌==◌, arith}
use rhel_fapolicyd.Lru.{Ptr, QNode, Lru, write, insert_before, insert_beginning}
use rhel_fapolicyd.Lru.Linked.{
  Entry, Distinct, first_of, node_of, Linked, write_other, write_self, Linked-write, Linked-first,
  load-ok, set_prev-ok, set_next-ok,
}
use rhel_fapolicyd.Lru.Unlinks.{Relinked, IsBack}

module _ {ℓ} {A : Type ℓ} (q : Lru A) (e : Entry A) (b c : Option Ptr) where
  insert_empty :
      q.front ≡ none
      → q.store e.ptr ≡ some (node_of e b c)
      → Relinked q (e ∷ []) (insert_beginning q (some e.ptr))
  unfolding insert_beginning
  insert_empty front at =
      let h1 = write q.store e.ptr (some (node_of e none c)) in
      record {
        left = write h1 e.ptr (some (node_of e none none));
        back = some e.ptr;
        result =
            rw
              (
                insert_beginning,
                front,
                set_prev-ok q.store e.ptr (node_of e b c) none at,
                set_next-ok h1 e.ptr (node_of e none c) none (write_self q.store e.ptr _),
              )
              refl;
        linked = (write_self h1 e.ptr _, tt);
        is_back = refl;
        same = λ a i.
            write_other h1 e.ptr a _ (ground arith) ∙ write_other q.store e.ptr a _ (ground arith);
      }

  insert_before_first :
      (f : Entry A) (fs : List (Entry A))
      → q.front ≡ some f.ptr
      → IsBack q.end (f ∷ fs)
      → Distinct (e ∷ f ∷ fs)
      → Linked q.store none (f ∷ fs) none
      → q.store e.ptr ≡ some (node_of e b c)
      → Relinked q (e ∷ f ∷ fs) (insert_beginning q (some e.ptr))
  unfolding insert_beginning insert_before
  insert_before_first f fs front back (out, d) k at =
      let n : QNode A = node_of f none (first_of fs none) in
      let h1 = write q.store e.ptr (some (node_of e none c)) in
      let h2 = write h1 e.ptr (some (node_of e none (some f.ptr))) in
      let m : QNode A = node_of f (some e.ptr) (first_of fs none) in
      let f_other : (f.ptr == e.ptr) ≡ false = ground arith in
      let e_other : (e.ptr == f.ptr) ≡ false = ground arith in
      let at_f =
        write_other h1 e.ptr f.ptr _ f_other ∙ write_other q.store e.ptr f.ptr _ f_other ∙ k.0 in
      record {
        left = write h2 f.ptr (some m);
        back = q.end;
        result =
            rw
              (
                insert_beginning,
                front,
                insert_before,
                load-ok q.store f.ptr n k.0,
                set_prev-ok q.store e.ptr (node_of e b c) none at,
                set_next-ok h1 e.ptr (node_of e none c) (some f.ptr) (write_self q.store e.ptr _),
                set_prev-ok h2 f.ptr n (some e.ptr) at_f,
              )
              refl;
        linked = (
          write_other h2 f.ptr e.ptr _ e_other ∙ write_self h1 e.ptr _,
          Linked-first h2 none (some e.ptr) f fs none d.0 (
              Linked-write h1 none (f ∷ fs) none e.ptr _ out
                (Linked-write q.store none (f ∷ fs) none e.ptr _ out k)),
        );
        is_back = back;
        same = λ a i.
            write_other h2 f.ptr a _ (ground arith)
            ∙ write_other h1 e.ptr a _ (ground arith)
            ∙ write_other q.store e.ptr a _ (ground arith);
      }

  pub insert_beginning-ok :
      (es : List (Entry A))
      → q.front ≡ first_of es none
      → IsBack q.end es
      → Distinct (e ∷ es)
      → Linked q.store none es none
      → q.store e.ptr ≡ some (node_of e b c)
      → Relinked q (e ∷ es) (insert_beginning q (some e.ptr))
  insert_beginning-ok [] front back d k at = insert_empty front at
  insert_beginning-ok (f ∷ fs) front back d k at = insert_before_first f fs front back d k at
