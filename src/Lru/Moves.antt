-- ===== src/Lru/Moves.antt =====
-- A hit on a node that is not in front.
use rhel_fapolicyd.Base.{◌≡◌, refl, ◌∙◌, none, some, List, ◌∷◌, ◌++◌}
use rhel_fapolicyd.Lru.{Lru, Run, ok, write, inc64, move_to_front}
use rhel_fapolicyd.Lru.Insertion.{insert_beginning-ok}
use rhel_fapolicyd.Lru.Linked.{
  Entry, Distinct, first_of, last_of, node_of, Linked, Linked-split, write_self, Linked-write,
  load-ok, set_prev-ok, set_next-ok,
}
use rhel_fapolicyd.Lru.Unlinks.{IsBack, Distinct-remove}
use rhel_fapolicyd.Lru.Removal.{remove_node-Relinked}
use rhel_fapolicyd.Lru.Touch.{bump}

module _ {ℓ} {A : Type ℓ} where
  pub record Moved (q : Lru A) (e : Entry A) (rest : List (Entry A)) (r : Run (Lru A))
      : Type ℓ where
    pub out : Lru A
    pub result : r ≡ ok out
    pub front : out.front ≡ some e.ptr
    pub back : IsBack out.end (bump e ∷ rest)
    pub linked : Linked out.store none (bump e ∷ rest) none
    pub array : out.array ≡ q.array
    pub count : out.count ≡ q.count
    pub total : out.total ≡ q.total
    pub hits : out.hits ≡ inc64 q.hits
    pub misses : out.misses ≡ q.misses

  pub move_to_front-Moved :
      (q : Lru A) (f : Entry A) (newer : List (Entry A)) (e : Entry A) (older : List (Entry A))
      → q.front ≡ some f.ptr
      → IsBack q.end (f ∷ newer ++ e ∷ older)
      → Distinct (f ∷ newer ++ e ∷ older)
      → Linked q.store none (f ∷ newer ++ e ∷ older) none
      → Moved q e (f ∷ newer ++ older) (move_to_front q e.ptr)
  unfolding move_to_front
  move_to_front-Moved q f newer e older front back d k =
      let rest = f ∷ newer ++ older in
      let r1 = remove_node-Relinked q f newer e older front back d k in
      let (_, (at, _)) = Linked-split q.store none (f ∷ newer) (e ∷ older) none k in
      let (d_rest, out) = Distinct-remove (f ∷ newer) e older d in
      let b = last_of newer (some f.ptr) in
      let c = first_of older none in
      let q1 : Lru A = record q { front = some f.ptr; end = r1.back; store = r1.left } in
      let at1 = r1.same e.ptr out ∙ at in
      let h1 = write r1.left e.ptr (some (node_of e b none)) in
      let h2 = write h1 e.ptr (some (node_of e none none)) in
      let q2 : Lru A = record q1 { store = h2 } in
      let linked1 =
        Linked-write r1.left none rest none e.ptr (some (node_of e b none)) out r1.linked in
      let linked2 = Linked-write h1 none rest none e.ptr (some (node_of e none none)) out linked1 in
      let r3 =
        insert_beginning-ok q2 e none none rest refl r1.is_back (out, d_rest) linked2
          (write_self h1 e.ptr _) in
      let h4 = write r3.left e.ptr (some (node_of (bump e) none (some f.ptr))) in
      record {
        out = record q { front = some e.ptr; end = r3.back; store = h4; hits = inc64 q.hits };
        result =
            rw
              (
                move_to_front,
                r1.result,
                set_next-ok r1.left e.ptr (node_of e b c) none at1,
                set_prev-ok h1 e.ptr (node_of e b none) none (write_self r1.left e.ptr _),
                r3.result,
                load-ok r3.left e.ptr (node_of e none (some f.ptr)) r3.linked.0,
              )
              refl;
        front = refl;
        back = r3.is_back;
        linked = (
          write_self r3.left e.ptr _,
          Linked-write r3.left (some e.ptr) rest none e.ptr _ out r3.linked.1,
        );
        array = refl;
        count = refl;
        total = refl;
        hits = refl;
        misses = refl;
      }
