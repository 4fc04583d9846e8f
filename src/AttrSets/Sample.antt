-- ===== src/AttrSets/Sample.antt =====
-- A list in the place of the balanced tree: an instance of `Avl` for the concrete runs.
use rhel_fapolicyd.AttrSets.Tree.{Avl, Elem, contains, elem_eq}
use rhel_fapolicyd.Base.{◌≡◌, refl, Bool, true, false, ◌||◌, List, [], ◌∷◌, if◌then◌else◌}

unfoldable pub insert_first : List Elem → Elem → List Elem × Bool
insert_first t e = if contains t e then (t, false) else (e ∷ t, true)

pub insert_first_present :
    (t : List Elem) (e : Elem) → contains t e ≡ true → insert_first t e ≡ (t, false)
unfolding insert_first
insert_first_present t e h = rw h refl

pub insert_first_new :
    (t : List Elem) (e : Elem) → contains t e ≡ false → (insert_first t e).1 ≡ true
unfolding insert_first
insert_first_new t e h = rw h refl

pub contains-insert_first :
    (t : List Elem) (e d : Elem)
    → contains t e ≡ false
    → contains (insert_first t e).0 d ≡ (elem_eq e d || contains t d)
unfolding insert_first contains
contains-insert_first t e d h = rw h refl

instance unfoldable pub Avl_List : Avl (List Elem)
Avl_List = record {
  empty = [];
  walk = λ t. t;
  search = contains;
  insert = insert_first;
  walk-empty = refl;
  search-walk = λ t e. refl;
  insert_present = insert_first_present;
  insert_new = insert_first_new;
  search-insert = contains-insert_first;
}
