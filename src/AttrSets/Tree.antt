-- ===== src/AttrSets/Tree.antt =====
-- The balanced tree of library/avl.h, as its callers use it: a parameter with its documented laws.
use rhel_fapolicyd.Base.{
  ◌+◌, ◌≡◌, Bool, true, false, ◌||◌, List, [], ◌∷◌, ℤ, pos, negsuc, int_eq, Bytes, streq,
}

-- A node's value: a number of an int set, or a string of a string set.
pub data Elem : Type 0 where
  num : ℤ → Elem
  text : Bytes → Elem

-- The comparison callbacks give 0 exactly on equal values.
unfoldable pub elem_eq : Elem → Elem → Bool
unfolding streq
elem_eq (num a) (num b) = int_eq a b
elem_eq (text a) (text b) = streq a b
elem_eq _ _ = false

unfoldable pub contains : List Elem → Elem → Bool
unfolding elem_eq
contains [] e = false
contains (x ∷ xs) e = elem_eq x e || contains xs e

-- `walk` is the order in which `avl_traverse` calls its callback; `insert` also says whether the
-- value was new.
pub record Avl (T : Type 0) : Type 0 where
  pub empty : T
  pub walk : T → List Elem
  pub search : T → Elem → Bool
  pub insert : T → Elem → T × Bool
  pub walk-empty : walk empty ≡ []
  pub search-walk : (t : T) (e : Elem) → search t e ≡ contains (walk t) e
  pub insert_present : (t : T) (e : Elem) → search t e ≡ true → insert t e ≡ (t, false)
  pub insert_new : (t : T) (e : Elem) → search t e ≡ false → (insert t e).1 ≡ true
  pub search-insert :
      (t : T) (e d : Elem)
      → search t e ≡ false
      → search (insert t e).0 d ≡ (elem_eq e d || search t d)

-- `avl_traverse`: it adds up what the callback returns, and stops at a negative value. The
-- callbacks of the program return 0 or -1.
unfoldable pub walk_callback : (Elem → ℤ) → List Elem → ℤ
walk_callback callback [] = pos 0
walk_callback callback (e ∷ es) =
    let rest = walk_callback callback es in
    elim (callback e) [
      | negsuc n ↦ negsuc n
      | pos n ↦ elim rest [ negsuc m ↦ negsuc m | pos m ↦ pos (n + m) ]
    ]
