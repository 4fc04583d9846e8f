-- ===== src/AttrSets/Members.antt =====
-- Membership in the sets of values: what the checks answer, and what the appends add.
use mathlib.Core.List.{Memᴰ}
use mathlib.Core.List.Memᴰ
use rhel_fapolicyd.AttrSets.{Entry, strncmp_cb, insert_node, check_pstr_attr_set}
use rhel_fapolicyd.AttrSets.Tree.{Avl, Elem, num, text, elem_eq, contains, walk_callback}
use rhel_fapolicyd.Base.{
  ◌+◌, ◌≡◌, refl, sym, ap, ◌∙◌, ◌↔◌, ◌⊎◌, inl, inr, Bool, true, false, not, ◌||◌, List, [], ◌∷◌,
  Bool-cases, ℤ, pos, negsuc, int_eq_iff, Bytes, streq_iff, strneq, length, IsPrefix,
  strneq→IsPrefix, IsPrefix→strneq, strneq_comm, if◌then◌else◌, arith,
}

-- A value of the list is a prefix of the string.
abbrev pub HasPrefix : Bytes → List Elem → Type 0
HasPrefix str xs = (d : Bytes) × Memᴰ (text d) xs × IsPrefix d str

pub elem_eq_sound : (a b : Elem) → elem_eq a b ≡ true → a ≡ b
unfolding elem_eq
elem_eq_sound (num a) (num b) h = ap num ((int_eq_iff a b).0 h)
elem_eq_sound (text a) (text b) h = ap text ((streq_iff a b).0 h)
elem_eq_sound (num a) (text b) h = cc
elem_eq_sound (text a) (num b) h = cc

pub elem_eq_complete : (a b : Elem) → a ≡ b → elem_eq a b ≡ true
unfolding elem_eq
elem_eq_complete (num a) b e = rw (← e) ((int_eq_iff a a).1 refl)
elem_eq_complete (text a) b e = rw (← e) ((streq_iff a a).1 refl)

HasPrefix-cons :
    (str : Bytes) (x : Elem) (xs : List Elem) → HasPrefix str xs → HasPrefix str (x ∷ xs)
HasPrefix-cons str x xs (d, at, p) = (d, Memᴰ.tail at, p)

-- Whether the traversal stops at a value.
abbrev pub matches : Bytes → Elem → Bool
matches str (num n) = false
matches str (text d) = strneq d str (length d)

strncmp_cb-matches :
    (str : Bytes) (x : Elem) → strncmp_cb str x ≡ (if matches str x then negsuc 0 else pos 0)
unfolding strncmp_cb
strncmp_cb-matches str (num n) = refl
strncmp_cb-matches str (text d) = refl

zero_sum : (r : ℤ) → (elim r as (λ x. ℤ) [ negsuc m ↦ negsuc m | pos m ↦ pos (0 + m) ]) ≡ r
zero_sum (pos m) = ap pos (omega arith)
zero_sum (negsuc m) = refl

walk_callback_stop :
    (callback : Elem → ℤ) (x : Elem) (xs : List Elem)
    → callback x ≡ negsuc 0
    → walk_callback callback (x ∷ xs) ≡ negsuc 0
unfolding walk_callback
walk_callback_stop callback x xs h = rw (walk_callback, h) refl

walk_callback_go :
    (callback : Elem → ℤ) (x : Elem) (xs : List Elem)
    → callback x ≡ pos 0
    → walk_callback callback (x ∷ xs) ≡ walk_callback callback xs
unfolding walk_callback
walk_callback_go callback x xs h = rw (walk_callback, h) (zero_sum (walk_callback callback xs))

matches-IsPrefix :
    (str : Bytes) (x : Elem) → matches str x ≡ true → (d : Bytes) × (text d ≡ x) × IsPrefix d str
matches-IsPrefix str (num n) h = cc
matches-IsPrefix str (text d) h =
    (d, refl, strneq→IsPrefix str d (strneq_comm str d (length d) ∙ h))

IsPrefix-matches : (str d : Bytes) (x : Elem) → text d ≡ x → IsPrefix d str → matches str x ≡ true
IsPrefix-matches str d x e p = rw (← e) (strneq_comm d str (length d) ∙ IsPrefix→strneq str d p)

HasPrefix-tail :
    (str : Bytes) (x : Elem) (xs : List Elem)
    → matches str x ≡ false
    → HasPrefix str (x ∷ xs)
    → HasPrefix str xs
HasPrefix-tail str x xs other (d, at, p) = elim (Memᴰ.cases_cons at) [
  | inl e ↦ let hit = IsPrefix-matches str d x e p in cc
  | inr later ↦ (d, later, p)
]

-- The traversal gives -1 when it meets a prefix, and 0 otherwise.
abbrev pub Traversed : Bytes → List Elem → ℤ → Type 0
Traversed str xs r = ((r ≡ negsuc 0) × HasPrefix str xs) ⊎ ((r ≡ pos 0) × (HasPrefix str xs → ⊥))

walk_callback-strncmp_cb :
    (str : Bytes) (xs : List Elem) → Traversed str xs (walk_callback (strncmp_cb str) xs)
unfolding walk_callback
walk_callback-strncmp_cb str [] = inr (refl, λ (d, at, p). Memᴰ.not-nil at)
walk_callback-strncmp_cb str (x ∷ xs) = elim (Bool-cases (matches str x)) [
  | inl hit ↦
      let (d, e, p) = matches-IsPrefix str x hit in
      let stops =
        walk_callback_stop (strncmp_cb str) x xs
          (strncmp_cb-matches str x ∙ ap (λ b. if b then negsuc 0 else pos 0) hit) in
      rw stops (inl (refl, (d, Memᴰ.head e, p)))
  | inr other ↦
      let goes =
        walk_callback_go (strncmp_cb str) x xs
          (strncmp_cb-matches str x ∙ ap (λ b. if b then negsuc 0 else pos 0) other) in
      elim (walk_callback-strncmp_cb str xs) [
        | inl (found, h) ↦ inl (goes ∙ found, HasPrefix-cons str x xs h)
        | inr (missing, h) ↦ inr (goes ∙ missing, λ k. h (HasPrefix-tail str x xs other k))
      ]
]

pub contains-Memᴰ : (xs : List Elem) (e : Elem) → contains xs e ≡ true → Memᴰ e xs
unfolding contains
contains-Memᴰ [] e h = cc
contains-Memᴰ (x ∷ xs) e h = elim (Bool-cases (elem_eq x e)) [
  | inl same ↦ Memᴰ.head (sym (elem_eq_sound x e same))
  | inr other ↦ Memᴰ.tail (contains-Memᴰ xs e (sym (ap (λ b. b || contains xs e) other) ∙ h))
]

Memᴰ-contains : (xs : List Elem) (e : Elem) → Memᴰ e xs → contains xs e ≡ true
unfolding contains
Memᴰ-contains [] e h = elim h [ ]
Memᴰ-contains (x ∷ xs) e (Memᴰ.head same) = rw (elem_eq_complete x e (sym same)) refl
Memᴰ-contains (x ∷ xs) e (Memᴰ.tail at) = elim (Bool-cases (elem_eq x e)) [
  | inl same ↦ rw same refl
  | inr other ↦ rw other (Memᴰ-contains xs e at)
]

module _ {T : Type 0} ⦃avl : Avl T⦄ where
  -- `check_pstr_attr_set` finds a string exactly if some string of the set is a prefix of it.
  pub check_pstr_attr_set_iff :
      (s : Entry T) (str : Bytes)
      → (check_pstr_attr_set s str ≡ true) ↔ HasPrefix str (avl.walk s.tree)
  unfolding check_pstr_attr_set
  check_pstr_attr_set_iff s str = elim (walk_callback-strncmp_cb str (avl.walk s.tree)) [
    | inl (found, h) ↦ rw (check_pstr_attr_set, found) (λ x. h, λ k. refl)
    | inr (missing, h) ↦ rw (check_pstr_attr_set, missing) (λ x. cc, λ k. absurd (h k))
  ]

  search_present :
      (s : Entry T) (e : Elem)
      → avl.search s.tree e ≡ true
      → (d : Elem) → avl.search s.tree d ≡ (elem_eq e d || avl.search s.tree d)
  search_present s e present d = elim (Bool-cases (elem_eq e d)) [
    | inl same ↦ rw same (ap (avl.search s.tree) (sym (elem_eq_sound e d same)) ∙ present)
    | inr other ↦ rw other refl
  ]

  -- A node that is inserted is in the tree, and no other value comes or goes; the flag says whether
  -- the value was new.
  pub insert_node-search :
      (s : Entry T) (e : Elem)
      → ((insert_node s e).1 ≡ not (avl.search s.tree e))
        × ((d : Elem)
            → avl.search (insert_node s e).0.tree d ≡ (elem_eq e d || avl.search s.tree d))
  unfolding insert_node
  insert_node-search s e = elim (Bool-cases (avl.search s.tree e)) [
    | inl present ↦
        rw (avl.insert_present s.tree e present) (ap not (sym present), search_present s e present)
    | inr absent ↦ (
      avl.insert_new s.tree e absent ∙ ap not (sym absent),
      λ d. avl.search-insert s.tree e d absent,
    )
  ]
