-- ===== src/AttrSets/Appends.antt =====
-- What the appends add to a set.
use rhel_fapolicyd.AttrSets.{
  Entry, is_string, is_unsigned, is_known, insert_node, append_int_attr_set, append_str_attr_set,
  check_int_attr_set, check_str_attr_set, check_pstr_attr_set,
}
use rhel_fapolicyd.AttrSets.Members.{
  contains-Memᴰ, elem_eq_complete, insert_node-search, check_pstr_attr_set_iff,
}
use rhel_fapolicyd.AttrSets.Tree.{Avl, Elem, num, text, elem_eq}
use rhel_fapolicyd.Base.{
  ◌≡◌, refl, sym, ap, ◌∙◌, inl, inr, Bool, true, false, not, ◌&&◌, ◌||◌, Option, some, Bool-cases,
  ◌++◌, ℤ, int_eq, int_eq_iff, is_negative, Bytes, streq,
}

module _ {T : Type 0} ⦃avl : Avl T⦄ where
  -- The set after an append, whether the value was new, and what is in the set now.
  abbrev pub Appended : Entry T → Elem → Option (Entry T) × Bool → Type 0
  Appended s e r =
      (s' : Entry T) × (r ≡ (some s', not (avl.search s.tree e)))
      × (s'.type ≡ s.type)
      × ((d : Elem) → avl.search s'.tree d ≡ (elem_eq e d || avl.search s.tree d))

  insert_node_type : (s : Entry T) (e : Elem) → (insert_node s e).0.type ≡ s.type
  unfolding insert_node
  insert_node_type s e = refl

  append_int-Appended :
      (s : Entry T) (n : ℤ)
      → is_string s.type ≡ false
      → is_known s.type ≡ true
      → (is_unsigned s.type && is_negative n) ≡ false
      → Appended s (num n) (append_int_attr_set true (some s) n)
  unfolding append_int_attr_set
  append_int-Appended s n ints known fits =
      let (flag, search) = insert_node-search s (num n) in
      rw (append_int_attr_set, ints, known, fits)
        (
          (insert_node s (num n)).0,
          ap (λ b. (some (insert_node s (num n)).0, b)) flag,
          insert_node_type s (num n),
          search,
        )

  append_str-Appended :
      (s : Entry T) (str : Bytes)
      → is_string s.type ≡ true
      → Appended s (text str) (append_str_attr_set true (some s) str)
  unfolding append_str_attr_set
  append_str-Appended s str strings =
      let (flag, search) = insert_node-search s (text str) in
      rw (append_str_attr_set, strings)
        (
          (insert_node s (text str)).0,
          ap (λ b. (some (insert_node s (text str)).0, b)) flag,
          insert_node_type s (text str),
          search,
        )

  negative_differs :
      (s : Entry T) (n m : ℤ)
      → (is_unsigned s.type && is_negative n) ≡ false
      → (is_unsigned s.type && is_negative m) ≡ true
      → int_eq n m ≡ false
  negative_differs s n m fits negative = elim (Bool-cases (int_eq n m)) [
    | inr other ↦ other
    | inl same ↦
        let e = (int_eq_iff n m).0 same in
        let clash : false ≡ true =
          sym fits ∙ ap (λ k. is_unsigned s.type && is_negative k) e ∙ negative in
        cc
  ]

  check_int_fits :
      (s : Entry T) (m : ℤ)
      → (is_unsigned s.type && is_negative m) ≡ false
      → check_int_attr_set s m ≡ avl.search s.tree (num m)
  unfolding check_int_attr_set
  check_int_fits s m fits = rw fits refl

  check_int_negative :
      (s : Entry T) (m : ℤ)
      → (is_unsigned s.type && is_negative m) ≡ true
      → check_int_attr_set s m ≡ false
  unfolding check_int_attr_set
  check_int_negative s m negative = rw negative refl

  check_int-Appended :
      (s : Entry T) (n : ℤ) (r : Option (Entry T) × Bool)
      → (is_unsigned s.type && is_negative n) ≡ false
      → Appended s (num n) r
      → (s' : Entry T) × (r ≡ (some s', not (check_int_attr_set s n)))
        × ((m : ℤ) → check_int_attr_set s' m ≡ (int_eq n m || check_int_attr_set s m))
  unfolding elem_eq
  check_int-Appended s n r fits (s', result, type, search) = (
    s',
    result ∙ ap (λ b. (some s', not b)) (sym (check_int_fits s n fits)),
    λ m. elim (Bool-cases (is_unsigned s.type && is_negative m)) [
      | inl negative ↦
          let negative' = ap (λ t. is_unsigned t && is_negative m) type ∙ negative in
          check_int_negative s' m negative'
          ∙ sym (
              ap (λ b. b || check_int_attr_set s m) (negative_differs s n m fits negative)
              ∙ check_int_negative s m negative)
      | inr room ↦
          let room' = ap (λ t. is_unsigned t && is_negative m) type ∙ room in
          check_int_fits s' m room'
          ∙ search (num m)
          ∙ ap (λ b. int_eq n m || b) (sym (check_int_fits s m room))
    ],
  )

  -- A number is appended to a set of numbers, a negative one to a signed set only. The append reports
  -- it as new exactly if the set did not hold it, and afterwards the set holds that number and those
  -- it held before, and no other.
  pub append_int-check_int :
      (s : Entry T) (n : ℤ)
      → is_string s.type ≡ false
      → is_known s.type ≡ true
      → (is_unsigned s.type && is_negative n) ≡ false
      → (s' : Entry T) × (append_int_attr_set true (some s) n
          ≡ (some s', not (check_int_attr_set s n)))
        × ((m : ℤ) → check_int_attr_set s' m ≡ (int_eq n m || check_int_attr_set s m))
  append_int-check_int s n ints known fits =
      check_int-Appended s n _ fits (append_int-Appended s n ints known fits)

  check_pstr-Appended :
      (s : Entry T) (dir rest : Bytes) (s' : Entry T)
      → ((d : Elem) → avl.search s'.tree d ≡ (elem_eq (text dir) d || avl.search s.tree d))
      → check_pstr_attr_set s' (dir ++ rest) ≡ true
  check_pstr-Appended s dir rest s' search =
      let here : avl.search s'.tree (text dir) ≡ true =
        search (text dir)
        ∙ ap (λ b. b || avl.search s.tree (text dir))
            (elem_eq_complete (text dir) (text dir) refl) in
      let at =
        contains-Memᴰ (avl.walk s'.tree) (text dir)
          (sym (avl.search-walk s'.tree (text dir)) ∙ here) in
      (check_pstr_attr_set_iff s' (dir ++ rest)).1 (dir, at, (rest, refl))

  -- A string is appended to a set of strings. The append reports it as new exactly if the set did
  -- not hold it; afterwards the set holds that string and those it held before, and no other; and
  -- every longer string that begins with it is found as a path below a directory of the set.
  pub append_str-check_pstr :
      (s : Entry T) (dir : Bytes)
      → is_string s.type ≡ true
      → (s' : Entry T) × (append_str_attr_set true (some s) dir
          ≡ (some s', not (check_str_attr_set s dir)))
        × ((str : Bytes) → check_str_attr_set s' str ≡ (streq dir str || check_str_attr_set s str))
        × ((rest : Bytes) → check_pstr_attr_set s' (dir ++ rest) ≡ true)
  unfolding check_str_attr_set elem_eq
  append_str-check_pstr s dir strings =
      let (s', result, type, search) = append_str-Appended s dir strings in
      (s', result, λ str. search (text str), λ rest. check_pstr-Appended s dir rest s' search)
