-- ===== src/AttrSets/Directory.antt =====
-- The table of named sets: adding a set and finding it again.
use rhel_fapolicyd.AttrSets.{Entry, AttrSets, search_from}
use rhel_fapolicyd.AttrSets.Tree.{Avl}
use rhel_fapolicyd.Base.{
  ℕ, zero, suc, ◌+◌, ◌≤◌, ◌<◌, ◌≡◌, refl, sym, ap, ◌∙◌, inl, inr, Bool, true, false, Option, none,
  some, List, [], ◌∷◌, ◌++◌, Bool-cases, length, get_elem?, Option-cases, Bytes, streq,
  if◌then◌else◌, arith,
}

module _ {T : Type 0} where
  -- Is the entry there, and has it this name?
  abbrev pub has_name : Bytes → Option (Entry T) → Bool
  has_name key none = false
  has_name key (some entry) = elim entry.name [ none ↦ false | some nname ↦ streq nname key ]

  -- The table as the code keeps it between calls.
  pub record IsDirectory (sets : AttrSets T) : Type 0 where
    pub allocated : length sets.array ≡ sets.capacity
    pub reserved : 0 < sets.size
    pub room : sets.size ≤ sets.capacity
    pub factor : sets.resize_factor ≡ 2

  pub get_elem?-append :
      (xs ys : List (Entry T)) (i : ℕ) → i < length xs → get_elem? (xs ++ ys) i ≡ get_elem? xs i
  get_elem?-append [] ys i h = absurd (omega arith)
  get_elem?-append (x ∷ xs) ys zero h = refl
  get_elem?-append (x ∷ xs) ys (suc i) h = get_elem?-append xs ys i (omega arith)

module _ {T : Type 0} ⦃avl : Avl T⦄ where
  -- What one turn of the search does with the entry it looks at.
  abbrev pub turn : Bytes → ℕ → ℕ → Option (Entry T) → ℕ
  turn key i rest none = rest
  turn key i rest (some entry) = elim entry.name [
    | none ↦ rest
    | some nname ↦ if streq nname key then i else rest
  ]

  search_from-turn :
      (array : List (Entry T)) (key : Bytes) (n i : ℕ) (e : Option (Entry T))
      → get_elem? array i ≡ e
      → search_from array key (suc n) i ≡ turn key i (search_from array key n (i + 1)) e
  unfolding search_from
  search_from-turn array key n i none h = rw (search_from, h) refl
  search_from-turn array key n i (some entry) h = rw (search_from, h) refl

  turn_cases :
      (key : Bytes) (i rest : ℕ) (e : Option (Entry T))
      → turn key i rest e ≡ (if has_name key e then i else rest)
  turn_cases key i rest none = refl
  turn_cases key i rest (some entry) = elim (Option-cases entry.name) [
    | inl nameless ↦ rw nameless refl
    | inr (nname, named) ↦ rw named refl
  ]

  search_from-suc :
      (array : List (Entry T)) (key : Bytes) (n i : ℕ)
      → search_from array key (suc n) i
        ≡ (if has_name key (get_elem? array i) then i else search_from array key n (i + 1))
  search_from-suc array key n i =
      search_from-turn array key n i (get_elem? array i) refl
      ∙ turn_cases key i (search_from array key n (i + 1)) (get_elem? array i)

  -- The search looks only at the entries of its range.
  pub search_from_same :
      (a b : List (Entry T)) (key : Bytes) (n i : ℕ)
      → ((j : ℕ) → i ≤ j → j < i + n → get_elem? a j ≡ get_elem? b j)
      → search_from a key n i ≡ search_from b key n i
  unfolding search_from
  search_from_same a b key zero i h = refl
  search_from_same a b key (suc n) i h =
      let here = h i (omega arith) (omega arith) in
      let later = search_from_same a b key n (i + 1) (λ j k l. h j (omega arith) (omega arith)) in
      search_from-suc a key n i
      ∙ ap (λ e. if has_name key e then i else search_from a key n (i + 1)) here
      ∙ ap (λ r. if has_name key (get_elem? b i) then i else r) later
      ∙ sym (search_from-suc b key n i)

  -- A name that the range does not have is found in the entry behind it.
  pub search_from_last :
      (array : List (Entry T)) (key : Bytes) (n i : ℕ)
      → 0 < i
      → search_from array key n i ≡ 0
      → has_name key (get_elem? array (i + n)) ≡ true
      → search_from array key (suc n) i ≡ i + n
  search_from_last array key zero i positive missing named =
      let at : i + 0 ≡ i = omega arith in
      search_from-suc array key zero i
      ∙ ap (λ b. if b then i else search_from array key zero (i + 1))
          (ap (λ k. has_name key (get_elem? array k)) (sym at) ∙ named)
      ∙ sym at
  search_from_last array key (suc n) i positive missing named =
      elim (Bool-cases (has_name key (get_elem? array i))) [
        | inl hit ↦
            let found : i ≡ 0 =
              sym (ap (λ b. if b then i else search_from array key n (i + 1)) hit)
              ∙ sym (search_from-suc array key n i)
              ∙ missing in
            absurd (omega arith)
        | inr miss ↦
            let at : i + suc n ≡ i + 1 + n = omega arith in
            let go = ap (λ b. if b then i else search_from array key n (i + 1)) miss in
            let later =
              search_from_last array key n (i + 1) (omega arith)
                (sym go ∙ sym (search_from-suc array key n i) ∙ missing)
                (ap (λ k. has_name key (get_elem? array k)) (sym at) ∙ named) in
            search_from-suc array key (suc n) i
            ∙ ap (λ b. if b then i else search_from array key (suc n) (i + 1)) miss
            ∙ later
            ∙ sym at
      ]
