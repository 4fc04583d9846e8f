-- ===== src/AttrSets/Added.antt =====
-- Adding a named set to the table, and finding it again.
use rhel_fapolicyd.AttrSets.{
  DataType, is_known, Entry, AttrSets, resize_attr_sets, get_attr_set, search_from,
  search_attr_set_by_name, add_at_end, add_attr_set,
}
use rhel_fapolicyd.AttrSets.Directory.{
  IsDirectory, has_name, get_elem?-append, search_from_same, search_from_last,
}
use rhel_fapolicyd.AttrSets.Tree.{Avl}
use rhel_fapolicyd.Base.{
  ℕ, suc, ◌+◌, ◌*◌, ◌-◌, ◌<◌, ◌≡◌, refl, ap, ◌∙◌, ◌≤◌, ◌⊎◌, inl, inr, true, false, Option, some,
  ◌++◌, ◌==◌, ltb, Bool-cases, length, get_elem?, set, replicate, length-append, length-set,
  length-replicate, get_elem?-set_self, get_elem?-set_ne, Bytes, streq_iff, arith,
}

below_or {ℓ} : {A : Type ℓ} (n i : ℕ) → (i < n → A) → (n ≤ i) ⊎ A
below_or n i f = elim (Bool-cases (ltb i n)) [
  | inl below ↦ inr (f (ground arith))
  | inr above ↦ inl (ground arith)
]

module _ {T : Type 0} ⦃avl : Avl T⦄ where
  abbrev pub new_entry : Option Bytes → DataType → Entry T
  new_entry name type = record { name = name; type = type; tree = avl.empty }

  -- The result of adding a set: its index is the old size, the table stays well formed, holds the
  -- new set there, and keeps the older ones.
  pub record Added (sets : AttrSets T) (name : Option Bytes) (type : DataType)
      (r : AttrSets T × Option ℕ) : Type 0 where
    pub index : r.1 ≡ some sets.size
    pub valid : IsDirectory r.0
    pub grown : r.0.size ≡ sets.size + 1
    pub entry : get_elem? r.0.array sets.size ≡ some (new_entry name type)
    pub older : (i : ℕ) → (sets.size ≤ i) ⊎ (get_elem? r.0.array i ≡ get_elem? sets.array i)

  add_at_end_known :
      (sets : AttrSets T) (name : Option Bytes) (type : DataType)
      → 0 < sets.size
      → is_known type ≡ true
      → add_at_end sets name type ≡ (
        record sets {
          array = set sets.array sets.size (new_entry name type);
          size = sets.size + 1;
        },
        some sets.size,
      )
  unfolding add_at_end get_attr_set
  add_at_end_known sets name type positive known =
      let nonzero : (sets.size == 0) ≡ false = ground arith in
      let inside : ltb sets.size sets.size ≡ false = ground arith in
      rw (add_at_end, nonzero, inside, known) refl

  add_at_end-Added :
      (sets : AttrSets T) (name : Option Bytes) (type : DataType)
      → IsDirectory sets
      → sets.size < sets.capacity
      → is_known type ≡ true
      → Added sets name type (add_at_end sets name type)
  add_at_end-Added sets name type v free known =
      let positive = v.reserved in
      let inside : sets.size < length sets.array = omega (arith, v.allocated) in
      rw (add_at_end_known sets name type v.reserved known) (record {
        index = refl;
        valid = record {
          allocated = length-set sets.array sets.size (new_entry name type) ∙ v.allocated;
          reserved = omega arith;
          room = omega arith;
          factor = v.factor;
        };
        grown = refl;
        entry = get_elem?-set_self sets.array sets.size (new_entry name type) inside;
        older = λ i.
            below_or sets.size i
              (λ h. get_elem?-set_ne sets.array (new_entry name type) (λ e. omega arith));
      })

  -- The table after the resize.
  abbrev pub doubled : Entry T → AttrSets T → AttrSets T
  doubled junk sets = record sets {
    capacity = sets.capacity * sets.resize_factor;
    array = sets.array ++ replicate (sets.capacity * sets.resize_factor - sets.capacity) junk;
  }

  doubled-IsDirectory :
      (junk : Entry T) (sets : AttrSets T) → IsDirectory sets → IsDirectory (doubled junk sets)
  doubled-IsDirectory junk sets v =
      let n = sets.capacity * sets.resize_factor - sets.capacity in
      let twice : sets.capacity * sets.resize_factor ≡ sets.capacity + sets.capacity =
        ap (λ k. sets.capacity * k) v.factor ∙ omega arith in
      record {
        allocated =
            length-append sets.array (replicate n junk)
            ∙ ap (λ k. length sets.array + k) (length-replicate n junk)
            ∙ ap (λ k. k + n) v.allocated
            ∙ omega (arith, twice);
        reserved = v.reserved;
        room = let room = v.room in omega (arith, twice);
        factor = v.factor;
      }

  add_attr_set_full :
      (junk : Entry T) (sets : AttrSets T) (name : Option Bytes) (type : DataType)
      → (sets.size == sets.capacity) ≡ true
      → add_attr_set junk true sets name type ≡ add_at_end (doubled junk sets) name type
  unfolding add_attr_set resize_attr_sets
  add_attr_set_full junk sets name type full = rw (add_attr_set, full) refl

  add_attr_set_free :
      (junk : Entry T) (sets : AttrSets T) (name : Option Bytes) (type : DataType)
      → (sets.size == sets.capacity) ≡ false
      → add_attr_set junk true sets name type ≡ add_at_end sets name type
  unfolding add_attr_set
  add_attr_set_free junk sets name type free = rw (add_attr_set, free) refl

  Added-doubled :
      (junk : Entry T) (sets : AttrSets T) (name : Option Bytes) (type : DataType)
      (r : AttrSets T × Option ℕ)
      → IsDirectory sets
      → Added (doubled junk sets) name type r
      → Added sets name type r
  Added-doubled junk sets name type r v x = record {
    index = x.index;
    valid = x.valid;
    grown = x.grown;
    entry = x.entry;
    older = λ i.
        let room = v.room in
        elim (x.older i) [
          | inl beyond ↦ inl beyond
          | inr same ↦
              below_or sets.size i
                (λ h. same ∙ get_elem?-append sets.array _ i (omega (arith, v.allocated)))
        ];
  }

  add_attr_set-Added :
      (junk : Entry T) (sets : AttrSets T) (name : Option Bytes) (type : DataType)
      → IsDirectory sets
      → is_known type ≡ true
      → Added sets name type (add_attr_set junk true sets name type)
  add_attr_set-Added junk sets name type v known = elim (Bool-cases (sets.size == sets.capacity)) [
    | inl full ↦
        let room = v.room in
        let at : sets.size ≡ sets.capacity = ground arith in
        let positive = v.reserved in
        let twice : sets.capacity * sets.resize_factor ≡ sets.capacity + sets.capacity =
          ap (λ k. sets.capacity * k) v.factor ∙ omega arith in
        rw (add_attr_set_full junk sets name type full) (
          Added-doubled junk sets name type _ v (
            add_at_end-Added (doubled junk sets) name type (doubled-IsDirectory junk sets v)
              (omega (arith, at, twice)) known))
    | inr free ↦
        let room = v.room in
        rw (add_attr_set_free junk sets name type free)
          (add_at_end-Added sets name type v (ground arith) known)
  ]

  found_at_end :
      (sets : AttrSets T) (key : Bytes) (type : DataType) (r : AttrSets T × Option ℕ)
      → 0 < sets.size
      → search_attr_set_by_name sets key ≡ 0
      → Added sets (some key) type r
      → search_attr_set_by_name r.0 key ≡ sets.size
  unfolding search_attr_set_by_name
  found_at_end sets key type r positive missing x =
      let n = sets.size - 1 in
      let last : 1 + n ≡ sets.size = omega arith in
      let turns : r.0.size - 1 ≡ suc n = omega (arith, x.grown) in
      let before =
        search_from_same r.0.array sets.array key n 1
          (λ j h k. elim (x.older j) [ inl beyond ↦ absurd (omega arith) | inr same ↦ same ]) in
      let named : has_name key (get_elem? r.0.array (1 + n)) ≡ true =
        ap (λ k. has_name key (get_elem? r.0.array k)) last
        ∙ ap (has_name key) x.entry
        ∙ (streq_iff key key).1 refl in
      ap (λ k. search_from r.0.array key k 1) turns
      ∙ search_from_last r.0.array key n 1 (omega arith) (before ∙ missing) named
      ∙ last

  -- A set of a known type is added under a name that the table does not have yet, with memory given
  -- where the table has to grow. The call gives the old size as the set's index, the table stays
  -- well formed and keeps its other sets, the new entry has the name, the type and an empty tree,
  -- and a search for the name now gives that index.
  pub add_attr_set-search_attr_set_by_name :
      (junk : Entry T) (sets : AttrSets T) (key : Bytes) (type : DataType)
      → IsDirectory sets
      → is_known type ≡ true
      → search_attr_set_by_name sets key ≡ 0
      → Added sets (some key) type (add_attr_set junk true sets (some key) type)
        × (search_attr_set_by_name (add_attr_set junk true sets (some key) type).0 key ≡ sets.size)
  add_attr_set-search_attr_set_by_name junk sets key type v known missing =
      let added = add_attr_set-Added junk sets (some key) type v known in
      (added, found_at_end sets key type _ v.reserved missing added)
