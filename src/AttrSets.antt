-- ===== src/AttrSets.antt =====
-- src/library/attr-sets.c and attr-sets.h: the sets of values that rules name and that a subject's
-- credentials form. The balanced tree below them (library/avl.c, a copy of netdata's and libavl's
-- code) is the parameter `Avl`.
pub mod Tree
pub mod Members
pub mod Appends
pub mod Directory
pub mod Added
pub mod Sample
mod Tests
use rhel_fapolicyd.AttrSets.Tree.{Avl, Elem, num, text, walk_callback}
use rhel_fapolicyd.Base.{
  ℕ, zero, suc, ◌+◌, ◌*◌, ◌-◌, Bool, true, false, not, ◌&&◌, ◌||◌, Option, none, some, List, [],
  ◌∷◌, ◌++◌, ltb, ◌==◌, if◌then◌else◌, length, get_elem?, set, replicate, ℤ, pos, negsuc,
  is_negative, Bytes, streq, strneq,
}

-- STRING, SIGNED, UNSIGNED; `other_type` is any other number, the 0 of a zeroed entry with it.
pub data DataType : Type 0 where
  string_set signed_set unsigned_set other_type : DataType

abbrev pub is_string : DataType → Bool
is_string string_set = true
is_string _ = false

abbrev pub is_unsigned : DataType → Bool
is_unsigned unsigned_set = true
is_unsigned _ = false

abbrev pub is_known : DataType → Bool
is_known other_type = false
is_known _ = true

pub record Entry (T : Type 0) : Type 0 where
  pub name : Option Bytes
  pub type : DataType
  pub tree : T

pub record AttrSets (T : Type 0) : Type 0 where
  pub capacity : ℕ
  pub size : ℕ
  pub resize_factor : ℕ
  pub array : List (Entry T)

-- `strncmp_cb`: -1 at a node that is a prefix of the string, 0 elsewhere.
unfoldable pub strncmp_cb : Bytes → Elem → ℤ
strncmp_cb str (num n) = pos 0
strncmp_cb str (text s) = if strneq s str (length s) then negsuc 0 else pos 0

module _ {T : Type 0} ⦃avl : Avl T⦄ where
  -- An entry after `memset`.
  abbrev pub zeroed : Entry T
  zeroed = record { name = none; type = other_type; tree = avl.empty }

  unfoldable pub init_attr_sets : Bool → Option (AttrSets T)
  init_attr_sets malloc_ok =
      if malloc_ok
      then some
          (record { capacity = 100; size = 1; resize_factor = 2; array = replicate 100 zeroed })
      else none

  -- `junk` is what the memory that `realloc` adds holds.
  unfoldable pub resize_attr_sets : Entry T → Bool → AttrSets T → Option (AttrSets T)
  resize_attr_sets junk realloc_ok sets =
      let new_capacity = sets.capacity * sets.resize_factor in
      if realloc_ok
      then some (record sets {
        capacity = new_capacity;
        array = sets.array ++ replicate (new_capacity - sets.capacity) junk;
      })
      else none

  -- The index of the entry that the pointer is to; `none` for NULL.
  unfoldable pub get_attr_set : AttrSets T → ℕ → Option ℕ
  get_attr_set sets index =
      if index == 0 then none else if ltb sets.size index then none else some index

  -- The loop of `search_attr_set_by_name` over the entries from index `i` on, `n` of them.
  unfoldable pub search_from : List (Entry T) → Bytes → ℕ → ℕ → ℕ
  search_from array key zero i = 0
  search_from array key (suc n) i =
      let rest = search_from array key n (i + 1) in
      elim (get_elem? array i) [
        | none ↦ rest
        | some entry ↦ elim entry.name [
          | none ↦ rest
          | some nname ↦ if streq nname key then i else rest
        ]
      ]

  unfoldable pub search_attr_set_by_name : AttrSets T → Bytes → ℕ
  unfolding search_from
  search_attr_set_by_name sets key = search_from sets.array key (sets.size - 1) 1

  -- The part of `add_attr_set` behind the resize. An unknown type leaves a zeroed entry.
  unfoldable pub add_at_end : AttrSets T → Option Bytes → DataType → AttrSets T × Option ℕ
  unfolding get_attr_set
  add_at_end sets name type = elim (get_attr_set sets sets.size) [
    | none ↦ (sets, none)
    | some i ↦
        if is_known type
        then (
          record sets {
            array = set sets.array i (record { name = name; type = type; tree = avl.empty });
            size = sets.size + 1;
          },
          some sets.size,
        )
        else (record sets { array = set sets.array i zeroed }, none)
  ]

  -- The index of the new set, or `none` for the return value 1.
  unfoldable pub add_attr_set :
      Entry T → Bool → AttrSets T → Option Bytes → DataType → AttrSets T × Option ℕ
  unfolding add_at_end resize_attr_sets
  add_attr_set junk realloc_ok sets name type =
      if sets.size == sets.capacity
      then elim (resize_attr_sets junk realloc_ok sets) [
        | none ↦ (sets, none)
        | some larger ↦ add_at_end larger name type
      ]
      else add_at_end sets name type

  unfoldable pub init_standalone_set : Bool → DataType → Option (Entry T)
  init_standalone_set malloc_ok type =
      if not malloc_ok
      then none
      else if is_known type
      then some (record { name = none; type = type; tree = avl.empty })
      else none

  -- `avl_insert` of a new node: the flag is true for the return value 0, false for 1.
  unfoldable pub insert_node : Entry T → Elem → Entry T × Bool
  insert_node s e = let r = avl.insert s.tree e in (record s { tree = r.0 }, r.1)

  unfoldable pub append_int_attr_set : Bool → Option (Entry T) → ℤ → Option (Entry T) × Bool
  unfolding insert_node
  append_int_attr_set malloc_ok none n = (none, false)
  append_int_attr_set malloc_ok (some s) n =
      if is_string s.type || not (is_known s.type)
      then (some s, false)
      else if is_unsigned s.type && is_negative n
      then (some s, false)
      else if not malloc_ok
      then (some s, false)
      else let r = insert_node s (num n) in (some r.0, r.1)

  unfoldable pub append_str_attr_set : Bool → Option (Entry T) → Bytes → Option (Entry T) × Bool
  unfolding insert_node
  append_str_attr_set malloc_ok none str = (none, false)
  append_str_attr_set malloc_ok (some s) str =
      if not (is_string s.type)
      then (some s, false)
      else if not malloc_ok
      then (some s, false)
      else let r = insert_node s (text str) in (some r.0, r.1)

  unfoldable pub is_attr_set_empty : Option (Entry T) → Bool
  is_attr_set_empty none = true
  is_attr_set_empty (some s) = elim (avl.walk s.tree) [ [] ↦ true | _ ∷ _ ↦ false ]

  unfoldable pub check_int_attr_set : Entry T → ℤ → Bool
  check_int_attr_set s n =
      if is_unsigned s.type && is_negative n then false else avl.search s.tree (num n)

  unfoldable pub check_str_attr_set : Entry T → Bytes → Bool
  check_str_attr_set s str = avl.search s.tree (text str)

  unfoldable pub check_pstr_attr_set : Entry T → Bytes → Bool
  unfolding strncmp_cb
  check_pstr_attr_set s str = elim (walk_callback (strncmp_cb str) (avl.walk s.tree)) [
    | pos n ↦ false
    | negsuc n ↦ n == 0
  ]

  -- `avl_intersection`: is a value of the first tree in the second?
  unfoldable pub intersects : List Elem → T → Bool
  intersects [] haystack = false
  intersects (e ∷ es) haystack = if avl.search haystack e then true else intersects es haystack

  unfoldable pub avl_intersection : T → T → Bool
  unfolding intersects
  avl_intersection needle haystack = intersects (avl.walk needle) haystack
