-- ===== src/AttrSets/Tests.antt =====
-- The sets on concrete values, and the instances of their properties.
use rhel_fapolicyd.AttrSets.{
  Entry, AttrSets, zeroed, string_set, unsigned_set, check_int_attr_set, check_str_attr_set,
  check_pstr_attr_set, append_int_attr_set, append_str_attr_set, add_attr_set,
  search_attr_set_by_name, search_from, init_attr_sets, avl_intersection, intersects, strncmp_cb,
  insert_node, add_at_end, resize_attr_sets, get_attr_set,
}
use rhel_fapolicyd.AttrSets.Appends.{append_str-check_pstr}
use rhel_fapolicyd.AttrSets.Directory.{IsDirectory}
use rhel_fapolicyd.AttrSets.Members.{HasPrefix, check_pstr_attr_set_iff}
use rhel_fapolicyd.AttrSets.Sample.{Avl_List, insert_first}
use rhel_fapolicyd.AttrSets.Tree.{Elem, num, text, contains, elem_eq, walk_callback}
use rhel_fapolicyd.Base.{
  ◌≡◌, ◌↔◌, refl, true, false, not, ◌||◌, none, some, List, [], ◌∷◌, ◌++◌, pos, negsuc, Bytes,
  codes, streq, strneq, arith,
}

program : Unit {0}
unfolding check_int_attr_set check_pstr_attr_set append_int_attr_set append_str_attr_set
    add_attr_set search_attr_set_by_name search_from init_attr_sets avl_intersection intersects
    strncmp_cb insert_node add_at_end resize_attr_sets get_attr_set insert_first Avl_List contains
    elem_eq walk_callback streq strneq check_str_attr_set
program = tt

abbrev directories : Entry (List Elem)
directories = record {
  name = some (codes "dirs");
  type = string_set;
  tree = text (codes "/usr/") ∷ text (codes "/opt/") ∷ [];
}

abbrev numbers : Entry (List Elem)
numbers = record { name = none; type = unsigned_set; tree = num (pos 7) ∷ [] }

-- A full table of two entries.
abbrev full_table : AttrSets (List Elem)
full_table = record { capacity = 2; size = 2; resize_factor = 2; array = zeroed ∷ directories ∷ [] }

sets_run :
    (check_pstr_attr_set directories (codes "/usr/bin/ls") ≡ true)
    × (check_pstr_attr_set directories (codes "/us") ≡ false)
    × (check_int_attr_set numbers (negsuc 0) ≡ false)
    × (avl_intersection numbers.tree (num (pos 3) ∷ num (pos 7) ∷ []) ≡ true)
    × ((append_int_attr_set true (some numbers) (pos 7)).1 ≡ false)
    × ((add_attr_set numbers true full_table (some (codes "ids")) unsigned_set).1 ≡ some 2)
unfolding program
sets_run = (refl, refl, refl, refl, refl, refl)

check_pstr_attr_set_iff_example :
    (check_pstr_attr_set directories (codes "/usr/bin/ls") ≡ true)
    ↔ HasPrefix (codes "/usr/bin/ls") directories.tree
unfolding program
check_pstr_attr_set_iff_example = check_pstr_attr_set_iff directories (codes "/usr/bin/ls")

append_str-check_pstr_example :
    (s' : Entry (List Elem)) × (append_str_attr_set true (some directories) (codes "/srv/")
      ≡ (some s', not (check_str_attr_set directories (codes "/srv/"))))
    × ((str : Bytes)
        → check_str_attr_set s' str
          ≡ (streq (codes "/srv/") str || check_str_attr_set directories str))
    × ((rest : Bytes) → check_pstr_attr_set s' (codes "/srv/" ++ rest) ≡ true)
append_str-check_pstr_example = append_str-check_pstr directories (codes "/srv/") refl

full_table-IsDirectory : IsDirectory full_table
full_table-IsDirectory = record {
  allocated = refl;
  reserved = omega arith;
  room = omega arith;
  factor = refl;
}

ids_missing : search_attr_set_by_name full_table (codes "ids") ≡ 0
unfolding program
ids_missing = refl
