-- ===== src/Rules/Samples.antt =====
-- Two rules about one program, and the definitions that an evaluation of them opens.
use rhel_fapolicyd.Attr.{exe, path, colon}
use rhel_fapolicyd.AttrSets.{Entry, check_str_attr_set, string_set, signed_set}
use rhel_fapolicyd.AttrSets.Sample.{Avl_List}
use rhel_fapolicyd.AttrSets.Tree.{contains, elem_eq, Elem, text}
use rhel_fapolicyd.Base.{streq, true, false, none, List, [], ◌∷◌, pos, codes}
use rhel_fapolicyd.Event.{get_subj_attr, look_up_subj, look_up_exe, add_and_access}
use rhel_fapolicyd.Event.Objects.{get_obj_attr, look_up_obj, look_up_file, add_obj}
use rhel_fapolicyd.Process.{has_flag, clear_proc_info}
use rhel_fapolicyd.Rules.{Rule, decided, deny, any_acc, check_access}
use rhel_fapolicyd.Rules.Objects.{
  rule_evaluate, check_object, check_object_from, turn_obj, test_obj, test_path,
  subject_says_untrusted,
}
use rhel_fapolicyd.Rules.Subjects.{check_subject, turn_subj, test_subj, test_exe, refuses_trusted}
use rhel_fapolicyd.Rules.Pattern.{make_decision, is_path, subj_pattern_test}
use rhel_fapolicyd.Subject.{
  subject_access, subject_create, subject_add, stored_as, object_access, object_create, object_add,
  object_find_file,
}

unfoldable pub program : Unit {0}
unfolding rule_evaluate check_access check_subject turn_subj get_subj_attr subject_access
    subject_create subject_add test_subj check_str_attr_set look_up_subj look_up_exe add_and_access
    test_exe refuses_trusted stored_as Avl_List contains elem_eq streq check_object
    check_object_from turn_obj get_obj_attr object_access object_create object_add look_up_obj
    look_up_file add_obj object_find_file test_obj test_path subject_says_untrusted
    subj_pattern_test has_flag make_decision clear_proc_info is_path
program = tt

abbrev pub shells : Entry (List Elem)
shells = record { name = none; type = string_set; tree = text (codes "/usr/bin/bash") ∷ [] }

abbrev pub untrusted_files : Entry (List Elem)
untrusted_files = record { name = none; type = signed_set; tree = [] }

-- deny perm=any exe=/usr/bin/bash : path=/tmp/x
abbrev pub deny_bash : Rule (List Elem)
deny_bash = record {
  d = decided deny true false;
  a = any_acc;
  num = 4;
  format = colon;
  s = record { type = exe; uval = 0; pid = pos 0; str = none; set = shells } ∷ [];
  o =
      record {
        type = path;
        val = 0;
        o = none;
        set = record shells { tree = text (codes "/tmp/x") ∷ [] };
      }
      ∷ [];
}

-- The same for another file.
abbrev pub deny_other : Rule (List Elem)
deny_other = record deny_bash {
  o =
      record {
        type = path;
        val = 0;
        o = none;
        set = record shells { tree = text (codes "/tmp/y") ∷ [] };
      }
      ∷ [];
}
