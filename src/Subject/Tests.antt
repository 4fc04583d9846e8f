-- ===== src/Subject/Tests.antt =====
-- The arrays on concrete attributes, and the instances of their properties.
use rhel_fapolicyd.Attr.{exe, exe_dir}
use rhel_fapolicyd.AttrSets.{zeroed}
use rhel_fapolicyd.AttrSets.Sample.{Avl_List}
use rhel_fapolicyd.AttrSets.Tree.{Elem}
use rhel_fapolicyd.Base.{◌≡◌, refl, none, some, List, pos, codes}
use rhel_fapolicyd.Process.{ProcInfo, collecting}
use rhel_fapolicyd.Subject.{
  SubjAttr, SArray, stored_as, subject_create, subject_access, subject_add, subject_reset,
}

program : Unit {0}
unfolding subject_create subject_access subject_add subject_reset stored_as
program = tt

abbrev info : ProcInfo
info = record {
  pid = pos 77;
  device = 1;
  inode = 2;
  tv_sec = 3;
  tv_nsec = 4;
  state = collecting;
  path1 = none;
  path2 = none;
  elf_info = 0;
}

abbrev bash : SubjAttr (List Elem)
bash = record {
  type = exe_dir;
  uval = 0;
  pid = pos 0;
  str = some (codes "/usr/bin/bash");
  set = zeroed;
}

abbrev one : SArray (List Elem)
one = record { subj = λ t. elim t [ exe ↦ some bash | _ ↦ none ]; cnt = 1; info = info }

arrays_run :
    (subject_access (subject_add (subject_create info) bash) exe
      ≡ some (record bash { type = exe }))
    × ((subject_add one bash).cnt ≡ 2)
    × ((subject_reset one exe).cnt ≡ 0)
unfolding program
arrays_run = (refl, refl, refl)
