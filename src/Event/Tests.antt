-- ===== src/Event/Tests.antt =====
-- The event code on concrete input, and the instances of its properties.
use rhel_fapolicyd.Attr.{exe, exe_dir, subj_trust}
use rhel_fapolicyd.AttrSets.Sample.{Avl_List}
use rhel_fapolicyd.AttrSets.Tree.{Elem}
use rhel_fapolicyd.Base.{none, not, ◌&&◌, true, false, streq, ◌≡◌, refl, some, List, codes}
use rhel_fapolicyd.Event.{
  get_subj_attr, look_up_subj, look_up_exe, add_and_access, get_exe, trust_of, new_subj,
}
use rhel_fapolicyd.Event.Cache.{Looked, get_subj_attr-Looked, get_subj_attr-get_subj_attr}
use rhel_fapolicyd.Event.Lifecycle.{
  Asked, first_seen, collect_path, review, see_reopen, finish_static, reopen_static,
  await_interpreter, skip_reopened,
}
use rhel_fapolicyd.Event.Lifecycle.Eviction.{is_exception, review_evict}
use rhel_fapolicyd.Event.Lifecycle.Reaches.{
  Reaches, first, reviewed, collected, BothPaths, Reaches-BothPaths,
}
use rhel_fapolicyd.Event.Sample.{sample_env, sample_event, sample_info}
use rhel_fapolicyd.Process.{reopen, ProcInfo, full, has_flag}
use rhel_fapolicyd.Rules.Pattern.{is_path}
use rhel_fapolicyd.Subject.{SubjAttr, subject_access, subject_add, stored_as, subject_create}

program : Unit {0}
unfolding get_subj_attr look_up_subj look_up_exe add_and_access get_exe trust_of subject_access
    subject_add stored_as subject_create
program = tt

following : Unit {0}
unfolding first_seen collect_path review see_reopen finish_static reopen_static await_interpreter
    skip_reopened is_path has_flag streq
following = tt

abbrev execute : Asked
execute = record { open_perm = false; exec_perm = true; differs = false }

abbrev reopened : Asked
reopened = record { open_perm = true; exec_perm = false; differs = false }

-- An execute of a program, its reopening, its loader, and a library.
abbrev full_info : ProcInfo
full_info = record sample_info {
  state = full;
  path1 = some (codes "/usr/bin/ls");
  path2 = some (codes "/lib64/ld.so");
  elf_info = 0x29;
}

ls_starts : Reaches sample_env.environ sample_env.system_ld_so full_info
unfolding following
ls_starts = collected _ false (some (codes "/lib64/libc.so")) 0 (
    collected _ false (some (codes "/lib64/ld.so")) 0 (
      reviewed _ reopened
        (collected _ false (some (codes "/usr/bin/ls")) 0x29 (first sample_info execute refl))
        refl))

Reaches-BothPaths_example : BothPaths full_info
Reaches-BothPaths_example =
    Reaches-BothPaths sample_env.environ sample_env.system_ld_so full_info ls_starts refl

-- The program's interpreter is executed: the subject stays.
abbrev awaiting : ProcInfo
awaiting = record full_info { state = reopen; path2 = none }

review_evict_example :
    (review sample_env.system_ld_so execute awaiting).evict
    ≡ (true && not (is_exception execute awaiting))
review_evict_example = review_evict sample_env.system_ld_so execute awaiting refl

abbrev bash : SubjAttr (List Elem)
bash = record (new_subj exe) { str = some (codes "/usr/bin/bash") }

-- EXE_DIR is stored as EXE.
exe_dir_runs : (get_subj_attr sample_env sample_event exe_dir).1 ≡ some bash
unfolding program
exe_dir_runs = refl

get_subj_attr-Looked_example :
    Looked sample_env sample_event subj_trust (get_subj_attr sample_env sample_event subj_trust)
get_subj_attr-Looked_example = get_subj_attr-Looked sample_env sample_event subj_trust

get_subj_attr-get_subj_attr_example :
    get_subj_attr sample_env (get_subj_attr sample_env sample_event exe_dir).0 exe_dir
    ≡ ((get_subj_attr sample_env sample_event exe_dir).0, some bash)
get_subj_attr-get_subj_attr_example =
    get_subj_attr-get_subj_attr sample_env sample_event exe_dir bash exe_dir_runs
