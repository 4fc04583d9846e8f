-- ===== src/Event/Sample.antt =====
-- A system with one program and one file, and an event on it, for the concrete runs.
use rhel_fapolicyd.AttrSets.{Entry, signed_set}
use rhel_fapolicyd.AttrSets.Sample.{Avl_List}
use rhel_fapolicyd.AttrSets.Tree.{Elem, num}
use rhel_fapolicyd.Base.{true, false, none, some, List, [], ◌∷◌, pos, codes}
use rhel_fapolicyd.Event.{Env, Event, StatusMask}
use rhel_fapolicyd.Process.{ProcInfo, FileInfo, alg_none, collecting}
use rhel_fapolicyd.Subject.{subject_create, object_create}

abbrev pub everything : StatusMask
everything = record { ppid_bit = true; uid_bit = true; gid_bit = true; comm_bit = true }

abbrev pub uids : Entry (List Elem)
uids = record { name = none; type = signed_set; tree = num (pos 1000) ∷ [] }

abbrev pub sample_env : Env (List Elem)
sample_env = record {
  program_auid = λ pid. 1000;
  program_sessionid = λ pid. 3;
  proc_status = λ pid mask.
      some (record { ppid = pos 1; uid = uids; groups = uids; comm = some (codes "bash") });
  enoent = λ pid. false;
  program = λ pid. some (codes "/usr/bin/bash");
  type_of_program = λ pid. none;
  environ = λ pid. pos 0;
  trust_database = λ path. pos 1;
  trust_database_file = λ path info fd. (pos 0, info);
  file_from_fd = λ fd pid. some (codes "/tmp/x");
  device_from_stat = λ device. none;
  file_type_from_fd = λ fd info path. none;
  hash_from_fd = λ fd size alg. none;
  rules_mask = everything;
  syslog_mask = everything;
  system_ld_so = codes "/lib64/ld-linux-x86-64.so.2";
}

abbrev pub sample_info : ProcInfo
sample_info = record {
  pid = pos 77;
  device = 1;
  inode = 2;
  tv_sec = 3;
  tv_nsec = 4;
  state = collecting;
  path1 = none;
  path2 = none;
  elf_info = 0;
}

abbrev pub sample_file : FileInfo
sample_file = record {
  device = 1;
  inode = 9;
  mode = 0;
  size = 100;
  tv_sec = 5;
  tv_nsec = 6;
  digest_alg = alg_none;
  digest = [];
}

abbrev pub sample_event : Event (List Elem)
sample_event = record {
  pid = pos 77;
  fd = pos 12;
  open_perm = false;
  open_exec_perm = true;
  num = 0;
  s = subject_create sample_info;
  o = object_create sample_file;
}
