-- ===== src/Event.antt =====
-- src/library/event.c and event.h: `get_subj_attr` and `get_obj_attr`, which look an attribute of an
-- event up when a rule first asks for it and keep it in the event's arrays. What they read outside
-- the program is the record `Env`. An event's mask is two flags, FAN_OPEN_PERM and
-- FAN_OPEN_EXEC_PERM.
pub mod Objects
pub mod Cache
pub mod Lifecycle
pub mod ObjectCache
pub mod Sample
mod Tests
use rhel_fapolicyd.Attr.{
  SubjType, all_subj, auid, uid, sessionid, pid, ppid, pattern, subj_trust, gid, comm, exe, exe_dir,
  exe_type, ObjType, all_obj, path, odir, device, ftype, obj_trust, file_hash, fmode,
}
use rhel_fapolicyd.AttrSets.{Entry, other_type, zeroed}
use rhel_fapolicyd.AttrSets.Tree.{Avl}
use rhel_fapolicyd.Base.{
  ℕ, ◌||◌, Bool, true, false, Option, none, some, List, [], ◌∷◌, ◌==◌, if◌then◌else◌, ℤ, pos,
  negsuc, int_eq, Bytes, codes, take,
}
use rhel_fapolicyd.Process.{FileInfo, HashAlg, alg_none, alg_sha256}
use rhel_fapolicyd.Subject.{
  SubjAttr, ObjAttr, SArray, OArray, subject_access, subject_add, object_access, object_add,
  object_find_file,
}

-- The PROC_STAT_* bits.
pub record StatusMask : Type 0 where
  pub ppid_bit : Bool
  pub uid_bit : Bool
  pub gid_bit : Bool
  pub comm_bit : Bool

unfoldable pub mask_or : StatusMask → StatusMask → StatusMask
mask_or a b = record {
  ppid_bit = a.ppid_bit || b.ppid_bit;
  uid_bit = a.uid_bit || b.uid_bit;
  gid_bit = a.gid_bit || b.gid_bit;
  comm_bit = a.comm_bit || b.comm_bit;
}

pub record StatusInfo (T : Type 0) : Type 0 where
  pub ppid : ℤ
  pub uid : Entry T
  pub groups : Entry T
  pub comm : Option Bytes

-- What the event code reads: /proc, the descriptor of the file, and the trust database. A pid stands
-- before a name in each; `enoent` says that /proc/<pid>/exe gave ENOENT. The
-- path of the dynamic linker, SYSTEM_LD_SO, is set by the build.
pub record Env (T : Type 0) : Type 0 where
  pub program_auid : ℤ → ℕ
  pub program_sessionid : ℤ → ℕ
  pub proc_status : ℤ → StatusMask → Option (StatusInfo T)
  pub enoent : ℤ → Bool
  pub program : ℤ → Option Bytes
  pub type_of_program : ℤ → Option Bytes
  pub environ : ℤ → ℤ
  pub trust_database : Bytes → ℤ
  pub trust_database_file : Bytes → FileInfo → ℤ → ℤ × FileInfo
  pub file_from_fd : ℤ → ℤ → Option Bytes
  pub device_from_stat : ℕ → Option Bytes
  pub file_type_from_fd : ℤ → FileInfo → Bytes → Option Bytes
  pub hash_from_fd : ℤ → ℕ → HashAlg → Option Bytes
  pub rules_mask : StatusMask
  pub syslog_mask : StatusMask
  pub system_ld_so : Bytes

pub record Event (T : Type 0) : Type 0 where
  pub pid : ℤ
  pub fd : ℤ
  pub open_perm : Bool
  pub open_exec_perm : Bool
  pub num : ℕ
  pub s : SArray T
  pub o : OArray T

abbrev pub question_mark : Bytes
question_mark = codes "?"

-- `ptr ? strdup(buf) : strdup("?")`
abbrev pub or_question : Option Bytes → Option Bytes
or_question none = some question_mark
or_question (some b) = some b

abbrev pub has_path : Option Bytes → Bytes
has_path none = question_mark
has_path (some b) = b

module _ {T : Type 0} ⦃avl : Avl T⦄ where
  -- A new attribute with one member of the union set.
  abbrev pub new_subj : SubjType → SubjAttr T
  new_subj t = record { type = t; uval = 0; pid = pos 0; str = none; set = zeroed }

  abbrev pub new_obj : ObjType → ObjAttr T
  new_obj t = record { type = t; val = 0; o = none; set = zeroed }

  abbrev pub add_subj_if : Bool → SubjAttr T → SArray T → SArray T
  add_subj_if b sub s = if b then subject_add s sub else s

  -- The four blocks behind the read of /proc/<pid>/status.
  unfoldable pub add_status : StatusMask → StatusInfo T → SArray T → SArray T
  add_status mask info s =
      add_subj_if mask.comm_bit (record (new_subj comm) { str = info.comm })
        (add_subj_if mask.gid_bit (record (new_subj gid) { set = info.groups })
          (add_subj_if mask.uid_bit (record (new_subj uid) { set = info.uid })
            (add_subj_if mask.ppid_bit (record (new_subj ppid) { pid = info.ppid }) s)))

  unfoldable pub fetch_proc_status : Env T → Event T → SubjType → Event T × Option (SubjAttr T)
  unfolding add_status
  fetch_proc_status env e t =
      let mask = mask_or env.rules_mask env.syslog_mask in
      elim (env.proc_status e.pid mask) [
        | none ↦ (e, none)
        | some info ↦
            let s' = add_status mask info e.s in (record e { s = s' }, subject_access s' t)
      ]

  -- The end of `get_subj_attr`: the attribute is added, and read back.
  unfoldable pub add_and_access : Event T → SubjType → SubjAttr T → Event T × Option (SubjAttr T)
  add_and_access e t sub =
      let s' = subject_add e.s sub in (record e { s = s' }, subject_access s' t)

  -- The string of a kworker's COMM, which stands in for its missing EXE.
  unfoldable pub comm_or_question : Option (SubjAttr T) → Option Bytes
  comm_or_question none = some question_mark
  comm_or_question (some sn) = sn.str

  unfoldable pub kworker_comm : Env T → Event T → Event T × Option (SubjAttr T)
  kworker_comm env e = elim (subject_access e.s comm) [
    | none ↦ fetch_proc_status env e comm
    | some sn ↦ (e, some sn)
  ]

  -- The case of EXE and EXE_DIR, behind the look into the array.
  unfoldable pub look_up_exe : Env T → Event T → SubjType → Event T × Option (SubjAttr T)
  unfolding kworker_comm comm_or_question add_and_access
  look_up_exe env e t =
      if env.enoent e.pid
      then (let r = kworker_comm env e in
          add_and_access r.0 t (record (new_subj t) { str = comm_or_question r.1 }))
      else add_and_access e t (record (new_subj t) { str = or_question (env.program e.pid) })

  -- `get_subj_attr(e, EXE)`
  unfoldable pub get_exe : Env T → Event T → Event T × Option (SubjAttr T)
  unfolding look_up_exe
  get_exe env e = elim (subject_access e.s exe) [
    | none ↦ look_up_exe env e exe
    | some sn ↦ (e, some sn)
  ]

  -- 1 exactly if the trust database answers 1 for the program's path.
  unfoldable pub trust_of : Env T → Option (SubjAttr T) → ℕ
  trust_of env none = 0
  trust_of env (some sn) = elim sn.str [
    | none ↦ 0
    | some str ↦ if int_eq (env.trust_database str) (pos 1) then 1 else 0
  ]

  -- The switch of `get_subj_attr`.
  unfoldable pub look_up_subj : Env T → Event T → SubjType → Event T × Option (SubjAttr T)
  unfolding look_up_exe get_exe trust_of add_and_access
  look_up_subj env e auid =
      add_and_access e auid (record (new_subj auid) { uval = env.program_auid e.pid })
  look_up_subj env e ppid = fetch_proc_status env e ppid
  look_up_subj env e uid = fetch_proc_status env e uid
  look_up_subj env e gid = fetch_proc_status env e gid
  look_up_subj env e comm = fetch_proc_status env e comm
  look_up_subj env e sessionid =
      add_and_access e sessionid
        (record (new_subj sessionid) { uval = env.program_sessionid e.pid })
  look_up_subj env e pid = add_and_access e pid (record (new_subj pid) { pid = e.pid })
  look_up_subj env e exe = look_up_exe env e exe
  look_up_subj env e exe_dir = look_up_exe env e exe_dir
  look_up_subj env e exe_type =
      add_and_access e exe_type
        (record (new_subj exe_type) { str = or_question (env.type_of_program e.pid) })
  look_up_subj env e subj_trust =
      let r = get_exe env e in
      add_and_access r.0 subj_trust (record (new_subj subj_trust) { uval = trust_of env r.1 })
  look_up_subj env e all_subj = (e, none)
  look_up_subj env e pattern = (e, none)

  unfoldable pub get_subj_attr : Env T → Event T → SubjType → Event T × Option (SubjAttr T)
  unfolding look_up_subj
  get_subj_attr env e t = elim (subject_access e.s t) [
    | none ↦ look_up_subj env e t
    | some sn ↦ (e, some sn)
  ]
