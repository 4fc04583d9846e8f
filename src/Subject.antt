-- ===== src/Subject.antt =====
-- src/library/subject.c and object.c with their headers: the attributes that an event has collected
-- about its process and about its file. An array of pointers is a function from the kind of an
-- attribute; `none` is NULL. Memory is always given here.
pub mod Arrays
mod Tests
use rhel_fapolicyd.Attr.{
  SubjType, comm, exe, exe_dir, ObjType, path, odir, subj_val, obj_val, subj_eq, obj_eq,
}
use rhel_fapolicyd.AttrSets.{Entry}
use rhel_fapolicyd.Base.{ℕ, ◌+◌, ◌-◌, Bool, Option, none, some, ◌==◌, if◌then◌else◌, ℤ, Bytes}
use rhel_fapolicyd.Process.{ProcInfo, FileInfo}

-- The union has a field for each of its members; the type says which one counts.
pub record SubjAttr (T : Type 0) : Type 0 where
  pub type : SubjType
  pub uval : ℕ
  pub pid : ℤ
  pub str : Option Bytes
  pub set : Entry T

pub record ObjAttr (T : Type 0) : Type 0 where
  pub type : ObjType
  pub val : ℕ
  pub o : Option Bytes
  pub set : Entry T

pub record SArray (T : Type 0) : Type 0 where
  pub subj : SubjType → Option (SubjAttr T)
  pub cnt : ℕ
  pub info : ProcInfo

pub record OArray (T : Type 0) : Type 0 where
  pub obj : ObjType → Option (ObjAttr T)
  pub cnt : ℕ
  pub info : FileInfo

-- EXE and EXE_DIR store the same value.
unfoldable pub stored_as : SubjType → SubjType
stored_as exe_dir = exe
stored_as t = t

module _ {T : Type 0} where
  unfoldable pub subject_create : ProcInfo → SArray T
  subject_create info = record { subj = λ t. none; cnt = 0; info = info }

  unfoldable pub subject_access : SArray T → SubjType → Option (SubjAttr T)
  unfolding stored_as
  subject_access a t = a.subj (stored_as t)

  -- A write to one slot.
  abbrev pub write_subj :
      (SubjType → Option (SubjAttr T))
      → SubjType
      → Option (SubjAttr T)
      → SubjType
      → Option (SubjAttr T)
  write_subj f t v t' = if subj_eq t t' then v else f t'

  unfoldable pub subject_add : SArray T → SubjAttr T → SArray T
  unfolding stored_as
  subject_add a subj =
      let t = stored_as subj.type in
      record a { subj = write_subj a.subj t (some (record subj { type = t })); cnt = a.cnt + 1 }

  unfoldable pub subject_find_exe : SArray T → Option (SubjAttr T)
  subject_find_exe a = a.subj exe

  unfoldable pub subject_find_comm : SArray T → Option (SubjAttr T)
  subject_find_comm a = a.subj comm

  unfoldable pub subject_reset : SArray T → SubjType → SArray T
  subject_reset a t = elim (a.subj t) [
    | none ↦ a
    | some current ↦ record a { subj = write_subj a.subj t none; cnt = a.cnt - 1 }
  ]

  unfoldable pub object_create : FileInfo → OArray T
  object_create info = record { obj = λ t. none; cnt = 0; info = info }

  unfoldable pub object_access : OArray T → ObjType → Option (ObjAttr T)
  object_access a t = a.obj t

  abbrev pub write_obj :
      (ObjType → Option (ObjAttr T)) → ObjType → Option (ObjAttr T) → ObjType → Option (ObjAttr T)
  write_obj f t v t' = if obj_eq t t' then v else f t'

  unfoldable pub object_add : OArray T → ObjAttr T → OArray T
  object_add a obj = record a { obj = write_obj a.obj obj.type (some obj); cnt = a.cnt + 1 }

  unfoldable pub object_find_file : OArray T → Option (ObjAttr T)
  object_find_file a = elim (a.obj path) [ none ↦ a.obj odir | some on ↦ some on ]
