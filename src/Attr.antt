-- ===== src/Attr.antt =====
-- src/library/subject-attr.c, object-attr.c, their headers and nv.h: the kinds of attributes that a
-- rule can test, and the tables of their names. `none` stands for -1 and for NULL.
pub mod Names
mod Tests
use rhel_fapolicyd.Base.{
  ℕ, ◌-◌, Bool, true, false, Option, none, some, List, [], ◌∷◌, ltb, ◌||◌, ◌==◌, if◌then◌else◌,
  get_elem?, length, Bytes, codes, streq,
}

pub data RuleFormat : Type 0 where
  orig colon : RuleFormat

pub data SubjType : Type 0 where
  all_subj auid uid sessionid pid ppid pattern subj_trust gid comm exe exe_dir exe_type : SubjType

pub data ObjType : Type 0 where
  all_obj path odir device ftype obj_trust file_hash fmode : ObjType

-- The values of the two enumerations.
abbrev pub subj_val : SubjType → ℕ
subj_val all_subj = 0
subj_val auid = 1
subj_val uid = 2
subj_val sessionid = 3
subj_val pid = 4
subj_val ppid = 5
subj_val pattern = 6
subj_val subj_trust = 7
subj_val gid = 8
subj_val comm = 9
subj_val exe = 10
subj_val exe_dir = 11
subj_val exe_type = 12

abbrev pub subj_end : ℕ
subj_end = 12

abbrev pub obj_start : ℕ
obj_start = 16

abbrev pub obj_val : ObjType → ℕ
obj_val all_obj = 16
obj_val path = 17
obj_val odir = 18
obj_val device = 19
obj_val ftype = 20
obj_val obj_trust = 21
obj_val file_hash = 22
obj_val fmode = 23

abbrev pub obj_end : ℕ
obj_end = 23

abbrev pub subj_eq : SubjType → SubjType → Bool
subj_eq a b = subj_val a == subj_val b

abbrev pub obj_eq : ObjType → ObjType → Bool
obj_eq a b = obj_val a == obj_val b

abbrev pub table1 : List (SubjType × Bytes)
table1 =
    (all_subj, codes "all")
    ∷ (auid, codes "auid")
    ∷ (uid, codes "uid")
    ∷ (sessionid, codes "sessionid")
    ∷ (pid, codes "pid")
    ∷ (pattern, codes "pattern")
    ∷ (comm, codes "comm")
    ∷ (exe, codes "exe")
    ∷ (exe_dir, codes "exe_dir")
    ∷ (exe_type, codes "exe_type")
    ∷ []

abbrev pub table2 : List (SubjType × Bytes)
table2 =
    (all_subj, codes "all")
    ∷ (auid, codes "auid")
    ∷ (uid, codes "uid")
    ∷ (sessionid, codes "sessionid")
    ∷ (pid, codes "pid")
    ∷ (ppid, codes "ppid")
    ∷ (pattern, codes "pattern")
    ∷ (subj_trust, codes "trust")
    ∷ (gid, codes "gid")
    ∷ (comm, codes "comm")
    ∷ (exe, codes "exe")
    ∷ (exe_dir, codes "dir")
    ∷ (exe_type, codes "ftype")
    ∷ []

abbrev pub obj_table : List (ObjType × Bytes)
obj_table =
    (all_obj, codes "all")
    ∷ (path, codes "path")
    ∷ (odir, codes "dir")
    ∷ (device, codes "device")
    ∷ (ftype, codes "ftype")
    ∷ (obj_trust, codes "trust")
    ∷ (file_hash, codes "filehash")
    ∷ (fmode, codes "mode")
    ∷ []

-- The loops over the tables: the value of the first row with the name.
unfoldable pub find_name {ℓ} : {A : Type ℓ} → List (A × Bytes) → Bytes → Option A
unfolding streq
find_name [] name = none
find_name ((v, row) ∷ rows) name = if streq name row then some v else find_name rows name

-- The name in the row at an index.
unfoldable pub row_name {ℓ} : {A : Type ℓ} → List (A × Bytes) → ℕ → Option Bytes
row_name rows i = elim (get_elem? rows i) [ none ↦ none | some (v, name) ↦ some name ]

unfoldable pub subj_table : RuleFormat → List (SubjType × Bytes)
subj_table orig = table1
subj_table colon = table2

unfoldable pub subj_name_to_val : Bytes → RuleFormat → Option SubjType
unfolding find_name subj_table
subj_name_to_val name format = find_name (subj_table format) name

unfoldable pub subj_val_to_name : ℕ → RuleFormat → Option Bytes
unfolding row_name subj_table
subj_val_to_name v format = if ltb subj_end v then none else row_name (subj_table format) v

unfoldable pub obj_name_to_val : Bytes → Option ObjType
unfolding find_name streq
obj_name_to_val name =
    if streq name (codes "sha256hash") then some file_hash else find_name obj_table name

unfoldable pub obj_val_to_name : ℕ → Option Bytes
unfolding row_name
obj_val_to_name v =
    if ltb v obj_start || ltb obj_end v then none else row_name obj_table (v - obj_start)
