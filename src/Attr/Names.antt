-- ===== src/Attr/Names.antt =====
-- The two directions of the tables of names agree, where they do.
use mathlib.Core.Path.{subst}
use rhel_fapolicyd.Base.{◌≡◌, ◌≢◌, refl, some, ◌≤◌, arith, Bytes, codes}
use rhel_fapolicyd.Attr.{
  SubjType, all_subj, auid, uid, sessionid, pid, ppid, pattern, subj_trust, gid, comm, exe, exe_dir,
  exe_type, ObjType, all_obj, path, odir, device, ftype, obj_trust, file_hash, fmode, orig, colon,
  subj_val, obj_val, subj_name_to_val, subj_val_to_name, obj_name_to_val, obj_val_to_name,
}

subject_named :
    (t : SubjType)
    → (name : Bytes) × (subj_val_to_name (subj_val t) colon ≡ some name)
      × (subj_name_to_val name colon ≡ some t)
unfolding subj_val_to_name subj_name_to_val
subject_named all_subj = (codes "all", refl, refl)
subject_named auid = (codes "auid", refl, refl)
subject_named uid = (codes "uid", refl, refl)
subject_named sessionid = (codes "sessionid", refl, refl)
subject_named pid = (codes "pid", refl, refl)
subject_named ppid = (codes "ppid", refl, refl)
subject_named pattern = (codes "pattern", refl, refl)
subject_named subj_trust = (codes "trust", refl, refl)
subject_named gid = (codes "gid", refl, refl)
subject_named comm = (codes "comm", refl, refl)
subject_named exe = (codes "exe", refl, refl)
subject_named exe_dir = (codes "dir", refl, refl)
subject_named exe_type = (codes "ftype", refl, refl)

object_named :
    (t : ObjType)
    → (name : Bytes) × (obj_val_to_name (obj_val t) ≡ some name) × (obj_name_to_val name ≡ some t)
unfolding obj_val_to_name obj_name_to_val
object_named all_obj = (codes "all", refl, refl)
object_named path = (codes "path", refl, refl)
object_named odir = (codes "dir", refl, refl)
object_named device = (codes "device", refl, refl)
object_named ftype = (codes "ftype", refl, refl)
object_named obj_trust = (codes "trust", refl, refl)
object_named file_hash = (codes "filehash", refl, refl)
object_named fmode = (codes "mode", refl, refl)

-- In the new format every subject type has a name, and the name is read back as the type; so it is
-- for objects.
pub name_to_val-val_to_name :
    ((t : SubjType)
      → (name : Bytes) × (subj_val_to_name (subj_val t) colon ≡ some name)
        × (subj_name_to_val name colon ≡ some t))
    × ((t : ObjType)
        → (name : Bytes) × (obj_val_to_name (obj_val t) ≡ some name)
          × (obj_name_to_val name ≡ some t))
name_to_val-val_to_name = (subject_named, object_named)

misnamed :
    (t : SubjType) (row name : Bytes)
    → some row ≡ some name
    → subj_name_to_val row orig ≢ some t
    → subj_name_to_val name orig ≢ some t
misnamed t row name e h =
    let same : row ≡ name = cc in subst (λ n. subj_name_to_val n orig ≢ some t) same h

-- In the old format a subject type from PPID on is never given its own name: `subj_val_to_name`
-- indexes the table by the value, and the table has no row for PPID.
pub val_to_name-orig :
    (t : SubjType) (name : Bytes)
    → 5 ≤ subj_val t
    → subj_val_to_name (subj_val t) orig ≡ some name
    → subj_name_to_val name orig ≢ some t
unfolding subj_val_to_name subj_name_to_val
val_to_name-orig all_subj name h e = absurd (omega arith)
val_to_name-orig auid name h e = absurd (omega arith)
val_to_name-orig uid name h e = absurd (omega arith)
val_to_name-orig sessionid name h e = absurd (omega arith)
val_to_name-orig pid name h e = absurd (omega arith)
val_to_name-orig ppid name h e = misnamed ppid (codes "pattern") name e (λ f. cc)
val_to_name-orig pattern name h e = misnamed pattern (codes "comm") name e (λ f. cc)
val_to_name-orig subj_trust name h e = misnamed subj_trust (codes "exe") name e (λ f. cc)
val_to_name-orig gid name h e = misnamed gid (codes "exe_dir") name e (λ f. cc)
val_to_name-orig comm name h e = misnamed comm (codes "exe_type") name e (λ f. cc)
val_to_name-orig exe name h e = cc
val_to_name-orig exe_dir name h e = cc
val_to_name-orig exe_type name h e = cc
