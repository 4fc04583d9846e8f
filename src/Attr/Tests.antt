-- ===== src/Attr/Tests.antt =====
-- The tables of names on concrete names, and an instance of the property of the old format.
use rhel_fapolicyd.Base.{◌≡◌, refl, none, some, codes}
use rhel_fapolicyd.Attr.{
  subj_trust, exe_dir, ftype, file_hash, orig, colon, subj_name_to_val, obj_name_to_val,
}

names :
    (subj_name_to_val (codes "trust") colon ≡ some subj_trust)
    × (subj_name_to_val (codes "trust") orig ≡ none)
    × (subj_name_to_val (codes "exe_dir") orig ≡ some exe_dir)
    × (obj_name_to_val (codes "sha256hash") ≡ some file_hash)
    × (obj_name_to_val (codes "ftype") ≡ some ftype)
unfolding subj_name_to_val obj_name_to_val
names = (refl, refl, refl, refl, refl)
