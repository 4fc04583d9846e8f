-- ===== src/Subject/Arrays.antt =====
-- src/library/subject.c: the count of a subject's attributes, and what its array holds.
use rhel_fapolicyd.Attr.{
  SubjType, all_subj, auid, uid, sessionid, pid, ppid, pattern, subj_trust, gid, comm, exe, exe_dir,
  exe_type, subj_eq,
}
use rhel_fapolicyd.Base.{ℕ, ◌+◌, ◌≡◌, refl, ap, true, Option, none, some, arith}
use rhel_fapolicyd.Subject.{SubjAttr, SArray, stored_as, subject_add, write_subj}

subj_eq_refl : (t : SubjType) → subj_eq t t ≡ true
subj_eq_refl t = ground arith

module _ {T : Type 0} where
  -- 1 for a slot in use.
  abbrev pub used : Option (SubjAttr T) → ℕ
  used none = 0
  used (some a) = 1

  -- The slots in use.
  abbrev pub occupied : (SubjType → Option (SubjAttr T)) → ℕ
  occupied f =
      used (f all_subj)
      + (used (f auid)
          + (used (f uid)
              + (used (f sessionid)
                  + (used (f pid)
                      + (used (f ppid)
                          + (used (f pattern)
                              + (used (f subj_trust)
                                  + (used (f gid)
                                      + (used (f comm)
                                          + (used (f exe)
                                              + (used (f exe_dir) + used (f exe_type))))))))))))

  occupied-write :
      (f : SubjType → Option (SubjAttr T)) (t : SubjType) (v : Option (SubjAttr T))
      → occupied (write_subj f t v) + used (f t) ≡ occupied f + used v
  occupied-write f all_subj v = omega arith
  occupied-write f auid v = omega arith
  occupied-write f uid v = omega arith
  occupied-write f sessionid v = omega arith
  occupied-write f pid v = omega arith
  occupied-write f ppid v = omega arith
  occupied-write f pattern v = omega arith
  occupied-write f subj_trust v = omega arith
  occupied-write f gid v = omega arith
  occupied-write f comm v = omega arith
  occupied-write f exe v = omega arith
  occupied-write f exe_dir v = omega arith
  occupied-write f exe_type v = omega arith

  -- The count is the number of attributes.
  abbrev pub IsCounted : SArray T → Type 0
  IsCounted a = a.cnt ≡ occupied a.subj

  used_pos :
      (f : SubjType → Option (SubjAttr T)) (t : SubjType) (v : SubjAttr T)
      → f t ≡ some v
      → used (f t) ≡ 1
  used_pos f t v h = ap used h

  write_subj_at :
      (f : SubjType → Option (SubjAttr T)) (t : SubjType) (v : Option (SubjAttr T))
      → write_subj f t v t ≡ v
  write_subj_at f t v = rw (subj_eq_refl t) refl

  -- From a right count, the count after an addition is the number of attributes, and one more if the
  -- slot was in use before.
  pub subject_add-occupied :
      (a : SArray T) (sub : SubjAttr T)
      → IsCounted a
      → (subject_add a sub).cnt
        ≡ occupied (subject_add a sub).subj + used (a.subj (stored_as sub.type))
  unfolding subject_add
  subject_add-occupied a sub counted =
      let t = stored_as sub.type in
      let written = occupied-write a.subj t (some (record sub { type = t })) in
      omega (arith, written, counted)
