-- ===== src/Event/Cache.antt =====
-- The arrays of an event as a cache of its attributes.
use rhel_fapolicyd.Attr.{
  SubjType, ObjType, subj_eq, obj_eq, all_subj, auid, uid, sessionid, pid, ppid, pattern,
  subj_trust, gid, comm, exe, exe_dir, exe_type,
}
use rhel_fapolicyd.AttrSets.Tree.{Avl}
use rhel_fapolicyd.Base.{
  ◌≡◌, refl, sym, ◌∙◌, ◌⊎◌, inl, inr, Bool, true, false, Option, none, some, Bool-cases,
  Option-cases,
}
use rhel_fapolicyd.Event.{
  Env, Event, StatusMask, StatusInfo, add_subj_if, add_status, mask_or, fetch_proc_status,
  add_and_access, kworker_comm, look_up_exe, get_exe, look_up_subj, get_subj_attr, new_subj,
}
use rhel_fapolicyd.Subject.{
  SubjAttr, ObjAttr, SArray, OArray, subject_access, subject_add, object_access, object_add,
  stored_as,
}

module _ {T : Type 0} where
  -- Every attribute of the first array is also in the second, as the lemmas use it.
  abbrev pub CarriesSubjects : SArray T → SArray T → Type 0
  CarriesSubjects s s' =
      (t : SubjType) (a : SubjAttr T)
      → subject_access s t ≡ some a
      → (b : SubjAttr T) × (subject_access s' t ≡ some b)

  abbrev pub CarriesObjects : OArray T → OArray T → Type 0
  CarriesObjects o o' =
      (t : ObjType) (a : ObjAttr T)
      → object_access o t ≡ some a
      → (b : ObjAttr T) × (object_access o' t ≡ some b)

  -- The same, slot by slot: it is empty in the first array or in use in the second.
  abbrev pub KeepsSubjects : SArray T → SArray T → Type 0
  KeepsSubjects s s' =
      (t : SubjType)
      → (subject_access s t ≡ none) ⊎ ((b : SubjAttr T) × (subject_access s' t ≡ some b))

  abbrev pub KeepsObjects : OArray T → OArray T → Type 0
  KeepsObjects o o' =
      (t : ObjType) → (object_access o t ≡ none) ⊎ ((b : ObjAttr T) × (object_access o' t ≡ some b))

  CarriesSubjects-Keeps : (s s' : SArray T) → CarriesSubjects s s' → KeepsSubjects s s'
  CarriesSubjects-Keeps s s' k t = elim (Option-cases (subject_access s t)) [
    | inl free ↦ inl free
    | inr (a, present) ↦ inr (k t a present)
  ]

  CarriesObjects-Keeps : (o o' : OArray T) → CarriesObjects o o' → KeepsObjects o o'
  CarriesObjects-Keeps o o' k t = elim (Option-cases (object_access o t)) [
    | inl free ↦ inl free
    | inr (a, present) ↦ inr (k t a present)
  ]

  KeepsSubjects-Carries : (s s' : SArray T) → KeepsSubjects s s' → CarriesSubjects s s'
  KeepsSubjects-Carries s s' k t a h = elim (k t) [ inl free ↦ cc | inr kept ↦ kept ]

  KeepsObjects-Carries : (o o' : OArray T) → KeepsObjects o o' → CarriesObjects o o'
  KeepsObjects-Carries o o' k t a h = elim (k t) [ inl free ↦ cc | inr kept ↦ kept ]

  -- The second event is about the same access as the first, and knows at least its attributes.
  pub record Extends (e e' : Event T) : Type 0 where
    pub same_pid : e'.pid ≡ e.pid
    pub same_fd : e'.fd ≡ e.fd
    pub same_open : e'.open_perm ≡ e.open_perm
    pub same_exec : e'.open_exec_perm ≡ e.open_exec_perm
    pub same_num : e'.num ≡ e.num
    pub subjects : KeepsSubjects e.s e'.s
    pub objects : KeepsObjects e.o e'.o

  pub Extends-subjects :
      (e : Event T) (s' : SArray T) → CarriesSubjects e.s s' → Extends e (record e { s = s' })
  Extends-subjects e s' k = record {
    same_pid = refl;
    same_fd = refl;
    same_open = refl;
    same_exec = refl;
    same_num = refl;
    subjects = CarriesSubjects-Keeps _ _ k;
    objects = CarriesObjects-Keeps _ _ (λ t a h. (a, h));
  }

  pub Extends-objects :
      (e : Event T) (o' : OArray T) → CarriesObjects e.o o' → Extends e (record e { o = o' })
  Extends-objects e o' k = record {
    same_pid = refl;
    same_fd = refl;
    same_open = refl;
    same_exec = refl;
    same_num = refl;
    subjects = CarriesSubjects-Keeps _ _ (λ t a h. (a, h));
    objects = CarriesObjects-Keeps _ _ k;
  }

  pub Extends-refl : (e : Event T) → Extends e e
  Extends-refl e = Extends-objects e e.o (λ t a h. (a, h))

  pub Extends-trans : (e e' e'' : Event T) → Extends e e' → Extends e' e'' → Extends e e''
  Extends-trans e e' e'' x y = record {
    same_pid = y.same_pid ∙ x.same_pid;
    same_fd = y.same_fd ∙ x.same_fd;
    same_open = y.same_open ∙ x.same_open;
    same_exec = y.same_exec ∙ x.same_exec;
    same_num = y.same_num ∙ x.same_num;
    subjects = CarriesSubjects-Keeps _ _ (λ t a h.
        let (b, k) = KeepsSubjects-Carries _ _ x.subjects t a h in
        KeepsSubjects-Carries _ _ y.subjects t b k);
    objects = CarriesObjects-Keeps _ _ (λ t a h.
        let (b, k) = KeepsObjects-Carries _ _ x.objects t a h in
        KeepsObjects-Carries _ _ y.objects t b k);
  }

  CarriesSubjects-trans :
      (s s' s'' : SArray T) → CarriesSubjects s s' → CarriesSubjects s' s'' → CarriesSubjects s s''
  CarriesSubjects-trans s s' s'' x y t a h = let (b, k) = x t a h in y t b k

  subject_add-CarriesSubjects :
      (s : SArray T) (sub : SubjAttr T) → CarriesSubjects s (subject_add s sub)
  unfolding subject_access subject_add
  subject_add-CarriesSubjects s sub t a h =
      elim (Bool-cases (subj_eq (stored_as sub.type) (stored_as t))) [
        | inl same ↦ rw same (_, refl)
        | inr other ↦ rw other (a, h)
      ]

  pub object_add-CarriesObjects :
      (o : OArray T) (attr : ObjAttr T) → CarriesObjects o (object_add o attr)
  unfolding object_access object_add
  object_add-CarriesObjects o attr t a h = elim (Bool-cases (obj_eq attr.type t)) [
    | inl same ↦ rw same (_, refl)
    | inr other ↦ rw other (a, h)
  ]

module _ {T : Type 0} ⦃avl : Avl T⦄ (env : Env T) where
  add_subj_if-CarriesSubjects :
      (b : Bool) (sub : SubjAttr T) (s : SArray T) → CarriesSubjects s (add_subj_if b sub s)
  add_subj_if-CarriesSubjects true sub s = subject_add-CarriesSubjects s sub
  add_subj_if-CarriesSubjects false sub s = λ t a h. (a, h)

  add_status-CarriesSubjects :
      (mask : StatusMask) (info : StatusInfo T) (s : SArray T)
      → CarriesSubjects s (add_status mask info s)
  unfolding add_status
  add_status-CarriesSubjects mask info s t a h =
      let (a1, h1) =
        add_subj_if-CarriesSubjects mask.ppid_bit (record (new_subj ppid) { pid = info.ppid }) s t a
          h in
      let (a2, h2) =
        add_subj_if-CarriesSubjects mask.uid_bit (record (new_subj uid) { set = info.uid }) _ t a1
          h1 in
      let (a3, h3) =
        add_subj_if-CarriesSubjects mask.gid_bit (record (new_subj gid) { set = info.groups }) _ t
          a2 h2 in
      add_subj_if-CarriesSubjects mask.comm_bit (record (new_subj comm) { str = info.comm }) _ t a3
        h3

  -- A lookup: the event only grows, and the answer is what its array then holds.
  abbrev pub Looked : Event T → SubjType → Event T × Option (SubjAttr T) → Type 0
  Looked e t r = Extends e r.0 × (r.1 ≡ subject_access r.0.s t)

  Looked-missing : (e : Event T) (t : SubjType) → subject_access e.s t ≡ none → Looked e t (e, none)
  Looked-missing e t h = (Extends-refl e, sym h)

  Looked-present :
      (e : Event T) (t : SubjType) (a : SubjAttr T)
      → subject_access e.s t ≡ some a
      → Looked e t (e, some a)
  Looked-present e t a h = (Extends-refl e, sym h)

  fetch_proc_status-Looked :
      (e : Event T) (t : SubjType)
      → subject_access e.s t ≡ none
      → Looked e t (fetch_proc_status env e t)
  unfolding fetch_proc_status
  fetch_proc_status-Looked e t h =
      elim (Option-cases (env.proc_status e.pid (mask_or env.rules_mask env.syslog_mask))) [
        | inl failed ↦ rw (fetch_proc_status, failed) (Looked-missing e t h)
        | inr (info, read) ↦
            rw (fetch_proc_status, read)
              (
                Extends-subjects e _
                    (add_status-CarriesSubjects (mask_or env.rules_mask env.syslog_mask) info e.s),
                refl,
              )
      ]

  add_and_access-Looked :
      (e : Event T) (t : SubjType) (sub : SubjAttr T) → Looked e t (add_and_access e t sub)
  unfolding add_and_access
  add_and_access-Looked e t sub = (Extends-subjects e _ (subject_add-CarriesSubjects e.s sub), refl)

  Looked-after :
      (e e' : Event T) (t : SubjType) (r : Event T × Option (SubjAttr T))
      → Extends e e'
      → Looked e' t r
      → Looked e t r
  Looked-after e e' t r x (y, same) = (Extends-trans e e' r.0 x y, same)

  kworker_comm-Looked : (e : Event T) → Looked e comm (kworker_comm env e)
  unfolding kworker_comm
  kworker_comm-Looked e = elim (Option-cases (subject_access e.s comm)) [
    | inl missing ↦ rw (kworker_comm, missing) (fetch_proc_status-Looked e comm missing)
    | inr (a, present) ↦ rw (kworker_comm, present) (Looked-present e comm a present)
  ]

  look_up_exe-Looked : (e : Event T) (t : SubjType) → Looked e t (look_up_exe env e t)
  unfolding look_up_exe
  look_up_exe-Looked e t = elim (Bool-cases (env.enoent e.pid)) [
    | inl kworker ↦ rw kworker (
        Looked-after e _ t _ (kworker_comm-Looked e).0
          (add_and_access-Looked (kworker_comm env e).0 t _))
    | inr program ↦ rw program (add_and_access-Looked e t _)
  ]

  get_exe-Looked : (e : Event T) → Looked e exe (get_exe env e)
  unfolding get_exe
  get_exe-Looked e = elim (Option-cases (subject_access e.s exe)) [
    | inl missing ↦ rw (get_exe, missing) (look_up_exe-Looked e exe)
    | inr (a, present) ↦ rw (get_exe, present) (Looked-present e exe a present)
  ]

  look_up_subj-Looked :
      (e : Event T) (t : SubjType) → subject_access e.s t ≡ none → Looked e t (look_up_subj env e t)
  unfolding look_up_subj
  look_up_subj-Looked e all_subj h = Looked-missing e all_subj h
  look_up_subj-Looked e pattern h = Looked-missing e pattern h
  look_up_subj-Looked e ppid h = fetch_proc_status-Looked e ppid h
  look_up_subj-Looked e uid h = fetch_proc_status-Looked e uid h
  look_up_subj-Looked e gid h = fetch_proc_status-Looked e gid h
  look_up_subj-Looked e comm h = fetch_proc_status-Looked e comm h
  look_up_subj-Looked e exe h = look_up_exe-Looked e exe
  look_up_subj-Looked e exe_dir h = look_up_exe-Looked e exe_dir
  look_up_subj-Looked e auid h = add_and_access-Looked e auid _
  look_up_subj-Looked e sessionid h = add_and_access-Looked e sessionid _
  look_up_subj-Looked e pid h = add_and_access-Looked e pid _
  look_up_subj-Looked e exe_type h = add_and_access-Looked e exe_type _
  look_up_subj-Looked e subj_trust h =
      Looked-after e _ subj_trust _ (get_exe-Looked e).0
        (add_and_access-Looked (get_exe env e).0 subj_trust _)

  -- `get_subj_attr` changes neither the process, the descriptor, the kind of access nor the rule
  -- number of the event, loses no attribute, and answers with what the array then holds for the
  -- attribute.
  pub get_subj_attr-Looked : (e : Event T) (t : SubjType) → Looked e t (get_subj_attr env e t)
  unfolding get_subj_attr
  get_subj_attr-Looked e t = elim (Option-cases (subject_access e.s t)) [
    | inl missing ↦ rw (get_subj_attr, missing) (look_up_subj-Looked e t missing)
    | inr (a, present) ↦ rw (get_subj_attr, present) (Looked-present e t a present)
  ]

  get_subj_attr_present :
      (e : Event T) (t : SubjType) (a : SubjAttr T)
      → subject_access e.s t ≡ some a
      → get_subj_attr env e t ≡ (e, some a)
  unfolding get_subj_attr
  get_subj_attr_present e t a h = rw (get_subj_attr, h) refl

  -- An attribute that `get_subj_attr` has given is given again, unchanged, without another lookup.
  pub get_subj_attr-get_subj_attr :
      (e : Event T) (t : SubjType) (a : SubjAttr T)
      → (get_subj_attr env e t).1 ≡ some a
      → get_subj_attr env (get_subj_attr env e t).0 t ≡ ((get_subj_attr env e t).0, some a)
  get_subj_attr-get_subj_attr e t a h =
      get_subj_attr_present _ t a (sym (get_subj_attr-Looked e t).1 ∙ h)
