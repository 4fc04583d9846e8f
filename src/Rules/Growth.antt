-- ===== src/Rules/Growth.antt =====
-- The evaluation of rules only adds to an event.
use rhel_fapolicyd.Attr.{
  SubjType, all_subj, pattern, subj_trust, exe, exe_dir, ObjType, all_obj, path, odir, obj_trust,
}
use rhel_fapolicyd.AttrSets.Tree.{Avl}
use rhel_fapolicyd.AttrSets.{check_str_attr_set}
use rhel_fapolicyd.Base.{
  ℕ, suc, inl, inr, ◌&&◌, Option, none, some, List, [], ◌∷◌, Bool-cases, get_elem?, Bytes, codes,
}
use rhel_fapolicyd.Event.{Env, Event, get_subj_attr}
use rhel_fapolicyd.Event.Objects.{get_obj_attr}
use rhel_fapolicyd.Event.Cache.{
  Extends, Extends-subjects, Extends-refl, Extends-trans, get_subj_attr-Looked,
}
use rhel_fapolicyd.Event.ObjectCache.{get_obj_attr-Found}
use rhel_fapolicyd.Process.{ProcInfo}
use rhel_fapolicyd.Rules.{Rule, Match, Turn, next, stop, check_access, check_dirs}
use rhel_fapolicyd.Rules.Subjects.{
  untrusted, refuses_trusted, test_exe, test_exe_dir, test_pattern, test_subj, turn_subj,
  check_subject,
}
use rhel_fapolicyd.Rules.Objects.{
  subject_says_untrusted, is_obj_trusted, test_path, test_odir, test_obj, turn_obj,
  check_object_from, check_object, is_no_match, rule_evaluate,
}
use rhel_fapolicyd.Subject.{SubjAttr, ObjAttr, subject_access}

module _ {T : Type 0} ⦃avl : Avl T⦄ (env : Env T) where
  refuses_trusted-Extends :
      (e : Event T) (rule : SubjAttr T) → Extends e (refuses_trusted env e rule).0
  unfolding refuses_trusted
  refuses_trusted-Extends e rule = elim (Bool-cases (check_str_attr_set rule.set untrusted)) [
    | inl named ↦ rw (refuses_trusted, named) (get_subj_attr-Looked env e subj_trust).0
    | inr other ↦ rw (refuses_trusted, other) (Extends-refl e)
  ]

  test_exe-Extends : (e : Event T) (rule subj : SubjAttr T) → Extends e (test_exe env e rule subj).0
  unfolding test_exe
  test_exe-Extends e rule subj = refuses_trusted-Extends e rule

  test_exe_dir-Extends :
      (e : Event T) (rule : SubjAttr T) (str : Option Bytes)
      → Extends e (test_exe_dir env e rule str).0
  unfolding test_exe_dir
  test_exe_dir-Extends e rule none = Extends-refl e
  test_exe_dir-Extends e rule (some str) =
      elim (Bool-cases (check_str_attr_set rule.set (codes "execdirs") && check_dirs 1 str)) [
        | inl execdir ↦ rw (test_exe_dir, execdir) (Extends-refl e)
        | inr no_execdir ↦
            elim (Bool-cases
              (check_str_attr_set rule.set (codes "systemdirs") && check_dirs 0 str)) [
                | inl systemdir ↦ rw (test_exe_dir, no_execdir, systemdir) (Extends-refl e)
                | inr no_systemdir ↦
                    rw (test_exe_dir, no_execdir, no_systemdir) (refuses_trusted-Extends e rule)
              ]
      ]

  Extends-info :
      (e : Event T) (info : ProcInfo) → Extends e (record e { s = record (e.s) { info = info } })
  unfolding subject_access
  Extends-info e info = Extends-subjects e _ (λ t a h. (a, h))

  test_pattern-Extends : (e : Event T) (rule : SubjAttr T) → Extends e (test_pattern env e rule).0
  unfolding test_pattern
  test_pattern-Extends e rule = Extends-info e _

  test_subj-Extends :
      (e : Event T) (rule subj : SubjAttr T) (t : SubjType)
      → Extends e (test_subj env e rule t subj).0
  unfolding test_subj
  test_subj-Extends e rule subj exe = test_exe-Extends e rule subj
  test_subj-Extends e rule subj exe_dir = test_exe_dir-Extends e rule subj.str
  test_subj-Extends e rule subj _ = Extends-refl e

  abbrev pub subj_answer :
      Event T → SubjAttr T → SubjType → Event T × Option (SubjAttr T) → Event T × Turn
  subj_answer e rule t r = elim r.1 [
    | none ↦ (r.0, next)
    | some subj ↦ test_subj env r.0 rule t subj
  ]

  subj_answer-Extends :
      (e : Event T) (rule : SubjAttr T) (t : SubjType) (r : Event T × Option (SubjAttr T))
      → Extends e r.0
      → Extends e (subj_answer e rule t r).0
  subj_answer-Extends e rule t (e', none) x = x
  subj_answer-Extends e rule t (e', some subj) x =
      Extends-trans e e' _ x (test_subj-Extends e' rule subj t)

  turn_subj-Extends :
      (e : Event T) (rule : SubjAttr T) (t : SubjType) → Extends e (turn_subj env e rule t).0
  unfolding turn_subj
  turn_subj-Extends e rule all_subj = Extends-refl e
  turn_subj-Extends e rule pattern =
      Extends-trans e _ _ (get_subj_attr-Looked env e pattern).0 (test_pattern-Extends _ rule)
  turn_subj-Extends e rule t =
      subj_answer-Extends e rule t (get_subj_attr env e t) (get_subj_attr-Looked env e t).0

  -- How a turn ends: it returns, or the loop goes on with what follows.
  abbrev pub go_on : (Event T → Event T × Match) → Event T × Turn → Event T × Match
  go_on rest r = elim r.1 [ stop m ↦ (r.0, m) | next ↦ rest r.0 ]

  go_on-Extends :
      (e : Event T) (rest : Event T → Event T × Match) (r : Event T × Turn)
      → Extends e r.0
      → ((e' : Event T) → Extends e' (rest e').0)
      → Extends e (go_on rest r).0
  go_on-Extends e rest (e', stop m) x later = x
  go_on-Extends e rest (e', next) x later = Extends-trans e e' _ x (later e')

  check_subject-Extends :
      (as_ : List (SubjAttr T)) (e : Event T) → Extends e (check_subject env as_ e).0
  unfolding check_subject
  check_subject-Extends [] e = Extends-refl e
  check_subject-Extends (a ∷ as_) e =
      go_on-Extends e (check_subject env as_) (turn_subj env e a a.type)
        (turn_subj-Extends e a a.type) (check_subject-Extends as_)

  is_obj_trusted-Extends : (e : Event T) → Extends e (is_obj_trusted env e).0
  unfolding is_obj_trusted
  is_obj_trusted-Extends e = (get_obj_attr-Found env e obj_trust).0

  test_path-Extends :
      (e : Event T) (beside : Option (SubjAttr T)) (rule : ObjAttr T) (str : Option Bytes)
      → Extends e (test_path env e beside rule str).0
  unfolding test_path
  test_path-Extends e beside rule str = elim (Bool-cases (subject_says_untrusted beside)) [
    | inl says ↦ rw (test_path, says) (is_obj_trusted-Extends e)
    | inr other ↦ rw (test_path, other) (Extends-refl e)
  ]

  test_odir-Extends :
      (e : Event T) (rule : ObjAttr T) (str : Option Bytes) → Extends e (test_odir env e rule str).0
  unfolding test_odir
  test_odir-Extends e rule none = Extends-refl e
  test_odir-Extends e rule (some str) =
      elim (Bool-cases (check_str_attr_set rule.set (codes "execdirs") && check_dirs 1 str)) [
        | inl execdir ↦ rw (test_odir, execdir) (Extends-refl e)
        | inr no_execdir ↦
            elim (Bool-cases
              (check_str_attr_set rule.set (codes "systemdirs") && check_dirs 0 str)) [
                | inl systemdir ↦ rw (test_odir, no_execdir, systemdir) (Extends-refl e)
                | inr no_systemdir ↦ elim (Bool-cases (check_str_attr_set rule.set untrusted)) [
                  | inl named ↦
                      rw (test_odir, no_execdir, no_systemdir, named) (is_obj_trusted-Extends e)
                  | inr other ↦ rw (test_odir, no_execdir, no_systemdir, other) (Extends-refl e)
                ]
              ]
      ]

  test_obj-Extends :
      (e : Event T) (beside : Option (SubjAttr T)) (rule obj : ObjAttr T) (t : ObjType)
      → Extends e (test_obj env e beside rule t obj).0
  unfolding test_obj
  test_obj-Extends e beside rule obj path = test_path-Extends e beside rule obj.o
  test_obj-Extends e beside rule obj odir = test_odir-Extends e rule obj.o
  test_obj-Extends e beside rule obj _ = Extends-refl e

  obj_answer-Extends :
      (e : Event T) (beside : Option (SubjAttr T)) (rule : ObjAttr T) (t : ObjType)
      (r : Event T × Option (ObjAttr T))
      → Extends e r.0
      → Extends e
          (elim r.1 as (λ x. Event T × Turn) [
            | none ↦ (r.0, next)
            | some obj ↦ test_obj env r.0 beside rule t obj
          ]).0
  obj_answer-Extends e beside rule t (e', none) x = x
  obj_answer-Extends e beside rule t (e', some obj) x =
      Extends-trans e e' _ x (test_obj-Extends e' beside rule obj t)

  turn_obj-Extends :
      (e : Event T) (beside : Option (SubjAttr T)) (rule : ObjAttr T) (t : ObjType)
      → Extends e (turn_obj env e beside rule t).0
  unfolding turn_obj
  turn_obj-Extends e beside rule all_obj = Extends-refl e
  turn_obj-Extends e beside rule t =
      obj_answer-Extends e beside rule t (get_obj_attr env e t) (get_obj_attr-Found env e t).0

  check_object_from-Extends :
      (subjects : List (SubjAttr T)) (cnt : ℕ) (as_ : List (ObjAttr T)) (e : Event T)
      → Extends e (check_object_from env subjects cnt as_ e).0
  unfolding check_object_from
  check_object_from-Extends subjects cnt [] e = Extends-refl e
  check_object_from-Extends subjects cnt (a ∷ as_) e =
      go_on-Extends e (check_object_from env subjects (suc cnt) as_)
        (turn_obj env e (get_elem? subjects cnt) a a.type)
        (turn_obj-Extends e (get_elem? subjects cnt) a a.type)
        (check_object_from-Extends subjects (suc cnt) as_)

  check_object-Extends : (r : Rule T) (e : Event T) → Extends e (check_object env r e).0
  unfolding check_object
  check_object-Extends r e = check_object_from-Extends r.s 0 r.o e

  -- Whatever a rule finds, its evaluation changes neither the process, the descriptor, the kind of
  -- access nor the rule number of the event, and every attribute that the event had is still there.
  pub rule_evaluate-Extends : (r : Rule T) (e : Event T) → Extends e (rule_evaluate env r e).0
  unfolding rule_evaluate
  rule_evaluate-Extends r e = elim (Bool-cases (check_access r e)) [
    | inr other ↦ rw (rule_evaluate, other) (Extends-refl e)
    | inl access ↦
        let subject = check_subject env r.s e in
        let grown = check_subject-Extends r.s e in
        elim (Bool-cases (is_no_match subject.1)) [
          | inl none_ ↦ rw (rule_evaluate, access, none_) grown
          | inr some_ ↦
              let all_grown = Extends-trans e _ _ grown (check_object-Extends r subject.0) in
              elim (Bool-cases (is_no_match (check_object env r subject.0).1)) [
                | inl no_object ↦ rw (rule_evaluate, access, some_, no_object) all_grown
                | inr object ↦ rw (rule_evaluate, access, some_, object) all_grown
              ]
        ]
  ]
