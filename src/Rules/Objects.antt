-- ===== src/Rules/Objects.antt =====
-- src/library/rules.c: `check_object`, the loop over the object attributes of a rule, and
-- `rule_evaluate`.
use rhel_fapolicyd.Attr.{
  exe, exe_dir, subj_eq, ObjType, all_obj, path, odir, device, ftype, obj_trust, file_hash, fmode,
  obj_eq,
}
use rhel_fapolicyd.AttrSets.{check_str_attr_set, check_pstr_attr_set}
use rhel_fapolicyd.AttrSets.Tree.{Avl}
use rhel_fapolicyd.Base.{
  ℕ, suc, Bool, true, false, not, ◌&&◌, ◌||◌, Option, none, some, List, [], ◌∷◌, ◌==◌,
  if◌then◌else◌, get_elem?, Bytes, codes,
}
use rhel_fapolicyd.Event.{Env, Event}
use rhel_fapolicyd.Event.Objects.{get_obj_attr}
use rhel_fapolicyd.Rules.{
  Decision, no_opinion, Rule, Match, no_match, matched, Turn, next, stop, next_if, check_dirs,
  check_access,
}
use rhel_fapolicyd.Rules.Subjects.{untrusted, check_subject}
use rhel_fapolicyd.Subject.{SubjAttr, ObjAttr}

abbrev pub is_no_match : Match → Bool
is_no_match no_match = true
is_no_match _ = false

module _ {T : Type 0} ⦃avl : Avl T⦄ where
  abbrev pub is_trusted_file : Option (ObjAttr T) → Bool
  is_trusted_file none = false
  is_trusted_file (some a) = not (a.val == 0)

  unfoldable pub is_obj_trusted : Env T → Event T → Event T × Bool
  is_obj_trusted env e = let r = get_obj_attr env e obj_trust in (r.0, is_trusted_file r.1)

  -- Does the rule's subject at the object's own index name `untrusted` programs? The source reads
  -- `r->s` with the index of the loop over `r->o`; a slot behind the subjects is UNUSED.
  unfoldable pub subject_says_untrusted : Option (SubjAttr T) → Bool
  subject_says_untrusted none = false
  subject_says_untrusted (some s) =
      (subj_eq s.type exe || subj_eq s.type exe_dir) && check_str_attr_set s.set untrusted

  abbrev pub test_obj_str : ObjAttr T → Option Bytes → Turn
  test_obj_str rule none = if obj_eq rule.type file_hash then stop no_match else next
  test_obj_str rule (some str) = next_if (check_str_attr_set rule.set str)

  unfoldable pub test_path :
      Env T → Event T → Option (SubjAttr T) → ObjAttr T → Option Bytes → Event T × Turn
  unfolding is_obj_trusted subject_says_untrusted
  test_path env e beside rule str =
      if subject_says_untrusted beside
      then (let r = is_obj_trusted env e in
          (r.0, if r.1 then stop no_match else test_obj_str rule str))
      else (e, test_obj_str rule str)

  unfoldable pub test_odir : Env T → Event T → ObjAttr T → Option Bytes → Event T × Turn
  unfolding is_obj_trusted
  test_odir env e rule none = (e, next)
  test_odir env e rule (some str) =
      if check_str_attr_set rule.set (codes "execdirs") && check_dirs 1 str
      then (e, stop no_match)
      else if check_str_attr_set rule.set (codes "systemdirs") && check_dirs 0 str
      then (e, stop no_match)
      else if check_str_attr_set rule.set untrusted
      then (let r = is_obj_trusted env e in
          (r.0, if r.1 then stop no_match else next_if (check_pstr_attr_set rule.set str)))
      else (e, next_if (check_pstr_attr_set rule.set str))

  -- The switch of `check_object`, on the event's attribute; `beside` is the rule's subject attribute
  -- of the same index.
  unfoldable pub test_obj :
      Env T → Event T → Option (SubjAttr T) → ObjAttr T → ObjType → ObjAttr T → Event T × Turn
  unfolding test_path test_odir
  test_obj env e beside rule obj_trust obj = (e, next_if (obj.val == rule.val))
  test_obj env e beside rule ftype obj =
      (e, if check_str_attr_set rule.set (codes "any") then next else test_obj_str rule obj.o)
  test_obj env e beside rule path obj = test_path env e beside rule obj.o
  test_obj env e beside rule odir obj = test_odir env e rule obj.o
  test_obj env e beside rule device obj = (e, test_obj_str rule obj.o)
  test_obj env e beside rule file_hash obj = (e, test_obj_str rule obj.o)
  test_obj env e beside rule fmode obj = (e, test_obj_str rule obj.o)
  test_obj env e beside rule all_obj obj = (e, next)

  unfoldable pub turn_obj :
      Env T → Event T → Option (SubjAttr T) → ObjAttr T → ObjType → Event T × Turn
  turn_obj env e beside rule all_obj = (e, next)
  turn_obj env e beside rule t =
      let r = get_obj_attr env e t in
      elim r.1 [ none ↦ (r.0, next) | some obj ↦ test_obj env r.0 beside rule t obj ]

  -- The loop, at index `cnt`, over what is left of the rule's objects.
  unfoldable pub check_object_from :
      Env T → List (SubjAttr T) → ℕ → List (ObjAttr T) → Event T → Event T × Match
  check_object_from env subjects cnt [] e = (e, matched)
  check_object_from env subjects cnt (a ∷ as_) e =
      let r = turn_obj env e (get_elem? subjects cnt) a a.type in
      elim r.1 [ stop m ↦ (r.0, m) | next ↦ check_object_from env subjects (suc cnt) as_ r.0 ]

  unfoldable pub check_object : Env T → Rule T → Event T → Event T × Match
  check_object env r e = check_object_from env r.s 0 r.o e

  unfoldable pub rule_evaluate : Env T → Rule T → Event T → Event T × Decision
  unfolding check_object
  rule_evaluate env r e =
      if not (check_access r e)
      then (e, no_opinion)
      else (let subject = check_subject env r.s e in
          if is_no_match subject.1
          then (subject.0, no_opinion)
          else (let object = check_object env r subject.0 in
              if is_no_match object.1 then (object.0, no_opinion) else (object.0, r.d)))
