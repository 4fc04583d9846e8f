-- ===== src/Rules/Subjects.antt =====
-- src/library/rules.c: `check_subject`, the loop over the subject attributes of a rule.
use rhel_fapolicyd.Attr.{
  SubjType, all_subj, auid, uid, sessionid, pid, ppid, pattern, subj_trust, gid, comm, exe, exe_dir,
  exe_type,
}
use rhel_fapolicyd.AttrSets.{
  check_int_attr_set, check_str_attr_set, check_pstr_attr_set, avl_intersection,
}
use rhel_fapolicyd.AttrSets.Tree.{Avl}
use rhel_fapolicyd.Base.{
  Bool, false, not, ◌&&◌, Option, none, some, List, [], ◌∷◌, ◌==◌, if◌then◌else◌, pos, Bytes, codes,
}
use rhel_fapolicyd.Event.{Env, Event, get_subj_attr}
use rhel_fapolicyd.Rules.{
  Match, no_match, matched, match_error, Turn, next, stop, next_if, check_dirs,
}
use rhel_fapolicyd.Rules.Pattern.{subj_pattern_test}
use rhel_fapolicyd.Subject.{SubjAttr}

abbrev pub untrusted : Bytes
untrusted = codes "untrusted"

module _ {T : Type 0} ⦃avl : Avl T⦄ where
  abbrev pub is_trusted : Option (SubjAttr T) → Bool
  is_trusted none = false
  is_trusted (some a) = not (a.uval == 0)

  unfoldable pub is_subj_trusted : Env T → Event T → Event T × Bool
  is_subj_trusted env e = let r = get_subj_attr env e subj_trust in (r.0, is_trusted r.1)

  -- The deprecated word `untrusted` in a set: a trusted program does not match.
  unfoldable pub refuses_trusted : Env T → Event T → SubjAttr T → Event T × Bool
  unfolding is_subj_trusted
  refuses_trusted env e rule =
      if check_str_attr_set rule.set untrusted then is_subj_trusted env e else (e, false)

  abbrev pub test_str : SubjAttr T → Option Bytes → Turn
  test_str rule none = next
  test_str rule (some str) = next_if (check_str_attr_set rule.set str)

  unfoldable pub test_exe : Env T → Event T → SubjAttr T → SubjAttr T → Event T × Turn
  unfolding refuses_trusted
  test_exe env e rule subj =
      let r = refuses_trusted env e rule in
      (r.0, if r.1 then stop no_match else test_str rule subj.str)

  unfoldable pub test_exe_dir : Env T → Event T → SubjAttr T → Option Bytes → Event T × Turn
  unfolding refuses_trusted
  test_exe_dir env e rule none = (e, next)
  test_exe_dir env e rule (some str) =
      if check_str_attr_set rule.set (codes "execdirs") && check_dirs 1 str
      then (e, stop no_match)
      else if check_str_attr_set rule.set (codes "systemdirs") && check_dirs 0 str
      then (e, stop no_match)
      else (let r = refuses_trusted env e rule in
          (r.0, if r.1 then stop no_match else next_if (check_pstr_attr_set rule.set str)))

  unfoldable pub test_pattern : Env T → Event T → SubjAttr T → Event T × Turn
  test_pattern env e rule =
      let r = subj_pattern_test env.environ env.system_ld_so rule.uval e.open_exec_perm e.s.info in
      (
        record e { s = record (e.s) { info = r.0 } },
        elim r.1 [ no_match ↦ stop no_match | matched ↦ next | match_error ↦ stop matched ],
      )

  -- The switch of `check_subject`, on the event's attribute.
  unfoldable pub test_subj : Env T → Event T → SubjAttr T → SubjType → SubjAttr T → Event T × Turn
  unfolding test_exe test_exe_dir
  test_subj env e rule auid subj = (e, next_if (check_int_attr_set rule.set (pos subj.uval)))
  test_subj env e rule sessionid subj = (e, next_if (check_int_attr_set rule.set (pos subj.uval)))
  test_subj env e rule uid subj = (e, next_if (avl_intersection rule.set.tree subj.set.tree))
  test_subj env e rule gid subj = (e, next_if (avl_intersection rule.set.tree subj.set.tree))
  test_subj env e rule pid subj = (e, next_if (check_int_attr_set rule.set subj.pid))
  test_subj env e rule ppid subj = (e, next_if (check_int_attr_set rule.set subj.pid))
  test_subj env e rule subj_trust subj = (e, next_if (subj.uval == rule.uval))
  test_subj env e rule exe subj = test_exe env e rule subj
  test_subj env e rule comm subj = (e, test_str rule subj.str)
  test_subj env e rule exe_type subj = (e, test_str rule subj.str)
  test_subj env e rule exe_dir subj = test_exe_dir env e rule subj.str
  test_subj env e rule pattern subj = (e, next)
  test_subj env e rule all_subj subj = (e, next)

  -- One turn of the loop. An attribute that cannot be had is passed over.
  unfoldable pub turn_subj : Env T → Event T → SubjAttr T → SubjType → Event T × Turn
  unfolding test_pattern
  turn_subj env e rule all_subj = (e, next)
  turn_subj env e rule pattern = test_pattern env (get_subj_attr env e pattern).0 rule
  turn_subj env e rule t =
      let r = get_subj_attr env e t in
      elim r.1 [ none ↦ (r.0, next) | some subj ↦ test_subj env r.0 rule t subj ]

  unfoldable pub check_subject : Env T → List (SubjAttr T) → Event T → Event T × Match
  check_subject env [] e = (e, matched)
  check_subject env (a ∷ as_) e =
      let r = turn_subj env e a a.type in
      elim r.1 [ stop m ↦ (r.0, m) | next ↦ check_subject env as_ r.0 ]
