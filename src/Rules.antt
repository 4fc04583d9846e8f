-- ===== src/Rules.antt =====
-- src/library/rules.c and rules.h: the evaluation of a rule on an event. A rule's sets are those that
-- `rules_regen_sets` put in place of their indices.
pub mod Pattern
pub mod Subjects
pub mod Objects
pub mod Growth
pub mod Exclusive
pub mod Directories
pub mod Samples
mod Tests
use rhel_fapolicyd.Attr.{RuleFormat}
use rhel_fapolicyd.AttrSets.Tree.{Avl}
use rhel_fapolicyd.Base.{
  ℕ, zero, suc, Bool, true, false, not, Option, none, some, List, [], ◌∷◌, ltb, ◌==◌, if◌then◌else◌,
  Bytes, codes, strneq, length, drop,
}
use rhel_fapolicyd.Event.{Env, Event}
use rhel_fapolicyd.Subject.{SubjAttr, ObjAttr}

pub data Access : Type 0 where
  open_acc exec_acc any_acc : Access

pub data Verdict : Type 0 where
  allow deny : Verdict

-- `decision_t`: NO_OPINION, or FAN_ALLOW or FAN_DENY with the AUDIT and the SYSLOG bit.
pub data Decision : Type 0 where
  no_opinion : Decision
  decided : Verdict → Bool → Bool → Decision

pub record Rule (T : Type 0) : Type 0 where
  pub d : Decision
  pub a : Access
  pub num : ℕ
  pub format : RuleFormat
  pub s : List (SubjAttr T)
  pub o : List (ObjAttr T)

-- 0, 1 and -1 of the checks.
pub data Match : Type 0 where
  no_match matched match_error : Match

-- What one turn of a check's loop does: go on with the next attribute, or return.
pub data Turn : Type 0 where
  next : Turn
  stop : Match → Turn

abbrev pub next_if : Bool → Turn
next_if b = if b then next else stop no_match

abbrev pub dirs : List Bytes
dirs =
    codes "/etc/"
    ∷ codes "/usr/"
    ∷ codes "/bin/"
    ∷ codes "/sbin/"
    ∷ codes "/lib/"
    ∷ codes "/lib64/"
    ∷ codes "/usr/libexec/"
    ∷ []

-- The loop of `check_dirs`.
unfoldable pub any_dir : List Bytes → Bytes → Bool
any_dir [] path = false
any_dir (d ∷ ds) path = if strneq path d (length d) then true else any_dir ds path

unfoldable pub check_dirs : ℕ → Bytes → Bool
unfolding any_dir
check_dirs i path = any_dir (drop i dirs) path

unfoldable pub check_access : {T : Type 0} → Rule T → Event T → Bool
check_access r e = elim r.a [
  | any_acc ↦ true
  | exec_acc ↦ e.open_exec_perm
  | open_acc ↦ not e.open_exec_perm
]
