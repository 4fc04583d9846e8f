-- ===== src/Policy/Access.antt =====
-- The event that `process_event` leaves is about the access that it was asked about.
use rhel_fapolicyd.AttrSets.Tree.{Avl}
use rhel_fapolicyd.Base.{ℕ, ◌+◌, ◌≡◌, inl, inr, List}
use rhel_fapolicyd.Event.{Env, Event}
use rhel_fapolicyd.Event.Cache.{Extends, Extends-refl, Extends-trans, KeepsSubjects, KeepsObjects}
use rhel_fapolicyd.Policy.{Processed, process_event}
use rhel_fapolicyd.Policy.FirstMatch.{Silent, done, pass, Outcomes, process_event-Outcomes}
use rhel_fapolicyd.Rules.{Rule}
use rhel_fapolicyd.Rules.Growth.{rule_evaluate-Extends}

module _ {T : Type 0} where
  -- The same process, descriptor and kind of access, and at least the same attributes.
  pub record SameAccess (e e' : Event T) : Type 0 where
    pub pid : e'.pid ≡ e.pid
    pub fd : e'.fd ≡ e.fd
    pub open_perm : e'.open_perm ≡ e.open_perm
    pub exec_perm : e'.open_exec_perm ≡ e.open_exec_perm
    pub subjects : KeepsSubjects e.s e'.s
    pub objects : KeepsObjects e.o e'.o

  -- Whatever number it gets.
  Extends-SameAccess :
      (e e' : Event T) (n : ℕ) → Extends e e' → SameAccess e (record e' { num = n })
  Extends-SameAccess e e' n x = record {
    pid = x.same_pid;
    fd = x.same_fd;
    open_perm = x.same_open;
    exec_perm = x.same_exec;
    subjects = x.subjects;
    objects = x.objects;
  }

module _ {T : Type 0} ⦃avl : Avl T⦄ (env : Env T) where
  Silent-Extends : (rules : List (Rule T)) (e e' : Event T) → Silent env rules e e' → Extends e e'
  Silent-Extends _ e _ done = Extends-refl e
  Silent-Extends _ e e' (pass {r = r} {rs = rs} silent later) =
      Extends-trans e _ e' (rule_evaluate-Extends env r e) (Silent-Extends rs _ e' later)

  outcome-SameAccess :
      (debug_mode : ℕ) (rules : List (Rule T)) (e : Event T) (p : Processed T)
      → Outcomes env debug_mode rules e p
      → SameAccess e p.event
  outcome-SameAccess debug_mode rules e p (inl (e', silent, same)) =
      rw same (Extends-SameAccess e e' e'.num (Silent-Extends rules e e' silent))
  outcome-SameAccess debug_mode rules e p (inr (d, same)) = rw same (
      Extends-SameAccess e _ (d.rule.num + 1) (
        Extends-trans e d.reached _ (Silent-Extends d.before e d.reached d.silent)
          (rule_evaluate-Extends env d.rule d.reached)))

  -- Whatever the rules decide, the event that `process_event` leaves has the process, the descriptor
  -- and the kind of access of the event that it was given, and every attribute that one had.
  pub process_event-SameAccess :
      (debug_mode : ℕ) (rules : List (Rule T)) (e : Event T)
      → SameAccess e (process_event env debug_mode rules e).event
  process_event-SameAccess debug_mode rules e =
      outcome-SameAccess debug_mode rules e _ (process_event-Outcomes env debug_mode rules e)
