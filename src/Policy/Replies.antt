-- ===== src/Policy/Replies.antt =====
-- What `make_policy_decision` counts and answers.
use rhel_fapolicyd.AttrSets.Tree.{Avl}
use rhel_fapolicyd.Base.{
  ℕ, ◌+◌, ◌≡◌, refl, ◌⊎◌, inl, inr, Bool, true, false, ◌&&◌, Option, none, some, List, ◌==◌,
  if◌then◌else◌, Bool-cases,
}
use rhel_fapolicyd.Event.{Env, Event}
use rhel_fapolicyd.Policy.{
  Processed, process_event, Reply, Counters, count_decision, reply_to, make_policy_decision,
  has_deny, has_audit,
}
use rhel_fapolicyd.Policy.FirstMatch.{Silent, Decides, Outcomes, process_event-Outcomes}
use rhel_fapolicyd.Rules.{Verdict, allow, deny, Rule}

-- The counters after one more denial, or one more permission.
abbrev pub one_denied : Counters → Counters
one_denied c = record c { denied = c.denied + 1 }

abbrev pub one_allowed : Counters → Counters
one_allowed c = record c { allowed = c.allowed + 1 }

module _ {T : Type 0} ⦃avl : Avl T⦄ (env : Env T) (debug_mode : ℕ) (permissive : Bool)
    (rules : List (Rule T)) (c : Counters) where
  -- Whether the answer asks for an audit: the rule does, and the daemon does not run for debugging.
  abbrev pub audited : {e : Event T} → Decides env rules e → Bool
  audited d = debug_mode == 0 && has_audit d.rule.d

  -- The response to a denial.
  abbrev pub denying : Verdict
  denying = if permissive then allow else deny

  -- An answer with its reason.
  abbrev pub Explained : Option (Event T) → Counters × Option Reply × Option (Event T) → Type 0
  Explained none r =
      (r.1 ≡ some (record { response = denying; audit = false })) × (r.0 ≡ one_denied c)
  Explained (some e) r =
      ((d : Decides env rules e) × (has_deny d.rule.d ≡ true)
        × (r.1 ≡ some (record { response = denying; audit = audited d }))
        × (r.0 ≡ one_denied c))
      ⊎ (((d : Decides env rules e) × (has_deny d.rule.d ≡ false)
            × (r.1 ≡ some (record { response = allow; audit = audited d }))
            × (r.0 ≡ one_allowed c))
          ⊎ ((e' : Event T) × Silent env rules e e'
              × (r.1 ≡ some (record { response = allow; audit = false }))
              × (r.0 ≡ one_allowed c)))

  -- The answer to a decision.
  abbrev pub answer : Processed T → Counters × Option Reply × Option (Event T)
  answer p =
      (count_decision p.decision c, reply_to debug_mode permissive true p.decision, some p.event)

  make_policy_decision-answer :
      (e : Event T)
      → make_policy_decision env debug_mode permissive rules c true (some e)
        ≡ answer (process_event env debug_mode rules e)
  unfolding make_policy_decision
  make_policy_decision-answer e = refl

  allowing : (if permissive then allow else allow) ≡ allow
  allowing = elim (Bool-cases permissive) [ inl on ↦ rw on refl | inr off ↦ rw off refl ]

  answer-Explained :
      (e : Event T) (p : Processed T)
      → Outcomes env debug_mode rules e p
      → Explained (some e) (answer p)
  unfolding count_decision reply_to
  answer-Explained e p (inl (e', silent, same)) = elim (Bool-cases (debug_mode == 0)) [
    | inl off ↦ rw (same, off, allowing) (inr (inr (e', silent, refl, refl)))
    | inr on ↦ rw (same, on, allowing) (inr (inr (e', silent, refl, refl)))
  ]
  answer-Explained e p (inr (d, same)) = elim (Bool-cases (has_deny d.rule.d)) [
    | inl denies ↦ rw (same, denies) (inl (d, denies, refl, refl))
    | inr allows ↦ rw (same, allows, allowing) (inr (inl (d, allows, refl, refl)))
  ]

  -- An event that could not be made is counted as denied, and answered without an audit: denied
  -- when the policy is enforced, allowed in permissive mode.
  pub make_policy_decision_failed :
      make_policy_decision env debug_mode permissive rules c true none
      ≡ (one_denied c, some (record { response = denying; audit = false }), none)
  unfolding make_policy_decision
  make_policy_decision_failed = elim (Bool-cases (debug_mode == 0)) [
    | inl off ↦ rw off refl
    | inr on ↦ rw on refl
  ]

  -- An event whose mask asks for a permission is answered and counted. One that could not be made
  -- counts as denied, and is answered without an audit. Any other counts as denied because the first
  -- rule with an opinion denies; or it counts as allowed, and is allowed, because the first rule with
  -- an opinion does not deny, or without an audit because no rule has one. What counts as denied is
  -- denied when the policy is enforced, and allowed in permissive mode. The answer by a rule asks for an
  -- audit if the rule does, outside debug mode.
  pub make_policy_decision-Explained :
      (event : Option (Event T))
      → Explained event (make_policy_decision env debug_mode permissive rules c true event)
  make_policy_decision-Explained none = rw make_policy_decision_failed (refl, refl)
  make_policy_decision-Explained (some e) =
      rw (make_policy_decision-answer e)
        (answer-Explained e _ (process_event-Outcomes env debug_mode rules e))
