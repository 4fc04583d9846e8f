-- ===== src/Policy/FirstMatch.antt =====
-- `process_event` follows the first rule that has an opinion.
use rhel_fapolicyd.AttrSets.Tree.{Avl}
use rhel_fapolicyd.Base.{
  ℕ, ◌+◌, ◌≡◌, ◌≢◌, refl, ap, ◌∙◌, ◌⊎◌, inl, inr, Bool, true, false, ◌&&◌, ◌||◌, none, some, List,
  [], ◌∷◌, ◌++◌, ltb, ◌==◌, Bool-cases,
}
use rhel_fapolicyd.Event.{Env, Event}
use rhel_fapolicyd.Policy.{
  Outcome, Processed, ask_rules, process_event, is_no_opinion, has_syslog, has_deny,
}
use rhel_fapolicyd.Rules.{allow, Decision, no_opinion, decided, Rule, check_access}
use rhel_fapolicyd.Rules.Objects.{rule_evaluate, check_object, is_no_match}
use rhel_fapolicyd.Rules.Subjects.{check_subject}

module _ {T : Type 0} ⦃avl : Avl T⦄ (env : Env T) where
  -- None of the rules has an opinion; asking them in turn leads from the first event to the second.
  pub data Silent : List (Rule T) → Event T → Event T → Type 0 where
    done : {e : Event T} → Silent [] e e
    pass :
        {r : Rule T} {rs : List (Rule T)} {e e' : Event T}
        → (rule_evaluate env r e).1 ≡ no_opinion
        → Silent rs (rule_evaluate env r e).0 e'
        → Silent (r ∷ rs) e e'

  -- The rules up to the first one with an opinion, the event that it was asked on, and the rules
  -- behind it.
  pub record Decides (rules : List (Rule T)) (e : Event T) : Type 0 where
    pub before : List (Rule T)
    pub rule : Rule T
    pub after : List (Rule T)
    pub reached : Event T
    pub split : rules ≡ before ++ rule ∷ after
    pub silent : Silent before e reached
    pub opinion : (rule_evaluate env rule reached).1 ≡ rule.d
    pub decides : rule.d ≢ no_opinion

  rule_evaluate-cases :
      (r : Rule T) (e : Event T)
      → ((rule_evaluate env r e).1 ≡ no_opinion) ⊎ ((rule_evaluate env r e).1 ≡ r.d)
  unfolding rule_evaluate
  rule_evaluate-cases r e = elim (Bool-cases (check_access r e)) [
    | inr other ↦ rw other (inl refl)
    | inl access ↦
        let subject = check_subject env r.s e in
        elim (Bool-cases (is_no_match subject.1)) [
          | inl none_ ↦ rw (access, none_) (inl refl)
          | inr some_ ↦ elim (Bool-cases (is_no_match (check_object env r subject.0).1)) [
            | inl no_object ↦ rw (access, some_, no_object) (inl refl)
            | inr object ↦ rw (access, some_, object) (inr refl)
          ]
        ]
  ]

  silent_iff : (d : Decision) → is_no_opinion d ≡ true → d ≡ no_opinion
  silent_iff no_opinion h = refl
  silent_iff (decided v a s) h = cc

  opinion_iff : (d : Decision) → is_no_opinion d ≡ false → d ≢ no_opinion
  opinion_iff no_opinion h e = cc
  opinion_iff (decided v a s) h e = cc

  -- The two ways in which the loop ends.
  abbrev pub Asked : List (Rule T) → Event T → Outcome T → Type 0
  Asked rules e out =
      ((e' : Event T) × Silent rules e e'
        × (out ≡ record { event = e'; results = no_opinion; rule = none }))
      ⊎ ((d : Decides rules e) × (out ≡ record {
        event = (rule_evaluate env d.rule d.reached).0;
        results = d.rule.d;
        rule = some d.rule.num;
      }))

  Asked-pass :
      (r : Rule T) (rs : List (Rule T)) (e : Event T) (out : Outcome T)
      → (rule_evaluate env r e).1 ≡ no_opinion
      → Asked rs (rule_evaluate env r e).0 out
      → Asked (r ∷ rs) e out
  Asked-pass r rs e out h (inl (e', silent, same)) = inl (e', pass h silent, same)
  Asked-pass r rs e out h (inr (d, same)) = inr (
    record {
      before = r ∷ d.before;
      rule = d.rule;
      after = d.after;
      reached = d.reached;
      split = ap (◌∷◌ r) d.split;
      silent = pass h d.silent;
      opinion = d.opinion;
      decides = d.decides;
    },
    same,
  )

  ask_rules-silent :
      (r : Rule T) (rs : List (Rule T)) (e : Event T)
      → (rule_evaluate env r e).1 ≡ no_opinion
      → ask_rules env (r ∷ rs) e ≡ ask_rules env rs (rule_evaluate env r e).0
  unfolding ask_rules
  ask_rules-silent r rs e h = rw (ask_rules, h) refl

  ask_rules-opinion :
      (d : Decision) (r : Rule T) (rs : List (Rule T)) (e : Event T)
      → d ≢ no_opinion
      → (rule_evaluate env r e).1 ≡ d
      → ask_rules env (r ∷ rs) e
        ≡ record { event = (rule_evaluate env r e).0; results = d; rule = some r.num }
  unfolding ask_rules
  ask_rules-opinion no_opinion r rs e n h = absurd (n refl)
  ask_rules-opinion (decided v a s) r rs e n h =
      rw (ask_rules, h)
        (ap (λ d. record { event = (rule_evaluate env r e).0; results = d; rule = some r.num }) h)

  ask_rules-Asked : (rules : List (Rule T)) (e : Event T) → Asked rules e (ask_rules env rules e)
  unfolding ask_rules
  ask_rules-Asked [] e = inl (e, done, refl)
  ask_rules-Asked (r ∷ rs) e = elim (Bool-cases (is_no_opinion (rule_evaluate env r e).1)) [
    | inl silent ↦
        let h = silent_iff _ silent in
        rw (ask_rules-silent r rs e h)
          (Asked-pass r rs e _ h (ask_rules-Asked rs (rule_evaluate env r e).0))
    | inr opinion ↦ elim (rule_evaluate-cases r e) [
      | inl silent ↦ absurd (opinion_iff _ opinion silent)
      | inr own ↦
          let n : r.d ≢ no_opinion = λ h. opinion_iff _ opinion (own ∙ h) in
          inr (
            record {
              before = [];
              rule = r;
              after = rs;
              reached = e;
              split = refl;
              silent = done;
              opinion = own;
              decides = n;
            },
            ask_rules-opinion r.d r rs e n own,
          )
    ]
  ]

  is_no_opinion_decides : (d : Decision) → d ≢ no_opinion → is_no_opinion d ≡ false
  is_no_opinion_decides no_opinion n = absurd (n refl)
  is_no_opinion_decides (decided v a s) n = refl

  -- Is the decision printed, in the debug mode and with the decision's own syslog bit?
  abbrev pub is_printed : ℕ → Decision → Bool
  is_printed debug_mode d = has_syslog d || (debug_mode == 1 || ltb 1 debug_mode && has_deny d)

  abbrev pub Outcomes : ℕ → List (Rule T) → Event T → Processed T → Type 0
  Outcomes debug_mode rules e p =
      ((e' : Event T) × Silent rules e e'
        × (p ≡ record {
          event = e';
          decision = decided allow false false;
          logged = is_printed debug_mode no_opinion;
        }))
      ⊎ ((d : Decides rules e) × (p ≡ record {
        event = record ((rule_evaluate env d.rule d.reached).0) { num = d.rule.num + 1 };
        decision = d.rule.d;
        logged = is_printed debug_mode d.rule.d;
      }))

  -- `process_event` ends in one of two ways. No rule has an opinion: the decision is ALLOW and the
  -- number of the event stays. Or the rules split at the first rule with an opinion: the decision is
  -- that rule's own, the event records its number counted from 1, and no rule behind it is asked.
  -- In both the decision is printed as its syslog bit and the debug mode say.
  pub process_event-Outcomes :
      (debug_mode : ℕ) (rules : List (Rule T)) (e : Event T)
      → Outcomes debug_mode rules e (process_event env debug_mode rules e)
  unfolding process_event
  process_event-Outcomes debug_mode rules e = elim (ask_rules-Asked rules e) [
    | inl (e', silent, same) ↦ rw same (inl (e', silent, refl))
    | inr (d, same) ↦ rw (same, is_no_opinion_decides d.rule.d d.decides) (inr (d, refl))
  ]
