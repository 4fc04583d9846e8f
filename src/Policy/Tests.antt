-- ===== src/Policy/Tests.antt =====
-- The policy on concrete events, and the instances of its properties.
use rhel_fapolicyd.AttrSets.Sample.{Avl_List}
use rhel_fapolicyd.AttrSets.Tree.{Elem}
use rhel_fapolicyd.Base.{◌≡◌, refl, true, false, some, List, [], ◌∷◌}
use rhel_fapolicyd.Event.Sample.{sample_env, sample_event}
use rhel_fapolicyd.Policy.{
  Counters, process_event, decide, make_policy_decision, ask_rules, count_decision, reply_to,
}
use rhel_fapolicyd.Policy.FirstMatch.{Outcomes, process_event-Outcomes}
use rhel_fapolicyd.Policy.Replies.{Explained, make_policy_decision-Explained}
use rhel_fapolicyd.Rules.{Rule, deny}
use rhel_fapolicyd.Rules.Samples.{program, deny_bash, deny_other}

abbrev two_rules : List (Rule (List Elem))
two_rules = deny_other ∷ deny_bash ∷ []

abbrev start : Counters
start = record { allowed = 5; denied = 2 }

-- The first rule is silent, the second denies with an audit: one more denial, answered and audited.
make_policy_decision_runs :
    ((make_policy_decision sample_env 0 false two_rules start true (some sample_event)).0
      ≡ record { allowed = 5; denied = 3 })
    × ((make_policy_decision sample_env 0 false two_rules start true (some sample_event)).1
        ≡ some (record { response = deny; audit = true }))
    × ((process_event sample_env 0 two_rules sample_event).event.num ≡ 5)
unfolding program make_policy_decision process_event decide ask_rules count_decision reply_to
make_policy_decision_runs = (refl, refl, refl)

process_event-Outcomes_example :
    Outcomes sample_env 0 two_rules sample_event (process_event sample_env 0 two_rules sample_event)
process_event-Outcomes_example = process_event-Outcomes sample_env 0 two_rules sample_event

make_policy_decision-Explained_example :
    Explained sample_env 0 false two_rules start
      (some sample_event)
      (make_policy_decision sample_env 0 false two_rules start true (some sample_event))
make_policy_decision-Explained_example =
    make_policy_decision-Explained sample_env 0 false two_rules start (some sample_event)
