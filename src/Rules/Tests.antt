-- ===== src/Rules/Tests.antt =====
-- The rules on concrete input, and the instances of their properties.
use rhel_fapolicyd.AttrSets.Sample.{Avl_List}
use rhel_fapolicyd.Base.{ℕ, ◌≡◌, refl, true, false, arith}
use rhel_fapolicyd.Event.Cache.{Extends}
use rhel_fapolicyd.Event.Sample.{sample_env, sample_event, sample_info}
use rhel_fapolicyd.Process.{full}
use rhel_fapolicyd.Rules.{no_opinion, decided, deny, matched}
use rhel_fapolicyd.Rules.Exclusive.{subj_pattern_test_exclusive}
use rhel_fapolicyd.Rules.Growth.{rule_evaluate-Extends}
use rhel_fapolicyd.Rules.Objects.{rule_evaluate}
use rhel_fapolicyd.Rules.Pattern.{subj_pattern_test}
use rhel_fapolicyd.Rules.Samples.{program, deny_bash, deny_other}

rule_evaluate_runs :
    ((rule_evaluate sample_env deny_bash sample_event).1 ≡ decided deny true false)
    × ((rule_evaluate sample_env deny_other sample_event).1 ≡ no_opinion)
unfolding program
rule_evaluate_runs = (refl, refl)

rule_evaluate-Extends_example :
    Extends sample_event (rule_evaluate sample_env deny_bash sample_event).0
rule_evaluate-Extends_example = rule_evaluate-Extends sample_env deny_bash sample_event

full_runs :
    (subj_pattern_test sample_env.environ sample_env.system_ld_so 0 true
      (record sample_info { state = full })).1
    ≡ matched
unfolding program
full_runs = refl

subj_pattern_test_exclusive_example : ◌≡◌ {A = ℕ} 0 0
subj_pattern_test_exclusive_example =
    subj_pattern_test_exclusive sample_env.environ sample_env.system_ld_so true
      (record sample_info { state = full }) 0 0 (omega arith) (omega arith) full_runs full_runs
