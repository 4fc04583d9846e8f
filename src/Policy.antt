-- ===== src/Policy.antt =====
-- src/library/policy.c and policy.h: the names of decisions, `process_event`, which asks the rules in
-- order, and `make_policy_decision`, which counts and answers. The text that `log_it2` prints, with
-- the attributes that it looks up for it, is not modelled: the model says only when it is called.
-- USE_AUDIT is on.
pub mod Decisions
pub mod FirstMatch
pub mod Replies
pub mod Access
mod Tests
use rhel_fapolicyd.AttrSets.Tree.{Avl}
use rhel_fapolicyd.Base.{
  ℕ, ◌+◌, Bool, true, false, not, ◌&&◌, ◌||◌, Option, none, some, List, [], ◌∷◌, ltb, ◌==◌,
  if◌then◌else◌, Bytes, codes, streq,
}
use rhel_fapolicyd.Event.{Env, Event}
use rhel_fapolicyd.Rules.{Verdict, allow, deny, Decision, no_opinion, decided, Rule}
use rhel_fapolicyd.Rules.Objects.{rule_evaluate}

abbrev pub table : List (Decision × Bytes)
table =
    (no_opinion, codes "no-opinion")
    ∷ (decided allow false false, codes "allow")
    ∷ (decided deny false false, codes "deny")
    ∷ (decided allow true false, codes "allow_audit")
    ∷ (decided deny true false, codes "deny_audit")
    ∷ (decided allow false true, codes "allow_syslog")
    ∷ (decided deny false true, codes "deny_syslog")
    ∷ (decided allow true true, codes "allow_log")
    ∷ (decided deny true true, codes "deny_log")
    ∷ []

-- The loop of `dec_name_to_val`; `none` is -1.
unfoldable pub find_decision : List (Decision × Bytes) → Bytes → Option Decision
unfolding streq
find_decision [] name = none
find_decision ((d, row) ∷ rows) name = if streq name row then some d else find_decision rows name

unfoldable pub dec_name_to_val : Bytes → Option Decision
unfolding find_decision
dec_name_to_val = find_decision table

-- `==` of two decisions.
abbrev pub verdict_eq : Verdict → Verdict → Bool
verdict_eq allow allow = true
verdict_eq deny deny = true
verdict_eq _ _ = false

abbrev pub bool_eq : Bool → Bool → Bool
bool_eq true b = b
bool_eq false b = not b

abbrev pub dec_eq : Decision → Decision → Bool
dec_eq no_opinion no_opinion = true
dec_eq (decided v a s) (decided v' a' s') = verdict_eq v v' && (bool_eq a a' && bool_eq s s')
dec_eq _ _ = false

unfoldable pub name_of_decision : List (Decision × Bytes) → Decision → Option Bytes
name_of_decision [] v = none
name_of_decision ((d, row) ∷ rows) v = if dec_eq v d then some row else name_of_decision rows v

unfoldable pub dec_val_to_name : Decision → Option Bytes
unfolding name_of_decision
dec_val_to_name = name_of_decision table

abbrev pub is_no_opinion : Decision → Bool
is_no_opinion no_opinion = true
is_no_opinion _ = false

-- `results & SYSLOG`, `results & DENY`
abbrev pub has_syslog : Decision → Bool
has_syslog no_opinion = false
has_syslog (decided v audit syslog) = syslog

abbrev pub has_deny : Decision → Bool
has_deny (decided deny audit syslog) = true
has_deny _ = false

-- `decision & AUDIT`
abbrev pub has_audit : Decision → Bool
has_audit no_opinion = false
has_audit (decided v audit syslog) = audit

-- The event, the decision of the loop, and the number of the rule that it stopped at.
pub record Outcome (T : Type 0) : Type 0 where
  pub event : Event T
  pub results : Decision
  pub rule : Option ℕ

-- What `process_event` returns, and whether it calls `log_it2`.
pub record Processed (T : Type 0) : Type 0 where
  pub event : Event T
  pub decision : Decision
  pub logged : Bool

module _ {T : Type 0} ⦃avl : Avl T⦄ where
  -- The loop of `process_event`, from the rule at hand on.
  unfoldable pub ask_rules : Env T → List (Rule T) → Event T → Outcome T
  ask_rules env [] e = record { event = e; results = no_opinion; rule = none }
  ask_rules env (r ∷ rs) e =
      let answer = rule_evaluate env r e in
      elim (is_no_opinion answer.1) [
        | true ↦ ask_rules env rs answer.0
        | false ↦ record { event = answer.0; results = answer.1; rule = some r.num }
      ]

  -- `e->num` is the number of the rule, from 1.
  abbrev pub record_rule : Option ℕ → Event T → Event T
  record_rule none e = e
  record_rule (some n) e = record e { num = n + 1 }

  unfoldable pub process_event : Env T → ℕ → List (Rule T) → Event T → Processed T
  unfolding ask_rules
  process_event env debug_mode rules e =
      let out = ask_rules env rules e in
      record {
        event = record_rule out.rule out.event;
        decision = if is_no_opinion out.results then decided allow false false else out.results;
        logged =
            has_syslog out.results || (debug_mode == 1 || ltb 1 debug_mode && has_deny out.results);
      }

-- The answer to the kernel: FAN_ALLOW or FAN_DENY, with or without FAN_AUDIT.
pub record Reply : Type 0 where
  pub response : Verdict
  pub audit : Bool

pub record Counters : Type 0 where
  pub allowed : ℕ
  pub denied : ℕ

-- `decision & FAN_RESPONSE_MASK`
abbrev pub response_of : Decision → Verdict
response_of d = if has_deny d then deny else allow

unfoldable pub count_decision : Decision → Counters → Counters
count_decision d c =
    if has_deny d then record c { denied = c.denied + 1 } else record c { allowed = c.allowed + 1 }

unfoldable pub reply_to : ℕ → Bool → Bool → Decision → Option Reply
reply_to debug_mode permissive asks d =
    let audit = debug_mode == 0 && has_audit d in
    if not asks
    then none
    else some (record { response = if permissive then allow else response_of d; audit = audit })

-- `make_policy_decision`, given what `new_event` left (`none` if it failed) and whether the event's
-- mask asks for a permission. The reply, if one is sent.
module _ {T : Type 0} ⦃avl : Avl T⦄ where
  -- The decision, and the event after it.
  unfoldable pub decide : Env T → ℕ → List (Rule T) → Option (Event T) → Decision × Option (Event T)
  unfolding process_event
  decide env debug_mode rules none = (decided deny false false, none)
  decide env debug_mode rules (some e) =
      let p = process_event env debug_mode rules e in (p.decision, some p.event)

  unfoldable pub make_policy_decision :
      Env T
      → ℕ
      → Bool
      → List (Rule T)
      → Counters
      → Bool
      → Option (Event T)
      → Counters × Option Reply × Option (Event T)
  unfolding decide count_decision reply_to
  make_policy_decision env debug_mode permissive rules c asks event =
      let (d, e) = decide env debug_mode rules event in
      (count_decision d c, reply_to debug_mode permissive asks d, e)
