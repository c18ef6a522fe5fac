-- ===== src/Risk/Rules.antt =====
-- Escalation rules and their evaluation: crates/activable-risk/src/types.rs and src/rule_engine.rs.
-- Boosts are floating-point numbers that are only copied here: their type is a parameter.
use activable_cloud.Prelude.{
  ℕ, Bool, true, false, ◌||◌, not, List, [], ◌∷◌, ◌++◌, Option, none, some, Text, codes, text_eq,
  is_empty, keep, length, ltb, leb, if◌then◌else◌, ◌+◌, ◌%◌, ◌^◌,
}
use activable_cloud.Prelude.Errors.{Result, ok, err}
use activable_cloud.Iam.Matchers.{action_matches}

pub record RequiredPermission : Type 0 where
  pub permission : Text
  pub resource_constraints : Option Text

mutual
  pub data RuleRequirement : Type 0 where
    single : RequiredPermission → RuleRequirement
    all_of : Requirements → RuleRequirement
    any_of : Requirements → RuleRequirement

  pub data Requirements : Type 0 where
    nil : Requirements
    cons : RuleRequirement → Requirements → Requirements

pub data CascadeScope : Type 0 where
  principal account : CascadeScope

pub record CascadeTrigger : Type 0 where
  pub match_count : ℕ
  pub min_tier : ℕ
  pub scope : CascadeScope

pub data Prerequisites : Type 0 where
  uniform : List Text → Prerequisites
  tabbed : List Text → List Text → Prerequisites

-- The tree is walked with the depth at each requirement.
unfoldable mutual
  pub check_depth : RuleRequirement → ℕ → Result Text (Unit {0})
  check_depth (single rp) current_depth =
      if ltb 2 current_depth
      then err (codes "rule requirement tree exceeds max depth 2 — flatten")
      else ok tt
  check_depth (all_of reqs) current_depth =
      let inner = check_each reqs (current_depth + 1) in
      if ltb 2 current_depth
      then err (codes "rule requirement tree exceeds max depth 2 — flatten")
      else inner
  check_depth (any_of reqs) current_depth =
      let inner = check_each reqs (current_depth + 1) in
      if ltb 2 current_depth
      then err (codes "rule requirement tree exceeds max depth 2 — flatten")
      else inner

  pub check_each : Requirements → ℕ → Result Text (Unit {0})
  check_each nil depth = ok tt
  check_each (cons req reqs) depth =
      let later = check_each reqs depth in
      elim (check_depth req depth) [ err e ↦ err e | ok u ↦ later ]

unfoldable pub validate_depth : RuleRequirement → Result Text (Unit {0})
unfolding check_depth
validate_depth req = check_depth req 0

pub record EffectivePermission : Type 0 where
  pub action : Text
  pub resource : Text

-- A required permission, once for each effective one that covers it.
abbrev pub matched_single : Text → List EffectivePermission → List Text
matched_single permission [] = []
matched_single permission (effective ∷ rest) =
    let later = matched_single permission rest in
    if text_eq effective.action (codes "*") || action_matches effective.action permission
    then permission ∷ later
    else later

-- A list of sub-requirements goes on with what was collected so far; a missing one ends it.
unfoldable mutual
  pub evaluate_requirement : RuleRequirement → List EffectivePermission → Bool × List Text
  evaluate_requirement (single rp) perms =
      let matched = matched_single rp.permission perms in (not (is_empty matched), matched)
  evaluate_requirement (all_of reqs) perms = evaluate_all reqs perms []
  evaluate_requirement (any_of reqs) perms = evaluate_any reqs perms

  pub evaluate_all : Requirements → List EffectivePermission → List Text → Bool × List Text
  evaluate_all nil perms collected = (true, collected)
  evaluate_all (cons req reqs) perms collected =
      let first = evaluate_requirement req perms in
      let later = evaluate_all reqs perms (collected ++ first.1) in
      if first.0 then later else (false, collected)

  pub evaluate_any : Requirements → List EffectivePermission → Bool × List Text
  evaluate_any nil perms = (false, [])
  evaluate_any (cons req reqs) perms =
      let first = evaluate_requirement req perms in
      let later = evaluate_any reqs perms in if first.0 then (true, first.1) else later

module _ (F64 : Type 0) where
  pub record EscalationRule : Type 0 where
    pub id : Text
    pub name : Text
    pub category : Text
    pub services : List Text
    pub permissions : Option RuleRequirement
    pub prerequisites : Prerequisites
    pub severity_tier : ℕ
    pub boost : F64
    pub trigger : Option CascadeTrigger
    pub description : Option Text

  pub record MatchedRule : Type 0 where
    pub rule_id : Text
    pub rule_name : Text
    pub category : Text
    pub severity_tier : ℕ
    pub boost : F64
    pub matched_permissions : List Text

module _ {F64 : Type 0} where
  -- What is reported of a rule.
  abbrev pub report : EscalationRule F64 → List Text → MatchedRule F64
  report rule matched = record {
    rule_id = rule.id;
    rule_name = rule.name;
    category = rule.category;
    severity_tier = rule.severity_tier;
    boost = rule.boost;
    matched_permissions = matched;
  }

  -- By the trigger and the permissions of the rule: one with a trigger is left to the second phase.
  abbrev pub match_permissions :
      EscalationRule F64
      → Option CascadeTrigger
      → Option RuleRequirement
      → List EffectivePermission
      → Option (MatchedRule F64)
  match_permissions rule (some trigger) permissions perms = none
  match_permissions rule none none perms = none
  match_permissions rule none (some req) perms =
      let result = evaluate_requirement req perms in
      if result.0 then some (report rule (result.1)) else none

  unfoldable pub match_rule :
      EscalationRule F64 → List EffectivePermission → Option (MatchedRule F64)
  match_rule rule perms = match_permissions rule rule.trigger rule.permissions perms

  abbrev pub primary_matches :
      List (EscalationRule F64) → List EffectivePermission → List (MatchedRule F64)
  primary_matches [] perms = []
  primary_matches (rule ∷ rules) perms = elim (match_rule rule perms) [
    | none ↦ primary_matches rules perms
    | some m ↦ m ∷ primary_matches rules perms
  ]

  abbrev pub qualifies : CascadeTrigger → List (MatchedRule F64) → Bool
  qualifies trigger primary =
      leb trigger.match_count
        (length (keep (λ m. leb m.severity_tier trigger.min_tier) primary) % 2 ^ 32)

  abbrev pub cascade_of :
      EscalationRule F64 → Option CascadeTrigger → List (MatchedRule F64) → List (MatchedRule F64)
  cascade_of rule none primary = []
  cascade_of rule (some trigger) primary =
      if qualifies trigger primary then report rule [] ∷ [] else []

  abbrev pub cascade_matches :
      List (EscalationRule F64) → List (MatchedRule F64) → List (MatchedRule F64)
  cascade_matches [] primary = []
  cascade_matches (rule ∷ rules) primary =
      cascade_of rule rule.trigger primary ++ cascade_matches rules primary

  unfoldable pub match_all_rules :
      List (EscalationRule F64) → List EffectivePermission → List (MatchedRule F64)
  unfolding match_rule
  match_all_rules rules perms =
      let primary = primary_matches rules perms in primary ++ cascade_matches rules primary
