-- ===== src/Iam/Dangerous.antt =====
-- Dangerous actions among effective permissions:
-- crates/activable-iam-engine/src/dangerous_actions.rs.
pub mod Laws
pub mod Escalation
pub mod Targets
use activable_cloud.Prelude.{
  ℕ, Bool, true, false, ◌||◌, List, [], ◌∷◌, ◌++◌, map, Option, none, some, Text, codes, text_eq,
  starts_with, any, all, keep, if◌then◌else◌,
}
use activable_cloud.Prelude.Split.{before_char}
use activable_cloud.Iam.Wildcard.{star}

pub data Severity : Type 0 where
  critical high medium low : Severity

pub record DangerousAction : Type 0 where
  pub id : Text
  pub tier : ℕ
  pub severity : Severity
  pub actions : List Text
  pub combo : Bool
  pub description : Text

pub record DangerousActionMatch : Type 0 where
  pub id : Text
  pub tier : ℕ
  pub severity : Severity
  pub reason : Text

pub record EffectivePermission : Type 0 where
  pub action : Text
  pub resource : Text

unfoldable pub action_matches_pattern : Text → Text → Bool
action_matches_pattern pattern action =
    if text_eq pattern (codes "*") || text_eq pattern action
    then true
    else elim (before_char star pattern) [
      | some prefix ↦ starts_with action prefix
      | none ↦ text_eq pattern action
    ]

-- `effective_perms.iter().any(|p| action_matches_pattern(&p.action, action))`.
abbrev pub granted : List EffectivePermission → Text → Bool
granted perms action = any (λ p. action_matches_pattern p.action action) perms

-- `actions.join(" + ")`.
abbrev pub join : List Text → Text
join [] = []
join (a ∷ []) = a
join (a ∷ b ∷ rest) = a ++ (codes " + " ++ join (b ∷ rest))

-- `find(…).cloned().unwrap_or_default()`.
abbrev pub find_or_default : (Text → Bool) → List Text → Text
find_or_default p [] = []
find_or_default p (a ∷ rest) = if p a then a else find_or_default p rest

abbrev pub match_of : DangerousAction → Text → DangerousActionMatch
match_of danger reason = record {
  id = danger.id;
  tier = danger.tier;
  severity = danger.severity;
  reason = reason;
}

-- The body of the loop: the matches that one entry of the registry pushes.
unfoldable pub detect_one : List EffectivePermission → DangerousAction → List DangerousActionMatch
detect_one perms danger =
    if danger.combo
    then (if all (granted perms) danger.actions
        then match_of danger (join danger.actions ++ codes " (combo)") ∷ []
        else [])
    else if any (granted perms) danger.actions
    then match_of danger
        (find_or_default (granted perms) danger.actions ++ codes " (single-action)")
      ∷ []
    else []

abbrev pub detect_each : List EffectivePermission → List DangerousAction → List DangerousActionMatch
detect_each perms [] = []
detect_each perms (danger ∷ rest) = detect_one perms danger ++ detect_each perms rest

unfoldable pub detect_dangerous_actions :
    List EffectivePermission → List DangerousAction → List DangerousActionMatch
detect_dangerous_actions perms registry =
    if any (λ p. text_eq p.action (codes "*")) perms
    then map (λ d. match_of d (codes "* (wildcard — all actions allowed)")) registry
    else detect_each perms registry
