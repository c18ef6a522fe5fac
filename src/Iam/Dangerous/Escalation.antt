-- ===== src/Iam/Dangerous/Escalation.antt =====
-- Escalation edges from dangerous actions:
-- crates/activable-iam-engine/src/escalation_derivation.rs.
use Prim.Native.Nat.{Ordering}
use activable_cloud.Prelude.{
  ℕ, Bool, true, false, not, ◌&&◌, List, [], ◌∷◌, ◌++◌, map, Option, none, some, Text, codes,
  text_eq, starts_with, keep, flat_map, if◌then◌else◌, ◌==◌,
}
use activable_cloud.Sorting.{text_compare, then_with, sort_by, dedup}
use activable_cloud.Iam.Dangerous.{
  Severity, critical, high, medium, low, DangerousAction, DangerousActionMatch, EffectivePermission,
  detect_dangerous_actions,
}

pub record EscalationEdge : Type 0 where
  pub from : Text
  pub to : Text
  pub edge_type : Text
  pub reason : Text
  pub tier : ℕ
  pub severity : Severity

-- `registry.iter().find(|d| d.id == matched.id)`.
abbrev pub find_danger : Text → List DangerousAction → Option DangerousAction
find_danger id [] = none
find_danger id (d ∷ rest) = if text_eq d.id id then some d else find_danger id rest

-- `passrole_resources`.
abbrev pub passrole_resources : List EffectivePermission → List Text
passrole_resources perms =
    map (λ p. p.resource) (keep (λ p. text_eq p.action (codes "iam:PassRole")) perms)

abbrev pub edge : Text → Text → DangerousAction → Text → EscalationEdge
edge from to danger reason = record {
  from = from;
  to = to;
  edge_type = codes "CanEscalateTo";
  reason = reason;
  tier = danger.tier;
  severity = danger.severity;
}

abbrev pub target : Text → Text
target resource = if text_eq resource (codes "*") then codes "*" else resource

abbrev pub if_pushed : Bool → List EscalationEdge → List EscalationEdge
if_pushed b edges = if b then edges else []

-- Tier 1, single action.
abbrev pub self_edges : Text → DangerousAction → List EscalationEdge
self_edges principal danger =
    if_pushed ((danger.tier == 1) && not danger.combo)
      (edge principal principal danger (danger.id ++ codes " (self-escalation, tier 1)") ∷ [])

-- One edge for each resource of `iam:PassRole`.
abbrev pub passed_edges :
    Text → List EffectivePermission → DangerousAction → Text → List EscalationEdge
passed_edges principal perms danger reason =
    map (λ r. edge principal (target r) danger reason) (passrole_resources perms)

abbrev pub combo_edges : Text → List EffectivePermission → DangerousAction → List EscalationEdge
combo_edges principal perms danger =
    if_pushed (starts_with danger.id (codes "pass-role") && danger.combo)
      (passed_edges principal perms danger (danger.id ++ codes " (via PassRole + compute)"))

abbrev pub lateral_edges : Text → List EffectivePermission → DangerousAction → List EscalationEdge
lateral_edges principal perms danger =
    if_pushed (text_eq danger.id (codes "pass-role") && not danger.combo)
      (passed_edges principal perms danger (codes "iam:PassRole (lateral movement)"))

-- The three pushes for the definition of a danger that is matched, in their order.
unfoldable pub edges_of : Text → List EffectivePermission → DangerousAction → List EscalationEdge
edges_of principal perms danger =
    self_edges principal danger
    ++ (combo_edges principal perms danger ++ lateral_edges principal perms danger)

-- The loop's body; a match without a definition is passed over.
unfoldable pub edges_of_match :
    Text
    → List EffectivePermission
    → List DangerousAction
    → DangerousActionMatch
    → List EscalationEdge
edges_of_match principal perms registry m = elim (find_danger m.id registry) [
  | none ↦ []
  | some d ↦ edges_of principal perms d
]

abbrev pub compare_edges : EscalationEdge → EscalationEdge → Ordering
compare_edges a b =
    then_with (text_compare a.from b.from)
      (then_with (text_compare a.to b.to) (text_compare a.reason b.reason))

abbrev pub severity_eq : Severity → Severity → Bool
severity_eq critical critical = true
severity_eq high high = true
severity_eq medium medium = true
severity_eq low low = true
severity_eq _ _ = false

-- The derived `==`.
abbrev pub same_edge : EscalationEdge → EscalationEdge → Bool
same_edge a b =
    text_eq a.from b.from
    && (text_eq a.to b.to
        && (text_eq a.edge_type b.edge_type
            && (text_eq a.reason b.reason
                && (a.tier == b.tier && severity_eq a.severity b.severity))))

unfoldable pub derive_escalation_edges :
    Text → List EffectivePermission → List DangerousAction → List EscalationEdge
derive_escalation_edges principal perms registry = dedup same_edge (
    sort_by compare_edges (
      flat_map (edges_of_match principal perms registry) (detect_dangerous_actions perms registry)))
