-- ===== src/Iam/Dangerous/Targets.antt =====
-- Where escalation edges lead (crates/activable-iam-engine/src/escalation_derivation.rs).
use activable_cloud.Prelude.{
  ◌≡◌, refl, sym, ◌⊎◌, inl, inr, Bool, true, false, not, ◌&&◌, List, [], ◌∷◌, ◌++◌, map, Text,
  codes, text_eq, text_eq_iff, starts_with, flat_map, if◌then◌else◌, ◌==◌, All, Any, All-mono,
  Bool-cases, Option-cases,
}
use activable_cloud.Sorting.Kept.{sort_by-All, dedup-All}
use activable_cloud.Iam.Dangerous.{DangerousAction, DangerousActionMatch, EffectivePermission}
use activable_cloud.Iam.Dangerous.Escalation.{
  EscalationEdge, edge, target, find_danger, passrole_resources, self_edges, passed_edges,
  combo_edges, lateral_edges, edges_of, edges_of_match, derive_escalation_edges, same_edge,
  compare_edges,
}

module _ (principal : Text) (perms : List EffectivePermission) where
  -- The edge starts from the principal, and leads to it or to a resource that it may pass a role of.
  pub record IsJustified (e : EscalationEdge) : Type 0 where
    pub starts : e.from ≡ principal
    pub typed : e.edge_type ≡ codes "CanEscalateTo"
    pub leads :
        (e.to ≡ principal)
        ⊎ Any (λ p. (p.action ≡ codes "iam:PassRole") × (p.resource ≡ e.to)) perms

  -- A resource of a permission to pass a role.
  abbrev IsPassed : List EffectivePermission → Text → Type 0
  IsPassed ps r = Any (λ p. (p.action ≡ codes "iam:PassRole") × (p.resource ≡ r)) ps

  append-All :
      (P : EscalationEdge → Type 0) (xs ys : List EscalationEdge)
      → All P xs
      → All P ys
      → All P (xs ++ ys)
  append-All P [] ys h g = g
  append-All P (x ∷ xs) ys (p, h) g = (p, append-All P xs ys h g)

  IsPassed-resources : (ps : List EffectivePermission) → All (IsPassed ps) (passrole_resources ps)
  IsPassed-resources [] = tt
  IsPassed-resources (p ∷ ps) =
      let later =
        All-mono (IsPassed ps) (IsPassed (p ∷ ps)) (λ r h. inr h) _ (IsPassed-resources ps) in
      elim (Bool-cases (text_eq p.action (codes "iam:PassRole"))) [
        | inl e ↦ rw e (inl ((text_eq_iff p.action (codes "iam:PassRole")).0 e, refl), later)
        | inr n ↦ rw n later
      ]

  target_same : (r : Text) → target r ≡ r
  target_same r = elim (Bool-cases (text_eq r (codes "*"))) [
    | inl e ↦ rw e (sym ((text_eq_iff r (codes "*")).0 e))
    | inr n ↦ rw n refl
  ]

  passed-IsJustified :
      (danger : DangerousAction) (reason : Text) (resources : List Text)
      → All (IsPassed perms) resources
      → All IsJustified (map (λ r. edge principal (target r) danger reason) resources)
  passed-IsJustified danger reason [] h = tt
  passed-IsJustified danger reason (r ∷ rs) (h, hs) = (
    record { starts = refl; typed = refl; leads = inr (rw (target_same r) h) },
    passed-IsJustified danger reason rs hs,
  )

  if_All :
      (b : Bool) (xs : List EscalationEdge)
      → All IsJustified xs
      → All IsJustified (if b then xs else [])
  if_All true xs h = h
  if_All false xs h = tt

  edges_of-All : (danger : DangerousAction) → All IsJustified (edges_of principal perms danger)
  unfolding edges_of
  edges_of-All danger =
      append-All IsJustified (self_edges principal danger)
        (combo_edges principal perms danger ++ lateral_edges principal perms danger) self
        (append-All IsJustified (combo_edges principal perms danger)
          (lateral_edges principal perms danger) combo lateral)
    where
      self : All IsJustified (self_edges principal danger)
      self =
          if_All ((danger.tier == 1) && not danger.combo)
            (edge principal principal danger (danger.id ++ codes " (self-escalation, tier 1)") ∷ [])
            (record { starts = refl; typed = refl; leads = inl refl }, tt)

      passed : (reason : Text) → All IsJustified (passed_edges principal perms danger reason)
      passed reason =
          passed-IsJustified danger reason (passrole_resources perms) (IsPassed-resources perms)

      combo : All IsJustified (combo_edges principal perms danger)
      combo = if_All (starts_with danger.id (codes "pass-role") && danger.combo) _ (passed _)

      lateral : All IsJustified (lateral_edges principal perms danger)
      lateral = if_All (text_eq danger.id (codes "pass-role") && not danger.combo) _ (passed _)

  matches-All :
      (registry : List DangerousAction) (ms : List DangerousActionMatch)
      → All IsJustified (flat_map (edges_of_match principal perms registry) ms)
  unfolding edges_of_match
  matches-All registry [] = tt
  matches-All registry (m ∷ ms) = append-All IsJustified _ _ first (matches-All registry ms)
    where
      first : All IsJustified (edges_of_match principal perms registry m)
      first = elim (Option-cases (find_danger m.id registry)) [
        | inl e ↦ rw (edges_of_match, e) tt
        | inr (d, e) ↦ rw (edges_of_match, e) (edges_of-All d)
      ]

  -- Every derived edge starts from the principal, and leads to the principal itself or to the
  -- resource of one of its permissions for `iam:PassRole`.
  pub derive_escalation_edges-IsJustified :
      (registry : List DangerousAction)
      → All IsJustified (derive_escalation_edges principal perms registry)
  unfolding derive_escalation_edges
  derive_escalation_edges-IsJustified registry =
      dedup-All IsJustified same_edge _
        (sort_by-All IsJustified compare_edges _ (matches-All registry _))
