-- ===== src/Iam/Grants.antt =====
-- When a boundary, a chain of service control policies and a session policy let a request pass
-- (boundary_evaluator.rs, scp_evaluator.rs and session_policy.rs of crates/activable-iam-engine/src).
use activable_cloud.Prelude.{
  ◌≡◌, refl, ◌↔◌, ◌≢◌, ◌⊎◌, inl, inr, Bool-cases, Bool, true, ◌&&◌, List, [], ◌∷◌, arith, Text, any,
  all, any_iff, all_iff, All, Any, &&_iff, ↔_trans, if◌then◌else◌,
}
use activable_cloud.Iam.Types.{PolicyStatement, allow, is_allow, is_allow_iff}
use activable_cloud.Iam.Statements.{Covers, covers, Covers-iff}
use activable_cloud.Iam.Boundary.{
  scan_allows, boundary_allows, evaluate_with_boundary, no_boundary, allowed, not_in_boundary,
}
use activable_cloud.Iam.Scp.{statement_slice_allows, levels_allow, scp_allows}
use activable_cloud.Iam.Session
use activable_cloud.Iam.Session.{session_scan, session_allows, effective_permissions_with_session}

-- An Allow statement that is about the action on the resource.
abbrev pub Grants : Text → Text → PolicyStatement → Type 0
Grants action resource stmt = (stmt.effect ≡ allow) × Covers stmt action resource

abbrev pub grants : Text → Text → PolicyStatement → Bool
grants action resource stmt = is_allow stmt.effect && covers stmt action resource

grants_iff :
    (action resource : Text) (stmt : PolicyStatement)
    → (grants action resource stmt ≡ true) ↔ Grants action resource stmt
grants_iff action resource stmt =
    let (fa, ba) = is_allow_iff stmt.effect in
    let (fc, bc) = Covers-iff stmt action resource in
    ↔_trans (&&_iff (is_allow stmt.effect) (covers stmt action resource))
      (λ h. (fa h.0, fc h.1), λ h. (ba h.0, bc h.1))

module _ (action resource : Text) where
  -- The three loops look for the same thing.
  scan_allows-any :
      (statements : List PolicyStatement)
      → scan_allows statements action resource ≡ any (grants action resource) statements
  unfolding scan_allows
  scan_allows-any [] = refl
  scan_allows-any (stmt ∷ statements) = ground (arith, scan_allows-any statements)

  slice-any :
      (statements : List PolicyStatement)
      → statement_slice_allows statements action resource ≡ any (grants action resource) statements
  unfolding statement_slice_allows
  slice-any [] = refl
  slice-any (stmt ∷ statements) = ground (arith, slice-any statements)

  pub session-any :
      (statements : List PolicyStatement)
      → session_scan statements action resource
        ≡ (if any (grants action resource) statements then Session.allowed else Session.constrained)
  unfolding session_scan
  session-any [] = refl
  session-any (stmt ∷ statements) = ground (arith, session-any statements)

  pub any-grants_iff :
      (statements : List PolicyStatement)
      → (any (grants action resource) statements ≡ true) ↔ Any (Grants action resource) statements
  any-grants_iff =
      any_iff (Grants action resource) (grants action resource) (grants_iff action resource)

  -- A boundary lets a request pass exactly if it is empty, or one of its Allow statements is about
  -- the request. Its Deny statements and its conditions do not matter.
  pub boundary_allows_iff :
      (boundary : List PolicyStatement)
      → (boundary_allows boundary action resource ≡ true)
        ↔ ((boundary ≡ []) ⊎ Any (Grants action resource) boundary)
  unfolding boundary_allows
  boundary_allows_iff [] = (λ h. inl refl, λ h. refl)
  boundary_allows_iff (stmt ∷ boundary) =
      rw (scan_allows-any (stmt ∷ boundary))
        (↔_trans (any-grants_iff (stmt ∷ boundary)) (inr, elim [ inl e ↦ cc | inr h ↦ h ]))

  levels_allow-all :
      (chain : List (List PolicyStatement))
      → levels_allow chain action resource
        ≡ all (λ level. statement_slice_allows level action resource) chain
  unfolding levels_allow
  levels_allow-all [] = refl
  levels_allow-all (level ∷ chain) = ground (arith, levels_allow-all chain)

  slice_iff :
      (level : List PolicyStatement)
      → (statement_slice_allows level action resource ≡ true) ↔ Any (Grants action resource) level
  slice_iff level = rw (slice-any level) (any-grants_iff level)

  -- A chain lets a request pass exactly if each of its levels has an Allow statement about it. The
  -- empty chain restricts nothing, an empty level blocks everything, and Deny statements do not matter.
  pub scp_allows_iff :
      (chain : List (List PolicyStatement))
      → (scp_allows chain action resource ≡ true) ↔ All (Any (Grants action resource)) chain
  unfolding scp_allows
  scp_allows_iff [] = (λ h. tt, λ h. refl)
  scp_allows_iff (level ∷ chain) = rw (levels_allow-all (level ∷ chain)) (
      all_iff (Any (Grants action resource)) (λ l. statement_slice_allows l action resource)
        slice_iff (level ∷ chain))

-- The verdict on a boundary: there is none, or it has a statement that grants the request, or not.
pub evaluate_with_boundary_iff :
    (boundary : List PolicyStatement) (action resource : Text)
    → ((evaluate_with_boundary boundary action resource ≡ no_boundary) ↔ (boundary ≡ []))
      × ((evaluate_with_boundary boundary action resource ≡ allowed)
          ↔ ((boundary ≢ []) × Any (Grants action resource) boundary))
      × ((evaluate_with_boundary boundary action resource ≡ not_in_boundary)
          ↔ ((boundary ≢ []) × ¬ Any (Grants action resource) boundary))
unfolding evaluate_with_boundary
evaluate_with_boundary_iff [] action resource =
    ((λ h. refl, λ h. refl), (λ h. cc, λ h. absurd (h.0 refl)), (λ h. cc, λ h. absurd (h.0 refl)))
evaluate_with_boundary_iff (stmt ∷ boundary) action resource =
    let (forth, back) = boundary_allows_iff action resource (stmt ∷ boundary) in
    elim (Bool-cases (boundary_allows (stmt ∷ boundary) action resource)) [
      | inl e ↦
          rw (evaluate_with_boundary, e)
            (
              (λ h. cc, λ h. cc),
              (λ h. (λ n. cc, elim (forth e) [ inl n ↦ cc | inr g ↦ g ]), λ h. refl),
              (λ h. cc, λ h. absurd (h.1 (elim (forth e) [ inl n ↦ cc | inr g ↦ g ]))),
            )
      | inr e ↦
          rw (evaluate_with_boundary, e)
            (
              (λ h. cc, λ h. cc),
              (λ h. cc, λ h. let yes = back (inr h.1) in cc),
              (λ h. (λ n. cc, λ g. let yes = back (inr g) in cc), λ h. refl),
            )
    ]
