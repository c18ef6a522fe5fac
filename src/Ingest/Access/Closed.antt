-- ===== src/Ingest/Access/Closed.antt =====
-- What the edges of access lead to (crates/activable-ingest/src/native/access_edges.rs), and what the
-- statements are that are read (src/native/resource_policy.rs).
use activable_cloud.Prelude.{
  ℕ, zero, suc, ◌*◌, ◌≤◌, ◌≡◌, refl, ap, ◌∙◌, inl, inr, ◌⊎◌, false, Bool-cases, List, [], ◌∷◌, ◌++◌,
  map, some, arith, Text, codes, length, length-append, Any, Any-mono, Any-append, Any-map, members,
  All, All-mono, All-append, ltb,
}
use activable_cloud.Json.{Value, string, get_in}
use activable_cloud.Ingest.Access.{
  ParsedStatement, AccessEdge, wildcard_principal_id, explicit_edge, cap_edge, take,
  statement_edges, build_principal_node, build_access_edges,
}

length-take : {A : Type 0} (n : ℕ) (xs : List A) → length (take n xs) ≤ n
length-take zero xs = omega arith
length-take (suc n) [] = omega arith
length-take (suc n) (x ∷ xs) = omega (arith, length-take n xs)

length-map : {A B : Type 0} (f : A → B) (xs : List A) → length (map f xs) ≡ length xs
length-map f [] = refl
length-map f (x ∷ xs) = ap suc (length-map f xs)

within : (a b : ℕ) → ltb a b ≡ false → b ≤ a
within a b h = ground arith

-- An edge starts at the resource, and leads to the sentinel or to one of the principals.
abbrev LeadsTo : Text → List Text → AccessEdge → Type 0
LeadsTo resource_arn principals edge =
    (edge.0 ≡ resource_arn) × ((edge.1 ≡ wildcard_principal_id) ⊎ Any (λ p. p ≡ edge.1) principals)

explicit-LeadsTo :
    (resource_arn : Text) (stmt : ParsedStatement) (principals some_of : List Text)
    → All (λ x. Any (λ y. y ≡ x) principals) some_of
    → All (LeadsTo resource_arn principals) (map (explicit_edge resource_arn stmt) some_of)
explicit-LeadsTo resource_arn stmt principals [] h = tt
explicit-LeadsTo resource_arn stmt principals (x ∷ xs) h =
    ((refl, inr h.0), explicit-LeadsTo resource_arn stmt principals xs h.1)

statement_edges-LeadsTo :
    (resource_arn : Text) (stmt : ParsedStatement)
    → let (edges, principals) = statement_edges resource_arn stmt in
      All (LeadsTo resource_arn principals) edges × (length edges ≤ 50)
unfolding statement_edges
statement_edges-LeadsTo resource_arn stmt =
    let capped = take 49 stmt.principals in
    let explicit = explicit_edge resource_arn stmt in
    elim (Bool-cases stmt.wildcard_principal) [
      | inl w ↦ rw w (((refl, inl refl), tt), omega arith)
      | inr w ↦ elim (Bool-cases (ltb 50 (length stmt.principals))) [
        | inl l ↦
            rw (w, l)
              (
                All-append (LeadsTo resource_arn capped) (map explicit capped)
                    (cap_edge resource_arn stmt ∷ [])
                    (explicit-LeadsTo resource_arn stmt capped capped (members capped))
                    ((refl, inl refl), tt),
                omega (
                  arith,
                  length-append (map explicit capped) (cap_edge resource_arn stmt ∷ []),
                  length-map explicit capped,
                  length-take 49 stmt.principals,
                ),
              )
        | inr l ↦
            rw (w, l)
              (
                explicit-LeadsTo resource_arn stmt stmt.principals stmt.principals
                    (members stmt.principals),
                omega (
                  arith,
                  length-map explicit stmt.principals,
                  within 50 (length stmt.principals) l,
                ),
              )
      ]
    ]

-- An edge starts at the resource, and leads to the sentinel or to a principal with a node.
abbrev pub IsClosed : Text → List Value → AccessEdge → Type 0
IsClosed resource_arn nodes edge =
    (edge.0 ≡ resource_arn)
    × ((edge.1 ≡ wildcard_principal_id)
        ⊎ Any (λ node. get_in (codes "id") node ≡ some (string edge.1)) nodes)

build_principal_node-id :
    (principal caller : Text)
    → get_in (codes "id") (build_principal_node principal caller) ≡ some (string principal)
unfolding build_principal_node
build_principal_node-id principal caller = refl

-- The nodes of the statement and of the others are enough for its edges.
LeadsTo-IsClosed :
    (resource_arn caller : Text) (principals : List Text) (more : List Value) (edge : AccessEdge)
    → LeadsTo resource_arn principals edge
    → IsClosed resource_arn (map (λ p. build_principal_node p caller) principals ++ more) edge
LeadsTo-IsClosed resource_arn caller principals more edge (starts, inl star) = (starts, inl star)
LeadsTo-IsClosed resource_arn caller principals more edge (starts, inr found) =
    let HasId : Value → Type 0 = λ node. get_in (codes "id") node ≡ some (string edge.1) in
    let node_of : Text → Value = λ p. build_principal_node p caller in
    let named =
      Any-mono (λ p. p ≡ edge.1) (λ p. HasId (node_of p))
        (λ p e. build_principal_node-id p caller ∙ ap (λ q. some (string q)) e) principals found in
    (
      starts,
      inr (
          (Any-append HasId (map node_of principals) more).1
            (inl ((Any-map HasId node_of principals).1 named))),
    )

IsClosed-more :
    (resource_arn : Text) (nodes more : List Value) (edge : AccessEdge)
    → IsClosed resource_arn more edge
    → IsClosed resource_arn (nodes ++ more) edge
IsClosed-more resource_arn nodes more edge (starts, inl star) = (starts, inl star)
IsClosed-more resource_arn nodes more edge (starts, inr found) = (
  starts,
  inr (
      (Any-append (λ node. get_in (codes "id") node ≡ some (string edge.1)) nodes more).1
        (inr found)),
)

-- Every edge that is built starts at the resource and leads to the sentinel or to a principal whose node is built with it, and there are at most fifty edges for each statement.
pub build_access_edges-IsClosed :
    (resource_arn : Text) (statements : List ParsedStatement) (caller : Text)
    → let (edges, nodes) = build_access_edges resource_arn statements caller in
      All (IsClosed resource_arn nodes) edges × (length edges ≤ 50 * length statements)
unfolding build_access_edges
build_access_edges-IsClosed resource_arn [] caller = (tt, omega arith)
build_access_edges-IsClosed resource_arn (stmt ∷ rest) caller =
    let (edges, principals) = statement_edges resource_arn stmt in
    let (later_edges, later_nodes) = build_access_edges resource_arn rest caller in
    let nodes : List Value = map (λ p. build_principal_node p caller) principals in
    let (here, few) = statement_edges-LeadsTo resource_arn stmt in
    let (later, bounded) = build_access_edges-IsClosed resource_arn rest caller in
    (
      All-append (IsClosed resource_arn (nodes ++ later_nodes)) edges later_edges
          (All-mono (LeadsTo resource_arn principals) (IsClosed resource_arn (nodes ++ later_nodes))
            (LeadsTo-IsClosed resource_arn caller principals later_nodes) edges here)
          (All-mono (IsClosed resource_arn later_nodes)
            (IsClosed resource_arn (nodes ++ later_nodes))
            (IsClosed-more resource_arn nodes later_nodes) later_edges later),
      omega (arith, length-append edges later_edges, few, bounded),
    )
