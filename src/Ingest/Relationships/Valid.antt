-- ===== src/Ingest/Relationships/Valid.antt =====
-- Which queries the rules that connect nodes send to the database
-- (crates/activable-ingest/src/relationship.rs).
use activable_cloud.Prelude.{
  ℕ, ◌≡◌, refl, sym, ap, subst, inl, inr, Bool, true, false, List, [], ◌∷◌, Option, none, some,
  Text, all, is_empty, Bool-cases, Any, Any-mono, All, All-mono, members,
}
use activable_cloud.Prelude.Errors.{Result, ok, err, >>=-eq-ok}
use activable_cloud.Ingest.Errors.{IngestError}
use activable_cloud.Graph.Nodes.{Columns}
use activable_cloud.Graph.Client.{Connections}
use activable_cloud.Ingest.Relationships.{
  RelationshipRule, RelationshipStats, CountReading, build_relationship_cypher, is_name_char,
  validate_property_name, validate_rule, run_valid, apply_single_rule, continue_with, apply_rules,
  age_loaded, apply_all, apply_relationships,
}

-- Connections that write down the queries they are asked, the last one first.
abbrev pub logged : {D R : Type 0} → Connections D R → Connections (D × List Text) R
logged c = record {
  get = λ (d, log). let (r, after) = c.get d in (r, (after, log));
  batch_execute = λ sql (d, log). let (r, after) = c.batch_execute sql d in (r, (after, log));
  query = λ sql (d, log). let (r, after) = c.query sql d in (r, (after, sql ∷ log));
}

module _ (is_alphanumeric : ℕ → Bool) where
  -- A name that is not empty, of letters, digits and underscores.
  abbrev pub IsName : Text → Type 0
  IsName s = (is_empty s ≡ false) × (all (is_name_char is_alphanumeric) s ≡ true)

  pub record IsValidRule (rule : RelationshipRule) : Type 0 where
    pub from_property_named : IsName rule.from_property
    pub to_property_named : IsName rule.to_property
    pub edge_type_named : IsName rule.edge_type
    pub from_label_named : IsName rule.from_label
    pub to_label_named : IsName rule.to_label

  validate_property_name-ok :
      (s : Text) {u : Unit {0}} → validate_property_name is_alphanumeric s ≡ ok u → IsName s
  unfolding validate_property_name
  validate_property_name-ok s h = elim (Bool-cases (is_empty s)) [
    | inl e ↦ let no = rw e at h in cc no
    | inr e ↦ elim (Bool-cases (all (is_name_char is_alphanumeric) s)) [
      | inl a ↦ (e, a)
      | inr a ↦ let no = rw (e, a) at h in cc no
    ]
  ]

  validate_rule-ok :
      (rule : RelationshipRule) {u : Unit {0}}
      → validate_rule is_alphanumeric rule ≡ ok u
      → IsValidRule rule
  unfolding validate_rule
  validate_rule-ok rule h =
      let valid = validate_property_name is_alphanumeric in
      let (_, h1, k1) = >>=-eq-ok (valid rule.from_property) _ h in
      let (_, h2, k2) = >>=-eq-ok (valid rule.to_property) _ k1 in
      let (_, h3, k3) = >>=-eq-ok (valid rule.edge_type) _ k2 in
      let (_, h4, h5) = >>=-eq-ok (valid rule.from_label) _ k3 in
      record {
        from_property_named = validate_property_name-ok rule.from_property h1;
        to_property_named = validate_property_name-ok rule.to_property h2;
        edge_type_named = validate_property_name-ok rule.edge_type h3;
        from_label_named = validate_property_name-ok rule.from_label h4;
        to_label_named = validate_property_name-ok rule.to_label h5;
      }

  module _ {D R : Type 0} (connections : Connections D R) (columns : Columns R)
      (reading : CountReading) (graph_name : Text) where
    -- A query that is built from a valid rule of a list.
    abbrev pub IsBuilt : List RelationshipRule → Text → Type 0
    IsBuilt rules sql =
        Any (λ rule. IsValidRule rule × (build_relationship_cypher graph_name rule ≡ sql)) rules

    run_valid-keeps :
        (P : Text → Type 0) (rule : RelationshipRule) (valid : Result IngestError (Unit {0}))
        (state : D × List Text)
        → ((u : Unit {0}) → valid ≡ ok u → P (build_relationship_cypher graph_name rule))
        → All P state.1
        → All P
            (run_valid
              (logged connections)
              columns
              reading
              is_alphanumeric
              graph_name
              rule
              valid
              state).1.1
    run_valid-keeps P rule (err e) state good h = h
    run_valid-keeps P rule (ok u) state good h = (good u refl, h)

    apply_single_rule-keeps :
        (P : Text → Type 0) (rule : RelationshipRule) (state : D × List Text)
        → (IsValidRule rule → P (build_relationship_cypher graph_name rule))
        → All P state.1
        → All P
            (apply_single_rule
              (logged connections)
              columns
              reading
              is_alphanumeric
              graph_name
              rule
              state).1.1
    unfolding apply_single_rule
    apply_single_rule-keeps P rule state good h =
        run_valid-keeps P rule (validate_rule is_alphanumeric rule) state
          (λ u e. good (validate_rule-ok rule e)) h

    continue_with-keeps :
        (P : Text → Type 0) (rule : RelationshipRule)
        (next : D × List Text → Option (List RelationshipStats) × (D × List Text))
        (done : Option (Result IngestError ℕ) × (D × List Text))
        → ((state : D × List Text) → All P state.1 → All P (next state).1.1)
        → All P done.1.1
        → All P
            (continue_with
              (logged connections)
              columns
              reading
              is_alphanumeric
              graph_name
              rule
              next
              done).1.1
    continue_with-keeps P rule next (none, state) go_on h = h
    continue_with-keeps P rule next (some outcome, state) go_on h = go_on state h

    apply_rules-keeps :
        (P : Text → Type 0) (rules : List RelationshipRule) (state : D × List Text)
        → All (λ rule. IsValidRule rule → P (build_relationship_cypher graph_name rule)) rules
        → All P state.1
        → All P
            (apply_rules
              (logged connections)
              columns
              reading
              is_alphanumeric
              graph_name
              rules
              state).1.1
    unfolding apply_rules
    apply_rules-keeps P [] state good h = h
    apply_rules-keeps P (rule ∷ rules) state good h =
        continue_with-keeps P rule
          (apply_rules (logged connections) columns reading is_alphanumeric graph_name rules)
          (apply_single_rule (logged connections) columns reading is_alphanumeric graph_name rule
            state)
          (λ later. apply_rules-keeps P rules later good.1)
          (apply_single_rule-keeps P rule state good.0 h)

    age_loaded-keeps :
        (P : Text → Type 0) (got : Result Text (Unit {0}) × (D × List Text))
        → All P got.1.1
        → All P (age_loaded (logged connections) columns reading is_alphanumeric graph_name got).1.1
    age_loaded-keeps P (err e, state) h = h
    age_loaded-keeps P (ok u, state) h = h

    apply_all-keeps :
        (P : Text → Type 0) (rules : List RelationshipRule)
        (opened : Result IngestError (Unit {0}) × (D × List Text))
        → All (λ rule. IsValidRule rule → P (build_relationship_cypher graph_name rule)) rules
        → All P opened.1.1
        → All P
            (apply_all
              (logged connections)
              columns
              reading
              is_alphanumeric
              graph_name
              rules
              opened).1.1
    apply_all-keeps P rules (err e, state) good h = h
    apply_all-keeps P rules (ok u, state) good h = apply_rules-keeps P rules state good h

    -- A valid rule of the list is one that a query may be built from.
    all-IsBuilt :
        (rules : List RelationshipRule)
        → All
            (λ rule. IsValidRule rule → IsBuilt rules (build_relationship_cypher graph_name rule))
            rules
    all-IsBuilt rules =
        All-mono (λ rule. Any (λ r. r ≡ rule) rules)
          (λ rule. IsValidRule rule → IsBuilt rules (build_relationship_cypher graph_name rule))
          (λ rule found valid.
            Any-mono (λ r. r ≡ rule)
              (λ r.
                IsValidRule r
                × (build_relationship_cypher graph_name r
                    ≡ build_relationship_cypher graph_name rule))
              (λ r e. (
                subst (λ x. IsValidRule x) (sym e) valid,
                ap (build_relationship_cypher graph_name) e,
              ))
              rules found)
          rules (members rules)

    -- Every query that is sent is built from a rule of the list whose two labels, two properties and edge type are names of letters, digits and underscores, whatever the database answers.
    pub apply_relationships-IsBuilt :
        (rules : List RelationshipRule) (d : D)
        → All
            (IsBuilt rules)
            (apply_relationships
              (logged connections)
              columns
              reading
              is_alphanumeric
              graph_name
              (ok rules)
              (d, [])).1.1
    unfolding apply_relationships
    apply_relationships-IsBuilt rules d =
        apply_all-keeps (IsBuilt rules) rules
          (age_loaded (logged connections) columns reading is_alphanumeric graph_name
            ((logged connections).get (d, [])))
          (all-IsBuilt rules)
          (age_loaded-keeps (IsBuilt rules) ((logged connections).get (d, [])) tt)
