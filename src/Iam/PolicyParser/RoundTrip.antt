-- ===== src/Iam/PolicyParser/RoundTrip.antt =====
-- Maps that hold the fields of a policy, for crates/activable-iam-engine/src/policy_parser.rs.
use activable_cloud.Prelude.{
  ℕ, ◌+◌, ◌≡◌, refl, is_empty, if◌then◌else◌, List, [], ◌∷◌, Option, none, some, Text, codes, All,
}
use activable_cloud.Prelude.Errors.{Result, ok}
use activable_cloud.Json.{Value, array, object, Items, nil, cons, Fields, end, field, strings, get}
use activable_cloud.Iam.Types.{Effect, allow, deny, Condition, PolicyStatement, ParsedPolicy}
use activable_cloud.Iam.PolicyParser.{
  PolicyParseError, get_str, check_exclusive, parse_effect, parse_action_field,
  parse_resource_field, parse_strings, parse_condition_values, parse_condition_keys,
  parse_operators, parse_conditions, parse_statement_fields, parse_statement, parse_statements,
  parse_policy_value, parse_policy,
}
use activable_cloud.Iam.PolicyParser.WellFormed.{OneOf, IsWellFormed}

-- A list of patterns under its key, which is there only if the list holds something.
abbrev pub patterns : List Text → Option Value
patterns ps = if is_empty ps then none else some (array (strings ps))

-- Each condition as an operator of its own.
abbrev pub encode_conditions : List Condition → Fields
encode_conditions [] = end
encode_conditions (c ∷ cs) =
    field c.operator (object (field c.key (array (strings c.values)) end)) (encode_conditions cs)

abbrev pub conditions_value : List Condition → Option Value
conditions_value [] = none
conditions_value (c ∷ cs) = some (object (encode_conditions (c ∷ cs)))

abbrev effect_text : Effect → Text
effect_text allow = codes "Allow"
effect_text deny = codes "Deny"

-- The map holds the fields of the statement under its keys.
pub record Writes (obj : Fields) (stmt : PolicyStatement) : Type 0 where
  pub effect : get_str (codes "Effect") obj ≡ some (effect_text stmt.effect)
  pub sid : get_str (codes "Sid") obj ≡ stmt.sid
  pub actions : get (codes "Action") obj ≡ patterns stmt.actions
  pub not_actions : get (codes "NotAction") obj ≡ patterns stmt.not_actions
  pub resources : get (codes "Resource") obj ≡ patterns stmt.resources
  pub not_resources : get (codes "NotResource") obj ≡ patterns stmt.not_resources
  pub conditions : get (codes "Condition") obj ≡ conditions_value stmt.conditions

-- The array holds a map for each statement.
abbrev pub WritesAll : Items → List PolicyStatement → Type 0
WritesAll nil [] = Unit
WritesAll (cons (object obj) items) (stmt ∷ stmts) = Writes obj stmt × WritesAll items stmts
WritesAll _ _ = ⊥

pub record WritesPolicy (obj : Fields) (policy : ParsedPolicy) : Type 0 where
  pub items : Items
  pub version : get_str (codes "Version") obj ≡ some policy.version
  pub array_there : get (codes "Statement") obj ≡ some (array items)
  pub statements : WritesAll items policy.statements

parse_strings-strings :
    (message : Text) (ss : List Text) → parse_strings message (strings ss) ≡ ok ss
unfolding parse_strings
parse_strings-strings message [] = refl
parse_strings-strings message (s ∷ ss) = rw (parse_strings-strings message ss)

parse_operators-encode : (cs : List Condition) → parse_operators (encode_conditions cs) ≡ ok cs
unfolding parse_operators parse_condition_keys parse_condition_values
parse_operators-encode [] = refl
parse_operators-encode (c ∷ cs) = rw (parse_strings-strings _ c.values, parse_operators-encode cs)

parse_conditions-conditions_value :
    (cs : List Condition) → parse_conditions (conditions_value cs) ≡ ok cs
unfolding parse_conditions
parse_conditions-conditions_value [] = refl
parse_conditions-conditions_value (c ∷ cs) = parse_operators-encode (c ∷ cs)

action_field : (ps : List Text) → parse_action_field (patterns ps) ≡ ok ps
unfolding parse_action_field
action_field [] = refl
action_field (p ∷ ps) = parse_strings-strings _ (p ∷ ps)

resource_field : (ps : List Text) → parse_resource_field (patterns ps) ≡ ok ps
unfolding parse_resource_field
resource_field [] = refl
resource_field (p ∷ ps) = parse_strings-strings _ (p ∷ ps)

check_exclusive_ok :
    (ps ns : List Text) (together : PolicyParseError) (missing : Text)
    → OneOf ps ns
    → check_exclusive ps ns together missing ≡ ok tt
unfolding check_exclusive
check_exclusive_ok (p ∷ ps) [] t m h = refl
check_exclusive_ok (p ∷ ps) (n ∷ ns) t m h = cc
check_exclusive_ok [] (n ∷ ns) t m h = refl
check_exclusive_ok [] [] t m h = absurd h

parse_effect-text : (e : Effect) → parse_effect (effect_text e) ≡ ok e
unfolding parse_effect
parse_effect-text allow = refl
parse_effect-text deny = refl

parse_of_reads :
    (obj : Fields) (stmt : PolicyStatement)
    → IsWellFormed stmt
    → get_str (codes "Effect") obj ≡ some (effect_text stmt.effect)
    → get_str (codes "Sid") obj ≡ stmt.sid
    → parse_action_field (get (codes "Action") obj) ≡ ok stmt.actions
    → parse_action_field (get (codes "NotAction") obj) ≡ ok stmt.not_actions
    → parse_resource_field (get (codes "Resource") obj) ≡ ok stmt.resources
    → parse_resource_field (get (codes "NotResource") obj) ≡ ok stmt.not_resources
    → parse_conditions (get (codes "Condition") obj) ≡ ok stmt.conditions
    → parse_statement_fields obj ≡ ok stmt
unfolding parse_statement_fields
parse_of_reads obj stmt w e1 e2 e3 e4 e5 e6 e7 = rw (e1) (
    rw (parse_effect-text stmt.effect) (
      rw e3 (
        rw e4 (
          rw (check_exclusive_ok stmt.actions stmt.not_actions _ _ w.one_action) (
            rw e5 (
              rw e6 (
                rw (check_exclusive_ok stmt.resources stmt.not_resources _ _ w.one_resource)
                  (rw e7 (rw e2)))))))))

-- A map that holds the fields of a well-formed statement is read as that statement, whatever the
-- order of its keys, and whatever else it holds.
pub parse_statement-Writes :
    (obj : Fields) (stmt : PolicyStatement)
    → Writes obj stmt
    → IsWellFormed stmt
    → parse_statement (object obj) ≡ ok stmt
unfolding parse_statement
parse_statement-Writes obj stmt h w =
    parse_of_reads obj stmt w h.effect h.sid (rw h.actions (action_field stmt.actions))
      (rw h.not_actions (action_field stmt.not_actions))
      (rw h.resources (resource_field stmt.resources))
      (rw h.not_resources (resource_field stmt.not_resources))
      (rw h.conditions (parse_conditions-conditions_value stmt.conditions))

parse_statements-WritesAll :
    (idx : ℕ) (items : Items) (stmts : List PolicyStatement)
    → WritesAll items stmts
    → All IsWellFormed stmts
    → parse_statements idx items ≡ ok stmts
unfolding parse_statements
parse_statements-WritesAll idx nil [] h w = refl
parse_statements-WritesAll idx (cons (object obj) items) (s ∷ stmts) h w =
    rw (parse_statement-Writes obj s h.0 w.0)
      (rw (parse_statements-WritesAll (idx + 1) items stmts h.1 w.1))
parse_statements-WritesAll idx _ _ h w = absurd h

-- A map that holds the version and the statements of a policy, all of them well formed, is read as
-- that policy, if `from_str` reads the text as the map.
pub parse_policy-WritesPolicy :
    (from_str : Text → Result Text Value) (json : Text) (obj : Fields) (policy : ParsedPolicy)
    → from_str json ≡ ok (object obj)
    → WritesPolicy obj policy
    → All IsWellFormed policy.statements
    → parse_policy from_str json ≡ ok policy
unfolding parse_policy parse_policy_value
parse_policy-WritesPolicy from_str json obj policy h p w = rw h (
    rw p.version (
      rw p.array_there
        (rw (parse_statements-WritesAll 0 p.items policy.statements p.statements w))))
