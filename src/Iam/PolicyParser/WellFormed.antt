-- ===== src/Iam/PolicyParser/WellFormed.antt =====
-- What the parser (crates/activable-iam-engine/src/policy_parser.rs) guarantees of a policy it returns.
use mathlib.Core.Path.{subst}
use activable_cloud.Prelude.{ℕ, ◌+◌, ◌≡◌, refl, List, [], ◌∷◌, arith, Text, All}
use activable_cloud.Prelude.Errors.{Result, ok, err, ◌>>=◌, map_err}
use activable_cloud.Json.{Value, object, Items, nil, cons, Fields}
use activable_cloud.Iam.Types.{PolicyStatement, ParsedPolicy}
use activable_cloud.Iam.PolicyParser.{
  PolicyParseError, PolicyParseResult, check_exclusive, parse_statement_fields, parse_statement,
  at_index, parse_statements, parse_policy_value, parse_policy,
}

-- Exactly one of the two lists holds something.
abbrev pub OneOf : List Text → List Text → Type 0
OneOf (p ∷ ps) not_patterns = not_patterns ≡ []
OneOf [] (n ∷ ns) = Unit
OneOf [] [] = ⊥

-- A statement that AWS would accept: either Action or NotAction, and either Resource or NotResource.
pub record IsWellFormed (stmt : PolicyStatement) : Type 0 where
  pub one_action : OneOf stmt.actions stmt.not_actions
  pub one_resource : OneOf stmt.resources stmt.not_resources

check_exclusive-OneOf :
    (ps ns : List Text) (together : PolicyParseError) (missing : Text) {u : Unit {0}}
    → check_exclusive ps ns together missing ≡ ok u
    → OneOf ps ns
unfolding check_exclusive
check_exclusive-OneOf (p ∷ ps) [] t m h = refl
check_exclusive-OneOf (p ∷ ps) (n ∷ ns) t m h = cc
check_exclusive-OneOf [] (n ∷ ns) t m h = tt
check_exclusive-OneOf [] [] t m h = cc

pub parse_statement_fields-IsWellFormed :
    (obj : Fields) (stmt : PolicyStatement)
    → parse_statement_fields obj ≡ ok stmt
    → IsWellFormed stmt
unfolding parse_statement_fields
parse_statement_fields-IsWellFormed obj stmt h = grind (arith, check_exclusive-OneOf)

parse_statement-IsWellFormed :
    (value : Value) (stmt : PolicyStatement) → parse_statement value ≡ ok stmt → IsWellFormed stmt
unfolding parse_statement
parse_statement-IsWellFormed (object obj) stmt h = parse_statement_fields-IsWellFormed obj stmt h
parse_statement-IsWellFormed _ stmt h = cc

All-of_results :
    (idx : ℕ) (r : PolicyParseResult PolicyStatement)
    (rest : PolicyParseResult (List PolicyStatement)) (stmts : List PolicyStatement)
    → ((s : PolicyStatement) → r ≡ ok s → IsWellFormed s)
    → ((ss : List PolicyStatement) → rest ≡ ok ss → All IsWellFormed ss)
    → (map_err (at_index idx) r >>= λ s. rest >>= λ ss. ok (s ∷ ss)) ≡ ok stmts
    → All IsWellFormed stmts
All-of_results idx (ok s) (ok ss) stmts f g h =
    let e : s ∷ ss ≡ stmts = cc in subst (All IsWellFormed) e (f s refl, g ss refl)
All-of_results idx (ok s) (err e) stmts f g h = cc
All-of_results idx (err e) rest stmts f g h = cc

parse_statements-IsWellFormed :
    (idx : ℕ) (items : Items) (stmts : List PolicyStatement)
    → parse_statements idx items ≡ ok stmts
    → All IsWellFormed stmts
unfolding parse_statements
parse_statements-IsWellFormed idx nil [] h = tt
parse_statements-IsWellFormed idx nil (s ∷ stmts) h = cc
parse_statements-IsWellFormed idx (cons value items) stmts h =
    All-of_results idx (parse_statement value) (parse_statements (idx + 1) items) stmts
      (parse_statement-IsWellFormed value) (parse_statements-IsWellFormed (idx + 1) items) h

parse_policy_value-IsWellFormed :
    (value : Value) (policy : ParsedPolicy)
    → parse_policy_value value ≡ ok policy
    → All IsWellFormed policy.statements
unfolding parse_policy_value
parse_policy_value-IsWellFormed value policy h = grind (arith, parse_statements-IsWellFormed)

-- Whatever `from_str` makes of the text: in a policy that is returned each statement has exactly one
-- of Action and NotAction, and exactly one of Resource and NotResource.
pub parse_policy-IsWellFormed :
    (from_str : Text → Result Text Value) (json : Text) (policy : ParsedPolicy)
    → parse_policy from_str json ≡ ok policy
    → All IsWellFormed policy.statements
unfolding parse_policy
parse_policy-IsWellFormed from_str json policy h = grind (arith, parse_policy_value-IsWellFormed)
