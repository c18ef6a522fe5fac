-- ===== src/Iam/Federation.antt =====
-- Trust in SAML and OIDC providers: crates/activable-iam-engine/src/federation.rs. The text-to-value
-- step, `serde_json::from_str`, is a parameter.
pub mod Extracted
pub mod Weak
use activable_cloud.Prelude.{
  Bool, true, false, not, ◌&&◌, ◌||◌, List, [], ◌∷◌, ◌++◌, map, Option, none, some, Text, codes,
  text_eq, to_lowercase, is_empty, any, flat_map, keep, if◌then◌else◌,
}
use activable_cloud.Prelude.Errors.{Result, ok, err, ◌>>=◌, ok_or, map_err}
use activable_cloud.Prelude.Options
use activable_cloud.Prelude.Split.{contains_text}
use activable_cloud.Json.{
  Value, null, boolean, number, string, array, object, Items, nil, cons, Fields, end, field,
  as_object, as_array, as_str, get, extract_string_or_array,
}

pub data FederationProviderType : Type 0 where
  saml oidc : FederationProviderType

pub record FederationCondition : Type 0 where
  pub condition_key : Text
  pub operator : Text
  pub values : List Text

pub data FederationWeakness : Type 0 where
  missing_audience missing_subject missing_audience_and_subject wildcard_principal no_conditions :
      FederationWeakness

pub record FederationTrust : Type 0 where
  pub provider_arn : Text
  pub provider_type : FederationProviderType
  pub role_arn : Text
  pub conditions : List FederationCondition
  pub weakness : Option FederationWeakness

abbrev pub is_federation_principal : Text → Bool
is_federation_principal s =
    contains_text s (codes "saml-provider") || contains_text s (codes "oidc-provider")

-- The two vectors that are pushed to.
abbrev pub Categorized : Type 0
Categorized = List Text × List Text

unfoldable pub categorize_federation_principal : Text → Categorized → Categorized
categorize_federation_principal principal (saml_principals, oidc_principals) =
    if contains_text principal (codes "saml-provider")
    then (saml_principals ++ principal ∷ [], oidc_principals)
    else if contains_text principal (codes "oidc-provider")
    then (saml_principals, oidc_principals ++ principal ∷ [])
    else (saml_principals, oidc_principals)

-- The loop over the strings of the `Federated` key.
abbrev pub categorize_all : List Text → Categorized → Categorized
categorize_all [] found = found
categorize_all (principal ∷ rest) found =
    categorize_all rest (categorize_federation_principal principal found)

-- The loop over an array: strings that are no federation principals are skipped.
abbrev pub categorize_items : Items → Categorized → Categorized
categorize_items nil found = found
categorize_items (cons (string s) rest) found =
    categorize_items rest
      (if is_federation_principal s then categorize_federation_principal s found else found)
categorize_items (cons _ rest) found = categorize_items rest found

-- What the `Federated` key of an object gives.
abbrev pub federated_principals : Option Value → Categorized
federated_principals none = ([], [])
federated_principals (some federated) = categorize_all (extract_string_or_array federated) ([], [])

unfoldable pub extract_federation_principals : Value → Result Text Categorized
unfolding categorize_federation_principal
extract_federation_principals (string s) =
    ok (if is_federation_principal s then categorize_federation_principal s ([], []) else ([], []))
extract_federation_principals (object obj) = ok (federated_principals (get (codes "Federated") obj))
extract_federation_principals (array items) = ok (categorize_items items ([], []))
extract_federation_principals _ = ok ([], [])

abbrev pub is_federation_condition_key : Text → Bool
is_federation_condition_key key =
    contains_text key (codes "SAML:")
    || contains_text key (codes ":aud")
    || contains_text key (codes ":sub")
    || contains_text key (codes ":oid")

-- The loop over the keys under one operator.
abbrev pub conditions_of : Text → Fields → List FederationCondition
conditions_of operator end = []
conditions_of operator (field key value rest) =
    let later = conditions_of operator rest in
    let values = extract_string_or_array value in
    if is_federation_condition_key key && not (is_empty values)
    then record { condition_key = key; operator = operator; values = values } ∷ later
    else later

unfoldable pub extract_federation_conditions : Fields → List FederationCondition
extract_federation_conditions end = []
extract_federation_conditions (field operator value rest) = elim (as_object value) [
  | none ↦ extract_federation_conditions rest
  | some obj ↦ conditions_of operator obj ++ extract_federation_conditions rest
]

abbrev pub names_audience : FederationCondition → Bool
names_audience c =
    contains_text (to_lowercase c.condition_key) (codes ":aud")
    || contains_text (to_lowercase c.condition_key) (codes ":audience")

abbrev pub names_subject : FederationCondition → Bool
names_subject c =
    contains_text (to_lowercase c.condition_key) (codes ":sub")
    || contains_text (to_lowercase c.condition_key) (codes ":namequalifier")

unfoldable pub detect_weakness :
    List FederationCondition → FederationProviderType → Option FederationWeakness
detect_weakness conditions provider_type =
    let has_audience = any names_audience conditions in
    let has_subject = any names_subject conditions in
    if is_empty conditions
    then some no_conditions
    else if has_audience
    then (if has_subject then none else some missing_subject)
    else if has_subject
    then some missing_audience
    else some missing_audience_and_subject

-- What is pushed for each principal.
abbrev pub trust_of :
    FederationProviderType → Text → List FederationCondition → Text → FederationTrust
trust_of provider_type role_arn conditions principal_arn = record {
  provider_arn = principal_arn;
  provider_type = provider_type;
  role_arn = role_arn;
  conditions = conditions;
  weakness = detect_weakness conditions provider_type;
}

-- The conditions of a statement, none when there is no object of them.
abbrev pub statement_conditions : Fields → List FederationCondition
statement_conditions stmt = elim (Options.◌>>=◌ (get (codes "Condition") stmt) as_object) [
  | none ↦ []
  | some obj ↦ extract_federation_conditions obj
]

-- `Effect`, which is "Allow" when there is no string.
abbrev pub statement_effect : Fields → Text
statement_effect stmt = elim (Options.◌>>=◌ (get (codes "Effect") stmt) as_str) [
  | none ↦ codes "Allow"
  | some effect ↦ effect
]

-- The trusts of a statement's `Principal`: the SAML ones first.
abbrev pub principal_trusts :
    Text → List FederationCondition → Option Value → Result Text (List FederationTrust)
principal_trusts role_arn conditions none = ok []
principal_trusts role_arn conditions (some principal_value) = do
  (saml_principals, oidc_principals) ← extract_federation_principals principal_value
  ok (
      map (trust_of saml role_arn conditions) saml_principals
      ++ map (trust_of oidc role_arn conditions) oidc_principals)

-- A round of the loop over the statements.
unfoldable pub statement_trusts : Text → Fields → Result Text (List FederationTrust)
unfolding extract_federation_principals extract_federation_conditions detect_weakness
statement_trusts role_arn stmt =
    if not (text_eq (statement_effect stmt) (codes "Allow"))
    then ok []
    else principal_trusts role_arn (statement_conditions stmt) (get (codes "Principal") stmt)

unfoldable pub extract_statements : Text → Items → Result Text (List FederationTrust)
unfolding statement_trusts
extract_statements role_arn nil = ok []
extract_statements role_arn (cons stmt rest) = do
  stmt_obj ← ok_or (as_object stmt) (codes "Statement must be an object")
  trusts ← statement_trusts role_arn stmt_obj
  later ← extract_statements role_arn rest
  ok (trusts ++ later)

unfoldable pub extract_federation_trusts :
    (Text → Result Text Value) → Text → Text → Result Text (List FederationTrust)
unfolding extract_statements
extract_federation_trusts from_str trust_policy_json role_arn = do
  policy_value ← map_err (λ e. codes "JSON parse error: " ++ e) (from_str trust_policy_json)
  policy_obj ← ok_or (as_object policy_value) (codes "Trust policy must be a JSON object")
  statements ←
      ok_or (Options.◌>>=◌ (get (codes "Statement") policy_obj) as_array)
        (codes "Statement array not found in trust policy")
  extract_statements role_arn statements

-- `is_some`.
abbrev pub is_some : Option FederationWeakness → Bool
is_some none = false
is_some (some weakness) = true

abbrev pub is_weak : FederationTrust → Bool
is_weak trust = is_some trust.weakness

-- The pairs of a role's ARN and its trust policy.
unfoldable pub find_weak_federation_trusts :
    (Text → Result Text Value) → List (Text × Text) → Result Text (List FederationTrust)
unfolding extract_federation_trusts
find_weak_federation_trusts from_str [] = ok []
find_weak_federation_trusts from_str ((role_arn, policy_json) ∷ rest) = do
  trusts ← extract_federation_trusts from_str policy_json role_arn
  later ← find_weak_federation_trusts from_str rest
  ok (keep is_weak trusts ++ later)
