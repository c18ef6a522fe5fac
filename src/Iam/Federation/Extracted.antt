-- ===== src/Iam/Federation/Extracted.antt =====
-- Which trusts are extracted
-- (crates/activable-iam-engine/src/federation.rs).
use activable_cloud.Prelude.{
  ◌≡◌, refl, subst, inl, inr, Bool, true, false, List, [], ◌∷◌, ◌++◌, map, Option, none, some, Text,
  codes, text_eq, All, All-append, Bool-cases, if◌then◌else◌,
}
use activable_cloud.Prelude.Errors.{Result, ok, >>=-eq-ok, ok_injective, ok_or, map_err}
use activable_cloud.Prelude.Options
use activable_cloud.Prelude.Split.{contains_text}
use activable_cloud.Json.{
  Value, string, array, object, Items, nil, cons, Fields, as_object, as_array, get,
  extract_string_or_array,
}
use activable_cloud.Iam.Federation.{
  FederationProviderType, saml, oidc, FederationCondition, FederationTrust, is_federation_principal,
  Categorized, categorize_federation_principal, categorize_all, categorize_items,
  federated_principals, principal_trusts, extract_federation_principals, detect_weakness, trust_of,
  statement_conditions, statement_effect, statement_trusts, extract_statements,
  extract_federation_trusts,
}

abbrev pub IsSaml : Text → Type 0
IsSaml arn = contains_text arn (codes "saml-provider") ≡ true

-- An ARN that names both counts as SAML.
abbrev pub IsOidc : Text → Type 0
IsOidc arn =
    (contains_text arn (codes "oidc-provider") ≡ true)
    × (contains_text arn (codes "saml-provider") ≡ false)

abbrev AreCategorized : Categorized → Type 0
AreCategorized found = All IsSaml found.0 × All IsOidc found.1

All-snoc {ℓ} :
    {A : Type ℓ} (P : A → Type 0) (xs : List A) (x : A) → All P xs → P x → All P (xs ++ x ∷ [])
All-snoc P [] x h p = (p, tt)
All-snoc P (y ∷ xs) x h p = (h.0, All-snoc P xs x h.1 p)

categorize-AreCategorized :
    (p : Text) (found : Categorized)
    → AreCategorized found
    → AreCategorized (categorize_federation_principal p found)
unfolding categorize_federation_principal
categorize-AreCategorized p (ss, os) h =
    elim (Bool-cases (contains_text p (codes "saml-provider"))) [
      | inl s ↦ rw s (All-snoc IsSaml ss p h.0 s, h.1)
      | inr n ↦ elim (Bool-cases (contains_text p (codes "oidc-provider"))) [
        | inl o ↦ rw (n, o) (h.0, All-snoc IsOidc os p h.1 (o, n))
        | inr m ↦ rw (n, m) h
      ]
    ]

categorize_all-AreCategorized :
    (ps : List Text) (found : Categorized)
    → AreCategorized found
    → AreCategorized (categorize_all ps found)
categorize_all-AreCategorized [] found h = h
categorize_all-AreCategorized (p ∷ ps) found h =
    categorize_all-AreCategorized ps (categorize_federation_principal p found)
      (categorize-AreCategorized p found h)

if-AreCategorized :
    (b : Bool) (p : Text) (found : Categorized)
    → AreCategorized found
    → AreCategorized (if b then categorize_federation_principal p found else found)
if-AreCategorized true p found h = categorize-AreCategorized p found h
if-AreCategorized false p found h = h

categorize_items-AreCategorized :
    (items : Items) (found : Categorized)
    → AreCategorized found
    → AreCategorized (categorize_items items found)
categorize_items-AreCategorized nil found h = h
categorize_items-AreCategorized (cons (string s) rest) found h =
    categorize_items-AreCategorized rest _ (if-AreCategorized (is_federation_principal s) s found h)
categorize_items-AreCategorized (cons _ rest) found h = categorize_items-AreCategorized rest found h

federated-AreCategorized : (v : Option Value) → AreCategorized (federated_principals v)
federated-AreCategorized none = (tt, tt)
federated-AreCategorized (some v) =
    categorize_all-AreCategorized (extract_string_or_array v) ([], []) (tt, tt)

principals-AreCategorized :
    (v : Value) {found : Categorized}
    → extract_federation_principals v ≡ ok found
    → AreCategorized found
unfolding extract_federation_principals
principals-AreCategorized (string s) h =
    subst AreCategorized (ok_injective h)
      (if-AreCategorized (is_federation_principal s) s ([], []) (tt, tt))
principals-AreCategorized (object obj) h =
    subst AreCategorized (ok_injective h) (federated-AreCategorized (get (codes "Federated") obj))
principals-AreCategorized (array items) h =
    subst AreCategorized (ok_injective h) (categorize_items-AreCategorized items ([], []) (tt, tt))
principals-AreCategorized _ h = subst AreCategorized (ok_injective h) (tt, tt)

-- A trust as the extraction makes it: its type is that of its provider, its weakness that of its conditions.
abbrev pub FitsProvider : FederationProviderType → Text → Type 0
FitsProvider saml arn = IsSaml arn
FitsProvider oidc arn = IsOidc arn

pub record IsExtracted (role_arn : Text) (t : FederationTrust) : Type 0 where
  pub role : t.role_arn ≡ role_arn
  pub provider : FitsProvider t.provider_type t.provider_arn
  pub judged : t.weakness ≡ detect_weakness t.conditions t.provider_type

trust_of-All :
    (type : FederationProviderType) (role_arn : Text) (cs : List FederationCondition)
    (arns : List Text)
    → All (FitsProvider type) arns
    → All (IsExtracted role_arn) (map (trust_of type role_arn cs) arns)
trust_of-All type role_arn cs [] h = tt
trust_of-All type role_arn cs (arn ∷ arns) h =
    (record { role = refl; provider = h.0; judged = refl }, trust_of-All type role_arn cs arns h.1)

principal_trusts-All :
    (role_arn : Text) (cs : List FederationCondition) (v : Option Value) {ts : List FederationTrust}
    → principal_trusts role_arn cs v ≡ ok ts
    → All (IsExtracted role_arn) ts
principal_trusts-All role_arn cs none h = subst (All (IsExtracted role_arn)) (ok_injective h) tt
principal_trusts-All role_arn cs (some v) h =
    let ((ss, os), found, e) = >>=-eq-ok (extract_federation_principals v) _ h in
    let (are_saml, are_oidc) = principals-AreCategorized v found in
    subst (All (IsExtracted role_arn)) (ok_injective e) (
      All-append (IsExtracted role_arn) (map (trust_of saml role_arn cs) ss)
        (map (trust_of oidc role_arn cs) os) (trust_of-All saml role_arn cs ss are_saml)
        (trust_of-All oidc role_arn cs os are_oidc))

statement_trusts-All :
    (role_arn : Text) (stmt : Fields) {ts : List FederationTrust}
    → statement_trusts role_arn stmt ≡ ok ts
    → All (IsExtracted role_arn) ts
unfolding statement_trusts
statement_trusts-All role_arn stmt h =
    elim (Bool-cases (text_eq (statement_effect stmt) (codes "Allow"))) [
      | inl e ↦
          principal_trusts-All role_arn (statement_conditions stmt) (get (codes "Principal") stmt)
            (rw e at h)
      | inr n ↦ subst (All (IsExtracted role_arn)) (ok_injective (rw n at h)) tt
    ]

extract_statements-All :
    (role_arn : Text) (stmts : Items) {ts : List FederationTrust}
    → extract_statements role_arn stmts ≡ ok ts
    → All (IsExtracted role_arn) ts
unfolding extract_statements
extract_statements-All role_arn nil h = subst (All (IsExtracted role_arn)) (ok_injective h) tt
extract_statements-All role_arn (cons stmt rest) h =
    let (obj, _, with_obj) = >>=-eq-ok (ok_or (as_object stmt) _) _ h in
    let (first, found, with_first) = >>=-eq-ok (statement_trusts role_arn obj) _ with_obj in
    let (later, found_later, e) = >>=-eq-ok (extract_statements role_arn rest) _ with_first in
    subst (All (IsExtracted role_arn)) (ok_injective e) (
      All-append (IsExtracted role_arn) first later (statement_trusts-All role_arn obj found)
        (extract_statements-All role_arn rest found_later))

module _ (from_str : Text → Result Text Value) where
  pub extract_federation_trusts-All :
      (json role_arn : Text) {ts : List FederationTrust}
      → extract_federation_trusts from_str json role_arn ≡ ok ts
      → All (IsExtracted role_arn) ts
  unfolding extract_federation_trusts
  extract_federation_trusts-All json role_arn h =
      let (v, _, with_value) = >>=-eq-ok (map_err _ (from_str json)) _ h in
      let (obj, _, with_obj) = >>=-eq-ok (ok_or (as_object v) _) _ with_value in
      let (stmts, _, found) =
        >>=-eq-ok (ok_or (Options.◌>>=◌ (get (codes "Statement") obj) as_array) _) _ with_obj in
      extract_statements-All role_arn stmts found
