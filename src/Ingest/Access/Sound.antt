-- ===== src/Ingest/Access/Sound.antt =====
-- What the statements are that are read from a resource policy
-- (crates/activable-ingest/src/native/resource_policy.rs).
use activable_cloud.Prelude.{
  ◌≡◌, refl, inl, inr, Bool, false, not, ◌&&◌, ◌||◌, Bool-cases, List, [], ◌∷◌, ◌++◌, Option, none,
  some, arith, Text, codes, text_eq, is_empty, any, All, All-append,
}
use activable_cloud.Prelude.Options.{◌>>=◌}
use activable_cloud.Prelude.Errors.{Result, ok, err, ok_injective}
use activable_cloud.Json.{
  Value, null, boolean, number, string, array, object, Items, nil, cons, Fields, end, field, get_in,
  as_str, as_array,
}
use activable_cloud.Ingest.Access.{
  ParsedStatement, Found, wildcard_principal_id, push_principal, push_items, push_value,
  push_fields, find_principals, find_actions, effect_of, parse_statement, parse_statements,
  statements_in, read_policy, parse_resource_policy,
}

abbrev is_star : Text → Bool
is_star s = text_eq s wildcard_principal_id

-- The flag is set exactly if a star was pushed.
abbrev IsMarked : Found → Type 0
IsMarked found = found.1 ≡ any is_star found.0

any-push : (p : Text → Bool) (xs : List Text) (x : Text) → any p (xs ++ x ∷ []) ≡ (p x || any p xs)
any-push p [] x = refl
any-push p (y ∷ ys) x = rw (any-push p ys x) (ground arith)

push_principal-IsMarked :
    (found : Found) (s : Text) → IsMarked found → IsMarked (push_principal found s)
push_principal-IsMarked (principals, wildcard) s h =
    rw (any-push is_star principals s)
      (elim (Bool-cases (is_star s)) [ inl e ↦ rw e refl | inr e ↦ rw e h ])

push_items-IsMarked :
    (found : Found) (items : Items) → IsMarked found → IsMarked (push_items found items)
unfolding push_items
push_items-IsMarked found nil h = h
push_items-IsMarked found (cons (string s) rest) h =
    push_items-IsMarked (push_principal found s) rest (push_principal-IsMarked found s h)
push_items-IsMarked found (cons null rest) h = push_items-IsMarked found rest h
push_items-IsMarked found (cons (boolean b) rest) h = push_items-IsMarked found rest h
push_items-IsMarked found (cons (number n) rest) h = push_items-IsMarked found rest h
push_items-IsMarked found (cons (array a) rest) h = push_items-IsMarked found rest h
push_items-IsMarked found (cons (object o) rest) h = push_items-IsMarked found rest h

push_value-IsMarked : (found : Found) (v : Value) → IsMarked found → IsMarked (push_value found v)
push_value-IsMarked found (string s) h = push_principal-IsMarked found s h
push_value-IsMarked found (array items) h = push_items-IsMarked found items h
push_value-IsMarked found null h = h
push_value-IsMarked found (boolean b) h = h
push_value-IsMarked found (number n) h = h
push_value-IsMarked found (object o) h = h

push_fields-IsMarked :
    (found : Found) (obj : Fields) → IsMarked found → IsMarked (push_fields found obj)
unfolding push_fields
push_fields-IsMarked found end h = h
push_fields-IsMarked found (field key v rest) h =
    push_fields-IsMarked (push_value found v) rest (push_value-IsMarked found v h)

find_principals-IsMarked : (v : Option Value) → IsMarked (find_principals v)
unfolding find_principals
find_principals-IsMarked none = refl
find_principals-IsMarked (some (object obj)) = push_fields-IsMarked ([], false) obj refl
find_principals-IsMarked (some null) = refl
find_principals-IsMarked (some (boolean b)) = refl
find_principals-IsMarked (some (number n)) = refl
find_principals-IsMarked (some (string s)) = push_value-IsMarked ([], false) (string s) refl
find_principals-IsMarked (some (array a)) = push_value-IsMarked ([], false) (array a) refl

-- A statement that does not deny, is for somebody and about something, and knows whether that is
-- everybody.
abbrev pub IsSound : ParsedStatement → Type 0
IsSound stmt =
    (text_eq stmt.effect (codes "Deny") ≡ false)
    × (is_empty stmt.principals ≡ false)
    × (is_empty stmt.actions ≡ false)
    × (stmt.wildcard_principal ≡ any is_star stmt.principals)

parse_statement-IsSound : (stmt : Value) → All IsSound (parse_statement stmt)
unfolding parse_statement
parse_statement-IsSound stmt =
    let effect = effect_of (get_in (codes "Effect") stmt >>= as_str) in
    let found = find_principals (get_in (codes "Principal") stmt) in
    let actions = find_actions (get_in (codes "Action") stmt) in
    elim (Bool-cases (text_eq effect (codes "Deny"))) [
      | inl d ↦ rw d tt
      | inr d ↦ elim (Bool-cases (not (is_empty found.0) && not (is_empty actions))) [
        | inl n ↦
            rw (d, n)
              (
                (
                  d,
                  ground arith,
                  ground arith,
                  find_principals-IsMarked (get_in (codes "Principal") stmt),
                ),
                tt,
              )
        | inr n ↦ rw (d, n) tt
      ]
    ]

parse_statements-IsSound : (items : Items) → All IsSound (parse_statements items)
unfolding parse_statements
parse_statements-IsSound nil = tt
parse_statements-IsSound (cons stmt rest) =
    All-append IsSound (parse_statement stmt) (parse_statements rest) (parse_statement-IsSound stmt)
      (parse_statements-IsSound rest)

statements_in-IsSound : (o : Option Items) → All IsSound (statements_in o)
statements_in-IsSound none = tt
statements_in-IsSound (some items) = parse_statements-IsSound items

read_policy-IsSound :
    (read : Result Text Value) {statements : List ParsedStatement}
    → read_policy read ≡ ok statements
    → All IsSound statements
read_policy-IsSound (err e) h = cc
read_policy-IsSound (ok policy) h =
    rw (← ok_injective h) (statements_in-IsSound (get_in (codes "Statement") policy >>= as_array))

-- No statement that is read denies, each has principals and actions, and it is marked as a wildcard
-- exactly if a star is among its principals.
pub parse_resource_policy-IsSound :
    (from_str : Text → Result Text Value) (policy_doc : Text) {statements : List ParsedStatement}
    → parse_resource_policy from_str policy_doc ≡ ok statements
    → All IsSound statements
unfolding parse_resource_policy
parse_resource_policy-IsSound from_str policy_doc h = read_policy-IsSound (from_str policy_doc) h
