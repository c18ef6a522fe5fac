-- ===== src/Iam/CloudTrail/Detect.antt =====
-- Patterns of escalation in CloudTrail events: crates/activable-iam-engine/src/cloudtrail.rs. The
-- order in which the map of principals is gone through is a parameter.
use activable_cloud.Prelude.{
  ℕ, ◌+◌, ◌-◌, ◌*◌, ◌^◌, Bool, true, false, not, ◌&&◌, List, [], ◌∷◌, ◌++◌, map, Option, none, some,
  Text, codes, text_eq, is_empty, any, all, keep, flat_map, length, get_elem?, ltb, leb,
  if◌then◌else◌,
}
use activable_cloud.Prelude.Options.{◌>>=◌}
use activable_cloud.Prelude.Decimal.{is_digit}
use activable_cloud.Prelude.Split.{split}
use activable_cloud.Iam.CloudTrail.{CloudTrailEvent, CloudTrailResource}

pub data EscalationPattern : Type 0 where
  denied_then_success rapid_iam_changes policy_modify_then_assume cross_account_assumption :
      EscalationPattern

pub record EscalationAttempt : Type 0 where
  pub principal_arn : Text
  pub pattern : EscalationPattern
  pub events : List CloudTrailEvent
  pub timestamp_range : Text × Text

-- `parse::<i64>` of the characters that `char::is_numeric`, a parameter, keeps, with 0 where it fails:
-- on none, on one that is no ASCII digit, and on too large a number.
abbrev pub digits_value : ℕ → Text → ℕ
digits_value acc [] = acc
digits_value acc (c ∷ s) = digits_value (acc * 10 + (c - b'0')) s

unfoldable pub parse_timestamp : (ℕ → Bool) → Text → ℕ
parse_timestamp is_numeric s =
    let kept = keep is_numeric s in
    let value = digits_value 0 kept in if all is_digit kept && ltb value (2 ^ 63) then value else 0

unfoldable pub is_within_time_window : (ℕ → Bool) → Text → Text → ℕ → Bool
is_within_time_window is_numeric time_a time_b window_seconds =
    let ts_a = parse_timestamp is_numeric time_a in
    let ts_b = parse_timestamp is_numeric time_b in leb (ts_b - ts_a + (ts_a - ts_b)) window_seconds

abbrev pub policy_modifications : List Text
policy_modifications = map codes (
    "CreatePolicy" ∷ "CreatePolicyVersion" ∷ "DeletePolicy" ∷ "DeletePolicyVersion"
    ∷ "PutUserPolicy" ∷ "PutGroupPolicy" ∷ "PutRolePolicy" ∷ "AttachUserPolicy"
    ∷ "AttachGroupPolicy" ∷ "AttachRolePolicy" ∷ "UpdateAssumeRolePolicy" ∷ [])

abbrev pub other_write_actions : List Text
other_write_actions = map codes (
    "DetachUserPolicy" ∷ "DetachGroupPolicy" ∷ "DetachRolePolicy" ∷ "CreateRole" ∷ "CreateUser"
    ∷ "AddUserToGroup" ∷ "UpdateUserPolicy" ∷ "CreateAccessKey" ∷ [])

unfoldable pub is_policy_modification : Text → Bool
is_policy_modification event_name = any (text_eq event_name) policy_modifications

-- The actions of both lists.
unfoldable pub is_iam_write_action : Text → Bool
is_iam_write_action event_name =
    any (text_eq event_name) (policy_modifications ++ other_write_actions)

unfoldable pub extract_account_from_arn_str : Text → Option Text
extract_account_from_arn_str arn = do
  account ← get_elem? (split b':' arn) 4
  if is_empty account then none else some account

abbrev pub is_denied : CloudTrailEvent → Bool
is_denied e = elim e.error_code [ none ↦ false | some c ↦ text_eq c (codes "AccessDenied") ]

abbrev pub is_success : CloudTrailEvent → Bool
is_success e = elim e.error_code [ none ↦ true | some c ↦ false ]

abbrev pub is_success_of : (ℕ → Bool) → CloudTrailEvent → CloudTrailEvent → Bool
is_success_of is_numeric a b =
    is_success b
    && text_eq b.event_name a.event_name
    && is_within_time_window is_numeric a.event_time b.event_time 3600

abbrev pub find_event : (CloudTrailEvent → Bool) → List CloudTrailEvent → Option CloudTrailEvent
find_event p [] = none
find_event p (e ∷ es) = if p e then some e else find_event p es

abbrev pub attempt :
    Text
    → EscalationPattern
    → List CloudTrailEvent
    → CloudTrailEvent
    → CloudTrailEvent
    → EscalationAttempt
attempt principal_arn pattern events first last = record {
  principal_arn = principal_arn;
  pattern = pattern;
  events = events;
  timestamp_range = (first.event_time, last.event_time);
}

abbrev pub pair_attempts : Text → CloudTrailEvent → Option CloudTrailEvent → List EscalationAttempt
pair_attempts arn a none = []
pair_attempts arn a (some b) = attempt arn denied_then_success (a ∷ b ∷ []) a b ∷ []

-- Pattern 1: for each denied event the first later one that succeeds.
unfoldable pub denied_attempts : (ℕ → Bool) → Text → List CloudTrailEvent → List EscalationAttempt
denied_attempts is_numeric arn [] = []
denied_attempts is_numeric arn (a ∷ rest) =
    (if is_denied a then pair_attempts arn a (find_event (is_success_of is_numeric a) rest) else [])
    ++ denied_attempts is_numeric arn rest

-- The events that follow within the window, up to the first that does not.
abbrev pub run_of : (ℕ → Bool) → CloudTrailEvent → List CloudTrailEvent → List CloudTrailEvent
run_of is_numeric a [] = []
run_of is_numeric a (b ∷ rest) =
    let later = run_of is_numeric a rest in
    if is_within_time_window is_numeric a.event_time b.event_time 300 then b ∷ later else []

-- Pattern 2, over the write actions: the first run of more than three. The answer is `none` where the
-- index of the last event is out of range.
unfoldable pub rapid_attempts :
    (ℕ → Bool) → Text → List CloudTrailEvent → Option (List EscalationAttempt)
rapid_attempts is_numeric arn [] = some []
rapid_attempts is_numeric arn (a ∷ rest) =
    let related_events = a ∷ run_of is_numeric a rest in
    let count = length related_events in
    let later = rapid_attempts is_numeric arn rest in
    if ltb 3 count
    then (do
      last ← get_elem? (a ∷ rest) (count - 1)
      some (attempt arn rapid_iam_changes related_events a last ∷ []))
    else later

abbrev pub is_write : CloudTrailEvent → Bool
is_write e = text_eq e.event_source (codes "iam.amazonaws.com") && is_iam_write_action e.event_name

abbrev pub is_modification : CloudTrailEvent → Bool
is_modification e =
    text_eq e.event_source (codes "iam.amazonaws.com") && is_policy_modification e.event_name

abbrev pub is_assume : CloudTrailEvent → Bool
is_assume e =
    text_eq e.event_source (codes "sts.amazonaws.com") && text_eq e.event_name (codes "AssumeRole")

-- Pattern 3, for one policy event.
unfoldable pub assume_attempts :
    (ℕ → Bool) → Text → CloudTrailEvent → List CloudTrailEvent → List EscalationAttempt
assume_attempts is_numeric arn p [] = []
assume_attempts is_numeric arn p (a ∷ rest) =
    let later = assume_attempts is_numeric arn p rest in
    if is_within_time_window is_numeric p.event_time a.event_time 3600 && is_success a
    then attempt arn policy_modify_then_assume (p ∷ a ∷ []) p a ∷ later
    else later

abbrev pub is_elsewhere : Text → CloudTrailResource → Bool
is_elsewhere target r = elim (extract_account_from_arn_str r.resource_arn) [
  | none ↦ false
  | some account ↦ not (text_eq account target)
]

-- Pattern 4: one attempt for each event with a resource in another account.
abbrev pub cross_attempt : Text → Option Text → CloudTrailEvent → List EscalationAttempt
cross_attempt arn none a = []
cross_attempt arn (some target) a =
    if is_success a && any (is_elsewhere target) a.resources
    then attempt arn cross_account_assumption (a ∷ []) a a ∷ []
    else []

-- What is pushed for one principal.
unfoldable pub principal_attempts :
    (ℕ → Bool) → Text → List CloudTrailEvent → Option (List EscalationAttempt)
unfolding denied_attempts rapid_attempts assume_attempts
principal_attempts is_numeric arn es = do
  rapid ← rapid_attempts is_numeric arn (keep is_write es)
  let assumes = keep is_assume es
  some (
      denied_attempts is_numeric arn es
      ++ (rapid
          ++ (flat_map (λ p. assume_attempts is_numeric arn p assumes) (keep is_modification es)
              ++ flat_map (cross_attempt arn (extract_account_from_arn_str arn)) assumes)))

-- The map from principals to their events, an entry for each in the order of appearance.
abbrev pub Groups : Type 0
Groups = List (Text × List CloudTrailEvent)

abbrev pub push_event : CloudTrailEvent → Groups → Groups
push_event e [] = (e.principal_arn, e ∷ []) ∷ []
push_event e ((arn, es) ∷ groups) =
    let later = push_event e groups in
    if text_eq e.principal_arn arn then (arn, es ++ e ∷ []) ∷ groups else (arn, es) ∷ later

abbrev pub group_events : List CloudTrailEvent → Groups → Groups
group_events [] groups = groups
group_events (e ∷ es) groups = group_events es (push_event e groups)

unfoldable pub all_attempts : (ℕ → Bool) → Groups → Option (List EscalationAttempt)
unfolding principal_attempts
all_attempts is_numeric [] = some []
all_attempts is_numeric ((arn, es) ∷ groups) = do
  first ← principal_attempts is_numeric arn es
  later ← all_attempts is_numeric groups
  some (first ++ later)

unfoldable pub detect_escalation_attempts :
    (ℕ → Bool) → (Groups → Groups) → List CloudTrailEvent → Option (List EscalationAttempt)
unfolding all_attempts
detect_escalation_attempts is_numeric iterate events =
    all_attempts is_numeric (iterate (group_events events []))
