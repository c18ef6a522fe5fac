-- ===== src/Examples/Risks.antt =====
-- The analyses of federation, audit events, tags, rules and permissions, and the scheduler, on concrete
-- values.
use activable_cloud.Prelude.{
  ◌<◌, ◌≡◌, refl, sym, ◌↔◌, inl, inr, Bool, true, false, Option, none, some, List, [], ◌∷◌, ◌++◌,
  Text, codes, text_eq, Any, arith, if◌then◌else◌,
}
use activable_cloud.Prelude.Errors.{Result, ok}
use activable_cloud.Json.{Value, string, array, object, nil, cons, end, field}
use activable_cloud.Iam.Federation.{
  FederationTrust, oidc, missing_subject, find_weak_federation_trusts,
}
use activable_cloud.Iam.Federation.Weak.{LacksOne, IsTrustOf, find_weak_federation_trusts_iff}
use activable_cloud.Prelude.Decimal.{is_digit}
use activable_cloud.Iam.CloudTrail.{CloudTrailEvent}
use activable_cloud.Iam.CloudTrail.Detect.{is_within_time_window, parse_timestamp}
use activable_cloud.Iam.Abac.{
  tag_manipulation_actions, IsUnguarded, detect_unguarded_tag_manipulation,
  detect_unguarded_tag_manipulation_iff,
}
use activable_cloud.Risk.Rules.{
  EscalationRule, MatchedRule, RuleRequirement, single, all_of, Requirements, uniform,
  EffectivePermission, match_rule,
}
use activable_cloud.Risk.Rules
use activable_cloud.Risk.Matching.{Holds, match_rule_iff}
use activable_cloud.Ingest.Permissions.{
  PrincipalPolicies, Skipped, new_enricher, principal_permissions,
}
use activable_cloud.Scheduler.Worker.{JobHandler, panicked}
use activable_cloud.Prelude.Integers.{pos}
use activable_cloud.Scheduler.Facade.{
  Scheduler, SchedulerBuilder, new_builder, build, start, shutdown, IsServing, IsStopped,
  start_again,
}

-- A role that trusts an OIDC provider for one audience.
abbrev trust_policy : Value
trust_policy = object (
    field (codes "Statement")
      (array (
        cons
          (object (
            field (codes "Condition")
              (object (
                field (codes "StringEquals")
                  (object (field (codes "p:aud") (string (codes "sts")) end)) end))
              (field (codes "Principal")
                (object (field (codes "Federated") (string (codes "x:oidc-provider/p")) end)) end)))
          nil))
      end)

abbrev reader : Text → Result Text Value
reader json = ok trust_policy

abbrev roles : List (Text × Text)
roles = (codes "r", codes "{}") ∷ []

abbrev weak_trust : FederationTrust
weak_trust = record {
  provider_arn = codes "x:oidc-provider/p";
  provider_type = oidc;
  role_arn = codes "r";
  conditions =
      record {
        condition_key = codes "p:aud";
        operator = codes "StringEquals";
        values = codes "sts" ∷ [];
      }
      ∷ [];
  weakness = some missing_subject;
}

weak_found : find_weak_federation_trusts reader roles ≡ ok (weak_trust ∷ [])
unfolding find_weak_federation_trusts activable_cloud.Prelude.Split.contains_text
weak_found = refl

find_weak_federation_trusts_example :
    Any (λ u. weak_trust ≡ u) (weak_trust ∷ [])
    ↔ (LacksOne weak_trust.conditions × Any (IsTrustOf reader weak_trust) roles)
find_weak_federation_trusts_example =
    find_weak_federation_trusts_iff reader roles (weak_trust ∷ []) weak_found weak_trust

-- A denied event, and the same action that succeeds.
abbrev event_at : Text → Option Text → CloudTrailEvent
event_at time error_code = record {
  event_id = codes "1";
  event_time = time;
  event_name = codes "AssumeRole";
  event_source = codes "sts.amazonaws.com";
  principal_arn = codes "arn:aws:iam::1:user/a";
  source_ip = codes "unknown";
  error_code = error_code;
  error_message = none;
  resources = [];
  request_parameters = none;
}

abbrev trail : List CloudTrailEvent
trail =
    event_at (codes "2026-05-23T14:30:00Z") (some (codes "AccessDenied"))
    ∷ event_at (codes "2026-05-23T14:31:00Z") none
    ∷ []

-- Two times that are a second apart, on both sides of the hour, are not within an hour.
hour_missed :
    is_within_time_window is_digit
      (codes "2026-05-23T14:59:59Z")
      (codes "2026-05-23T15:00:00Z")
      3600
    ≡ false
unfolding is_within_time_window parse_timestamp
hour_missed = refl

abbrev tagger : List Text
tagger = codes "iam:Tag*" ∷ []

detect-IsUnguarded_example :
    Any (λ a. codes "iam:TagUser" ≡ a) (detect_unguarded_tag_manipulation tagger [])
    ↔ Any (λ a. IsUnguarded tagger [] a × (codes "iam:TagUser" ≡ a)) tag_manipulation_actions
detect-IsUnguarded_example = detect_unguarded_tag_manipulation_iff tagger [] (codes "iam:TagUser")

abbrev pass_and_run : RuleRequirement
pass_and_run = all_of (
    Rules.cons (single (record { permission = codes "iam:PassRole"; resource_constraints = none }))
      Rules.nil)

abbrev rule : EscalationRule (Unit {0})
rule = record {
  id = codes "r1";
  name = codes "n";
  category = codes "passrole";
  services = [];
  permissions = some pass_and_run;
  prerequisites = uniform [];
  severity_tier = 2;
  boost = tt;
  trigger = none;
  description = none;
}

abbrev passes : List EffectivePermission
passes = record { action = codes "iam:*"; resource = codes "*" } ∷ []

match_rule_example : ((m : MatchedRule (Unit {0})) × (match_rule rule passes ≡ some m)) ↔ (
    (rule.trigger ≡ none)
    × (req : RuleRequirement) × (rule.permissions ≡ some req)
    × Holds req passes)
match_rule_example = match_rule_iff (Unit {0}) rule passes

-- A document with one statement, about an action on a resource; the text of a document is read as one that
-- allows everything, or one action.
abbrev allows : Text → Text → Value
allows action resource = object (
    field (codes "Statement")
      (array (
        cons
          (object (
            field (codes "Action") (string action) (
              field (codes "Effect") (string (codes "Allow"))
                (field (codes "Resource") (string resource) end))))
          nil))
      end)

abbrev document : Text → Result Text Value
document json = ok (
    if text_eq json (codes "*")
    then allows (codes "*") (codes "*")
    else allows (codes "a") (codes "r"))

abbrev plain : PrincipalPolicies
plain = record {
  principal_id = codes "p";
  inline_policies = array (cons (object (field (codes "document") (string (codes "{}")) end)) nil);
  managed_policies = array nil;
  permissions_boundary = none;
}

abbrev no_skips : Skipped
no_skips = record { skipped_deny = 0; skipped_conditions = 0 }

kept_inline :
    (principal_permissions document new_enricher plain no_skips).0
    ≡ ((codes "a", codes "r"), codes "inline") ∷ []
unfolding principal_permissions
kept_inline = refl

-- A boundary of the document that is given.
abbrev bounded : Text → PrincipalPolicies
bounded json = record plain {
  permissions_boundary = some (object (field (codes "document") (string json) end));
}

-- A boundary that allows everything leaves nothing of a single action.
star_masks : (principal_permissions document new_enricher (bounded (codes "*")) no_skips).0 ≡ []
unfolding principal_permissions
star_masks = refl

same_survives :
    (principal_permissions document new_enricher (bounded (codes "{}")) no_skips).0
    ≡ ((codes "a", codes "r"), codes "boundary-survived") ∷ []
unfolding principal_permissions
same_survives = refl

abbrev handler : JobHandler
handler = record { job_type = codes "ingest"; handle = λ payload. panicked; max_attempts = pos 3 }

abbrev builder : SchedulerBuilder
builder = record new_builder { registry = record { entries = handler ∷ [] } }

abbrev built : Scheduler
built = record {
  registry = record { entries = handler ∷ [] };
  pool = record {
    pool_handlers = handler ∷ [];
    concurrency = 2;
    shutdown = false;
    worker_handles = 0;
    heartbeat_interval = 5;
    poll_ms = 500;
  };
  reaper = record {
    job_types = codes "ingest" ∷ [];
    reap_threshold_seconds = 60;
    check_interval = 10;
    stopped = false;
  };
  has_reaper_handle = false;
}

builder-built : build builder ≡ ok built
unfolding build
builder-built = refl

start_again_example :
    let first = start (ok tt) built in
    let ended = shutdown first.1 in
    let second = start (ok tt) ended.1 in
    ((first.0 ≡ ok tt) × IsServing first.1)
    × ((ended.0 ≡ ok tt) × (ended.1.pool.worker_handles ≡ 0) × (ended.1.has_reaper_handle ≡ false))
    × ((second.0 ≡ ok tt)
        × (second.1.pool.worker_handles ≡ builder.concurrency)
        × (second.1.has_reaper_handle ≡ true)
        × IsStopped second.1)
start_again_example = start_again builder built builder-built (omega arith)
