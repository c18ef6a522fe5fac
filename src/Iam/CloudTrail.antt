-- ===== src/Iam/CloudTrail.antt =====
-- CloudTrail events: crates/activable-iam-engine/src/cloudtrail.rs. `serde_json::from_str` and
-- `Value::to_string` are parameters.
pub mod Detect
pub mod Attempts
pub mod Justified
use activable_cloud.Prelude.{
  ℕ, ◌+◌, List, [], ◌∷◌, ◌++◌, Option, none, some, Text, codes, is_empty, length, if◌then◌else◌,
  ◌==◌,
}
use activable_cloud.Prelude.Errors.{Result, ok, err, ◌>>=◌, ok_or, map_err}
use activable_cloud.Prelude.Options
use activable_cloud.Json.{
  Value, null, boolean, number, string, array, object, Items, nil, cons, as_array, as_str, get_in,
}

pub record CloudTrailResource : Type 0 where
  pub resource_type : Text
  pub resource_arn : Text

pub record CloudTrailEvent : Type 0 where
  pub event_id : Text
  pub event_time : Text
  pub event_name : Text
  pub event_source : Text
  pub principal_arn : Text
  pub source_ip : Text
  pub error_code : Option Text
  pub error_message : Option Text
  pub resources : List CloudTrailResource
  pub request_parameters : Option Value

-- The success rate is a quotient: the numbers that are divided.
pub record CloudTrailBatchResult : Type 0 where
  pub events : List CloudTrailEvent
  pub malformed_count : ℕ
  pub total_count : ℕ
  pub parse_success_rate : ℕ × ℕ
  pub quarantined : List Text

-- `get(key).and_then(|v| v.as_str())`.
abbrev pub text_in : Text → Value → Option Text
text_in key v = Options.◌>>=◌ (get_in key v) as_str

abbrev pub unwrap_or : Option Text → Text → Text
unwrap_or none fallback = fallback
unwrap_or (some s) fallback = s

-- The entries of the resources that have an ARN.
abbrev pub resources_of : Items → List CloudTrailResource
resources_of nil = []
resources_of (cons r rest) =
    let resource_arn = unwrap_or (text_in (codes "ARN") r) [] in
    let later = resources_of rest in
    if is_empty resource_arn
    then later
    else record {
      resource_type = unwrap_or (text_in (codes "type") r) (codes "unknown");
      resource_arn = resource_arn;
    }
      ∷ later

abbrev pub resources_in : Option Items → List CloudTrailResource
resources_in none = []
resources_in (some items) = resources_of items

-- The event of a value that was parsed; where a required field is missing, the text is returned.
unfoldable pub event_of : Text → Value → Result Text CloudTrailEvent
event_of json parsed = do
  event_id ← ok_or (text_in (codes "eventID") parsed) json
  event_time ← ok_or (text_in (codes "eventTime") parsed) json
  event_name ← ok_or (text_in (codes "eventName") parsed) json
  event_source ← ok_or (text_in (codes "eventSource") parsed) json
  principal_arn ←
      ok_or (Options.◌>>=◌ (get_in (codes "userIdentity") parsed) (text_in (codes "arn"))) json
  ok (record {
    event_id = event_id;
    event_time = event_time;
    event_name = event_name;
    event_source = event_source;
    principal_arn = principal_arn;
    source_ip = unwrap_or (text_in (codes "sourceIPAddress") parsed) (codes "unknown");
    error_code = text_in (codes "errorCode") parsed;
    error_message = text_in (codes "errorMessage") parsed;
    resources = resources_in (Options.◌>>=◌ (get_in (codes "resources") parsed) as_array);
    request_parameters = get_in (codes "requestParameters") parsed;
  })

unfoldable pub parse_cloudtrail_event :
    (Text → Result Text Value) → Text → Result Text CloudTrailEvent
unfolding event_of
parse_cloudtrail_event from_str json = do
  parsed ← map_err (λ e. json) (from_str json)
  event_of json parsed

abbrev pub unreadable : Text → CloudTrailBatchResult
unreadable json = record {
  events = [];
  malformed_count = 1;
  total_count = 1;
  parse_success_rate = (0, 1);
  quarantined = json ∷ [];
}

-- `events` and `quarantined` after the loop.
unfoldable pub sort_records :
    (Text → Result Text Value) → (Value → Text) → Items → List CloudTrailEvent × List Text
sort_records from_str to_string nil = ([], [])
sort_records from_str to_string (cons r rest) =
    let raw_json = to_string r in
    let (events, quarantined) = sort_records from_str to_string rest in
    elim (parse_cloudtrail_event from_str raw_json) [
      | ok event ↦ (event ∷ events, quarantined)
      | err e ↦ (events, raw_json ∷ quarantined)
    ]

-- A bare array, or an object that holds one under `Records`.
abbrev pub records_of : Value → Option Items
records_of (array items) = some items
records_of v = Options.◌>>=◌ (get_in (codes "Records") v) as_array

abbrev pub batch_of : List CloudTrailEvent × List Text → CloudTrailBatchResult
batch_of (events, quarantined) =
    let total_count = length events + length quarantined in
    record {
      events = events;
      malformed_count = length quarantined;
      total_count = total_count;
      parse_success_rate = if total_count == 0 then (0, 1) else (length events, total_count);
      quarantined = quarantined;
    }

-- From the value, if there is one.
abbrev pub batch_in :
    (Text → Result Text Value) → (Value → Text) → Text → Result Text Value → CloudTrailBatchResult
batch_in from_str to_string json (err e) = unreadable json
batch_in from_str to_string json (ok parsed) = elim (records_of parsed) [
  | none ↦ unreadable json
  | some records ↦ batch_of (sort_records from_str to_string records)
]

unfoldable pub parse_cloudtrail_batch :
    (Text → Result Text Value) → (Value → Text) → Text → CloudTrailBatchResult
unfolding sort_records
parse_cloudtrail_batch from_str to_string json = batch_in from_str to_string json (from_str json)
