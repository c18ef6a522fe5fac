-- ===== src/Iam/Types.antt =====
-- The policy data types (crates/activable-iam-engine/src/types.rs) and the request context
-- (src/eval_context.rs).
use activable_cloud.Prelude.{Text, Bool, true, false, List, [], Option, ◌≡◌, ◌↔◌, arith}

pub data Effect : Type 0 where
  allow deny : Effect

-- `stmt.effect == Effect::Deny`, and `== Effect::Allow`.
abbrev pub is_deny : Effect → Bool
is_deny deny = true
is_deny allow = false

abbrev pub is_allow : Effect → Bool
is_allow allow = true
is_allow deny = false

pub is_deny_iff : (e : Effect) → (is_deny e ≡ true) ↔ (e ≡ deny)
is_deny_iff e = ground arith

pub is_allow_iff : (e : Effect) → (is_allow e ≡ true) ↔ (e ≡ allow)
is_allow_iff e = ground arith

abbrev pub ActionPattern : Type 0
ActionPattern = Text

abbrev pub ResourcePattern : Type 0
ResourcePattern = Text

pub record Condition : Type 0 where
  pub operator : Text
  pub key : Text
  pub values : List Text

pub record PolicyStatement : Type 0 where
  pub sid : Option Text
  pub effect : Effect
  pub actions : List ActionPattern
  pub not_actions : List ActionPattern
  pub resources : List ResourcePattern
  pub not_resources : List ResourcePattern
  pub conditions : List Condition

pub record ParsedPolicy : Type 0 where
  pub version : Text
  pub statements : List PolicyStatement

pub record EvalContext : Type 0 where
  pub region : Text
  pub source_ip : Text
  pub source_arn : Text
  pub mfa_present : Bool
  pub secure_transport : Bool

-- `EvalContext::default()`.
abbrev pub default_context : EvalContext
default_context = record {
  region = [];
  source_ip = [];
  source_arn = [];
  mfa_present = false;
  secure_transport = false;
}

-- Of src/effective_permissions.rs.
pub record EffectivePermission : Type 0 where
  pub action : Text
  pub resource : Text
