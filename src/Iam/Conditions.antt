-- ===== src/Iam/Conditions.antt =====
-- The condition evaluator: crates/activable-iam-engine/src/condition_evaluator.rs. Addresses and
-- address blocks (`std::net::IpAddr`, and `ipnet::IpNet` of the crate ipnet) are a parameter.
pub mod Meaning
use activable_cloud.Prelude.{
  Bool, true, false, not, List, [], ◌∷◌, Option, none, some, Text, codes, text_eq,
  eq_ignore_ascii_case, any, all, is_empty, if◌then◌else◌,
}
use activable_cloud.Iam.Matchers.{action_matches, resource_matches}

-- `parse_ip` is `parse::<IpAddr>()`, `parse_net` is `parse::<ipnet::IpNet>()`.
pub record Net : Type 1 where
  pub IpAddr : Type 0
  pub IpNet : Type 0
  pub parse_ip : Text → Option IpAddr
  pub parse_net : Text → Option IpNet
  pub contains : IpNet → IpAddr → Bool

-- `values.first().copied().unwrap_or("false")`.
abbrev first_or_false : List Text → Text
first_or_false [] = codes "false"
first_or_false (v ∷ vs) = v

module _ (net : Net) where
  open net use {IpAddr, IpNet, parse_ip, parse_net, contains}

  -- The closure of "IpAddress": a block that does not parse contains nothing.
  abbrev in_block : IpAddr → Text → Bool
  in_block ip cidr_str = elim (parse_net cidr_str) [ none ↦ false | some cidr ↦ contains cidr ip ]

  abbrev outside_block : IpAddr → Text → Bool
  outside_block ip cidr_str = elim (parse_net cidr_str) [
    | none ↦ true
    | some cidr ↦ not (contains cidr ip)
  ]

  ip_address : List Text → Text → Bool
  ip_address values actual_value = elim (parse_ip actual_value) [
    | none ↦ false
    | some ip ↦ any (in_block ip) values
  ]

  not_ip_address : List Text → Text → Bool
  not_ip_address values actual_value = elim (parse_ip actual_value) [
    | none ↦ true
    | some ip ↦ all (outside_block ip) values
  ]

  unfoldable pub evaluate_condition : Text → Text → List Text → Text → Bool
  unfolding ip_address not_ip_address
  evaluate_condition operator _key values actual_value =
      if text_eq operator (codes "StringEquals")
      then any (λ v. eq_ignore_ascii_case actual_value v) values
      else if text_eq operator (codes "StringNotEquals")
      then all (λ v. not (eq_ignore_ascii_case actual_value v)) values
      else if text_eq operator (codes "StringLike")
      then any (λ pattern. action_matches pattern actual_value) values
      else if text_eq operator (codes "StringNotLike")
      then all (λ pattern. not (action_matches pattern actual_value)) values
      else if text_eq operator (codes "ArnLike")
      then any (λ pattern. resource_matches pattern actual_value) values
      else if text_eq operator (codes "ArnNotLike")
      then all (λ pattern. not (resource_matches pattern actual_value)) values
      else if text_eq operator (codes "IpAddress")
      then ip_address values actual_value
      else if text_eq operator (codes "NotIpAddress")
      then not_ip_address values actual_value
      else if text_eq operator (codes "Null")
      then (let is_absent = is_empty actual_value in
          if text_eq (first_or_false values) (codes "true") then is_absent else not is_absent)
      else if text_eq operator (codes "Bool")
      then any (λ v. eq_ignore_ascii_case actual_value v) values
      else true
