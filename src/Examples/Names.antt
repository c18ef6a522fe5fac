-- ===== src/Examples/Names.antt =====
-- ARNs, labels and edges on concrete texts (crates/activable-schema).
use activable_cloud.Prelude.{◌≡◌, refl, Bool, true, false, [], Text, codes}
use activable_cloud.Prelude.Errors.{ok}
use activable_cloud.Schema.Arn.{Arn, parse, canonical}
use activable_cloud.Schema.Arn.Canonical.{IsCanonical, parse-canonical}

abbrev role : Arn
role = record {
  partition = codes "aws";
  service = codes "iam";
  region = [];
  account = codes "123456789012";
  resource = codes "role/Admin";
}

role-IsCanonical : IsCanonical role
role-IsCanonical = record {
  partition_known = refl;
  service_lower = refl;
  service_present = refl;
  service_whole = refl;
  region_lower = refl;
  region_whole = refl;
  account_valid = refl;
  account_whole = refl;
  resource_present = refl;
}

parse-canonical_example : parse (canonical role) ≡ ok role
parse-canonical_example = parse-canonical role role-IsCanonical

mixed_parsed : parse (codes "arn:AWS:Iam::123456789012:role/Admin") ≡ ok role
unfolding parse activable_cloud.Prelude.Split.splitn_after
mixed_parsed = refl
