-- ===== src/Schema/Arn.antt =====
-- ARN parsing: crates/activable-schema/src/arn.rs.
pub mod Canonical
use activable_cloud.Prelude.{
  ℕ, Bool, true, false, not, ◌&&◌, ◌||◌, List, [], ◌∷◌, ◌++◌, Text, codes, text_eq, to_lowercase,
  contains_char, is_empty, all, length, leb, ◌==◌, if◌then◌else◌,
}
use activable_cloud.Prelude.Decimal.{decimal}
use activable_cloud.Prelude.Errors.{Result, ok, err}
use activable_cloud.Prelude.Split.{splitn_after}

pub record Arn : Type 0 where
  pub partition : Text
  pub service : Text
  pub region : Text
  pub account : Text
  pub resource : Text

abbrev pub colon : ℕ
colon = b':'

abbrev pub is_ascii_digit : ℕ → Bool
is_ascii_digit c = leb b'0' c && leb c b'9'

-- `matches!(partition, "aws" | "aws-cn" | "aws-us-gov")`.
abbrev pub known_partition : Text → Bool
known_partition partition =
    text_eq partition (codes "aws")
    || (text_eq partition (codes "aws-cn") || text_eq partition (codes "aws-us-gov"))

-- The account test that leads to the error. A text all of whose characters are digits has as many
-- bytes as characters.
abbrev pub bad_account : Text → Bool
bad_account account =
    not (is_empty account)
    && (not (text_eq account (codes "aws"))
        && (not (length account == 12) || not (all is_ascii_digit account)))

-- From "Index 0: literal" on, with the six parts.
unfoldable pub parse_parts : Text → Text → Text → Text → Text → Text → Result Text Arn
parse_parts prefix part1 part2 part3 account resource =
    let partition = to_lowercase part1 in
    let service = to_lowercase part2 in
    let region = to_lowercase part3 in
    if not (text_eq prefix (codes "arn"))
    then err (codes "ARN must start with 'arn:', got '" ++ (prefix ++ codes "'"))
    else if not (known_partition partition)
    then err (
        codes "Unknown ARN partition '"
        ++ (partition ++ codes "'; must be one of {aws, aws-cn, aws-us-gov}"))
    else if is_empty service
    then err (codes "ARN service field must not be empty")
    else if bad_account account
    then err (
        codes "ARN account must be empty, 'aws', or exactly 12 digits, got '"
        ++ (account ++ codes "'"))
    else if is_empty resource
    then err (codes "ARN resource field must not be empty")
    else ok (record {
      partition = partition;
      service = service;
      region = region;
      account = account;
      resource = resource;
    })

-- `parts.len() != 6`, and the six parts by their index.
unfoldable pub parse_list : List Text → Result Text Arn
unfolding parse_parts
parse_list (p0 ∷ p1 ∷ p2 ∷ p3 ∷ p4 ∷ p5 ∷ []) = parse_parts p0 p1 p2 p3 p4 p5
parse_list parts =
    err (codes "ARN must have exactly 6 colon-separated parts, got " ++ decimal (length parts))

unfoldable pub parse : Text → Result Text Arn
unfolding parse_list
parse s =
    if is_empty s then err (codes "ARN string is empty") else parse_list (splitn_after 5 colon s)

unfoldable pub canonical : Arn → Text
canonical arn =
    codes "arn"
    ++ colon
      ∷ (arn.partition
          ++ colon
            ∷ (arn.service
                ++ colon ∷ (arn.region ++ colon ∷ (arn.account ++ colon ∷ arn.resource))))

unfoldable pub is_valid_node_id : Text → Bool
is_valid_node_id s = elim (parse s) [
  | ok arn ↦ not (contains_char b'*' arn.resource) && not (contains_char b'?' arn.resource)
  | err e ↦ false
]
