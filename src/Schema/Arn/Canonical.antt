-- ===== src/Schema/Arn/Canonical.antt =====
-- The canonical form of an ARN (crates/activable-schema/src/arn.rs).
use activable_cloud.Prelude.{
  ◌≡◌, refl, ◌∙◌, inl, inr, true, false, List, [], ◌∷◌, arith, Text, codes, text_eq, text_eq_iff,
  to_lowercase, to_lowercase_idem, lower_char, contains_char, is_empty, ◌==◌, Bool-cases,
}
use activable_cloud.Prelude.Errors.{ok}
use activable_cloud.Prelude.Split.{splitn_after, splitn-append, splitn-cut}
use activable_cloud.Schema.Arn.{
  Arn, colon, known_partition, bad_account, parse_parts, parse_list, parse, canonical,
}

-- The fields as the parser leaves them: lower case where case does not matter, without colons, and
-- valid.
pub record IsCanonical (arn : Arn) : Type 0 where
  pub partition_known : known_partition arn.partition ≡ true
  pub service_lower : to_lowercase arn.service ≡ arn.service
  pub service_present : is_empty arn.service ≡ false
  pub service_whole : contains_char colon arn.service ≡ false
  pub region_lower : to_lowercase arn.region ≡ arn.region
  pub region_whole : contains_char colon arn.region ≡ false
  pub account_valid : bad_account arn.account ≡ false
  pub account_whole : contains_char colon arn.account ≡ false
  pub resource_present : is_empty arn.resource ≡ false

known_cases :
    (p : Text) → known_partition p ≡ true → (to_lowercase p ≡ p) × (contains_char colon p ≡ false)
known_cases p h = elim (Bool-cases (text_eq p (codes "aws"))) [
  | inl e ↦ let same : p ≡ codes "aws" = (text_eq_iff p (codes "aws")).0 e in rw same (refl, refl)
  | inr n ↦ elim (Bool-cases (text_eq p (codes "aws-cn"))) [
    | inl e ↦
        let same : p ≡ codes "aws-cn" = (text_eq_iff p (codes "aws-cn")).0 e in rw same (refl, refl)
    | inr m ↦
        let same : p ≡ codes "aws-us-gov" =
          (text_eq_iff p (codes "aws-us-gov")).0 (rw (n, m) at h) in
        rw same (refl, refl)
  ]
]

parse_list-canonical :
    (arn : Arn)
    → IsCanonical arn
    → to_lowercase arn.partition ≡ arn.partition
    → parse_list (
        codes "arn"
        ∷ arn.partition
        ∷ arn.service
        ∷ arn.region
        ∷ arn.account
        ∷ splitn_after 0 colon arn.resource)
      ≡ ok arn
unfolding parse_list splitn_after
parse_list-canonical arn c lower =
    rw
      (
        lower, c.service_lower, c.region_lower, c.partition_known, c.service_present,
        c.account_valid, c.resource_present,
      )
      refl

-- A canonical ARN that is printed is parsed as it was.
pub parse-canonical : (arn : Arn) → IsCanonical arn → parse (canonical arn) ≡ ok arn
unfolding parse canonical
parse-canonical arn c =
    let (lower, whole) = known_cases arn.partition c.partition_known in
    rw (splitn-append 4 colon (codes "arn") _ refl) (
      rw (splitn-append 3 colon arn.partition _ whole) (
        rw (splitn-append 2 colon arn.service _ c.service_whole) (
          rw (splitn-append 1 colon arn.region _ c.region_whole) (
            rw (splitn-append 0 colon arn.account arn.resource c.account_whole)
              (parse_list-canonical arn c lower)))))

-- What the tests of the parser leave.
parse_parts-ok :
    (p0 p1 p2 p3 p4 p5 : Text) (arn : Arn)
    → parse_parts p0 p1 p2 p3 p4 p5 ≡ ok arn
    → (known_partition (to_lowercase p1) ≡ true)
      × (is_empty (to_lowercase p2) ≡ false)
      × (bad_account p4 ≡ false)
      × (is_empty p5 ≡ false)
      × (arn ≡ record {
        partition = to_lowercase p1;
        service = to_lowercase p2;
        region = to_lowercase p3;
        account = p4;
        resource = p5;
      })
unfolding parse_parts
parse_parts-ok p0 p1 p2 p3 p4 p5 arn h = ground arith

lower-colon : (s : Text) → contains_char colon (to_lowercase s) ≡ contains_char colon s
lower-colon [] = refl
lower-colon (c ∷ s) =
    let same : (lower_char c == colon) ≡ (c == colon) = ground arith in
    rw (same, lower-colon s) refl

parse_list-ok :
    (parts : List Text) (arn : Arn)
    → parse_list parts ≡ ok arn
    → (p0 p1 p2 p3 p4 p5 : Text) × (parts ≡ p0 ∷ p1 ∷ p2 ∷ p3 ∷ p4 ∷ p5 ∷ [])
      × (parse_parts p0 p1 p2 p3 p4 p5 ≡ ok arn)
unfolding parse_list
parse_list-ok (p0 ∷ p1 ∷ p2 ∷ p3 ∷ p4 ∷ p5 ∷ []) arn h = (p0, p1, p2, p3, p4, p5, refl, h)
parse_list-ok [] arn h = cc
parse_list-ok (p0 ∷ []) arn h = cc
parse_list-ok (p0 ∷ p1 ∷ []) arn h = cc
parse_list-ok (p0 ∷ p1 ∷ p2 ∷ []) arn h = cc
parse_list-ok (p0 ∷ p1 ∷ p2 ∷ p3 ∷ []) arn h = cc
parse_list-ok (p0 ∷ p1 ∷ p2 ∷ p3 ∷ p4 ∷ []) arn h = cc
parse_list-ok (p0 ∷ p1 ∷ p2 ∷ p3 ∷ p4 ∷ p5 ∷ p6 ∷ ps) arn h = cc

splits_whole :
    (s p0 p1 p2 p3 p4 p5 : Text)
    → splitn_after 5 colon s ≡ p0 ∷ p1 ∷ p2 ∷ p3 ∷ p4 ∷ p5 ∷ []
    → (contains_char colon p1 ≡ false)
      × (contains_char colon p2 ≡ false)
      × (contains_char colon p3 ≡ false)
      × (contains_char colon p4 ≡ false)
splits_whole s p0 p1 p2 p3 p4 p5 h =
    let (w0, s1, h1) = splitn-cut 4 colon s p0 p1 (p2 ∷ p3 ∷ p4 ∷ p5 ∷ []) h in
    let (w1, s2, h2) = splitn-cut 3 colon s1 p1 p2 (p3 ∷ p4 ∷ p5 ∷ []) h1 in
    let (w2, s3, h3) = splitn-cut 2 colon s2 p2 p3 (p4 ∷ p5 ∷ []) h2 in
    let (w3, s4, h4) = splitn-cut 1 colon s3 p3 p4 (p5 ∷ []) h3 in
    let (w4, s5, h5) = splitn-cut 0 colon s4 p4 p5 [] h4 in (w1, w2, w3, w4)

-- What the parser accepts is canonical, whatever the case of the text.
pub parse-IsCanonical : (s : Text) (arn : Arn) → parse s ≡ ok arn → IsCanonical arn
unfolding parse
parse-IsCanonical s arn h =
    let split_ok : parse_list (splitn_after 5 colon s) ≡ ok arn = ground arith in
    let (p0, p1, p2, p3, p4, p5, parts, six) = parse_list-ok _ arn split_ok in
    let (w1, w2, w3, w4) = splits_whole s p0 p1 p2 p3 p4 p5 parts in
    let (known, service, account, resource, is) = parse_parts-ok p0 p1 p2 p3 p4 p5 arn six in
    rw is (record {
      partition_known = known;
      service_lower = to_lowercase_idem p2;
      service_present = service;
      service_whole = lower-colon p2 ∙ w2;
      region_lower = to_lowercase_idem p3;
      region_whole = lower-colon p3 ∙ w3;
      account_valid = account;
      account_whole = w4;
      resource_present = resource;
    })
