-- ===== src/Iam/CloudTrail/Attempts.antt =====
-- What the events of an attempt are, and that those of a principal are so
-- (crates/activable-iam-engine/src/cloudtrail.rs).
use activable_cloud.Prelude.{
  ℕ, not, Option-cases, ◌-◌, ◌<◌, ◌≤◌, ◌≡◌, refl, subst, inl, inr, Bool, true, ◌&&◌, List, [], ◌∷◌,
  ◌++◌, Option, none, some, arith, Text, text_eq, text_eq_iff, any, keep, flat_map, length,
  drop-cons, ltb, Any, All, All-append, All-keep, All-mono, All-flat_map, Bool-cases,
}
use activable_cloud.Iam.CloudTrail.{CloudTrailEvent, CloudTrailResource}
use activable_cloud.Iam.CloudTrail.Detect.{
  EscalationPattern, denied_then_success, rapid_iam_changes, policy_modify_then_assume,
  cross_account_assumption, EscalationAttempt, is_within_time_window, is_denied, is_success,
  is_success_of, find_event, pair_attempts, denied_attempts, run_of, rapid_attempts, is_write,
  is_modification, is_assume, is_elsewhere, cross_attempt, extract_account_from_arn_str,
  assume_attempts, principal_attempts,
}

-- `char::is_numeric` is a parameter.
module _ (is_numeric : ℕ → Bool) where
  -- Times of two events within a number of seconds, as the code counts them.
  abbrev pub IsWithin : CloudTrailEvent → CloudTrailEvent → ℕ → Type 0
  IsWithin a b seconds = is_within_time_window is_numeric a.event_time b.event_time seconds ≡ true

  -- A resource whose account is known, and another than this.
  abbrev pub IsElsewhere : Text → CloudTrailResource → Type 0
  IsElsewhere target r =
      (account : Text) × (extract_account_from_arn_str r.resource_arn ≡ some account)
      × ¬ (account ≡ target)

  -- What the events of an attempt of each pattern of a principal are.
  abbrev pub Fits : Text → EscalationPattern → List CloudTrailEvent → Type 0
  Fits arn denied_then_success (a ∷ b ∷ []) =
      (is_denied a ≡ true)
      × (is_success b ≡ true)
      × (b.event_name ≡ a.event_name)
      × IsWithin a b 3600
  Fits arn rapid_iam_changes (a ∷ more) =
      (3 < length (a ∷ more))
      × All (λ e. is_write e ≡ true) (a ∷ more)
      × All (λ e. IsWithin a e 300) more
  Fits arn policy_modify_then_assume (p ∷ a ∷ []) =
      (is_modification p ≡ true) × (is_assume a ≡ true) × (is_success a ≡ true) × IsWithin p a 3600
  Fits arn cross_account_assumption (a ∷ []) =
      (is_assume a ≡ true)
      × (is_success a ≡ true)
      × (target : Text) × (extract_account_from_arn_str arn ≡ some target)
      × Any (IsElsewhere target) a.resources
  Fits _ _ _ = ⊥

  is_elsewhere-IsElsewhere :
      (target : Text) (r : CloudTrailResource) → is_elsewhere target r ≡ true → IsElsewhere target r
  is_elsewhere-IsElsewhere target r h =
      elim (Option-cases (extract_account_from_arn_str r.resource_arn)) [
        | inl e ↦ let no = rw (is_elsewhere, e) at h in cc no
        | inr (account, e) ↦
            let differs : not (text_eq account target) ≡ true = rw (is_elsewhere, e) at h in
            (account, e, λ same. cc (rw ((text_eq_iff account target).1 same) at differs))
      ]

  any-IsElsewhere :
      (target : Text) (rs : List CloudTrailResource)
      → any (is_elsewhere target) rs ≡ true
      → Any (IsElsewhere target) rs
  any-IsElsewhere target [] h = cc
  any-IsElsewhere target (r ∷ rs) h = elim (Bool-cases (is_elsewhere target r)) [
    | inl e ↦ inl (is_elsewhere-IsElsewhere target r e)
    | inr n ↦ inr (any-IsElsewhere target rs (rw n at h))
  ]

  run_of-IsWithin :
      (a : CloudTrailEvent) (es : List CloudTrailEvent)
      → All (λ e. IsWithin a e 300) (run_of is_numeric a es)
  run_of-IsWithin a [] = tt
  run_of-IsWithin a (b ∷ es) =
      elim (Bool-cases (is_within_time_window is_numeric a.event_time b.event_time 300)) [
        | inl y ↦ rw y (y, run_of-IsWithin a es)
        | inr n ↦ rw n tt
      ]

  -- An attempt of a principal from events with a property.
  module _ (P : CloudTrailEvent → Type 0) (arn : Text) where
    pub record IsAttempt (a : EscalationAttempt) : Type 0 where
      pub principal : a.principal_arn ≡ arn
      pub own : All P a.events
      pub fits : Fits arn a.pattern a.events

    find_event-All :
        (p : CloudTrailEvent → Bool) (es : List CloudTrailEvent) {e : CloudTrailEvent}
        → All P es
        → find_event p es ≡ some e
        → P e × (p e ≡ true)
    find_event-All p [] h f = cc
    find_event-All p (d ∷ es) h f = elim (Bool-cases (p d)) [
      | inl y ↦ subst (λ x. P x × (p x ≡ true)) (cc (rw y at f)) (h.0, y)
      | inr n ↦ find_event-All p es h.1 (rw n at f)
    ]

    pair_attempts-All :
        (a : CloudTrailEvent) (found : Option CloudTrailEvent)
        → P a
        → is_denied a ≡ true
        → ((b : CloudTrailEvent) → found ≡ some b → P b × (is_success_of is_numeric a b ≡ true))
        → All IsAttempt (pair_attempts arn a found)
    pair_attempts-All a none own denied later = tt
    pair_attempts-All a (some b) own denied later =
        let (own_b, follows) = later b refl in
        let success : is_success b ≡ true = ground arith in
        let name : text_eq b.event_name a.event_name ≡ true = ground arith in
        let near : IsWithin a b 3600 = ground arith in
        (
          record {
            principal = refl;
            own = (own, (own_b, tt));
            fits = (denied, success, (text_eq_iff b.event_name a.event_name).0 name, near);
          },
          tt,
        )

    denied_attempts-All :
        (es : List CloudTrailEvent) → All P es → All IsAttempt (denied_attempts is_numeric arn es)
    unfolding denied_attempts
    denied_attempts-All [] h = tt
    denied_attempts-All (a ∷ rest) h =
        All-append IsAttempt _ (denied_attempts is_numeric arn rest)
          (elim (Bool-cases (is_denied a)) [
            | inl d ↦ rw d (
                pair_attempts-All a (find_event (is_success_of is_numeric a) rest) h.0 d
                  (λ b f. find_event-All (is_success_of is_numeric a) rest h.1 f))
            | inr n ↦ rw n tt
          ])
          (denied_attempts-All rest h.1)

    run_of-All :
        (a : CloudTrailEvent) (es : List CloudTrailEvent)
        → All P es
        → All P (run_of is_numeric a es)
    run_of-All a [] h = tt
    run_of-All a (b ∷ es) h =
        elim (Bool-cases (is_within_time_window is_numeric a.event_time b.event_time 300)) [
          | inl y ↦ rw y (h.0, run_of-All a es h.1)
          | inr n ↦ rw n tt
        ]

  length-run_of :
      (a : CloudTrailEvent) (es : List CloudTrailEvent)
      → length (run_of is_numeric a es) ≤ length es
  length-run_of a [] = omega arith
  length-run_of a (b ∷ es) = ground (arith, length-run_of a es)

  module _ (P : CloudTrailEvent → Type 0) (arn : Text) where
    rapid_attempts-All :
        (es : List CloudTrailEvent)
        → All (λ e. P e × (is_write e ≡ true)) es
        → (ats : List EscalationAttempt) × (rapid_attempts is_numeric arn es ≡ some ats)
          × All (IsAttempt P arn) ats
    unfolding rapid_attempts
    rapid_attempts-All [] h = ([], refl, tt)
    rapid_attempts-All (a ∷ rest) h =
        let related = a ∷ run_of is_numeric a rest in
        elim (Bool-cases (ltb 3 (length related))) [
          | inl y ↦
              let (last, found, _) =
                drop-cons (a ∷ rest) (length related - 1) (omega (arith, length-run_of a rest)) in
              let both = run_of-All (λ e. P e × (is_write e ≡ true)) arn a rest h.1 in
              rw (y, found)
                (
                  _ ∷ [],
                  refl,
                  (
                    record {
                      principal = refl;
                      own =
                          All-mono (λ e. P e × (is_write e ≡ true)) P (λ e. λ k. k.0) related
                            (h.0, both);
                      fits = (
                        ground arith,
                        All-mono (λ e. P e × (is_write e ≡ true)) (λ e. is_write e ≡ true)
                            (λ e. λ k. k.1) related (h.0, both),
                        run_of-IsWithin a rest,
                      );
                    },
                    tt,
                  ),
                )
          | inr n ↦ rw n (rapid_attempts-All rest h.1)
        ]

    assume_attempts-All :
        (p : CloudTrailEvent) (es : List CloudTrailEvent)
        → P p × (is_modification p ≡ true)
        → All (λ e. P e × (is_assume e ≡ true)) es
        → All (IsAttempt P arn) (assume_attempts is_numeric arn p es)
    unfolding assume_attempts
    assume_attempts-All p [] h k = tt
    assume_attempts-All p (a ∷ rest) h k =
        let later = assume_attempts-All p rest h k.1 in
        elim (Bool-cases
          (is_within_time_window is_numeric p.event_time a.event_time 3600 && is_success a)) [
            | inl y ↦
                let success : is_success a ≡ true = ground arith in
                let near : IsWithin p a 3600 = ground arith in
                rw y (
                  record {
                    principal = refl;
                    own = (h.0, (k.0.0, tt));
                    fits = (h.1, k.0.1, success, near);
                  },
                  later,
                )
            | inr n ↦ rw n later
          ]

    cross_attempt-All :
        (target : Option Text) (a : CloudTrailEvent)
        → extract_account_from_arn_str arn ≡ target
        → P a × (is_assume a ≡ true)
        → All (IsAttempt P arn) (cross_attempt arn target a)
    cross_attempt-All none a known h = tt
    cross_attempt-All (some target) a known h =
        elim (Bool-cases (is_success a && any (is_elsewhere target) a.resources)) [
          | inl y ↦
              let success : is_success a ≡ true = ground arith in
              let other : any (is_elsewhere target) a.resources ≡ true = ground arith in
              rw y (
                record {
                  principal = refl;
                  own = (h.0, tt);
                  fits = (h.1, success, target, known, any-IsElsewhere target a.resources other);
                },
                tt,
              )
          | inr n ↦ rw n tt
        ]

    pub principal_attempts-All :
        (es : List CloudTrailEvent)
        → All P es
        → (ats : List EscalationAttempt) × (principal_attempts is_numeric arn es ≡ some ats)
          × All (IsAttempt P arn) ats
    unfolding principal_attempts
    principal_attempts-All es h =
        let (rapid, found, rapid_ok) =
          rapid_attempts-All (keep is_write es) (All-keep P is_write es h) in
        let assumes = keep is_assume es in
        let assumes_ok = All-keep P is_assume es h in
        let third =
          flat_map (λ p. assume_attempts is_numeric arn p assumes) (keep is_modification es) in
        let fourth = flat_map (cross_attempt arn (extract_account_from_arn_str arn)) assumes in
        rw found (
          denied_attempts is_numeric arn es ++ (rapid ++ (third ++ fourth)),
          refl,
          All-append (IsAttempt P arn) (denied_attempts is_numeric arn es)
              (rapid ++ (third ++ fourth)) (denied_attempts-All P arn es h)
              (All-append (IsAttempt P arn) rapid (third ++ fourth) rapid_ok (
                All-append (IsAttempt P arn) third fourth
                  (All-flat_map (λ p. P p × (is_modification p ≡ true)) (IsAttempt P arn)
                    (λ p. assume_attempts is_numeric arn p assumes) (keep is_modification es)
                    (λ p k. assume_attempts-All p assumes k assumes_ok)
                    (All-keep P is_modification es h))
                  (All-flat_map (λ a. P a × (is_assume a ≡ true)) (IsAttempt P arn)
                    (cross_attempt arn (extract_account_from_arn_str arn)) assumes
                    (λ a. cross_attempt-All (extract_account_from_arn_str arn) a refl)
                    assumes_ok))),
        )
