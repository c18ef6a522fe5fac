-- ===== src/Iam/Dangerous/Laws.antt =====
-- Which dangers are reported (crates/activable-iam-engine/src/dangerous_actions.rs).
use activable_cloud.Prelude.{
  ◌≡◌, subst, refl, ◌↔◌, ◌⊎◌, inl, inr, ↔_trans, Bool, true, false, ◌||◌, List, [], ◌∷◌, some,
  arith, Text, codes, text_eq, text_eq_iff, starts_with, starts_with_iff, IsPrefix, any, all,
  any_iff, all_iff, Any, All, Any-append, Any-map, Any-iff, if◌then◌else◌, Bool-cases, Option-cases,
}
use activable_cloud.Prelude.Split.{before_char}
use activable_cloud.Iam.Wildcard.{star}
use activable_cloud.Iam.Dangerous.{
  DangerousAction, EffectivePermission, action_matches_pattern, granted, detect_one, detect_each,
  detect_dangerous_actions,
}

-- The entry of the registry is triggered: by a permission for every action, or by all of its actions
-- for a combination, and else by one of them.
abbrev pub IsTriggered : List EffectivePermission → DangerousAction → Type 0
IsTriggered perms danger =
    Any (λ p. p.action ≡ codes "*") perms
    ⊎ (((danger.combo ≡ true) × All (λ a. granted perms a ≡ true) danger.actions)
        ⊎ ((danger.combo ≡ false) × Any (λ a. granted perms a ≡ true) danger.actions))

module _ (perms : List EffectivePermission) (name : Text) where
  detect_one_iff :
      (danger : DangerousAction)
      → Any (λ m. m.id ≡ name) (detect_one perms danger) ↔ (
          (danger.id ≡ name)
          × (((danger.combo ≡ true) × All (λ a. granted perms a ≡ true) danger.actions)
              ⊎ ((danger.combo ≡ false) × Any (λ a. granted perms a ≡ true) danger.actions)))
  unfolding detect_one
  detect_one_iff danger =
      let every =
        all_iff (λ a. granted perms a ≡ true) (granted perms) (λ a. (λ h. h, λ h. h))
          danger.actions in
      let some_one =
        any_iff (λ a. granted perms a ≡ true) (granted perms) (λ a. (λ h. h, λ h. h))
          danger.actions in
      elim (Bool-cases danger.combo) [
        | inl c ↦ elim (Bool-cases (all (granted perms) danger.actions)) [
          | inl e ↦
              rw (detect_one, c, e)
                (elim [ inl h ↦ (h, inl (refl, every.0 e)) | inr h ↦ absurd h ], λ (h, t). inl h)
          | inr n ↦
              rw (detect_one, c, n)
                (
                  λ h. absurd h,
                  λ (h, t). elim t [ inl u ↦ let yes = every.1 u.1 in cc | inr u ↦ cc u.0 ],
                )
        ]
        | inr c ↦ elim (Bool-cases (any (granted perms) danger.actions)) [
          | inl e ↦
              rw (detect_one, c, e)
                (elim [ inl h ↦ (h, inr (refl, some_one.0 e)) | inr h ↦ absurd h ], λ (h, t). inl h)
          | inr n ↦
              rw (detect_one, c, n)
                (
                  λ h. absurd h,
                  λ (h, t). elim t [ inl u ↦ cc u.0 | inr u ↦ let yes = some_one.1 u.1 in cc ],
                )
        ]
      ]

  detect_each_iff :
      (registry : List DangerousAction)
      → Any (λ m. m.id ≡ name) (detect_each perms registry)
        ↔ Any
            (λ danger.
              (danger.id ≡ name)
              × (((danger.combo ≡ true) × All (λ a. granted perms a ≡ true) danger.actions)
                  ⊎ ((danger.combo ≡ false) × Any (λ a. granted perms a ≡ true) danger.actions)))
            registry
  detect_each_iff [] = (λ h. h, λ h. h)
  detect_each_iff (danger ∷ rest) =
      let (forth, back) = detect_one_iff danger in
      let (later, before) = detect_each_iff rest in
      ↔_trans (Any-append (λ m. m.id ≡ name) (detect_one perms danger) (detect_each perms rest)) (
        elim [ inl h ↦ inl (forth h) | inr h ↦ inr (later h) ],
        elim [ inl h ↦ inl (back h) | inr h ↦ inr (before h) ],
      )

wild_iff :
    (perms : List EffectivePermission)
    → (any (λ p. text_eq p.action (codes "*")) perms ≡ true) ↔ Any (λ p. p.action ≡ codes "*") perms
wild_iff perms = any_iff _ _ (λ p. text_eq_iff p.action (codes "*")) perms

-- A danger is reported under its id exactly when an entry with that id is triggered.
pub detect_dangerous_actions_iff :
    (perms : List EffectivePermission) (registry : List DangerousAction) (name : Text)
    → Any (λ m. m.id ≡ name) (detect_dangerous_actions perms registry)
      ↔ Any (λ danger. (danger.id ≡ name) × IsTriggered perms danger) registry
unfolding detect_dangerous_actions
detect_dangerous_actions_iff perms registry name =
    let (forth, back) = wild_iff perms in
    elim (Bool-cases (any (λ p. text_eq p.action (codes "*")) perms)) [
      | inl e ↦
          rw (detect_dangerous_actions, e)
            (↔_trans (Any-map (λ m. m.id ≡ name) _ registry)
              (Any-iff _ _ registry (λ d. (λ h. (h, inl (forth e)), λ h. h.0))))
      | inr n ↦
          rw (detect_dangerous_actions, n)
            (↔_trans (detect_each_iff perms name registry) (
              Any-iff _ _ registry (λ d. (
                λ h. (h.0, inr h.1),
                λ h. (h.0, elim h.1 [ inl w ↦ let yes = back w in cc | inr t ↦ t ]),
              ))))
    ]

test_iff :
    (a b c : Bool)
    → ((if a || b then true else c) ≡ true) ↔ ((a ≡ true) ⊎ ((b ≡ true) ⊎ (c ≡ true)))
test_iff a b c = ground arith

-- A permission stands for an action when it is the wildcard or the action, or has a star and the
-- action starts with what stands before the first one.
pub action_matches_pattern_iff :
    (pattern action : Text)
    → (action_matches_pattern pattern action ≡ true) ↔ (
        (pattern ≡ codes "*")
        ⊎ (pattern ≡ action)
        ⊎ ((prefix : Text) × (before_char star pattern ≡ some prefix) × IsPrefix prefix action))
unfolding action_matches_pattern
action_matches_pattern_iff pattern action =
    let star_is = text_eq_iff pattern (codes "*") in
    let same_is = text_eq_iff pattern action in
    elim (Option-cases (before_char star pattern)) [
      | inl e ↦
          rw (action_matches_pattern, e)
            (ground (arith, text_eq_iff pattern (codes "*"), text_eq_iff pattern action))
      | inr (pre, e) ↦
          let prefix_is = starts_with_iff action pre in
          (
            λ h.
                elim ((test_iff (text_eq pattern (codes "*")) (text_eq pattern action)
                    (starts_with action pre)).0
                  (rw (action_matches_pattern, e) at h)) [
                    | inl a ↦ inl (star_is.0 a)
                    | inr t ↦ elim t [
                      | inl b ↦ inr (inl (same_is.0 b))
                      | inr c ↦ inr (inr (pre, e, prefix_is.0 c))
                    ]
                  ],
            λ h.
                rw (action_matches_pattern, e)
                  ((test_iff (text_eq pattern (codes "*")) (text_eq pattern action)
                      (starts_with action pre)).1
                    (elim h [
                      | inl a ↦ inl (star_is.1 a)
                      | inr t ↦ elim t [
                        | inl b ↦ inr (inl (same_is.1 b))
                        | inr (found, f, within) ↦
                            let same : found ≡ pre = cc in
                            inr (inr (prefix_is.1 (subst (λ x. IsPrefix x action) same within)))
                      ]
                    ])),
          )
    ]
