-- ===== src/Iam/Wildcard/Search.antt =====
-- The matcher itself: a backtracking search over two indices. `none` stands for an index out of
-- range (a panic in Rust), or for fuel that ran out.
use mathlib.Core.Option.{get_or}
use activable_cloud.Prelude.{
  ℕ, zero, suc, ◌+◌, ◌-◌, Bool, true, false, ◌&&◌, Option, none, some, Text, length, get_elem?,
  ◌==◌, if◌then◌else◌,
}
use activable_cloud.Prelude.Options.{◌>>=◌}
use activable_cloud.Iam.Wildcard.Spec.{star, question}

-- `for next_t_idx in t_idx..=text.len()`, with the number of rounds left.
unfoldable pub try_positions : (ℕ → Option Bool) → ℕ → ℕ → Option Bool
try_positions attempt zero next_t_idx = some false
try_positions attempt (suc rounds) next_t_idx =
    let rest = try_positions attempt rounds (next_t_idx + 1) in
    elim (attempt next_t_idx) [ none ↦ none | some b ↦ if b then some true else rest ]

-- The tests on the pattern's character `c`, from "Pattern char is `*`" on. `recur` is the function
-- for the calls that are made.
unfoldable pub at_pattern_char : (ℕ → ℕ → Option Bool) → Text → Text → ℕ → ℕ → ℕ → Option Bool
at_pattern_char recur pattern text p_idx t_idx c =
    if c == star
    then (if p_idx == length pattern - 1
        then some true
        else try_positions (recur (p_idx + 1)) (length text + 1 - t_idx) t_idx)
    else if t_idx == length text
    then some false
    else if c == question
    then recur (p_idx + 1) (t_idx + 1)
    else do d ← get_elem? text t_idx; if c == d then recur (p_idx + 1) (t_idx + 1) else some false

unfoldable pub match_step : (ℕ → ℕ → Option Bool) → Text → Text → ℕ → ℕ → Option Bool
unfolding at_pattern_char
match_step recur pattern text p_idx t_idx =
    if p_idx == length pattern && t_idx == length text
    then some true
    else if p_idx == length pattern
    then some false
    else do c ← get_elem? pattern p_idx; at_pattern_char recur pattern text p_idx t_idx c

unfoldable pub match_recursive : ℕ → Text → Text → ℕ → ℕ → Option Bool
unfolding match_step try_positions
match_recursive zero pattern text p_idx t_idx = none
match_recursive (suc fuel) pattern text p_idx t_idx =
    match_step (match_recursive fuel pattern text) pattern text p_idx t_idx

-- Each call moves on in the pattern, so its length bounds the depth of the recursion, and `none` does
-- not come up: `match_recursive-Answers`.
unfoldable pub wildcard_match : Text → Text → Bool
unfolding match_recursive
wildcard_match pattern text = get_or (match_recursive (length pattern + 1) pattern text 0 0) false
