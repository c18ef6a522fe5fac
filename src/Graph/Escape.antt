-- ===== src/Graph/Escape.antt =====
-- Escaping and validation of the parts of a query: crates/activable-graph/src/query_builder.rs. The
-- debug assertions are left out, as they are in a release build.
pub mod Labels
use activable_cloud.Prelude.{
  ℕ, Bool, true, false, not, ◌&&◌, ◌||◌, [], ◌∷◌, ◌++◌, Text, codes, concat, replace,
  is_ascii_alphabetic, is_ascii_alphanumeric, ◌==◌, if◌then◌else◌,
}
use activable_cloud.Prelude.Errors.{Result, ok, err, ◌>>=◌}
use activable_cloud.Graph.Errors.{GraphError, unsafe_parameter}

abbrev pub quote : ℕ
quote = b'\''

abbrev pub backslash : ℕ
backslash = b'\\'

unfoldable pub escape_cypher : Text → Text
escape_cypher s =
    replace quote (backslash ∷ quote ∷ []) (replace backslash (backslash ∷ backslash ∷ []) s)

unfoldable pub escape_sql_literal : Text → Text
escape_sql_literal s =
    replace quote (quote ∷ quote ∷ []) (replace backslash (backslash ∷ backslash ∷ []) s)

-- The loop over the characters of the label.
unfoldable pub check_chars : Text → Text → Result GraphError Text
check_chars label [] = ok label
check_chars label (c ∷ rest) =
    let later = check_chars label rest in
    if not (is_ascii_alphanumeric c) && not (c == b'_')
    then err (
        unsafe_parameter (
          concat
            (codes "label contains invalid character '" ∷ (c ∷ []) ∷ codes "': " ∷ label ∷ [])))
    else later

unfoldable pub validate_label : Text → Result GraphError Text
unfolding check_chars
validate_label [] = err (unsafe_parameter (codes "empty label"))
validate_label (first ∷ rest) =
    if not (is_ascii_alphabetic first)
    then err (unsafe_parameter (codes "label must start with a letter: " ++ first ∷ rest))
    else check_chars (first ∷ rest) (first ∷ rest)
