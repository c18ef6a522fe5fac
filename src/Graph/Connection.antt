-- ===== src/Graph/Connection.antt =====
-- Operations on the database as crates/activable-graph/src/loader.rs and src/client.rs run them, over
-- a connection that is a parameter: what it answers to a text, and the state it leaves.
use activable_cloud.Prelude.{ℕ, ◌++◌, Text}
use activable_cloud.Prelude.Errors.{Result, ok, err, map_err}
use activable_cloud.Graph.Errors
use activable_cloud.Graph.Errors.{GraphError, unsafe_parameter}

-- A pool over states of the database: taking a connection, a batch of statements, and a query with
-- the number of the rows that it gives.
pub record Database (D : Type 0) : Type 0 where
  pub get : D → Result Text (Unit {0}) × D
  pub batch_execute : Text → D → Result Text (Unit {0}) × D
  pub query : Text → D → Result Text ℕ × D

-- An operation on the database that may fail, and the rest of a function behind it.
abbrev pub Action : Type 0 → Type 0 → Type 0
Action D A = D → Result GraphError A × D

infixl 5 ◌>>=◌
abbrev pub ◌>>=◌ : {D A B : Type 0} → Action D A → (A → Action D B) → Action D B
(m >>= k) d = let (r, after) = m d in elim r [ err e ↦ (err e, after) | ok a ↦ k a after ]

abbrev pub pure : {D A : Type 0} → A → Action D A
pure a d = (ok a, d)

abbrev pub fail : {D A : Type 0} → GraphError → Action D A
fail e d = (err e, d)

-- `call(…).await.map_err(convert)`.
abbrev pub calling : {D A : Type 0} → (Text → GraphError) → (D → Result Text A × D) → Action D A
calling convert m d = let (r, after) = m d in (map_err convert r, after)

abbrev pub query_error : Text → Text → GraphError
query_error message e = Errors.query (message ++ e)
