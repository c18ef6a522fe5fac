-- ===== src/Lib.antt =====
-- The verification library of activable.cloud, a service that ingests cloud accounts into a graph and
-- analyses their access policies. What is modelled are the parts that decide and the parts that write:
-- the IAM policy engine (crates/activable-iam-engine), the names and properties of the graph's schema
-- (crates/activable-schema), the queries and the bulk loader of the graph (crates/activable-graph), the
-- escalation rules (crates/activable-risk), the enrichment by permissions (crates/activable-ingest) and the
-- job queue that runs the ingestion (crates/activable-scheduler).
--
-- The parts and how they interact. A policy text goes through the parser, whose statements the deny
-- engine, the permission boundary, the service control policies and the session policy look at; the
-- effective permissions are what all of them let pass. The dangerous actions are found among effective
-- permissions, and escalation edges are derived from them; versions of a policy are compared. Resource
-- policies have an evaluator of their own, with other matchers of resources, and a parser of their
-- principals. Trust policies are searched for weak federations, events for attempts of escalation, and
-- policies for unguarded tags. Escalation rules are matched against permissions. Nodes of the graph are
-- named by ARNs, labels and edge types; their properties are written as JSON and read back. The builder
-- turns calls into queries, and the loader writes nodes and edges; the enricher of permissions merges the
-- policies of each principal and loads what it finds. Workers claim jobs from a table, run a handler and
-- record its outcome; the reaper fails jobs whose heartbeat is old; the scheduler starts and stops both.
--
-- Files and code (paths from the root of the repository; E is crates/activable-iam-engine/src, M is
-- crates/activable-schema/src, G is crates/activable-graph/src and Q is crates/activable-scheduler/src):
--   Prelude       tests, lists, texts, results, splitting, decimals and integers that the parts share
--   Sorting       sort_by, dedup and the comparison of texts of Rust's standard library
--   Json          the values of serde_json and their accessors
--   Iam/Types     E/types.rs and E/eval_context.rs
--   Iam/Wildcard  wildcard_match and match_recursive of E/action_matcher.rs and E/resource_matcher.rs
--   Iam/Matchers  action_matches and resource_matches of the same files
--   Iam/Statements, Iam/Deny   evaluate_deny_with_context and evaluate_deny of E/deny_engine.rs
--   Iam/Conditions             evaluate_condition of E/condition_evaluator.rs
--   Iam/Boundary, Iam/Scp, Iam/Session   E/boundary_evaluator.rs, E/scp_evaluator.rs and
--                              E/session_policy.rs; Iam/Grants says when they let a request pass
--   Iam/Effective              effective_permissions of E/effective_permissions.rs
--   Iam/ResourcePolicy         E/resource_policy_evaluator.rs
--   Iam/ResourcePolicyParser   E/resource_policy_parser.rs
--   Iam/PolicyParser           E/policy_parser.rs with E/error.rs
--   Iam/Dangerous              detect_dangerous_actions of E/dangerous_actions.rs, and below it
--                              derive_escalation_edges of E/escalation_derivation.rs
--   Iam/Drift                  diff_policies and analyze_version_history of E/policy_drift.rs
--   Iam/Federation             E/federation.rs; Extracted says which trusts are found, Weak which are
--                              reported
--   Iam/CloudTrail             the parsing of E/cloudtrail.rs; Detect has detect_escalation_attempts,
--                              Attempts says what the events of each pattern are
--   Iam/Abac                   E/abac.rs
--   Schema/Arn                 M/arn.rs
--   Schema/Labels, Schema/Edges, Schema/EdgeConstraint   M/labels.rs and M/edge_constraint.rs
--   Schema/Properties, Schema/Agtype   M/properties.rs, and M/serde_agtype.rs: Encode has its `From`
--                              instances, Decode its `TryFrom` instances
--   Graph/Errors, Graph/Escape, Graph/QueryBuilder   G/error.rs and G/query_builder.rs; Lexer reads
--                              SQL and Cypher as the database does, Template says what a call is to ask for
--   Graph/Connection, Graph/Statements, Graph/Loader   the statements and the loops of G/loader.rs over a
--                              database that is a parameter
--   Graph/Nodes, Graph/Client  G/types.rs and G/client.rs: Nodes reads rows, Client runs the queries,
--                              Rows says how a row with a node is read, Reads what a query gives
--   Risk/Rules, Risk/Matching  crates/activable-risk/src/types.rs and src/rule_engine.rs
--   Ingest/Permissions, Ingest/Enrichment   crates/activable-ingest/src/native/permissions.rs
--   Ingest/Access              resource_policy.rs, principal.rs and access_edges.rs of
--                              crates/activable-ingest/src/native
--   Ingest/Errors, Ingest/Relationships   error.rs and relationship.rs of crates/activable-ingest/src
--   Scheduler/Model, Scheduler/Store   Q/model.rs, and the queries of Q/store.rs as functions from the
--                              jobs table to the jobs table; Rows, Tables and Invariant say what stays
--                              true of it, Order and Claim which row is claimed, Failure what fail does; a
--                              table that its indexes allow is one that AllApart of Tables holds of
--   Scheduler/Reaper, Scheduler/Worker, Scheduler/Backoff   tick of Q/reaper.rs, one round of Worker::run
--                              of Q/worker.rs, and exponential_backoff_seconds of Q/schema.rs; Reaper/Alone
--                              is a tick without other processes, Worker/Recorded what a round records
--   Scheduler/Config, Scheduler/Registry, Scheduler/Facade   JobStoreConfig of Q/store.rs, Q/registry.rs,
--                              and Q/scheduler.rs with the pool of Q/worker.rs
--   Examples      the theorems at concrete inputs, and runs
--
-- Conventions. A text is the list of its code points; to_lowercase is modelled for ASCII, and no model
-- depends on byte offsets. A loop over a slice is recursion on the list, with `continue` as its next
-- round and an early return as its result. match_recursive, which recurses on two indices, takes fuel;
-- one more than the length of the pattern is enough, since each call moves on in the pattern. The maps of
-- serde_json are lists of entries in the order of iteration; the entries that M/serde_agtype.rs writes
-- stand as they are written there, since they are read by their keys only. Queries are atomic, as the statements of a
-- database are: `now()`, the id that is drawn, the rows that other transactions hold locked, and
-- `random()` are arguments. The rows that an ORDER BY leaves equal stay as the table has them, and the
-- table's order is arbitrary. Times are microseconds. Delays are whole microseconds, where the source has
-- double precision: a delay beyond its range is an error of the database, as the source has it, and only
-- rounding is left out. `attempts` is a natural number, which an `int` overflow of the database bounds.
-- The work of other processes between two calls is a function on the table, about which only what a
-- theorem says is assumed. Debug assertions are left out, as in a release build. The loader goes through
-- its batches one after the other, so they are one list. A map of Rust's standard library is a list in the
-- order of insertion, and where its order of iteration shows in a result that order is a parameter or is
-- named at the definition.
--
-- Parameters. `Net` stands for std::net::IpAddr and the crate ipnet, `from_str` for serde_json::from_str,
-- `to_string` and `debug` for the printing of values and of principals, `iterate` for the order in which
-- a HashMap is gone through, `sha256` for the crate sha2, `Database` for the pool, its connections and
-- their answers, `Connections` and `Columns` for the same with the rows of queries, `trim`, `parse_u32`,
-- `parse_text`, `is_alphanumeric`, `is_numeric` and `as_i64` for what they are named for in Rust's library and in
-- serde_json, `F64` for floating-point numbers that are only copied, `refusal` and `overflow` for the texts of
-- database errors, `handle` for the handlers of jobs. The rules that connect nodes are an argument.
--
-- Not modelled: connections, pools, DDL and row decoding of the job store (the CHECK on the status
-- column lets only the four texts through, which are read back as they were written), timers, sleeping
-- and logging; the loading of the registries of dangerous actions and of rules; all that computes with
-- floating-point numbers (the drift score, the score of attempts, the risk scores and the sums of boosts);
-- the pool of the graph (G/pool.rs); the GraphQL service; and the rest of the ingestion, which calls the
-- AWS SDK.
pub mod Prelude
pub mod Json
pub mod Iam
pub mod Sorting
pub mod Schema
pub mod Graph
pub mod Risk
pub mod Ingest
pub mod Scheduler
pub mod Examples
