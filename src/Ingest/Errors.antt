-- ===== src/Ingest/Errors.antt =====
-- The errors of ingestion: crates/activable-ingest/src/error.rs.
use activable_cloud.Prelude.{Text, codes, ◌++◌, concat, [], ◌∷◌}

pub data IngestError : Type 0 where
  aws_sdk : Text → IngestError
  cloud_control : Text → Text → IngestError
  graph : Text → IngestError
  config : Text → IngestError
  yaml_parse : Text → IngestError
  registry_not_loaded : IngestError
  io_error : Text → IngestError

-- `Display`.
abbrev pub error_text : IngestError → Text
error_text (aws_sdk s) = codes "AWS SDK error: " ++ s
error_text (cloud_control type_name message) =
    concat (codes "Cloud Control API error for " ∷ type_name ∷ codes ": " ∷ message ∷ [])
error_text (graph s) = codes "graph write error: " ++ s
error_text (config s) = codes "config error: " ++ s
error_text (yaml_parse s) = codes "YAML parse error: " ++ s
error_text registry_not_loaded = codes "resource registry not loaded"
error_text (io_error s) = codes "io error: " ++ s
