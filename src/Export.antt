-- ===== src/Export.antt =====
-- cmd/observability-export/export.go: the schema, the four exporters and the status of a run.
pub mod Releases
pub mod Sound
pub mod Status
pub mod Outcome
pub mod Returns
pub mod Success
pub mod Attempts
use tilt_common.Base.{
  ℕ, ◌+◌, Bool, true, false, Option, none, some, List, [], ◌∷◌, ◌++◌, ◌==◌, ltb, if◌then◌else◌,
  Bytes, codes,
}
use tilt_common.Base.Int.{ℤ}
use tilt_common.Errors.{
  creating_directory, opening_database, creating_table, creating_schema, exporting, Error, wrap,
  Result, ok, err, stuck,
}
use tilt_common.Host.{Client, database, executed, made_dir, Host}
use tilt_common.Host.Io.{
  Io, ◌>>=◌, ◌>>◌, lift, pure, wrapped, attempt, deferring, act, acquire, ask,
}
use tilt_common.Logs.{export_logs}
use tilt_common.Metrics.{export_metrics}
use tilt_common.Parca.{export_profiles}
use tilt_common.Schema.{create_metrics_table, create_logs_table, create_spans_table}
use tilt_common.Traces.{export_traces}

pub record ExportOptions : Type 0 where
  pub output_dir : Bytes
  pub metrics_url : Bytes
  pub traces_url : Bytes
  pub logs_url : Bytes
  pub parca_url : Bytes
  pub skip_metrics : Bool
  pub skip_traces : Bool
  pub skip_logs : Bool
  pub skip_profiles : Bool
  pub http_client : Option Client

pub data ExportStatus : Type 0 where
  status_success status_partial status_failure : ExportStatus

pub record ExportResult : Type 0 where
  pub status : ExportStatus
  pub output_path : Bytes
  pub errors : List Error

unfoldable pub determine_status : ℕ → ℕ → ExportStatus
determine_status attempted succeeded =
    if attempted == 0
    then status_success
    else if succeeded == attempted
    then status_success
    else if ltb 0 succeeded
    then status_partial
    else status_failure

-- `telemetryExporter`; the URL is only logged.
pub record Exporter : Type 0 where
  pub name : Bytes
  pub skip : Bool
  pub run : Io (Unit {0})

-- The variables of the loop over the exporters.
pub record Tally : Type 0 where
  pub attempted : ℕ
  pub succeeded : ℕ
  pub errors : List Error

-- What one exporter's result does to them.
unfoldable pub count_result : Bytes → Tally → Result (Unit {0}) → Io Tally
count_result name t (ok u) =
    pure (record t { attempted = t.attempted + 1; succeeded = t.succeeded + 1 })
count_result name t (err e) =
    pure
      (record t { attempted = t.attempted + 1; errors = t.errors ++ wrap (exporting name) e ∷ [] })
count_result name t stuck = lift stuck

unfoldable pub run_exporter : Exporter → Tally → Io Tally
unfolding count_result
run_exporter exp t = if exp.skip then pure t else attempt exp.run >>= count_result exp.name t

unfoldable pub run_exporters : List Exporter → Tally → Io Tally
unfolding run_exporter
run_exporters [] t = pure t
run_exporters (exp ∷ exporters) t = do t' ← run_exporter exp t; run_exporters exporters t'

abbrev pub no_tally : Tally
no_tally = record { attempted = 0; succeeded = 0; errors = [] }

-- The result of a run that fails before the exporters start.
abbrev pub failure : Bytes → Error → ExportResult
failure path e = record { status = status_failure; output_path = path; errors = e ∷ [] }

unfoldable pub tally_result : Bytes → Tally → ExportResult
unfolding determine_status
tally_result path t = record {
  status = determine_status t.attempted t.succeeded;
  output_path = path;
  errors = t.errors;
}

module _ (H : Host) where
  -- `DBFilename`
  unfoldable pub db_filename : ℤ → Bytes
  db_filename t =
      codes "telemetry-" ++ (H.format_time (codes "2006-01-02T150405") t ++ codes ".duckdb")

  exec : Bytes → Io (Unit {0})
  exec sql = act (executed sql) (λ tr. H.exec_error tr sql)

  unfoldable pub create_schema : Io (Unit {0})
  unfolding exec
  create_schema = do
    wrapped (creating_table (codes "metrics")) (exec create_metrics_table)
    wrapped (creating_table (codes "spans")) (exec create_spans_table)
    wrapped (creating_table (codes "logs")) (exec create_logs_table)

  unfoldable pub exporters_of : ExportOptions → List Exporter
  exporters_of opts =
      record {
        name = codes "metrics";
        skip = opts.skip_metrics;
        run = export_metrics H opts.metrics_url opts.http_client;
      }
      ∷ record {
        name = codes "traces";
        skip = opts.skip_traces;
        run = export_traces H opts.http_client opts.traces_url;
      }
      ∷ record {
        name = codes "logs";
        skip = opts.skip_logs;
        run = export_logs H opts.logs_url opts.http_client;
      }
      ∷ record {
        name = codes "profiles";
        skip = opts.skip_profiles;
        run = export_profiles H opts.parca_url opts.output_dir opts.http_client;
      }
      ∷ []

  -- Behind `CreateSchema`.
  with_schema : ExportOptions → Bytes → Result (Unit {0}) → Io ExportResult
  unfolding exporters_of run_exporters tally_result
  with_schema opts path (ok u) = do
    t ← run_exporters (exporters_of opts) no_tally
    pure (tally_result path t)
  with_schema opts path (err e) = pure (failure path (wrap creating_schema e))
  with_schema opts path stuck = lift stuck

  -- Behind `sql.Open`.
  with_database : ExportOptions → Bytes → Result (Unit {0}) → Io ExportResult
  unfolding create_schema with_schema
  with_database opts path (ok u) =
      deferring database (attempt create_schema >>= with_schema opts path)
  with_database opts path (err e) = pure (failure path (wrap (opening_database path) e))
  with_database opts path stuck = lift stuck

  -- Behind `os.MkdirAll`.
  with_directory : ExportOptions → Result (Unit {0}) → Io ExportResult
  unfolding with_database db_filename
  with_directory opts (ok u) = do
    now ← ask H.now
    let path = H.join_path opts.output_dir (db_filename now)
    opening ← attempt (acquire database (λ tr. H.open_error tr path))
    with_database opts path opening
  with_directory opts (err e) = pure (failure [] (wrap (creating_directory opts.output_dir) e))
  with_directory opts stuck = lift stuck

  unfoldable pub run_export : ExportOptions → Io ExportResult
  unfolding with_directory
  run_export opts = do
    made ← attempt (act (made_dir opts.output_dir) (λ tr. H.mkdir_error tr opts.output_dir))
    with_directory opts made
