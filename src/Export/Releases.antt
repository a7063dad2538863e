-- ===== src/Export/Releases.antt =====
-- What a run opens and closes.
use tilt_common.Base.{subst, List, [], ◌∷◌, refl, Bool, true, false, if◌then◌else◌, Bytes, All}
use tilt_common.Errors.{Result, ok, err, stuck}
use tilt_common.Export.{
  ExportOptions, Exporter, Tally, count_result, run_exporter, run_exporters, create_schema, exec,
  exporters_of, with_schema, with_database, with_directory, run_export,
}
use tilt_common.Host.{Host, database}
use tilt_common.Host.Held.{Held, nothing}
use tilt_common.Host.Io.{◌>>=◌, lift, attempt}
use tilt_common.Host.Releases.{
  left-nil, Releases, Releases-lift, Releases-ask, Releases-act, Releases-bind, Releases-attempt,
  Acquires-attempt-bind, Acquires-acquire, Discharges-wrapped, Discharges-deferring,
}
use tilt_common.Logs.Releases.{Releases-export_logs}
use tilt_common.Metrics.Releases.{Releases-export_metrics}
use tilt_common.Parca.Releases.{Releases-export_profiles}
use tilt_common.Traces.Releases.{Releases-export_traces}

Releases-count_result :
    (name : Bytes) (t : Tally) (r : Result (Unit {0})) → Releases (count_result name t r)
unfolding count_result
Releases-count_result name t (ok u) = Releases-lift _
Releases-count_result name t (err e) = Releases-lift _
Releases-count_result name t stuck = Releases-lift _

Releases-run_exporter :
    (exp : Exporter) (t : Tally) → Releases exp.run → Releases (run_exporter exp t)
unfolding run_exporter
Releases-run_exporter exp t h = by_skip exp.skip
  where
    by_skip :
        (b : Bool)
        → Releases (if b then lift (ok t) else attempt exp.run >>= count_result exp.name t)
    by_skip true = Releases-lift _
    by_skip false = Releases-bind _ _ (Releases-attempt _ h) λ r. Releases-count_result exp.name t r

Releases-run_exporters :
    (exporters : List Exporter) (t : Tally)
    → All (λ exp. Releases exp.run) exporters
    → Releases (run_exporters exporters t)
unfolding run_exporters
Releases-run_exporters [] t h = Releases-lift _
Releases-run_exporters (exp ∷ exporters) t (h, hs) =
    Releases-bind _ _ (Releases-run_exporter exp t h) λ t'. Releases-run_exporters exporters t' hs

module _ (H : Host) where
  exporters_release : (opts : ExportOptions) → All (λ exp. Releases exp.run) (exporters_of H opts)
  unfolding exporters_of
  exporters_release opts = (
    Releases-export_metrics H opts.metrics_url opts.http_client,
    (
      Releases-export_traces H opts.http_client opts.traces_url,
      (
        Releases-export_logs H opts.logs_url opts.http_client,
        (Releases-export_profiles H opts.http_client opts.parca_url opts.output_dir, tt),
      ),
    ),
  )

  Releases-create_schema : Releases (create_schema H)
  unfolding create_schema exec
  Releases-create_schema =
      Releases-bind _ _ (Discharges-wrapped [] _ _ (Releases-act _ _ refl)) λ u.
        Releases-bind _ _ (Discharges-wrapped [] _ _ (Releases-act _ _ refl))
          λ v. Discharges-wrapped [] _ _ (Releases-act _ _ refl)

  Releases-with_schema :
      (opts : ExportOptions) (path : Bytes) (r : Result (Unit {0}))
      → Releases (with_schema H opts path r)
  unfolding with_schema
  Releases-with_schema opts path (ok u) =
      Releases-bind _ _ (Releases-run_exporters (exporters_of H opts) _ (exporters_release opts))
        λ t. Releases-lift _
  Releases-with_schema opts path (err e) = Releases-lift _
  Releases-with_schema opts path stuck = Releases-lift _

  Releases-with_directory :
      (opts : ExportOptions) (r : Result (Unit {0})) → Releases (with_directory H opts r)
  unfolding with_directory with_database
  Releases-with_directory opts (ok u) = Releases-bind _ _ (Releases-ask _) λ now.
      Acquires-attempt-bind [] (database ∷ []) [] _ _ (Acquires-acquire database _)
        (λ v. Discharges-deferring [] database _ (
          Releases-bind _ _ (Releases-attempt _ Releases-create_schema)
            λ made. Releases-with_schema opts _ made))
        (λ e. Releases-lift _) (Releases-lift _)
  Releases-with_directory opts (err e) = Releases-lift _
  Releases-with_directory opts stuck = Releases-lift _

  Releases-run_export : (opts : ExportOptions) → Releases (run_export H opts)
  unfolding run_export
  Releases-run_export opts =
      Releases-bind _ _ (Releases-attempt _ (Releases-act _ _ refl))
        λ made. Releases-with_directory opts made

  -- However the world answers, and whichever errors that leads to: whenever a run closes a resource,
  -- it is the one that was opened last of those that are open, and at its end no resource is open.
  pub run_export-Held : (opts : ExportOptions) → Held [] (run_export H opts []).1
  run_export-Held opts =
      subst (λ x. Held x (run_export H opts []).1) (left-nil [] (run_export H opts []).0)
        ((Releases-run_export opts).at [] [] nothing)
