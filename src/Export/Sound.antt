-- ===== src/Export/Sound.antt =====
-- `RunExport`: whether it returns, and the types of its rows.
use tilt_common.Base.{
  ◌≡◌, ◌≢◌, refl, inl, inr, List, [], ◌∷◌, Bool, true, false, if◌then◌else◌, Bytes, All,
}
use tilt_common.Errors.{Result, ok, err, stuck, Result-cases}
use tilt_common.Export.{
  ExportOptions, ExportResult, Exporter, Tally, count_result, run_exporter, run_exporters,
  create_schema, exec, exporters_of, with_schema, with_database, with_directory, run_export,
}
use tilt_common.Export.Outcome.{IsCoherent, run_export-IsCoherent}
use tilt_common.Export.Returns.{run_export-ne-err}
use tilt_common.Host.{Host, Trace, database}
use tilt_common.Host.Io.{◌>>=◌, lift, attempt}
use tilt_common.Host.Sound.{
  Answers, Sound, Sound-lift, Sound-pure, Sound-ask, Sound-wrapped, Sound-deferring, Sound-bind,
  Sound-act, Sound-acquire, Sound-attempt, Sound-weaken,
}
use tilt_common.Logs.Sound.{Sound-export_logs}
use tilt_common.Metrics.Sound.{Sound-export_metrics}
use tilt_common.Parca.Sound.{Sound-export_profiles}
use tilt_common.Schema.Rows.{AllTyped}
use tilt_common.Traces.Sound.{Sound-export_traces}

module _ (P : Type 0) where
  Sound-count_result :
      (name : Bytes) (t : Tally) (r : Result (Unit {0}))
      → Sound (P × (r ≢ stuck)) (count_result name t r)
  unfolding count_result
  Sound-count_result name t (ok u) = Sound-pure _
  Sound-count_result name t (err e) = Sound-pure _
  Sound-count_result name t stuck = Sound-lift stuck (λ p. absurd (p.1 refl))

  Sound-run_exporter : (exp : Exporter) (t : Tally) → Sound P exp.run → Sound P (run_exporter exp t)
  unfolding run_exporter
  Sound-run_exporter exp t h = by_skip exp.skip
    where
      by_skip :
          (b : Bool)
          → Sound P (if b then lift (ok t) else attempt exp.run >>= count_result exp.name t)
      by_skip true = Sound-pure t
      by_skip false = Sound-attempt _ _ h (Sound-count_result exp.name t)

  Sound-run_exporters :
      (exporters : List Exporter) (t : Tally)
      → All (λ exp. Sound P exp.run) exporters
      → Sound P (run_exporters exporters t)
  unfolding run_exporters
  Sound-run_exporters [] t h = Sound-pure t
  Sound-run_exporters (exp ∷ exporters) t (h, hs) =
      Sound-bind _ _ (Sound-run_exporter exp t h) λ t'. Sound-run_exporters exporters t' hs

module _ (H : Host) where
  exporters-Sound :
      (opts : ExportOptions) → All (λ exp. Sound (Answers H) exp.run) (exporters_of H opts)
  unfolding exporters_of
  exporters-Sound opts = (
    Sound-export_metrics H opts.metrics_url opts.http_client,
    (
      Sound-export_traces H opts.http_client opts.traces_url,
      (
        Sound-export_logs H opts.logs_url opts.http_client,
        (Sound-export_profiles H opts.http_client opts.parca_url opts.output_dir, tt),
      ),
    ),
  )

  Sound-create_schema : Sound (Answers H) (create_schema H)
  unfolding create_schema exec
  Sound-create_schema = Sound-bind _ _ (Sound-wrapped _ _ (Sound-act _ _ tt)) λ u.
      Sound-bind _ _ (Sound-wrapped _ _ (Sound-act _ _ tt))
        λ v. Sound-wrapped _ _ (Sound-act _ _ tt)

  Sound-with_schema :
      (opts : ExportOptions) (path : Bytes) (r : Result (Unit {0}))
      → Sound (Answers H × (r ≢ stuck)) (with_schema H opts path r)
  unfolding with_schema
  Sound-with_schema opts path (ok u) =
      Sound-bind _ _
        (Sound-weaken (λ p. p.0)
          (Sound-run_exporters (Answers H) (exporters_of H opts) _ (exporters-Sound opts)))
        λ t. Sound-pure _
  Sound-with_schema opts path (err e) = Sound-pure _
  Sound-with_schema opts path stuck = Sound-lift stuck (λ p. absurd (p.1 refl))

  Sound-with_database :
      (opts : ExportOptions) (path : Bytes) (r : Result (Unit {0}))
      → Sound (Answers H × (r ≢ stuck)) (with_database H opts path r)
  unfolding with_database
  Sound-with_database opts path (ok u) =
      Sound-weaken (λ p. p.0)
        (Sound-deferring database _
          (Sound-attempt _ _ Sound-create_schema (Sound-with_schema opts path)))
  Sound-with_database opts path (err e) = Sound-pure _
  Sound-with_database opts path stuck = Sound-lift stuck (λ p. absurd (p.1 refl))

  Sound-with_directory :
      (opts : ExportOptions) (r : Result (Unit {0}))
      → Sound (Answers H × (r ≢ stuck)) (with_directory H opts r)
  unfolding with_directory
  Sound-with_directory opts (ok u) =
      Sound-weaken (λ p. p.0)
        (Sound-bind _ _ (Sound-ask _)
          λ now. Sound-attempt _ _ (Sound-acquire database _) (Sound-with_database opts _))
  Sound-with_directory opts (err e) = Sound-pure _
  Sound-with_directory opts stuck = Sound-lift stuck (λ p. absurd (p.1 refl))

  Sound-run_export : (opts : ExportOptions) → Sound (Answers H) (run_export H opts)
  unfolding run_export
  Sound-run_export opts = Sound-attempt _ _ (Sound-act _ _ tt) (Sound-with_directory opts)

  -- However the world answers, each row that a run appends is for a table that the run makes, has a
  -- cell for each of its columns, of the column's type, and NULL only where the column allows it.
  pub run_export-AllTyped : (opts : ExportOptions) → AllTyped (run_export H opts []).1
  run_export-AllTyped opts = (Sound-run_export opts).typed [] tt

  -- If each Go function that the program calls returns, with a value or an error, then a run returns
  -- a result, whatever fails in it; and the result is a success exactly if it holds no error.
  pub run_export-returns :
      (opts : ExportOptions) (tr : Trace)
      → Answers H
      → (r : ExportResult) × ((run_export H opts tr).0 ≡ ok r) × IsCoherent r
  run_export-returns opts tr law = elim (Result-cases (run_export H opts tr).0) [
    | inl (r, e) ↦ (r, e, run_export-IsCoherent H opts tr r e)
    | inr (inl (x, e)) ↦ absurd (run_export-ne-err H opts tr x e)
    | inr (inr e) ↦ absurd ((Sound-run_export opts).returns law tr e)
  ]
