-- ===== src/Export/Returns.antt =====
-- `RunExport`: what becomes of errors.
use tilt_common.Base.{◌≢◌, inl, inr, Bool, true, false, if◌then◌else◌, List, [], ◌∷◌, Bytes}
use tilt_common.Errors.{Error, Result, ok, err, stuck}
use tilt_common.Export.{
  ExportOptions, Exporter, Tally, no_tally, count_result, run_exporter, run_exporters, exporters_of,
  create_schema, with_schema, with_database, with_directory, run_export,
}
use tilt_common.Host.{Host, Trace}
use tilt_common.Host.Io.{Io, ◌>>=◌, lift, attempt, ask, deferring}
use tilt_common.Effect.Outcomes.{bind-eq-err}

-- It never ends with an error.
record Succeeds {ℓ} {A : Type ℓ} (m : Io A) : Type ℓ where
  no_error : (tr : Trace) (e : Error) → (m tr).0 ≢ err e

module _ {ℓ κ} {A : Type ℓ} {B : Type κ} where
  Succeeds-bind :
      (m : Io A) (f : A → Io B) → Succeeds m → ((a : A) → Succeeds (f a)) → Succeeds (m >>= f)
  Succeeds-bind m f h k = record {
    no_error = λ tr e p. elim (bind-eq-err m f tr p) [
      | inl q ↦ h.no_error tr e q
      | inr (a, q, r) ↦ (k a).no_error (m tr).1 e r
    ];
  }

module _ {ℓ} {A : Type ℓ} where
  Succeeds-attempt : (m : Io A) → Succeeds (attempt m)
  unfolding attempt
  Succeeds-attempt m = record { no_error = λ tr e p. cc }

  Succeeds-pure : (a : A) → Succeeds (lift (ok a))
  unfolding lift
  Succeeds-pure a = record { no_error = λ tr e p. cc }

  Succeeds-stuck : Succeeds (lift {A = A} stuck)
  unfolding lift
  Succeeds-stuck = record { no_error = λ tr e p. cc }

  Succeeds-ask : (f : Trace → A) → Succeeds (ask f)
  unfolding ask
  Succeeds-ask f = record { no_error = λ tr e p. cc }

  Succeeds-deferring : (r : _) (m : Io A) → Succeeds m → Succeeds (deferring r m)
  unfolding deferring
  Succeeds-deferring r m h = record { no_error = h.no_error }

Succeeds-count_result :
    (name : Bytes) (t : Tally) (r : Result (Unit {0})) → Succeeds (count_result name t r)
unfolding count_result
Succeeds-count_result name t (ok u) = Succeeds-pure _
Succeeds-count_result name t (err e) = Succeeds-pure _
Succeeds-count_result name t stuck = Succeeds-stuck

Succeeds-run_exporter : (exp : Exporter) (t : Tally) → Succeeds (run_exporter exp t)
unfolding run_exporter
Succeeds-run_exporter exp t = by_skip exp.skip
  where
    by_skip :
        (b : Bool)
        → Succeeds (if b then lift (ok t) else attempt exp.run >>= count_result exp.name t)
    by_skip true = Succeeds-pure t
    by_skip false =
        Succeeds-bind _ _ (Succeeds-attempt exp.run) (λ r. Succeeds-count_result exp.name t r)

Succeeds-run_exporters :
    (exporters : List Exporter) (t : Tally) → Succeeds (run_exporters exporters t)
unfolding run_exporters
Succeeds-run_exporters [] t = Succeeds-pure t
Succeeds-run_exporters (exp ∷ exporters) t =
    Succeeds-bind _ _ (Succeeds-run_exporter exp t) (λ t'. Succeeds-run_exporters exporters t')

module _ (H : Host) where
  Succeeds-with_schema :
      (opts : ExportOptions) (path : Bytes) (r : Result (Unit {0}))
      → Succeeds (with_schema H opts path r)
  unfolding with_schema
  Succeeds-with_schema opts path (ok u) =
      Succeeds-bind _ _ (Succeeds-run_exporters (exporters_of H opts) no_tally)
        (λ t. Succeeds-pure _)
  Succeeds-with_schema opts path (err e) = Succeeds-pure _
  Succeeds-with_schema opts path stuck = Succeeds-stuck

  Succeeds-with_database :
      (opts : ExportOptions) (path : Bytes) (r : Result (Unit {0}))
      → Succeeds (with_database H opts path r)
  unfolding with_database
  Succeeds-with_database opts path (ok u) = Succeeds-deferring _ _ (
      Succeeds-bind _ _ (Succeeds-attempt (create_schema H))
        (λ made. Succeeds-with_schema opts path made))
  Succeeds-with_database opts path (err e) = Succeeds-pure _
  Succeeds-with_database opts path stuck = Succeeds-stuck

  Succeeds-with_directory :
      (opts : ExportOptions) (r : Result (Unit {0})) → Succeeds (with_directory H opts r)
  unfolding with_directory
  Succeeds-with_directory opts (ok u) = Succeeds-bind _ _ (Succeeds-ask H.now) (λ now.
      Succeeds-bind _ _ (Succeeds-attempt _) (λ opening. Succeeds-with_database opts _ opening))
  Succeeds-with_directory opts (err e) = Succeeds-pure _
  Succeeds-with_directory opts stuck = Succeeds-stuck

  -- A run never ends with an error: what fails in it, before the exporters or in them, is in the
  -- result that it returns.
  pub run_export-ne-err :
      (opts : ExportOptions) (tr : Trace) (e : Error) → (run_export H opts tr).0 ≢ err e
  unfolding run_export
  run_export-ne-err opts =
      (Succeeds-bind _ _ (Succeeds-attempt _) (λ made. Succeeds-with_directory opts made)).no_error
