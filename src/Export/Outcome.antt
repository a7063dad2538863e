-- ===== src/Export/Outcome.antt =====
-- `RunExport`: how the status goes with the errors.
use mathlib.Core.Path.{subst}
use tilt_common.Base.{◌+◌, ◌≡◌, refl, sym, ap, ◌↔◌, List, [], ◌∷◌, Bytes, length, arith}
use tilt_common.Errors.{
  creating_directory, opening_database, creating_schema, Error, wrap, Result, ok, err, stuck,
}
use tilt_common.Export.{
  ExportOptions, ExportResult, Exporter, status_success, Tally, no_tally, tally_result, failure,
  run_exporters, exporters_of, with_schema, with_database, with_directory, create_schema,
  run_export,
}
use tilt_common.Export.Attempts.{Tallied, Attempts-length, run_exporters-Tallied}
use tilt_common.Export.Status.{determine_status_iff}
use tilt_common.Host.{Host, Trace, made_dir}
use tilt_common.Host.Io.{lift, attempt, act, deferring, ask}
use tilt_common.Effect.Outcomes.{bind-eq-ok}

-- The status of a result goes with its errors: success if there are none, else partial or failure.
pub record IsCoherent (r : ExportResult) : Type 0 where
  pub success : (r.status ≡ status_success) ↔ (r.errors ≡ [])

ok_inj {ℓ} : {A : Type ℓ} {a b : A} → ok a ≡ ok b → a ≡ b
ok_inj h = cc

nil_iff : (errors : List Error) → (length errors ≡ 0) ↔ (errors ≡ [])
nil_iff [] = (λ _. refl, λ _. refl)
nil_iff (e ∷ errors) = (λ h. absurd (omega (arith, h)), λ h. cc)

Tallied-balance :
    {exporters : List Exporter} {t : Tally} {tr tr' : Trace}
    → Tallied exporters no_tally t tr tr'
    → t.attempted ≡ t.succeeded + length t.errors
Tallied-balance {t = t} a =
    let l : length t.errors ≡ length a.failures = ap length a.errors in
    omega (arith, a.attempted, a.succeeded, l, Attempts-length a.ran)

tally-IsCoherent :
    (path : Bytes) (t : Tally)
    → t.attempted ≡ t.succeeded + length t.errors
    → IsCoherent (tally_result path t)
unfolding tally_result
tally-IsCoherent path t same_count =
    let status = determine_status_iff t.attempted t.succeeded (omega (arith, same_count)) in
    record {
      success = (
        λ p. (nil_iff t.errors).0 (let q = status.0.0 p in omega (arith, q, same_count)),
        λ p. status.0.1 (let q = (nil_iff t.errors).1 p in omega (arith, q, same_count)),
      );
    }

failure-IsCoherent : (path : Bytes) (e : Error) → IsCoherent (failure path e)
failure-IsCoherent path e = record { success = (λ h. cc, λ h. cc) }

-- The output path and the error of a run that does not get to its exporters, by the step that failed.
pub data IsSetupError (opts : ExportOptions) : Bytes → Error → Type 0 where
  no_directory : (e : Error) → IsSetupError opts [] (wrap (creating_directory opts.output_dir) e)
  no_database : (path : Bytes) (e : Error) → IsSetupError opts path (wrap (opening_database path) e)
  no_schema : (path : Bytes) (e : Error) → IsSetupError opts path (wrap creating_schema e)

-- How a run ends: before the exporters, with one error, or with what the loop over them has counted.
pub data Concluded (H : Host) (opts : ExportOptions) (r : ExportResult) : Type 0 where
  early :
      (path : Bytes) (e : Error)
      → IsSetupError opts path e
      → r ≡ failure path e
      → Concluded H opts r
  ended :
      (path : Bytes) (t : Tally) (tr tr' : Trace)
      → Tallied (exporters_of H opts) no_tally t tr tr'
      → r ≡ tally_result path t
      → Concluded H opts r

module _ (H : Host) where
  with_schema-Concluded :
      (opts : ExportOptions) (path : Bytes) (made : Result (Unit {0})) (tr : Trace)
      {r : ExportResult}
      → (with_schema H opts path made tr).0 ≡ ok r
      → Concluded H opts r
  unfolding with_schema lift
  with_schema-Concluded opts path (ok u) tr h =
      let (t, p, q) = bind-eq-ok (run_exporters (exporters_of H opts) no_tally) _ tr h in
      ended path t tr _ (run_exporters-Tallied (exporters_of H opts) no_tally tr t p)
        (sym (ok_inj q))
  with_schema-Concluded opts path (err e) tr h = early path _ (no_schema path e) (sym (ok_inj h))
  with_schema-Concluded opts path stuck tr h = absurd (cc)

  with_database-Concluded :
      (opts : ExportOptions) (path : Bytes) (opening : Result (Unit {0})) (tr : Trace)
      {r : ExportResult}
      → (with_database H opts path opening tr).0 ≡ ok r
      → Concluded H opts r
  unfolding with_database lift deferring
  with_database-Concluded opts path (ok u) tr h =
      let (made, p, q) = bind-eq-ok (attempt (create_schema H)) (with_schema H opts path) tr h in
      with_schema-Concluded opts path made _ q
  with_database-Concluded opts path (err e) tr h =
      early path _ (no_database path e) (sym (ok_inj h))
  with_database-Concluded opts path stuck tr h = absurd (cc)

  with_directory-Concluded :
      (opts : ExportOptions) (made : Result (Unit {0})) (tr : Trace) {r : ExportResult}
      → (with_directory H opts made tr).0 ≡ ok r
      → Concluded H opts r
  unfolding with_directory lift
  with_directory-Concluded opts (ok u) tr h =
      let (now, p, q) = bind-eq-ok (ask H.now) _ tr h in
      let (opening, p', q') = bind-eq-ok _ (with_database H opts _) _ q in
      with_database-Concluded opts _ opening _ q'
  with_directory-Concluded opts (err e) tr h = early [] _ (no_directory e) (sym (ok_inj h))
  with_directory-Concluded opts stuck tr h = absurd (cc)

  pub run_export-Concluded :
      (opts : ExportOptions) (tr : Trace) (r : ExportResult)
      → (run_export H opts tr).0 ≡ ok r
      → Concluded H opts r
  unfolding run_export
  run_export-Concluded opts tr r h =
      let (made, p, q) =
        bind-eq-ok
          (attempt (act (made_dir opts.output_dir) (λ tr. H.mkdir_error tr opts.output_dir)))
          (with_directory H opts) tr h in
      with_directory-Concluded opts made _ q

  Concluded-IsCoherent :
      (opts : ExportOptions) (r : ExportResult) → Concluded H opts r → IsCoherent r
  Concluded-IsCoherent opts r (early path e u p) =
      subst IsCoherent (sym p) (failure-IsCoherent path e)
  Concluded-IsCoherent opts r (ended path t tr tr' a p) =
      subst IsCoherent (sym p) (tally-IsCoherent path t (Tallied-balance a))

  -- However a run ends, the status of its result is success exactly if it holds no error.
  pub run_export-IsCoherent :
      (opts : ExportOptions) (tr : Trace) (r : ExportResult)
      → (run_export H opts tr).0 ≡ ok r
      → IsCoherent r
  run_export-IsCoherent opts tr r h = Concluded-IsCoherent opts r (run_export-Concluded opts tr r h)
