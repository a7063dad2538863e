-- ===== src/Export/Success.antt =====
-- What a run did that ended with no error.
use tilt_common.Base.{
  ◌≡◌, ◌≢◌, refl, sym, ap, subst, ◌∙◌, Bool, true, false, Option, none, some, List, [], ◌∷◌, ◌++◌,
  Bytes, codes, if◌then◌else◌,
}
use tilt_common.Effect.Outcomes.{bind-eq-ok, bind-step}
use tilt_common.Errors.{Error, Result, ok, err, stuck, creating_table}
use tilt_common.Export.{
  ExportOptions, ExportResult, Exporter, Tally, no_tally, db_filename, count_result, run_exporter,
  run_exporters, create_schema, exec, exporters_of, tally_result, with_schema, with_database,
  with_directory, run_export,
}
use tilt_common.Host.{Host, Trace, executed, opened, closed, made_dir, database}
use tilt_common.Host.Io.{
  ◌>>=◌, lift, attempt, wrapped, act, acquire, ask, deferring, refusal, granted,
}
use tilt_common.Schema.{create_metrics_table, create_logs_table, create_spans_table}

-- Every exporter that is not skipped ran, in turn, and none of them failed.
pub data Ran : List Exporter → Trace → Trace → Type 0 where
  all_done : (tr : Trace) → Ran [] tr tr
  left_out :
      (exp : Exporter) {exporters : List Exporter} {tr tr' : Trace}
      → exp.skip ≡ true
      → Ran exporters tr tr'
      → Ran (exp ∷ exporters) tr tr'
  succeeded :
      (exp : Exporter) {exporters : List Exporter} {tr tr' : Trace}
      → exp.skip ≡ false
      → (exp.run tr).0 ≡ ok tt
      → Ran exporters (exp.run tr).1 tr'
      → Ran (exp ∷ exporters) tr tr'

-- No error so far, and the exporters ran.
abbrev Clean : List Exporter → Tally → Trace → Result Tally × Trace → Type 0
Clean exporters t tr (result, tr') =
    (t' : Tally) → result ≡ ok t' → t'.errors ≡ [] → (t.errors ≡ []) × Ran exporters tr tr'

no_snoc : {A : Type 0} (xs : List A) (x : A) → xs ++ x ∷ [] ≢ []
no_snoc [] x h = cc
no_snoc (y ∷ ys) x h = cc

-- One exporter, by what its run returns.
Clean-count_result :
    (exp : Exporter) (exporters : List Exporter) (t : Tally) (tr : Trace)
    (result : Result (Unit {0}))
    → exp.skip ≡ false
    → (exp.run tr).0 ≡ result
    → ((t' : Tally) (tr' : Trace) → Clean exporters t' tr' (run_exporters exporters t' tr'))
    → Clean
        (exp ∷ exporters)
        t
        tr
        ((count_result exp.name t result >>= run_exporters exporters) (exp.run tr).1)
unfolding count_result ◌>>=◌ lift
Clean-count_result exp exporters t tr (ok u) skip p rest t' h e =
    let (clean, ran) = rest _ (exp.run tr).1 t' h e in (clean, succeeded exp skip p ran)
Clean-count_result exp exporters t tr (err x) skip p rest t' h e =
    let (clean, ran) = rest _ (exp.run tr).1 t' h e in absurd (no_snoc t.errors _ clean)
Clean-count_result exp exporters t tr stuck skip p rest t' h e = cc

Clean-run_exporters :
    (exporters : List Exporter) (t : Tally) (tr : Trace)
    → Clean exporters t tr (run_exporters exporters t tr)
unfolding run_exporters run_exporter lift ◌>>=◌ attempt
Clean-run_exporters [] t tr = λ t' h e. (cc, all_done tr)
Clean-run_exporters (exp ∷ exporters) t tr =
    by_skip exp.skip refl (λ t' tr'. Clean-run_exporters exporters t' tr')
  where
    by_skip :
        (b : Bool)
        → exp.skip ≡ b
        → ((t' : Tally) (tr' : Trace) → Clean exporters t' tr' (run_exporters exporters t' tr'))
        → Clean (exp ∷ exporters) t tr (
            ((if b then lift (ok t) else attempt exp.run >>= count_result exp.name t)
                >>= run_exporters exporters)
              tr)
    by_skip true p rest =
        λ t' h e. let (clean, ran) = rest t tr t' h e in (clean, left_out exp p ran)
    by_skip false p rest = Clean-count_result exp exporters t tr (exp.run tr).0 p refl rest

-- The tables are made one after the other.
abbrev pub schema_made : Trace → Trace
schema_made tr =
    executed create_logs_table ∷ executed create_spans_table ∷ executed create_metrics_table ∷ tr

module _ (H : Host) (opts : ExportOptions) where
  create_schema-eq-ok :
      (tr : Trace) {u : Unit {0}}
      → (create_schema H tr).0 ≡ ok u
      → (create_schema H tr).1 ≡ schema_made tr
  unfolding create_schema exec wrapped act
  create_schema-eq-ok tr h =
      let metrics = wrapped (creating_table (codes "metrics")) (exec H create_metrics_table) in
      let spans = wrapped (creating_table (codes "spans")) (exec H create_spans_table) in
      let (u, p, q) = bind-eq-ok metrics _ tr h in
      let (v, p', q') = bind-eq-ok spans _ (metrics tr).1 q in
      ap (λ x. x.1) (bind-step metrics _ tr p ∙ bind-step spans _ (metrics tr).1 p')

  -- What is left of a run, given the trace so far: the exporters ran behind the tables, and then the
  -- database was closed.
  abbrev Finishes : Trace → Result ExportResult × Trace → Type 0
  Finishes tr (result, tr') =
      (r : ExportResult)
      → result ≡ ok r
      → r.errors ≡ []
      → (end : Trace) × Ran (exporters_of H opts) (schema_made tr) end
        × (tr' ≡ closed database ∷ end)

  abbrev errors_of : Result ExportResult → List Error
  errors_of (ok r) = r.errors
  errors_of (err e) = []
  errors_of stuck = []

  Finishes-with_schema :
      (path : Bytes) (tr : Trace) (made : Result (Unit {0}))
      → (create_schema H tr).0 ≡ made
      → (r : ExportResult) → (with_schema H opts path made (create_schema H tr).1).0 ≡ ok r
      → r.errors ≡ []
      → Ran
          (exporters_of H opts)
          (schema_made tr)
          (with_schema H opts path made (create_schema H tr).1).1
  unfolding with_schema tally_result lift
  Finishes-with_schema path tr (ok u) p r h e =
      let made = (create_schema H tr).1 in
      let run = run_exporters (exporters_of H opts) no_tally in
      let (t, q, k) = bind-eq-ok run (λ t. lift (ok (tally_result path t))) made h in
      let (clean, ran) =
        Clean-run_exporters (exporters_of H opts) no_tally made t q (ap errors_of k ∙ e) in
      subst (λ x. Ran (exporters_of H opts) x (with_schema H opts path (ok u) made).1)
        (create_schema-eq-ok tr p)
        (subst (λ x. Ran (exporters_of H opts) made x)
          (sym (ap (λ x. x.1) (bind-step run (λ t. lift (ok (tally_result path t))) made q))) ran)
  Finishes-with_schema path tr (err x) p r h e = absurd (no_snoc [] _ (ap errors_of h ∙ e))
  Finishes-with_schema path tr stuck p r h e = cc

  Finishes-with_database :
      (path : Bytes) (tr : Trace) (o : Option Error)
      → Finishes
          (opened database ∷ tr)
          (with_database H opts path (granted database o tr).0 (granted database o tr).1)
  unfolding with_database deferring attempt ◌>>=◌ lift
  Finishes-with_database path tr none r h e =
      let before = opened database ∷ tr in
      let made = create_schema H before in
      (
        (with_schema H opts path made.0 made.1).1,
        Finishes-with_schema path before made.0 refl r h e,
        refl,
      )
  Finishes-with_database path tr (some x) r h e = absurd (no_snoc [] _ (ap errors_of h ∙ e))

  Finishes-with_directory :
      (tr : Trace) (o : Option Error)
      → Finishes (opened database ∷ tr) (with_directory H opts (refusal o) tr)
  unfolding with_directory ask attempt acquire ◌>>=◌ lift
  Finishes-with_directory tr none r h e =
      let path = H.join_path opts.output_dir (db_filename H (H.now tr)) in
      Finishes-with_database path tr (H.open_error tr path) r h e
  Finishes-with_directory tr (some x) r h e = absurd (no_snoc [] _ (ap errors_of h ∙ e))

  -- A run that ends with no error has made the output directory, opened the database, and made the
  -- tables `metrics`, `spans` and `logs`, in this order and before anything else; then every exporter
  -- that is not skipped ran in turn and succeeded; and then the database was closed.
  pub run_export-Ran :
      (tr : Trace) (r : ExportResult)
      → (run_export H opts tr).0 ≡ ok r
      → r.errors ≡ []
      → (end : Trace) × Ran
          (exporters_of H opts)
          (schema_made (opened database ∷ made_dir opts.output_dir ∷ tr))
          end
        × ((run_export H opts tr).1 ≡ closed database ∷ end)
  unfolding run_export act attempt ◌>>=◌
  run_export-Ran tr r h e =
      Finishes-with_directory (made_dir opts.output_dir ∷ tr) (H.mkdir_error tr opts.output_dir) r h
        e
