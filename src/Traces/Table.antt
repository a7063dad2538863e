-- ===== src/Traces/Table.antt =====
-- `writeSpans`: what it adds to the table.
use tilt_common.Base.{◌≡◌, refl, ap, ◌∙◌, List, [], ◌∷◌, ◌++◌, map, Bytes, codes, append-nil}
use tilt_common.Base.Int.{ℤ}
use tilt_common.Effect.Keeps.{Keeps, Keeps-lift, Keeps-wrapped}
use tilt_common.Effect.Outcomes.{bind-eq-ok, bind-step}
use tilt_common.Errors.{ok}
use tilt_common.Host.{Cell, Host, Trace, flushed}
use tilt_common.Host.Io.{deferring, ask, ◌>>◌}
use tilt_common.Host.Table.{rows_in, Adds, Adds-bind, Adds-Keeps, Keeps-act}
use tilt_common.Http.{new_table_appender}
use tilt_common.Http.Table.{Keeps-new_table_appender}
use tilt_common.Metrics.{flush_appender}
use tilt_common.Metrics.Stream.{Adds-append_row}
use tilt_common.Traces.{FlatSpan, span_row, span_rows, write_spans}

abbrev pub span_table : ℤ → List FlatSpan → List (List Cell)
span_table t spans = map (λ s. span_row s t) spans

module _ (H : Host) where
  Adds-span_rows :
      (t : ℤ) (spans : List FlatSpan)
      → Adds (codes "spans") (span_table t spans) (span_rows H t spans)
  unfolding span_rows
  Adds-span_rows t [] = Adds-Keeps _ _ (Keeps-lift (rows_in (codes "spans")) _)
  Adds-span_rows t (s ∷ spans) =
      Adds-bind _ (span_row s t ∷ []) (span_table t spans) _ _
        (Adds-append_row H (codes "spans") (span_row s t)) λ u. Adds-span_rows t spans

  Keeps-flush_appender : (table : Bytes) → Keeps (rows_in table) (flush_appender H table)
  unfolding flush_appender
  Keeps-flush_appender table =
      Keeps-wrapped (rows_in table) _ _ (Keeps-act table (flushed table) _ refl)

  -- When spans are written without an error, the table `spans` holds what it held, followed by one
  -- row for each of them, in their order and all with one export time.
  pub write_spans-span_table :
      (spans : List FlatSpan) (tr : Trace)
      → (write_spans H spans tr).0 ≡ ok tt
      → (t : ℤ) × (rows_in (codes "spans") (write_spans H spans tr).1
          ≡ rows_in (codes "spans") tr ++ span_table t spans)
  unfolding write_spans deferring ask rows_in
  write_spans-span_table spans tr h =
      let opened = new_table_appender H (codes "spans") in
      let body = λ (t : ℤ). span_rows H t spans >> flush_appender H (codes "spans") in
      let (u, p, q) = bind-eq-ok opened _ tr h in
      let after = (opened tr).1 in
      let (t, p', q') = bind-eq-ok (ask H.now) body after q in
      (
        t,
        ap (λ x. rows_in (codes "spans") x.1) (bind-step opened _ tr p)
            ∙ append-nil _
            ∙ append-nil _
            ∙ ap (λ x. rows_in (codes "spans") x.1) (bind-step (ask H.now) body after p')
            ∙ Adds-bind (codes "spans") (span_table t spans) [] (span_rows H t spans) _
                (Adds-span_rows t spans)
                (λ v.
                  Adds-Keeps _ (flush_appender H (codes "spans"))
                    (Keeps-flush_appender (codes "spans")))
                after tt q'
            ∙ ap (λ r. rows_in (codes "spans") after ++ r) (append-nil (span_table t spans))
            ∙ ap (λ r. r ++ span_table t spans)
                (Keeps-new_table_appender H (codes "spans") (codes "spans") tr),
      )
