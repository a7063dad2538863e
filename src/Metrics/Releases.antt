-- ===== src/Metrics/Releases.antt =====
-- What the export of metrics opens and closes.
use tilt_common.Base.{ℕ, List, [], ◌∷◌, Option, refl, Bytes}
use tilt_common.Base.Dict.{Dict}
use tilt_common.Base.Int.{ℤ}
use tilt_common.Errors.{Result, ok, err, stuck}
use tilt_common.Host.{Body, Cell, Client, Host, MetricLine, response_body, connection, appender}
use tilt_common.Host.Releases.{
  Releases, Releases-lift, Releases-ask, Releases-log, Releases-act, Releases-bind, Acquires-bind,
  Discharges-wrapped, Discharges-deferring,
}
use tilt_common.Http.Releases.{Acquires-http_get_stream, Acquires-new_table_appender}
use tilt_common.Metrics.{
  append_row, metric_rows, append_metric_rows, metric_line, metric_lines, flush_appender,
  write_metrics, export_metrics,
}

module _ (H : Host) where
  pub Releases-append_row : (table : Bytes) (row : List Cell) → Releases (append_row H table row)
  unfolding append_row
  Releases-append_row table row = Discharges-wrapped [] _ _ (Releases-act _ _ refl)

  pub Releases-flush_appender : (table : Bytes) → Releases (flush_appender H table)
  unfolding flush_appender
  Releases-flush_appender table = Discharges-wrapped [] _ _ (Releases-act _ _ refl)

  Releases-metric_rows :
      (name : Bytes) (labels : Dict Bytes) (t : ℤ) (values : List ℕ) (timestamps : List ℤ)
      (count : ℕ)
      → Releases (metric_rows H name labels t values timestamps count)
  unfolding metric_rows
  Releases-metric_rows name labels t [] timestamps count = Releases-lift _
  Releases-metric_rows name labels t (v ∷ values) [] count = Releases-lift _
  Releases-metric_rows name labels t (v ∷ values) (ms ∷ timestamps) count =
      Releases-bind _ _ (Releases-append_row _ _)
        λ u. Releases-metric_rows name labels t values timestamps _

  Releases-metric_line :
      (t : ℤ) (raw : Bytes) (line : Result MetricLine) → Releases (metric_line H t raw line)
  unfolding metric_line append_metric_rows
  Releases-metric_line t raw (ok line) = Releases-metric_rows _ _ t _ _ 0
  Releases-metric_line t raw (err e) = Releases-bind _ _ (Releases-log _) λ u. Releases-lift _
  Releases-metric_line t raw stuck = Releases-lift _

  Releases-metric_lines :
      (t : ℤ) (lines : List Bytes) (total : ℕ) → Releases (metric_lines H t lines total)
  unfolding metric_lines
  Releases-metric_lines t [] total = Releases-lift _
  Releases-metric_lines t (raw ∷ lines) total =
      Releases-bind _ _ (Releases-metric_line t raw _) λ rows. Releases-metric_lines t lines _

  Releases-write_metrics : (body : Body) → Releases (write_metrics H body)
  unfolding write_metrics
  Releases-write_metrics body = Releases-bind _ _ (Releases-ask _) λ t.
      Releases-bind _ _ (Releases-metric_lines t _ 0) λ total.
        Releases-bind _ _ (Releases-lift _)
          λ u. Releases-bind _ _ (Releases-flush_appender _) λ v. Releases-log _

  pub Releases-export_metrics :
      (url : Bytes) (client : Option Client) → Releases (export_metrics H url client)
  unfolding export_metrics
  Releases-export_metrics url client = Releases-bind _ _ (Releases-lift _) λ export_url.
      Acquires-bind (response_body ∷ []) _ _ (Acquires-http_get_stream H client export_url) λ resp.
        Discharges-deferring [] response_body _ (
          Acquires-bind (connection ∷ appender ∷ []) _ _ (Acquires-new_table_appender H _) λ u.
            Discharges-deferring (appender ∷ []) connection _
              (Discharges-deferring [] appender _ (Releases-write_metrics resp.body)))
