-- ===== src/Metrics/Table.antt =====
-- `ExportMetrics`: what a successful export adds to the table.
use tilt_common.Base.{ℕ, ◌+◌, ◌≡◌, Option, List, [], ◌∷◌, ◌++◌, Bytes, codes}
use tilt_common.Base.Dict.{Dict}
use tilt_common.Base.Int.{ℤ}
use tilt_common.Effect.Keeps.{Keeps-bind, Keeps-lift}
use tilt_common.Errors.{Result, ok, err, stuck}
use tilt_common.Host.{Cell, Client, Host, MetricLine, Trace}
use tilt_common.Host.Table.{rows_in, Adds, Adds-bind, Adds-Keeps, Keeps-log}
use tilt_common.Metrics.Stream.{Adds-append_row, Streamed, lines-Streamed}
use tilt_common.Metrics.{
  metric_name_key, get_or_empty, labels_of, metric_row, metric_rows, append_metric_rows,
  metric_line, metric_lines, build_metrics_export_url, write_metrics, export_metrics,
}

-- The rows of a series: one for each value that has a timestamp.
abbrev pub series_rows : Bytes → Dict Bytes → ℤ → List ℕ → List ℤ → List (List Cell)
series_rows name labels t [] timestamps = []
series_rows name labels t (v ∷ values) [] = []
series_rows name labels t (v ∷ values) (ms ∷ timestamps) =
    metric_row name labels ms v t ∷ series_rows name labels t values timestamps

-- The rows of a line; a malformed one has none.
abbrev pub line_rows : ℤ → Result MetricLine → List (List Cell)
line_rows t (ok line) =
    series_rows (get_or_empty metric_name_key line.metric) (labels_of line.metric) t line.values
      line.timestamps
line_rows t (err e) = []
line_rows t stuck = []

module _ (H : Host) where
  -- The rows of all lines, in their order.
  abbrev pub metric_table : ℤ → List Bytes → List (List Cell)
  metric_table t [] = []
  metric_table t (raw ∷ lines) = line_rows t (H.unmarshal_metric_line raw) ++ metric_table t lines

  Adds-metric_rows :
      (name : Bytes) (labels : Dict Bytes) (t : ℤ) (values : List ℕ) (timestamps : List ℤ)
      (count : ℕ)
      → Adds
          (codes "metrics")
          (series_rows name labels t values timestamps)
          (metric_rows H name labels t values timestamps count)
  unfolding metric_rows
  Adds-metric_rows name labels t [] timestamps count =
      Adds-Keeps _ _ (Keeps-lift (rows_in (codes "metrics")) _)
  Adds-metric_rows name labels t (v ∷ values) [] count =
      Adds-Keeps _ _ (Keeps-lift (rows_in (codes "metrics")) _)
  Adds-metric_rows name labels t (v ∷ values) (ms ∷ timestamps) count =
      Adds-bind _ (metric_row name labels ms v t ∷ []) (series_rows name labels t values timestamps)
        _ _ (Adds-append_row H (codes "metrics") (metric_row name labels ms v t))
        λ u. Adds-metric_rows name labels t values timestamps (count + 1)

  Adds-metric_line :
      (t : ℤ) (raw : Bytes) (r : Result MetricLine)
      → Adds (codes "metrics") (line_rows t r) (metric_line H t raw r)
  unfolding metric_line append_metric_rows
  Adds-metric_line t raw (ok line) = Adds-metric_rows _ _ t line.values line.timestamps 0
  Adds-metric_line t raw (err e) = Adds-Keeps _ _ (
      Keeps-bind (rows_in (codes "metrics")) _ _ (Keeps-log _ _)
        λ u. Keeps-lift (rows_in (codes "metrics")) _)
  Adds-metric_line t raw stuck = Adds-Keeps _ _ (Keeps-lift (rows_in (codes "metrics")) _)

  Adds-metric_lines :
      (t : ℤ) (lines : List Bytes) (total : ℕ)
      → Adds (codes "metrics") (metric_table t lines) (metric_lines H t lines total)
  unfolding metric_lines
  Adds-metric_lines t [] total = Adds-Keeps _ _ (Keeps-lift (rows_in (codes "metrics")) _)
  Adds-metric_lines t (raw ∷ lines) total =
      Adds-bind _ (line_rows t (H.unmarshal_metric_line raw)) (metric_table t lines) _ _
        (Adds-metric_line t raw (H.unmarshal_metric_line raw))
        λ n. Adds-metric_lines t lines (total + n)

  -- A metrics export that succeeds has built the export URL, got a response of status 200 for it, and
  -- read its body to the end, each line within the scanner's buffer; and the table `metrics` then
  -- holds what it held, followed by the rows of all the lines in their order: none for a malformed
  -- line, otherwise one for each value with a timestamp, all with one export time.
  pub export_metrics-Streamed :
      (url : Bytes) (client : Option Client) (tr : Trace)
      → (export_metrics H url client tr).0 ≡ ok tt
      → (export_url : Bytes) × (build_metrics_export_url H url ≡ ok export_url)
        × Streamed H client export_url
            (codes "metrics")
            metric_table
            tr
            (export_metrics H url client tr).1
  unfolding export_metrics write_metrics
  export_metrics-Streamed url client tr h =
      lines-Streamed H (codes "metrics") metric_table (λ t lines. metric_lines H t lines 0)
        (λ t lines. Adds-metric_lines t lines 0) (build_metrics_export_url H url) client tr h
