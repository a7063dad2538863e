-- ===== src/Metrics.antt =====
-- cmd/observability-export/metrics.go: the export of VictoriaMetrics' time series.
pub mod Releases
pub mod Sound
pub mod Stream
pub mod Table
pub mod Rows
use tilt_common.Base.{
  ℕ, ◌+◌, ◌*◌, ◌^◌, Bool, Option, none, some, List, [], ◌∷◌, if◌then◌else◌, Bytes, codes, same,
}
use tilt_common.Base.Dict.{Dict, lookup, insert}
use tilt_common.Base.Int.{ℤ, ◌*ℤ◌}
use tilt_common.Errors.{
  parsing_url, building_export_url, appending_row, reading_lines, flushing_appender, parsing_line,
  line_too_long, Error, fault, Result, ok, err, stuck, wrapping,
}
use tilt_common.Errors
use tilt_common.Host.{
  MetricLine, Cell, timestamp, varchar, double, dict, Client, Body, response_body, connection,
  appender, appended, flushed, skipped_line, rows_written, Trace, Host,
}
use tilt_common.Host.Io.{Io, ◌>>=◌, ◌>>◌, lift, pure, raise, wrapped, deferring, act, log, ask}
use tilt_common.Http.{metrics_export_path, set_value, http_get_stream, new_table_appender}
use tilt_common.Text.Scan.{scan_lines, max_scanner_buf}

abbrev pub metric_name_key : Bytes
metric_name_key = codes "__name__"

-- `m[k]`, which is the empty string where the key is missing.
abbrev pub get_or_empty : Bytes → Dict Bytes → Bytes
get_or_empty k m = elim (lookup k m) [ none ↦ [] | some v ↦ v ]

-- The loop that copies the labels, `labels` being what is copied so far.
copy_labels : Dict Bytes → Dict Bytes → Dict Bytes
copy_labels labels [] = labels
copy_labels labels ((k, v) ∷ metric) =
    copy_labels (if same k metric_name_key then labels else insert k v labels) metric

unfoldable pub labels_of : Dict Bytes → Dict Bytes
unfolding copy_labels
labels_of metric = copy_labels [] metric

-- `time.UnixMilli(ms)`, in nanoseconds.
unfoldable pub unix_milli : ℤ → ℤ
unix_milli ms = ms *ℤ 10 ^ 6

unfoldable pub metric_row : Bytes → Dict Bytes → ℤ → ℕ → ℤ → List Cell
metric_row name labels ms v export_time =
    timestamp (unix_milli ms) ∷ varchar name ∷ dict labels ∷ double v ∷ timestamp export_time ∷ []

-- `scanner.Err()` behind the loop.
abbrev pub scanner_error : Bool → Option Error → Result (Unit {0})
scanner_error too_long broken =
    if too_long then err (fault line_too_long) else elim broken [ none ↦ ok tt | some e ↦ err e ]

module _ (H : Host) where
  unfoldable pub build_metrics_export_url : Bytes → Result Bytes
  build_metrics_export_url base_url =
      Errors.◌>>=◌ (wrapping (parsing_url base_url) (H.url_parse base_url)) λ parsed_url.
        let query = H.parse_query parsed_url.raw_query in
        let query' = set_value (codes "match[]") (codes "{__name__!=\"\"}") query in
        let query'' = set_value (codes "start") (codes "0") query' in
        ok (
          H.url_string
            (record parsed_url { path = metrics_export_path; raw_query = H.encode_query query'' }))

  unfoldable pub append_row : Bytes → List Cell → Io (Unit {0})
  append_row table row =
      wrapped (appending_row table) (act (appended table row) (λ tr. H.append_error tr table row))

  -- The loop over the values; it ends with the shorter of the two arrays.
  unfoldable pub metric_rows : Bytes → Dict Bytes → ℤ → List ℕ → List ℤ → ℕ → Io ℕ
  metric_rows name labels export_time [] timestamps count = pure count
  metric_rows name labels export_time (v ∷ values) [] count = pure count
  metric_rows name labels export_time (v ∷ values) (ms ∷ timestamps) count = do
    append_row (codes "metrics") (metric_row name labels ms v export_time)
    metric_rows name labels export_time values timestamps (count + 1)

  unfoldable pub append_metric_rows : MetricLine → ℤ → Io ℕ
  unfolding metric_rows append_row metric_row
  append_metric_rows line export_time =
      metric_rows (get_or_empty metric_name_key line.metric) (labels_of line.metric) export_time
        line.values line.timestamps 0

  -- One round of the scanner's loop: how many rows a line adds, none if it is malformed.
  unfoldable pub metric_line : ℤ → Bytes → Result MetricLine → Io ℕ
  metric_line export_time raw (ok line) = append_metric_rows line export_time
  metric_line export_time raw (err e) = do log (skipped_line raw); pure 0
  metric_line export_time raw stuck = lift stuck

  unfoldable pub metric_lines : ℤ → List Bytes → ℕ → Io ℕ
  unfolding metric_line append_metric_rows
  metric_lines export_time [] total = pure total
  metric_lines export_time (raw ∷ lines) total = do
    rows ← metric_line export_time raw (H.unmarshal_metric_line raw)
    metric_lines export_time lines (total + rows)

  unfoldable pub flush_appender : Bytes → Io (Unit {0})
  flush_appender table =
      wrapped (flushing_appender table) (act (flushed table) (λ tr. H.flush_error tr table))

  -- What is done with the open appender.
  unfoldable pub write_metrics : Body → Io (Unit {0})
  unfolding metric_lines flush_appender
  write_metrics body = do
    export_time ← ask H.now
    let (lines, too_long) = scan_lines body.together max_scanner_buf body.content
    total ← metric_lines export_time lines 0
    lift (wrapping (reading_lines (codes "metrics")) (scanner_error too_long body.broken))
    flush_appender (codes "metrics")
    log (rows_written (codes "metrics") total)

  unfoldable pub export_metrics : Bytes → Option Client → Io (Unit {0})
  unfolding build_metrics_export_url http_get_stream new_table_appender write_metrics
  export_metrics metrics_url client = do
    export_url ← lift (wrapping building_export_url (build_metrics_export_url metrics_url))
    resp ← http_get_stream H client export_url
    deferring response_body do
      new_table_appender H (codes "metrics")
      deferring connection (deferring appender (write_metrics resp.body))

  -- `ParseMetricsLine`
  unfoldable pub parse_metrics_line : Bytes → Result MetricLine
  parse_metrics_line line = wrapping parsing_line (H.unmarshal_metric_line line)
