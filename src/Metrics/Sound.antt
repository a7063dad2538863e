-- ===== src/Metrics/Sound.antt =====
-- The export of metrics: whether it returns, and the types of its rows.
use tilt_common.Base.{
  ℕ, ◌≢◌, same, refl, Option, none, some, List, [], ◌∷◌, Bool, true, false, Bytes, codes,
}
use tilt_common.Base.Dict.{Dict}
use tilt_common.Base.Int.{ℤ}
use tilt_common.Errors.{Error, Result, ok, err, stuck}
use tilt_common.Host.{
  Body, Cell, Client, Host, MetricLine, response_body, connection, appender, appended,
}
use tilt_common.Host.Sound.{
  Answers, Sound, ok-ne-stuck, err-ne-stuck, wrapping-ne-stuck, bind-ne-stuck, Sound-lift,
  Sound-pure, Sound-ask, Sound-log, Sound-wrapped, Sound-deferring, Sound-bind, Sound-act,
  Sound-weaken,
}
use tilt_common.Http.Sound.{Sound-http_get_stream, Sound-new_table_appender}
use tilt_common.Metrics.{
  append_row, metric_row, metric_rows, append_metric_rows, metric_line, metric_lines,
  flush_appender, scanner_error, build_metrics_export_url, write_metrics, export_metrics,
}
use tilt_common.Schema.{metrics_columns}
use tilt_common.Schema.Rows.{IsTyped, columns_of}

pub scanner_error-ne-stuck :
    (too_long : Bool) (broken : Option Error) → scanner_error too_long broken ≢ stuck
scanner_error-ne-stuck true broken = err-ne-stuck _
scanner_error-ne-stuck false none = ok-ne-stuck tt
scanner_error-ne-stuck false (some e) = err-ne-stuck e

module _ (H : Host) where
  pub Sound-append_row :
      {P : Type 0} (table : Bytes) (row : List Cell)
      → IsTyped (appended table row)
      → Sound P (append_row H table row)
  unfolding append_row
  Sound-append_row table row h = Sound-wrapped _ _ (Sound-act (appended table row) _ h)

  pub Sound-flush_appender : {P : Type 0} (table : Bytes) → Sound P (flush_appender H table)
  unfolding flush_appender
  Sound-flush_appender table = Sound-wrapped _ _ (Sound-act _ _ tt)

  metric_row-IsTyped :
      (name : Bytes) (labels : Dict Bytes) (ms : ℤ) (v : ℕ) (t : ℤ)
      → IsTyped (appended (codes "metrics") (metric_row name labels ms v t))
  unfolding columns_of metrics_columns metric_row same
  metric_row-IsTyped name labels ms v t = (refl, (refl, (refl, (refl, (refl, tt)))))

  Sound-metric_rows :
      {P : Type 0} (name : Bytes) (labels : Dict Bytes) (t : ℤ) (values : List ℕ)
      (timestamps : List ℤ) (count : ℕ)
      → Sound P (metric_rows H name labels t values timestamps count)
  unfolding metric_rows
  Sound-metric_rows name labels t [] timestamps count = Sound-pure count
  Sound-metric_rows name labels t (v ∷ values) [] count = Sound-pure count
  Sound-metric_rows name labels t (v ∷ values) (ms ∷ timestamps) count =
      Sound-bind _ _ (Sound-append_row _ _ (metric_row-IsTyped name labels ms v t))
        λ u. Sound-metric_rows name labels t values timestamps _

  Sound-metric_line :
      (t : ℤ) (raw : Bytes) (line : Result MetricLine)
      → Sound (Answers H × (line ≢ stuck)) (metric_line H t raw line)
  unfolding metric_line append_metric_rows
  Sound-metric_line t raw (ok line) = Sound-metric_rows _ _ t _ _ 0
  Sound-metric_line t raw (err e) = Sound-bind _ _ (Sound-log _) λ u. Sound-pure 0
  Sound-metric_line t raw stuck = Sound-lift stuck (λ p. absurd (p.1 refl))

  Sound-metric_lines :
      (t : ℤ) (lines : List Bytes) (total : ℕ) → Sound (Answers H) (metric_lines H t lines total)
  unfolding metric_lines
  Sound-metric_lines t [] total = Sound-pure total
  Sound-metric_lines t (raw ∷ lines) total =
      Sound-bind _ _
        (Sound-weaken (λ law. (law, law.unmarshal_metric_line raw))
          (Sound-metric_line t raw (H.unmarshal_metric_line raw)))
        λ rows. Sound-metric_lines t lines _

  Sound-write_metrics : (body : Body) → Sound (Answers H) (write_metrics H body)
  unfolding write_metrics
  Sound-write_metrics body = Sound-bind _ _ (Sound-ask _) λ t.
      Sound-bind _ _ (Sound-metric_lines t _ 0) λ total.
        Sound-bind _ _
          (Sound-lift _ (λ law. wrapping-ne-stuck _ _ (scanner_error-ne-stuck _ body.broken)))
          λ u. Sound-bind _ _ (Sound-flush_appender _) λ v. Sound-log _

  export_url-ne-stuck : (url : Bytes) → Answers H → build_metrics_export_url H url ≢ stuck
  unfolding build_metrics_export_url
  export_url-ne-stuck url law =
      bind-ne-stuck _ _ (wrapping-ne-stuck _ _ (law.url_parse url)) (λ u. ok-ne-stuck _)

  pub Sound-export_metrics :
      (url : Bytes) (client : Option Client) → Sound (Answers H) (export_metrics H url client)
  unfolding export_metrics
  Sound-export_metrics url client =
      Sound-bind _ _ (Sound-lift _ (λ law. wrapping-ne-stuck _ _ (export_url-ne-stuck url law)))
        λ export_url. Sound-bind _ _ (Sound-http_get_stream H client export_url) λ resp.
          Sound-deferring response_body _ (
            Sound-bind _ _ (Sound-new_table_appender H _) λ u.
              Sound-deferring connection _
                (Sound-deferring appender _ (Sound-write_metrics resp.body)))
