-- ===== src/Logs/Sound.antt =====
-- The export of logs: whether it returns, and the types of its rows.
use tilt_common.Base.{
  ℕ, ◌≡◌, ◌≢◌, refl, same, Option, none, some, List, [], ◌∷◌, true, false, Bytes, codes,
}
use tilt_common.Base.Int.{ℤ}
use tilt_common.Errors.{Result, ok, err, stuck}
use tilt_common.Host.{Body, Client, Host, response_body, connection, appender, appended}
use tilt_common.Host.Sound.{
  Answers, Sound, ok-ne-stuck, err-ne-stuck, wrapping-ne-stuck, bind-ne-stuck, Sound-lift,
  Sound-pure, Sound-ask, Sound-log, Sound-deferring, Sound-bind, Sound-weaken,
}
use tilt_common.Http.Sound.{Sound-http_get_stream, Sound-new_table_appender}
use tilt_common.Logs.{
  LogEntry, string_field, nil_if_empty, log_row, parse_time, parse_log_timestamp,
  build_logs_export_url, append_log_row, parse_log_entry, log_line, log_lines, write_logs,
  export_logs,
}
use tilt_common.Metrics.Sound.{Sound-append_row, Sound-flush_appender, scanner_error-ne-stuck}
use tilt_common.Schema.{varchar_type, logs_columns}
use tilt_common.Schema.Rows.{accepts, IsTyped, columns_of}

-- An optional text is a value or NULL.
pub nil_if_empty-accepts : (s : Bytes) → accepts varchar_type false (nil_if_empty s) ≡ true
unfolding nil_if_empty
nil_if_empty-accepts [] = refl
nil_if_empty-accepts (c ∷ s) = refl

module _ (H : Host) where
  log_row-IsTyped : (entry : LogEntry) (t : ℤ) → IsTyped (appended (codes "logs") (log_row entry t))
  unfolding columns_of logs_columns log_row same
  log_row-IsTyped entry t = (
    refl,
    (
      refl,
      (
        nil_if_empty-accepts entry.stream,
        (nil_if_empty-accepts entry.severity, (refl, (refl, tt))),
      ),
    ),
  )

  parse_time-ne-stuck : (s : Option Bytes) → Answers H → parse_time H s ≢ stuck
  unfolding parse_time
  parse_time-ne-stuck none law = err-ne-stuck _
  parse_time-ne-stuck (some []) law = err-ne-stuck _
  parse_time-ne-stuck (some (c ∷ s)) law = wrapping-ne-stuck _ _ (law.parse_rfc3339 (c ∷ s))

  pub parse_log_entry-ne-stuck : (line : Bytes) → Answers H → parse_log_entry H line ≢ stuck
  unfolding parse_log_entry parse_log_timestamp
  parse_log_entry-ne-stuck line law =
      bind-ne-stuck _ _ (wrapping-ne-stuck _ _ (law.unmarshal_log_line line)) λ raw.
        bind-ne-stuck _ _ (parse_time-ne-stuck (string_field (codes "_time") raw) law)
          λ ts. ok-ne-stuck _

  Sound-log_line :
      (t : ℤ) (line : Bytes) (entry : Result LogEntry) (total : ℕ)
      → Sound (Answers H × (entry ≢ stuck)) (log_line H t line entry total)
  unfolding log_line append_log_row
  Sound-log_line t line (ok entry) total =
      Sound-bind _ _ (Sound-append_row H _ _ (log_row-IsTyped entry t)) λ u. Sound-pure _
  Sound-log_line t line (err e) total = Sound-bind _ _ (Sound-log _) λ u. Sound-pure total
  Sound-log_line t line stuck total = Sound-lift stuck (λ p. absurd (p.1 refl))

  Sound-log_lines :
      (t : ℤ) (lines : List Bytes) (total : ℕ) → Sound (Answers H) (log_lines H t lines total)
  unfolding log_lines
  Sound-log_lines t [] total = Sound-pure total
  Sound-log_lines t ([] ∷ lines) total =
      Sound-bind _ _ (Sound-pure total) λ total'. Sound-log_lines t lines total'
  Sound-log_lines t ((c ∷ line) ∷ lines) total =
      Sound-bind _ _
        (Sound-weaken (λ law. (law, parse_log_entry-ne-stuck (c ∷ line) law))
          (Sound-log_line t (c ∷ line) (parse_log_entry H (c ∷ line)) total))
        λ total'. Sound-log_lines t lines total'

  Sound-write_logs : (body : Body) → Sound (Answers H) (write_logs H body)
  unfolding write_logs
  Sound-write_logs body = Sound-bind _ _ (Sound-ask _) λ t.
      Sound-bind _ _ (Sound-log_lines t _ 0) λ total.
        Sound-bind _ _
          (Sound-lift _ (λ law. wrapping-ne-stuck _ _ (scanner_error-ne-stuck _ body.broken)))
          λ u. Sound-bind _ _ (Sound-flush_appender H _) λ v. Sound-log _

  export_url-ne-stuck : (url : Bytes) → Answers H → build_logs_export_url H url ≢ stuck
  unfolding build_logs_export_url
  export_url-ne-stuck url law =
      bind-ne-stuck _ _ (wrapping-ne-stuck _ _ (law.url_parse url)) (λ u. ok-ne-stuck _)

  pub Sound-export_logs :
      (url : Bytes) (client : Option Client) → Sound (Answers H) (export_logs H url client)
  unfolding export_logs
  Sound-export_logs url client =
      Sound-bind _ _ (Sound-lift _ (λ law. wrapping-ne-stuck _ _ (export_url-ne-stuck url law)))
        λ export_url. Sound-bind _ _ (Sound-http_get_stream H client export_url) λ resp.
          Sound-deferring response_body _ (
            Sound-bind _ _ (Sound-new_table_appender H _) λ u.
              Sound-deferring connection _
                (Sound-deferring appender _ (Sound-write_logs resp.body)))
