-- ===== src/Logs/Releases.antt =====
-- What the export of logs opens and closes.
use tilt_common.Base.{ℕ, List, [], ◌∷◌, Option, Bytes}
use tilt_common.Base.Int.{ℤ}
use tilt_common.Errors.{Result, ok, err, stuck}
use tilt_common.Host.{Body, Client, Host, response_body, connection, appender}
use tilt_common.Host.Releases.{
  Releases, Releases-lift, Releases-ask, Releases-log, Releases-bind, Acquires-bind,
  Discharges-deferring,
}
use tilt_common.Http.Releases.{Acquires-http_get_stream, Acquires-new_table_appender}
use tilt_common.Logs.{
  LogEntry, append_log_row, parse_log_entry, log_line, log_lines, write_logs, export_logs,
}
use tilt_common.Metrics.Releases.{Releases-append_row, Releases-flush_appender}

module _ (H : Host) where
  Releases-log_line :
      (t : ℤ) (line : Bytes) (entry : Result LogEntry) (total : ℕ)
      → Releases (log_line H t line entry total)
  unfolding log_line append_log_row
  Releases-log_line t line (ok entry) total =
      Releases-bind _ _ (Releases-append_row H _ _) λ u. Releases-lift _
  Releases-log_line t line (err e) total = Releases-bind _ _ (Releases-log _) λ u. Releases-lift _
  Releases-log_line t line stuck total = Releases-lift _

  Releases-log_lines :
      (t : ℤ) (lines : List Bytes) (total : ℕ) → Releases (log_lines H t lines total)
  unfolding log_lines
  Releases-log_lines t [] total = Releases-lift _
  Releases-log_lines t ([] ∷ lines) total =
      Releases-bind _ _ (Releases-lift _) λ total'. Releases-log_lines t lines total'
  Releases-log_lines t ((c ∷ line) ∷ lines) total =
      Releases-bind _ _ (Releases-log_line t (c ∷ line) (parse_log_entry H (c ∷ line)) total)
        λ total'. Releases-log_lines t lines total'

  Releases-write_logs : (body : Body) → Releases (write_logs H body)
  unfolding write_logs
  Releases-write_logs body = Releases-bind _ _ (Releases-ask _) λ t.
      Releases-bind _ _ (Releases-log_lines t _ 0) λ total.
        Releases-bind _ _ (Releases-lift _)
          λ u. Releases-bind _ _ (Releases-flush_appender H _) λ v. Releases-log _

  pub Releases-export_logs :
      (url : Bytes) (client : Option Client) → Releases (export_logs H url client)
  unfolding export_logs
  Releases-export_logs url client = Releases-bind _ _ (Releases-lift _) λ export_url.
      Acquires-bind (response_body ∷ []) _ _ (Acquires-http_get_stream H client export_url) λ resp.
        Discharges-deferring [] response_body _ (
          Acquires-bind (connection ∷ appender ∷ []) _ _ (Acquires-new_table_appender H _) λ u.
            Discharges-deferring (appender ∷ []) connection _
              (Discharges-deferring [] appender _ (Releases-write_logs resp.body)))
