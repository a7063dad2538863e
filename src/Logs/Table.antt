-- ===== src/Logs/Table.antt =====
-- `ExportLogs`: what a successful export adds to the table.
use tilt_common.Base.{
  ℕ, ◌≡◌, Bool, true, false, Option, List, [], ◌∷◌, ◌++◌, Bytes, codes, is_empty, if◌then◌else◌,
}
use tilt_common.Base.Int.{ℤ}
use tilt_common.Effect.Keeps.{Keeps-bind, Keeps-lift}
use tilt_common.Errors.{Result, ok, err, stuck}
use tilt_common.Host.{Cell, Client, Host, Trace}
use tilt_common.Host.Io.{pure}
use tilt_common.Host.Table.{rows_in, Adds, Adds-bind, Adds-Keeps, Keeps-log}
use tilt_common.Logs.{
  LogEntry, log_row, parse_log_entry, append_log_row, log_line, log_lines, build_logs_export_url,
  write_logs, export_logs,
}
use tilt_common.Metrics.Stream.{Adds-append_row, Streamed, lines-Streamed}

-- The row of an entry; a line that is none has no row.
abbrev pub entry_rows : ℤ → Result LogEntry → List (List Cell)
entry_rows t (ok entry) = log_row entry t ∷ []
entry_rows t (err e) = []
entry_rows t stuck = []

module _ (H : Host) where
  abbrev pub log_rows : ℤ → Bytes → List (List Cell)
  log_rows t line = if is_empty line then [] else entry_rows t (parse_log_entry H line)

  -- The rows of all lines, in their order.
  abbrev pub log_table : ℤ → List Bytes → List (List Cell)
  log_table t [] = []
  log_table t (line ∷ lines) = log_rows t line ++ log_table t lines

  Adds-log_line :
      (t : ℤ) (line : Bytes) (r : Result LogEntry) (total : ℕ)
      → Adds (codes "logs") (entry_rows t r) (log_line H t line r total)
  unfolding log_line append_log_row
  Adds-log_line t line (ok entry) total =
      Adds-bind _ (log_row entry t ∷ []) [] _ _ (Adds-append_row H (codes "logs") (log_row entry t))
        λ u. Adds-Keeps _ _ (Keeps-lift (rows_in (codes "logs")) _)
  Adds-log_line t line (err e) total = Adds-Keeps _ _ (
      Keeps-bind (rows_in (codes "logs")) _ _ (Keeps-log _ _)
        λ u. Keeps-lift (rows_in (codes "logs")) _)
  Adds-log_line t line stuck total = Adds-Keeps _ _ (Keeps-lift (rows_in (codes "logs")) _)

  Adds-if :
      (b : Bool) (t : ℤ) (line : Bytes) (r : Result LogEntry) (total : ℕ)
      → Adds
          (codes "logs")
          (if b then [] else entry_rows t r)
          (if b then pure total else log_line H t line r total)
  unfolding log_line
  Adds-if true t line r total = Adds-Keeps _ _ (Keeps-lift (rows_in (codes "logs")) _)
  Adds-if false t line r total = Adds-log_line t line r total

  Adds-log_lines :
      (t : ℤ) (lines : List Bytes) (total : ℕ)
      → Adds (codes "logs") (log_table t lines) (log_lines H t lines total)
  unfolding log_lines
  Adds-log_lines t [] total = Adds-Keeps _ _ (Keeps-lift (rows_in (codes "logs")) _)
  Adds-log_lines t (line ∷ lines) total =
      Adds-bind _ (log_rows t line) (log_table t lines) _ _
        (Adds-if (is_empty line) t line (parse_log_entry H line) total)
        λ n. Adds-log_lines t lines n

  -- A logs export that succeeds has built the export URL, got a response of status 200 for it, and
  -- read its body to the end, each line within the scanner's buffer; and the table `logs` then holds
  -- what it held, followed by one row for each line that is neither empty nor malformed, in the
  -- lines' order, all with one export time.
  pub export_logs-Streamed :
      (url : Bytes) (client : Option Client) (tr : Trace)
      → (export_logs H url client tr).0 ≡ ok tt
      → (export_url : Bytes) × (build_logs_export_url H url ≡ ok export_url)
        × Streamed H client export_url (codes "logs") log_table tr (export_logs H url client tr).1
  unfolding export_logs write_logs
  export_logs-Streamed url client tr h =
      lines-Streamed H (codes "logs") log_table (λ t lines. log_lines H t lines 0)
        (λ t lines. Adds-log_lines t lines 0) (build_logs_export_url H url) client tr h
