-- ===== src/Logs.antt =====
-- cmd/observability-export/logs.go: the export of VictoriaLogs' entries.
pub mod Releases
pub mod Sound
pub mod Table
pub mod Entry
use tilt_common.Base.{
  ℕ, ◌+◌, Bool, true, false, ◌||◌, Option, none, some, List, [], ◌∷◌, if◌then◌else◌, Bytes, codes,
  same, is_empty,
}
use tilt_common.Base.Dict.{Dict, lookup, insert, erase}
use tilt_common.Base.Int.{ℤ}
use tilt_common.Errors.{
  parsing_url, building_export_url, parsing_line, parsing_log_timestamp, reading_lines,
  missing_time, fault, Result, ok, err, stuck, wrapping, ◌>>=◌,
}
use tilt_common.Host.{
  Value, text, other, Cell, timestamp, varchar, null, dict, Client, Body, response_body, connection,
  appender, skipped_line, rows_written, Host,
}
use tilt_common.Host.Io.{Io, lift, pure, deferring, log, ask}
use tilt_common.Host.Io
use tilt_common.Http.{logs_query_path, set_value, http_get_stream, new_table_appender}
use tilt_common.Metrics.{append_row, scanner_error, flush_appender}
use tilt_common.Text.Scan.{scan_lines, max_scanner_buf}

pub record LogEntry : Type 0 where
  pub timestamp : ℤ
  pub message : Bytes
  pub stream : Bytes
  pub severity : Bytes
  pub fields : Dict Bytes

abbrev pub severity_keys : List Bytes
severity_keys = codes "severityText" ∷ codes "level" ∷ codes "severity" ∷ []

-- `v, ok := raw[key].(string)`
abbrev as_text : Option Value → Option Bytes
as_text none = none
as_text (some (text s)) = some s
as_text (some (other s)) = none

abbrev pub string_field : Bytes → Dict Value → Option Bytes
string_field key raw = as_text (lookup key raw)

-- The value if it is a string, and the empty string otherwise.
abbrev pub or_empty : Option Bytes → Bytes
or_empty none = []
or_empty (some s) = s

-- `fmt.Sprintf("%v", v)`
abbrev pub print_value : Value → Bytes
print_value (text s) = s
print_value (other s) = s

-- One key of the loop: the severity that it holds, unless it is missing, no string, or empty.
abbrev pub usable : Option Bytes → Option Bytes
usable none = none
usable (some []) = none
usable (some (c ∷ s)) = some (c ∷ s)

unfoldable pub severity_of : List Bytes → Dict Value → Bytes × Dict Value
severity_of [] raw = ([], raw)
severity_of (key ∷ keys) raw = elim (usable (string_field key raw)) [
  | some v ↦ (v, erase key raw)
  | none ↦ severity_of keys raw
]

-- The severity, and the entry without the key that it was found under.
unfoldable pub extract_severity : Dict Value → Bytes × Dict Value
unfolding severity_of
extract_severity raw = severity_of severity_keys raw

abbrev pub is_system_key : Bytes → Bool
is_system_key k = same k (codes "_msg") || same k (codes "_time") || same k (codes "_stream")

-- The loop that collects the remaining fields, `fields` being what is collected so far.
unfoldable pub collect_fields : Dict Bytes → Dict Value → Dict Bytes
collect_fields fields [] = fields
collect_fields fields ((k, v) ∷ raw) =
    collect_fields (if is_system_key k then fields else insert k (print_value v) fields) raw

-- What `ParseLogEntry` makes of a decoded line and its time.
unfoldable pub log_entry : Dict Value → ℤ → LogEntry
unfolding extract_severity collect_fields
log_entry raw ts =
    let (severity, rest) = extract_severity raw in
    record {
      timestamp = ts;
      message = or_empty (string_field (codes "_msg") raw);
      stream = or_empty (string_field (codes "_stream") raw);
      severity = severity;
      fields = collect_fields [] rest;
    }

-- `nilIfEmpty` of traces.go.
unfoldable pub nil_if_empty : Bytes → Cell
nil_if_empty [] = null
nil_if_empty (c ∷ s) = varchar (c ∷ s)

unfoldable pub log_row : LogEntry → ℤ → List Cell
unfolding nil_if_empty
log_row entry export_time =
    timestamp entry.timestamp
    ∷ varchar entry.message
    ∷ nil_if_empty entry.stream
    ∷ nil_if_empty entry.severity
    ∷ dict entry.fields
    ∷ timestamp export_time
    ∷ []

module _ (H : Host) where
  parse_time : Option Bytes → Result ℤ
  parse_time none = err (fault missing_time)
  parse_time (some s) =
      if is_empty s
      then err (fault missing_time)
      else wrapping (parsing_log_timestamp s) (H.parse_rfc3339 s)

  unfoldable pub parse_log_timestamp : Dict Value → Result ℤ
  unfolding parse_time
  parse_log_timestamp raw = parse_time (string_field (codes "_time") raw)

  unfoldable pub parse_log_entry : Bytes → Result LogEntry
  unfolding parse_log_timestamp log_entry
  parse_log_entry line = do
    raw ← wrapping parsing_line (H.unmarshal_log_line line)
    ts ← parse_log_timestamp raw
    ok (log_entry raw ts)

  unfoldable pub build_logs_export_url : Bytes → Result Bytes
  build_logs_export_url base_url = do
    parsed_url ← wrapping (parsing_url base_url) (H.url_parse base_url)
    let query = H.parse_query parsed_url.raw_query
    let query' = set_value (codes "query") (codes "*") query
    let query'' = set_value (codes "start") (codes "0") query'
    ok (
        H.url_string
          (record parsed_url { path = logs_query_path; raw_query = H.encode_query query'' }))

  unfoldable pub append_log_row : LogEntry → ℤ → Io (Unit {0})
  unfolding append_row log_row
  append_log_row entry export_time = append_row H (codes "logs") (log_row entry export_time)

  -- One round of the scanner's loop behind `ParseLogEntry`.
  unfoldable pub log_line : ℤ → Bytes → Result LogEntry → ℕ → Io ℕ
  log_line export_time line (ok entry) total =
      Io.◌>>=◌ (append_log_row entry export_time) λ _. pure (total + 1)
  log_line export_time line (err e) total = Io.◌>>=◌ (log (skipped_line line)) λ _. pure total
  log_line export_time line stuck total = lift stuck

  unfoldable pub log_lines : ℤ → List Bytes → ℕ → Io ℕ
  unfolding log_line append_log_row parse_log_entry
  log_lines export_time [] total = pure total
  log_lines export_time (line ∷ lines) total =
      Io.◌>>=◌
        (if is_empty line
          then pure total
          else log_line export_time line (parse_log_entry line) total)
        λ total'. log_lines export_time lines total'

  -- What is done with the open appender.
  unfoldable pub write_logs : Body → Io (Unit {0})
  unfolding log_lines flush_appender
  write_logs body = Io.◌>>=◌ (ask H.now) λ export_time.
      let (lines, too_long) = scan_lines body.together max_scanner_buf body.content in
      Io.◌>>=◌ (log_lines export_time lines 0) λ total.
        Io.◌>>=◌
          (lift (wrapping (reading_lines (codes "logs")) (scanner_error too_long body.broken)))
          λ _.
            Io.◌>>=◌ (flush_appender H (codes "logs")) λ _. log (rows_written (codes "logs") total)

  unfoldable pub export_logs : Bytes → Option Client → Io (Unit {0})
  unfolding build_logs_export_url http_get_stream new_table_appender write_logs
  export_logs logs_url client =
      Io.◌>>=◌ (lift (wrapping building_export_url (build_logs_export_url logs_url))) λ export_url.
        Io.◌>>=◌ (http_get_stream H client export_url) λ resp. deferring response_body (
          Io.◌>>=◌ (new_table_appender H (codes "logs"))
            λ _. deferring connection (deferring appender (write_logs resp.body)))
