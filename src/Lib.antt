-- ===== src/Lib.antt =====
-- cmd/observability-export: the command that copies the telemetry of a cluster to local files.
--
-- `run` (main.go) sets the options from the flags, lets `SetupPortForward` (portforward.go) put in a
-- client that dials into the cluster, and calls `RunExport` (export.go). That opens a DuckDB file,
-- makes its tables and calls the four exporters in turn: `ExportMetrics` (metrics.go),
-- `ExportTraces` (traces.go), `ExportLogs` (logs.go) and `ExportProfiles` (pprof.go), each of which
-- sends requests through helpers.go. An exporter that fails does not stop the others; the status of
-- the run, and from it the exit code, follow from how many of them failed.
--
-- magefile.go is apart from it: the targets that lint, build and test the repository.
--
-- Which file models which part; the paths are in cmd/observability-export, but for magefile.go.
--   Main         main.go: `Main.run`
--   Export       export.go: `run_export`, `create_schema`, `run_exporters`, `determine_status`
--   PortForward  portforward.go: `setup_port_forward`, `dial_context`, `build_kube_config`
--   Http         helpers.go: `fetch_json`, `http_get_stream`, `new_table_appender`
--   Metrics      metrics.go: `export_metrics`, `append_metric_rows`
--   Logs         logs.go: `export_logs`, `parse_log_entry`, `log_entry`
--   Traces       traces.go: `export_traces`, `flatten_traces`, `write_spans`
--   Parca        pprof.go: `export_profiles`, `discover_parca_api`, `download_profile`
--   Grpc         pprof.go: `parse_grpc_web_response`, `parse_grpc_web_trailer`, `frame_request`
--   Proto        pprof.go: the parsers and builders of protobuf messages
--   Schema       export.go: the tables' columns, and the rows that a table takes
--   Mage         magefile.go: `lint_all`, `run_e2e_tests`, `observability_full` and the others
--   Effect       functions that act on a state and may fail: sequence, `attempt`, `wrapped`
--   Errors       the errors of all of them, by which `fmt.Errorf` made them
--   Host         what the program calls: HTTP, DuckDB, files, the clock, JSON, URLs, base64,
--                protowire, as a record of functions; and the values that pass between them
--                Host.Held is the machine of open resources, Host.Table what is in a table
--   Text         Go's strings, bytes, strconv and bufio.Scanner as far as they are used
--   Base         shared names, lists, byte strings, integers, maps
--   Samples, Examples   concrete parameters, and the theorems at concrete inputs
--
-- A function that acts on the world is an `Io`: it takes the trace of the events so far, the latest
-- first, and returns a result and the longer trace. What the world answers may depend on the whole
-- trace, so nothing is assumed of it unless a theorem says so. A deferred close is `deferring`, an
-- error that the caller only logs is `attempt`. The targets of magefile.go are a `Task` in the same
-- way, over the working directory and the history of the programs started. A Go function is a
-- definition of its name in lower case with underscores; its loops and the parts behind an early
-- return are definitions beside it.
-- A Go string is the list of its bytes, a Go map an association list whose first entry of a key
-- counts, an int64 an integer with its wrap-around written out, a time the number of nanoseconds
-- since the epoch, and a float64 its bit pattern.
--
-- Requests to the cluster are events of the trace as well. A slice that is made with a capacity is
-- the record `SpanSlice`, and the scanner of a response is told by the body whether the last read
-- reports the end with its bytes, as a last line that fills the buffer is accepted only then.
--
-- Fuel: the loop over gRPC-Web frames and the protobuf loops get the length of their input, and each
-- round takes a byte at least. All other loops go down a list. Running out of fuel is the result
-- `stuck`, which no Go function returns.
--
-- Not modelled: the texts of log messages but for those that depend on data, flag parsing and
-- signals, contexts and time-outs (a request that is cut off is an error answer), errors of closing,
-- which are only logged, and the count of bytes written to a profile, which is only logged. The
-- order in which Go visits a map does not show in what is stated. DuckDB's tables are seen as the
-- rows appended to them. Of magefile.go the output of the programs, the messages and `init` are
-- left out; mage-common is a parameter. mage.go only calls mage. The tests and the Tilt extensions
-- are not modelled.
pub mod Base
pub mod Text
pub mod Errors
pub mod Effect
pub mod Grpc
pub mod Proto
pub mod Host
pub mod Schema
pub mod Http
pub mod Metrics
pub mod Logs
pub mod Traces
pub mod Parca
pub mod Export
pub mod PortForward
pub mod Main
pub mod Mage
pub mod Samples
pub mod Examples
