-- ===== src/Traces.antt =====
-- cmd/observability-export/traces.go: the export of VictoriaTraces' spans.
pub mod Releases
pub mod Sound
pub mod Table
pub mod Collected
pub mod Tags
pub mod Flatten
pub mod Times
use tilt_common.Base.{
  ℕ, ◌+◌, ◌*◌, Bool, Option, none, some, List, [], ◌∷◌, ◌++◌, map, if◌then◌else◌, Bytes, codes,
  same, is_empty, length, ltb,
}
use tilt_common.Base.Dict.{Dict, lookup, insert}
use tilt_common.Base.Int.{ℤ, ◌+ℤ◌, ◌*ℤ◌, wrap64}
use tilt_common.Errors.{
  parsing_url, fetching_services, listing_services, fetching_traces, decoding_traces, writing_spans,
  Result, ok, err, stuck, wrapping,
}
use tilt_common.Errors
use tilt_common.Host.{
  JaegerRef, JaegerTag, JaegerSpan, JaegerProcess, JaegerTrace, Url, Cell, timestamp, varchar,
  bigint, dict, nil_dict, Client, response_body, connection, appender, skipped_service,
  rows_written, Host,
}
use tilt_common.Host.Io.{Io, ◌>>=◌, ◌>>◌, lift, pure, wrapped, attempt, deferring, log, ask}
use tilt_common.Http.{
  services_api_path, traces_api_path, set_value, fetch_json, http_get_stream, new_table_appender,
}
use tilt_common.Logs.{nil_if_empty, print_value}
use tilt_common.Metrics.{append_row, flush_appender}

-- `resource_attrs` is `none` for Go's nil map.
pub record FlatSpan : Type 0 where
  pub trace_id : Bytes
  pub span_id : Bytes
  pub parent_span_id : Bytes
  pub operation : Bytes
  pub service_name : Bytes
  pub span_kind : Bytes
  pub start_time : ℤ
  pub end_time : ℤ
  pub duration_us : ℤ
  pub status_code : Bytes
  pub status_message : Bytes
  pub attributes : Dict Bytes
  pub resource_attrs : Option (Dict Bytes)

-- `time.UnixMicro(us)` in nanoseconds, and `time.Duration(us) * time.Microsecond`, which is an int64.
unfoldable pub unix_micro : ℤ → ℤ
unix_micro us = us *ℤ 1000

unfoldable pub micros : ℤ → ℤ
micros us = wrap64 (us *ℤ 1000)

-- The loop over the references, which ends at the first CHILD_OF.
unfoldable pub set_parent : List JaegerRef → FlatSpan → FlatSpan
set_parent [] s = s
set_parent (ref ∷ refs) s =
    if same ref.ref_type (codes "CHILD_OF")
    then record s { parent_span_id = ref.span_id }
    else set_parent refs s

-- The `switch tag.Key`.
unfoldable pub set_tag : FlatSpan → JaegerTag → FlatSpan
set_tag s tag =
    if same tag.key (codes "span.kind")
    then record s { span_kind = print_value tag.value }
    else if same tag.key (codes "otel.status_code")
    then record s { status_code = print_value tag.value }
    else if same tag.key (codes "otel.status_description")
    then record s { status_message = print_value tag.value }
    else record s { attributes = insert tag.key (print_value tag.value) s.attributes }

unfoldable pub set_tags : List JaegerTag → FlatSpan → FlatSpan
unfolding set_tag
set_tags [] s = s
set_tags (tag ∷ tags) s = set_tags tags (set_tag s tag)

unfoldable pub extract_span_metadata : JaegerSpan → FlatSpan → FlatSpan
unfolding set_parent set_tags
extract_span_metadata span s = set_tags span.tags (set_parent span.references s)

unfoldable pub tag_values : Dict Bytes → List JaegerTag → Dict Bytes
tag_values attrs [] = attrs
tag_values attrs (tag ∷ tags) = tag_values (insert tag.key (print_value tag.value) attrs) tags

abbrev set_process : Option JaegerProcess → FlatSpan → FlatSpan
set_process none s = s
set_process (some proc) s = record s {
  service_name = proc.service_name;
  resource_attrs = some (tag_values [] proc.tags);
}

unfoldable pub resolve_process : JaegerTrace → JaegerSpan → FlatSpan → FlatSpan
unfolding tag_values
resolve_process trace span s = set_process (lookup span.process_id trace.processes) s

-- The span before its metadata and its process are filled in.
abbrev pub bare_span : JaegerSpan → FlatSpan
bare_span span = record {
  trace_id = span.trace_id;
  span_id = span.span_id;
  parent_span_id = [];
  operation = span.operation_name;
  service_name = [];
  span_kind = [];
  start_time = unix_micro span.start_time;
  end_time = unix_micro span.start_time +ℤ micros span.duration;
  duration_us = span.duration;
  status_code = [];
  status_message = [];
  attributes = [];
  resource_attrs = none;
}

unfoldable pub flatten_span : JaegerTrace → JaegerSpan → FlatSpan
unfolding resolve_process extract_span_metadata
flatten_span trace span = resolve_process trace span (extract_span_metadata span (bare_span span))

-- The slice that `FlattenTraces` builds. Its capacity grows with the element that it has no room for
-- (Go may then reserve more).
pub record SpanSlice : Type 0 where
  pub elements : List FlatSpan
  pub capacity : ℕ

-- `make([]flatSpan, 0, n)` and `append(spans, s)`
abbrev pub make_spans : ℕ → SpanSlice
make_spans n = record { elements = []; capacity = n }

unfoldable pub append_span : SpanSlice → FlatSpan → SpanSlice
append_span spans s = record {
  elements = spans.elements ++ s ∷ [];
  capacity =
      if ltb (length spans.elements) spans.capacity
      then spans.capacity
      else length spans.elements + 1;
}

-- The loop that counts the spans, `total` being the count so far.
unfoldable pub total_spans : ℕ → List JaegerTrace → ℕ
total_spans total [] = total
total_spans total (trace ∷ traces) = total_spans (total + length trace.spans) traces

-- The two loops of `FlattenTraces`; `spans` is what is flattened so far.
flatten_spans : JaegerTrace → List JaegerSpan → SpanSlice → SpanSlice
flatten_spans trace [] spans = spans
flatten_spans trace (span ∷ rest) spans =
    flatten_spans trace rest (append_span spans (flatten_span trace span))

flatten_loop : List JaegerTrace → SpanSlice → SpanSlice
flatten_loop [] spans = spans
flatten_loop (trace ∷ traces) spans = flatten_loop traces (flatten_spans trace trace.spans spans)

-- The slice that `FlattenTraces` returns, and its elements.
unfoldable pub flatten_slice : List JaegerTrace → SpanSlice
unfolding flatten_loop flatten_spans flatten_span append_span total_spans
flatten_slice traces = flatten_loop traces (make_spans (total_spans 0 traces))

unfoldable pub flatten_traces : List JaegerTrace → List FlatSpan
unfolding flatten_slice
flatten_traces traces = (flatten_slice traces).elements

abbrev pub attrs_cell : Option (Dict Bytes) → Cell
attrs_cell none = nil_dict
attrs_cell (some attrs) = dict attrs

unfoldable pub span_row : FlatSpan → ℤ → List Cell
span_row s export_time =
    varchar s.trace_id
    ∷ varchar s.span_id
    ∷ nil_if_empty s.parent_span_id
    ∷ varchar s.operation
    ∷ varchar s.service_name
    ∷ nil_if_empty s.span_kind
    ∷ timestamp s.start_time
    ∷ timestamp s.end_time
    ∷ bigint s.duration_us
    ∷ nil_if_empty s.status_code
    ∷ nil_if_empty s.status_message
    ∷ dict s.attributes
    ∷ attrs_cell s.resource_attrs
    ∷ timestamp export_time
    ∷ []

module _ (H : Host) where
  unfoldable pub fetch_services : Option Client → Bytes → Io (List Bytes)
  unfolding fetch_json
  fetch_services client traces_url =
      wrapped fetching_services (fetch_json H H.decode_services client traces_url services_api_path)

  -- The URL with the query parameter that names the service.
  unfoldable pub service_url : Bytes → Bytes → Result Bytes
  service_url traces_url service =
      Errors.◌>>=◌ (wrapping (parsing_url traces_url) (H.url_parse traces_url)) λ parsed_url.
        let query = set_value (codes "service") service (H.parse_query parsed_url.raw_query) in
        ok (
          H.url_string
            (record parsed_url { path = traces_api_path; raw_query = H.encode_query query }))

  unfoldable pub fetch_traces_for_service : Option Client → Bytes → Bytes → Io (List FlatSpan)
  unfolding service_url http_get_stream
  fetch_traces_for_service client traces_url service = do
    url ← lift (service_url traces_url service)
    resp ← wrapped (fetching_traces service) (http_get_stream H client url)
    deferring response_body do
      traces ← lift (wrapping (decoding_traces service) (H.decode_traces resp.body))
      pure (flatten_traces traces)

  -- One round of the loop over the services: a service that fails is skipped.
  add_spans : Bytes → List FlatSpan → Result (List FlatSpan) → Io (List FlatSpan)
  add_spans service all_spans (ok spans) = pure (all_spans ++ spans)
  add_spans service all_spans (err e) = do log (skipped_service service); pure all_spans
  add_spans service all_spans stuck = lift stuck

  unfoldable pub collect_spans :
      Option Client → Bytes → List Bytes → List FlatSpan → Io (List FlatSpan)
  unfolding add_spans
  collect_spans client traces_url [] all_spans = pure all_spans
  collect_spans client traces_url (service ∷ services) all_spans = do
    fetched ← attempt (fetch_traces_for_service client traces_url service)
    all_spans' ← add_spans service all_spans fetched
    collect_spans client traces_url services all_spans'

  unfoldable pub span_rows : ℤ → List FlatSpan → Io (Unit {0})
  unfolding append_row span_row
  span_rows export_time [] = pure tt
  span_rows export_time (s ∷ spans) = do
    append_row H (codes "spans") (span_row s export_time)
    span_rows export_time spans

  unfoldable pub write_spans : List FlatSpan → Io (Unit {0})
  unfolding new_table_appender span_rows flush_appender
  write_spans spans = do
    new_table_appender H (codes "spans")
    deferring connection (
        deferring appender
          do export_time ← ask H.now; span_rows export_time spans; flush_appender H (codes "spans"))

  -- Behind the loop over the services.
  write_collected : List FlatSpan → Io (Unit {0})
  write_collected [] = pure tt
  write_collected (s ∷ spans) = do
    wrapped writing_spans (write_spans (s ∷ spans))
    log (rows_written (codes "spans") (length (s ∷ spans)))

  export_services : Option Client → Bytes → List Bytes → Io (Unit {0})
  unfolding write_collected
  export_services client traces_url [] = pure tt
  export_services client traces_url (service ∷ services) = do
    all_spans ← collect_spans client traces_url (service ∷ services) []
    write_collected all_spans

  unfoldable pub export_traces : Option Client → Bytes → Io (Unit {0})
  unfolding fetch_services export_services
  export_traces client traces_url = do
    services ← wrapped listing_services (fetch_services client traces_url)
    export_services client traces_url services
