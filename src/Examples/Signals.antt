-- ===== src/Examples/Signals.antt =====
-- The theorems on the four signals, on protobuf and on the routes at concrete inputs.
use tilt_common.Base.{
  ℕ, ◌≡◌, ◌≢◌, refl, ◌↔◌, none, some, List, [], ◌∷◌, arith, Bytes, codes, length, min, same,
  if◌then◌else◌, All,
}
use tilt_common.Base.Dict.{lookup, IsMap}
use tilt_common.Base.Int.{pos, ◌+ℤ◌, ◌*ℤ◌}
use tilt_common.Errors.{Error, library, wrap, creating_directory, fault, no_route, ok, err, stuck}
use tilt_common.Host.Io.{◌>>=◌, wrapped, act, lift}
use tilt_common.Logs.{log_entry, severity_keys, string_field, or_empty, is_system_key}
use tilt_common.Logs.Entry.{severity_key, severity_at, without, printed, log_entry-lookup}
use tilt_common.Metrics.{append_metric_rows, metric_name_key, get_or_empty, labels_of}
use tilt_common.Metrics.Rows
use tilt_common.Metrics.Rows.{append_metric_rows-rows_of}
use tilt_common.Parca.{
  gateway_api, parca_api_candidates, discover_parca_api, export_profiles, sanitize_profile_name,
}
use tilt_common.Parca.Discover.{Answers, discover_parca_api_iff}
use tilt_common.Parca.Names.{IsSafe, sanitize_profile_name-IsSafe}
use tilt_common.Parca.Profiles.{export_profiles-err}
use tilt_common.PortForward.{routes_of, dial_context}
use tilt_common.PortForward.Routes.{route_for, routes_of-lookup, dial_context-route_for}
use tilt_common.Proto.{
  parse_profile_type_names_proto, parse_query_response_pprof_proto, build_query_request_proto,
}
use tilt_common.Proto.Names.{
  Part, entry, other, names_of, encode_response, parse_profile_type_names_proto-encode_response,
}
use tilt_common.Proto.Pprof.{first_pprof, parse_query_response_pprof_proto-encode_message}
use tilt_common.Proto.Query.{request_fields, build_query_request_proto-encode_message}
use tilt_common.Proto.Total.{proto_parsers-ne-stuck}
use tilt_common.Proto.Wire.{Field, varint_field, bytes_field, encode_message}
use tilt_common.Samples.{
  sample_kube, cells, cells-IsProtowire, calm, read_only, sample_options, sample_entry, sample_line,
  sample_span, sample_trace,
}
use tilt_common.Traces.{total_spans, flatten_slice, flatten_span}
use tilt_common.Traces.Flatten
use tilt_common.Traces.Flatten.{flatten_slice-rows_of}
use tilt_common.Traces.Times.{parent_of, flatten_span-parent_of, flatten_span-end_time}

discover_parca_api_iff_example :
    ((discover_parca_api calm none (codes "p") []).0 ≡ ok (gateway_api, codes "ab" ∷ []))
    ↔ Answers calm none (codes "p") parca_api_candidates [] gateway_api (codes "ab" ∷ [])
discover_parca_api_iff_example =
    discover_parca_api_iff calm none (codes "p") [] gateway_api (codes "ab" ∷ [])

export_profiles-err_example :
    (e' : Error) × (some (library 8) ≡ some e')
    × (wrap (creating_directory (codes "out/profiles")) (library 8)
        ≡ wrap (creating_directory (codes "out/profiles")) e')
unfolding export_profiles ◌>>=◌ wrapped act
export_profiles-err_example =
    export_profiles-err read_only (codes "p") (codes "out") none []
      (wrap (creating_directory (codes "out/profiles")) (library 8)) refl

sanitize_profile_name-IsSafe_example :
    (length (sanitize_profile_name (codes "a:b/c d")) ≡ length (codes "a:b/c d"))
    × ((All IsSafe (sanitize_profile_name (codes "a:b/c d")))
        × ((sanitize_profile_name (codes "a:b/c d") ≡ codes "a:b/c d")
            ↔ All IsSafe (codes "a:b/c d")))
sanitize_profile_name-IsSafe_example = sanitize_profile_name-IsSafe (codes "a:b/c d")

sample_entry-IsMap : IsMap sample_entry
unfolding lookup same
sample_entry-IsMap = (refl, (refl, (refl, (refl, tt))))

log_entry-lookup_example :
    ((log_entry sample_entry (pos 7)).message ≡ or_empty (string_field (codes "_msg") sample_entry))
    × (((log_entry sample_entry (pos 7)).stream
          ≡ or_empty (string_field (codes "_stream") sample_entry))
        × (((log_entry sample_entry (pos 7)).severity
              ≡ severity_at (severity_key severity_keys sample_entry) sample_entry)
            × ((k : Bytes)
                → lookup k (log_entry sample_entry (pos 7)).fields ≡ (
                    if is_system_key k
                    then none
                    else printed (
                        lookup k
                          (without (severity_key severity_keys sample_entry) sample_entry))))))
log_entry-lookup_example = log_entry-lookup sample_entry (pos 7) sample_entry-IsMap

sample_line-IsMap : IsMap sample_line.metric
unfolding lookup same
sample_line-IsMap = (refl, (refl, tt))

abbrev two : ℕ
two = 2

append_metric_rows-rows_of_example :
    ((append_metric_rows calm sample_line (pos 9) []).1
      ≡ Rows.rows_of
          (get_or_empty metric_name_key sample_line.metric)
          (labels_of sample_line.metric)
          (pos 9)
          sample_line.values
          sample_line.timestamps
          [])
    × ((two ≡ min (length sample_line.values) (length sample_line.timestamps))
        × ((k : Bytes)
            → lookup k (labels_of sample_line.metric)
              ≡ (if same k metric_name_key then none else lookup k sample_line.metric)))
unfolding append_metric_rows ◌>>=◌ wrapped act lift
append_metric_rows-rows_of_example =
    append_metric_rows-rows_of calm sample_line (pos 9) two [] sample_line-IsMap refl

flatten_slice-rows_of_example :
    ((flatten_slice (sample_trace ∷ [])).elements ≡ Flatten.rows_of (sample_trace ∷ []))
    × (((flatten_slice (sample_trace ∷ [])).capacity ≡ total_spans 0 (sample_trace ∷ []))
        × (total_spans 0 (sample_trace ∷ []) ≡ length (Flatten.rows_of (sample_trace ∷ []))))
flatten_slice-rows_of_example = flatten_slice-rows_of (sample_trace ∷ [])

flatten_span-parent_of_example :
    ((flatten_span sample_trace sample_span).trace_id ≡ sample_span.trace_id)
    × (((flatten_span sample_trace sample_span).span_id ≡ sample_span.span_id)
        × (((flatten_span sample_trace sample_span).operation ≡ sample_span.operation_name)
            × (((flatten_span sample_trace sample_span).parent_span_id
                  ≡ parent_of sample_span.references)
                × (((flatten_span sample_trace sample_span).duration_us ≡ sample_span.duration)
                    × ((flatten_span sample_trace sample_span).start_time
                        ≡ sample_span.start_time *ℤ 1000)))))
flatten_span-parent_of_example = flatten_span-parent_of sample_trace sample_span

flatten_span-end_time_example :
    (flatten_span sample_trace sample_span).end_time
    ≡ sample_span.start_time *ℤ 1000 +ℤ sample_span.duration *ℤ 1000
flatten_span-end_time_example =
    flatten_span-end_time sample_trace sample_span (unfold ◌*ℤ◌ in (omega arith, omega arith))

abbrev sample_parts : List Part
sample_parts =
    other (varint_field 2 5) ∷ entry (varint_field 3 1 ∷ bytes_field 1 (codes "cpu") ∷ []) ∷ []

parse_profile_type_names_proto-encode_response_example :
    parse_profile_type_names_proto cells (encode_response cells sample_parts)
    ≡ ok (names_of sample_parts)
unfolding encode_message
parse_profile_type_names_proto-encode_response_example =
    parse_profile_type_names_proto-encode_response cells cells-IsProtowire sample_parts (
      (((omega arith, omega arith), omega arith), refl),
      (
        (
          (
            ((omega arith, omega arith), omega arith),
            (((omega arith, omega arith), omega arith), tt),
          ),
          omega arith,
        ),
        tt,
      ),
    )

abbrev response_fields : List Field
response_fields = varint_field 9 1 ∷ bytes_field 6 (codes "gz") ∷ []

parse_query_response_pprof_proto-encode_message_example :
    parse_query_response_pprof_proto cells (encode_message cells response_fields)
    ≡ first_pprof response_fields
parse_query_response_pprof_proto-encode_message_example =
    parse_query_response_pprof_proto-encode_message cells cells-IsProtowire response_fields
      (((omega arith, omega arith), omega arith), (((omega arith, omega arith), omega arith), tt))

build_query_request_proto-encode_message_example :
    build_query_request_proto cells (codes "cpu") (pos 5)
    ≡ encode_message cells (request_fields cells (codes "cpu") (pos 5))
build_query_request_proto-encode_message_example =
    build_query_request_proto-encode_message cells cells-IsProtowire (codes "cpu") (pos 5)
      (omega arith)

proto_parsers-ne-stuck_example :
    (parse_profile_type_names_proto cells (1 ∷ 2 ∷ []) ≢ stuck)
    × (parse_query_response_pprof_proto cells (1 ∷ 2 ∷ []) ≢ stuck)
proto_parsers-ne-stuck_example = proto_parsers-ne-stuck cells cells-IsProtowire (1 ∷ 2 ∷ [])

routes_of-lookup_example :
    lookup (codes "parca-server") (routes_of sample_options)
    ≡ route_for sample_options (codes "parca-server")
routes_of-lookup_example = routes_of-lookup sample_options (codes "parca-server")

-- The logs are skipped.
dial_context-route_for_example :
    dial_context sample_kube
      (record { config = 1; namespace = codes "ns"; routes = routes_of sample_options })
      (codes "victorialogs")
      []
    ≡ (err (fault (no_route (codes "victorialogs"))), [])
unfolding route_for same
dial_context-route_for_example =
    dial_context-route_for sample_kube sample_options 1 (codes "ns") (codes "victorialogs")
      (codes "victorialogs") (codes "80") [] refl refl
