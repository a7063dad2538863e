-- ===== src/Examples/Tables.antt =====
-- The theorems on lines, tables and open resources at concrete inputs.
use tilt_common.Base.{true, ◌≢◌, arith, ◌≡◌, refl, none, List, [], ◌∷◌, Bytes, codes, same}
use tilt_common.Base.Dict.{lookup}
use tilt_common.Base.Int.{pos}
use tilt_common.Errors.{ok, err, fault, grpc_status}
use tilt_common.Export.Success.{Ran, schema_made, run_export-Ran}
use tilt_common.Grpc.Frames.{Frame, encode_frames, messages, last_trailer}
use tilt_common.Parca.{export_profiles, read_grpc_web_response}
use tilt_common.Parca.Unary.{IsReply, read_grpc_web_response-IsReply}
use tilt_common.Traces.{
  export_traces, collect_spans, fetch_traces_for_service, flatten_traces, write_spans, flatten_span,
}
use tilt_common.Text.{contains, to_lower, trim_space}
use tilt_common.Proto.{parse_profile_type_names_proto}
use tilt_common.Grpc.{looks_like_html, put_uint32, no_trailer}
use tilt_common.Traces.Tags.{tag_of, last_tag, unset, flatten_span-last_tag}
use tilt_common.Samples.{sample_trace, sample_span, answering, calm, calm-Answers, sample_options}
use tilt_common.Traces.Collected.{Exported, export_traces-Exported}
use tilt_common.Export.{ExportResult, status_success, exporters_of, run_export}
use tilt_common.Host.{Response, Trace, opened, closed, made_dir, database}
use tilt_common.Export.Outcome.{IsCoherent}
use tilt_common.Export.Releases.{run_export-Held}
use tilt_common.Export.Sound.{run_export-AllTyped, run_export-returns}
use tilt_common.Host.Held.{Held}
use tilt_common.Host.Io.{◌>>=◌, attempt, act, ask, acquire, deferring, wrapped, log, lift}
use tilt_common.Logs.{build_logs_export_url, export_logs}
use tilt_common.Logs.Table.{log_table, export_logs-Streamed}
use tilt_common.Metrics.{build_metrics_export_url, export_metrics}
use tilt_common.Metrics.Stream.{Streamed}
use tilt_common.Metrics.Table.{metric_table, export_metrics-Streamed}
use tilt_common.Schema.Rows.{AllTyped}
use tilt_common.Text.Scan.{scan_lines}

run_export-AllTyped_example : AllTyped (run_export calm sample_options []).1
run_export-AllTyped_example = run_export-AllTyped calm sample_options

run_export-returns_example :
    (r : ExportResult) × ((run_export calm sample_options []).0 ≡ ok r) × IsCoherent r
run_export-returns_example = run_export-returns calm sample_options [] calm-Answers

run_export-Held_example : Held [] (run_export calm sample_options []).1
run_export-Held_example = run_export-Held calm sample_options

export_metrics-Streamed_example :
    (export_url : Bytes) × (build_metrics_export_url calm (codes "m") ≡ ok export_url)
    × Streamed calm none export_url
        (codes "metrics")
        (metric_table calm)
        []
        (export_metrics calm (codes "m") none []).1
unfolding export_metrics ◌>>=◌ lift deferring wrapped ask act acquire log attempt scan_lines
export_metrics-Streamed_example = export_metrics-Streamed calm (codes "m") none [] refl

export_logs-Streamed_example :
    (export_url : Bytes) × (build_logs_export_url calm (codes "l") ≡ ok export_url)
    × Streamed calm none export_url
        (codes "logs")
        (log_table calm)
        []
        (export_logs calm (codes "l") none []).1
unfolding export_logs ◌>>=◌ lift deferring wrapped ask act acquire log attempt scan_lines lookup
    same
export_logs-Streamed_example = export_logs-Streamed calm (codes "l") none [] refl

export_traces-Exported_example :
    Exported calm none (codes "t") [] (export_traces calm none (codes "t") []).1
unfolding export_traces ◌>>=◌ lift deferring wrapped ask act acquire log attempt collect_spans
    fetch_traces_for_service flatten_traces write_spans
export_traces-Exported_example = export_traces-Exported calm none (codes "t") [] refl

flatten_span-last_tag_example :
    tag_of (codes "span.kind") (flatten_span sample_trace sample_span)
    ≡ last_tag (codes "span.kind") (unset (codes "span.kind")) sample_span.tags
flatten_span-last_tag_example = flatten_span-last_tag sample_trace sample_span (codes "span.kind")

-- A run in which every response has an empty body.
abbrev empty_response : Response
empty_response = record {
  status = 200;
  content_type = [];
  body = record { content = []; broken = none; together = true };
}

abbrev empty_result : ExportResult
empty_result = record {
  status = status_success;
  output_path = codes "out/telemetry-T.duckdb";
  errors = [];
}

run_export-Ran_example :
    (end : Trace) × Ran
      (exporters_of (answering (ok empty_response)) sample_options)
      (schema_made (opened database ∷ made_dir (codes "out") ∷ []))
      end
    × ((run_export (answering (ok empty_response)) sample_options []).1 ≡ closed database ∷ end)
unfolding run_export ◌>>=◌ lift deferring wrapped ask act acquire log attempt export_metrics
    scan_lines export_profiles contains to_lower trim_space parse_profile_type_names_proto
run_export-Ran_example =
    run_export-Ran (answering (ok empty_response)) sample_options [] empty_result refl refl

-- A frame of a message, and a trailer with status 5.
abbrev refused_frames : List Frame
refused_frames =
    record { kind = 0; payload = 1 ∷ 2 ∷ [] }
    ∷ record { kind = 0x80; payload = codes "grpc-status: 5\r\n" }
    ∷ []

abbrev refused_response : Response
refused_response = record {
  status = 200;
  content_type = codes "application/grpc-web+proto";
  body = record { content = encode_frames refused_frames; broken = none; together = true };
}

refused_response-IsReply : IsReply calm refused_response refused_frames
unfolding encode_frames looks_like_html contains to_lower trim_space put_uint32
refused_response-IsReply = record {
  status = refl;
  unbroken = refl;
  framed = refl;
  fit = (omega arith, (omega arith, tt));
  plain = refl;
}

read_grpc_web_response-IsReply_example :
    (((last_trailer (λ s. s) no_trailer refused_frames).status ≡ pos 0)
      → read_grpc_web_response calm (codes "q") refused_response ≡ ok (messages refused_frames))
    × (((last_trailer (λ s. s) no_trailer refused_frames).status ≢ pos 0)
        → read_grpc_web_response calm (codes "q") refused_response
          ≡ err (
              fault (
                grpc_status
                  (last_trailer (λ s. s) no_trailer refused_frames).status
                  (codes "q")
                  (last_trailer (λ s. s) no_trailer refused_frames).message)))
read_grpc_web_response-IsReply_example =
    read_grpc_web_response-IsReply calm (codes "q") refused_response refused_frames
      refused_response-IsReply
