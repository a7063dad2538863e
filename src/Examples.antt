-- ===== src/Examples.antt =====
-- The theorems at concrete inputs.
mod Signals
mod Targets
mod Tables
mod Runs
use tilt_common.Base.{
  ℕ, ◌+◌, ◌^◌, ◌<◌, ◌≡◌, ◌≢◌, refl, ◌↔◌, Bool, true, false, Option, none, some, List, [], ◌∷◌, ◌++◌,
  arith, Bytes, codes, length, min, All, same, if◌then◌else◌, Bool-cases, inl, inr, ◌==◌,
}
use tilt_common.Base.Int.{ℤ, pos, ◌+ℤ◌, ◌*ℤ◌}
use tilt_common.Main
use tilt_common.Main.{Flags}
use tilt_common.Main.Verdict.{Verdict}
use tilt_common.Samples.{
  sample_kube, cells, cells-IsProtowire, calm, offline, read_only, sample_options, sample_entry,
  sample_line, sample_span, sample_trace,
}
use tilt_common.Text.Split.{Lacks}
use tilt_common.Text.{trim_space, to_lower, atoi}
use tilt_common.Errors.{
  err, fetching, Error, library, wrap, creating_directory, exporting, fault, no_route, Result, ok,
  stuck,
}
use tilt_common.Host.Io.{
  act, ask, acquire, deferring, wrapped, log, pure, raise, ◌>>=◌, attempt, lift,
}
use tilt_common.Metrics.{export_metrics}
use tilt_common.Parca.{export_profiles}
use tilt_common.Grpc.Frames.{
  IsByte, Frame, encode_frames, messages, last_trailer, parse_grpc_web_response-encode_frames,
  parse_grpc_web_response-frame_request,
}
use tilt_common.Export.{
  ExportOptions, ExportResult, ExportStatus, status_success, status_partial, status_failure,
  determine_status, Exporter, Tally, no_tally, run_export, run_exporters, exporters_of,
}
use tilt_common.Export.Outcome.{IsCoherent, run_export-IsCoherent}
use tilt_common.Export.Attempts.{Tallied, run_exporters-Tallied}
use tilt_common.Export.Status.{determine_status_iff}
use tilt_common.Grpc.{
  no_reply, no_trailer, parse_grpc_web_response, parse_grpc_web_trailer, frame_request,
}
use tilt_common.Grpc.Malformed.{Outcome, parse_grpc_web_response-Outcome}
use tilt_common.Grpc.Trailers
use tilt_common.Grpc.Trailers.{
  encode_fields, trailer_of, last_status, last_message, parse_grpc_web_trailer-encode_fields,
}
use tilt_common.Host.{database, response_body, MetricLine}

abbrev offline_result : ExportResult
offline_result = record {
  status = status_partial;
  output_path = codes "out/telemetry-T.duckdb";
  errors =
      wrap (exporting (codes "metrics")) (wrap (fetching (codes "m/api/v1/export")) (library 7))
      ∷ [];
}

run_export-IsCoherent_example : IsCoherent offline_result
unfolding run_export ◌>>=◌ attempt act ask acquire deferring wrapped export_metrics lift
    export_profiles log
run_export-IsCoherent_example = run_export-IsCoherent offline sample_options [] offline_result refl

abbrev three_exporters : List Exporter
three_exporters =
    record { name = codes "a"; skip = false; run = raise (library 1) }
    ∷ record { name = codes "b"; skip = true; run = raise (library 2) }
    ∷ record { name = codes "c"; skip = false; run = pure tt }
    ∷ []

abbrev three_tally : Tally
three_tally = record {
  attempted = 2;
  succeeded = 1;
  errors = wrap (exporting (codes "a")) (library 1) ∷ [];
}

run_exporters-Tallied_example :
    Tallied three_exporters no_tally three_tally [] (run_exporters three_exporters no_tally []).1
unfolding run_exporters ◌>>=◌ attempt lift
run_exporters-Tallied_example = run_exporters-Tallied three_exporters no_tally [] three_tally refl

abbrev one : ℕ
one = 1

abbrev none_of_them : ℕ
none_of_them = 0

abbrev three : ℕ
three = 3

determine_status_iff_example :
    ((determine_status three one ≡ status_success) ↔ (one ≡ three))
    × (((determine_status three one ≡ status_partial) ↔ ((0 < one) × (one < three)))
        × ((determine_status three one ≡ status_failure) ↔ ((one ≡ none_of_them) × (0 < three))))
determine_status_iff_example = determine_status_iff three one (omega arith)

abbrev two_frames : List Frame
two_frames =
    record { kind = 0; payload = 1 ∷ 2 ∷ [] }
    ∷ record { kind = 0x80; payload = codes "grpc-status: 5\r\n" }
    ∷ []

parse_grpc_web_response-encode_frames_example :
    parse_grpc_web_response (λ s. s) (encode_frames two_frames)
    ≡ ok (record {
      payload = messages two_frames;
      trailer = last_trailer (λ s. s) no_trailer two_frames;
    })
parse_grpc_web_response-encode_frames_example =
    parse_grpc_web_response-encode_frames (λ s. s) two_frames (omega arith, (omega arith, tt))

-- A whole frame, then the beginning of one.
abbrev cut_off_body : Bytes
cut_off_body = 0 ∷ 0 ∷ 0 ∷ 0 ∷ 1 ∷ 7 ∷ 0 ∷ []

cut_off_body-IsByte : All IsByte cut_off_body
cut_off_body-IsByte = (
  omega arith,
  (omega arith, (omega arith, (omega arith, (omega arith, (omega arith, (omega arith, tt)))))),
)

parse_grpc_web_response-Outcome_example :
    Outcome (λ s. s) no_reply cut_off_body (parse_grpc_web_response (λ s. s) cut_off_body)
parse_grpc_web_response-Outcome_example =
    parse_grpc_web_response-Outcome (λ s. s) cut_off_body cut_off_body-IsByte

abbrev short_message : Bytes
short_message = 1 ∷ 2 ∷ []

parse_grpc_web_response-frame_request_example : (length short_message < 2 ^ 32) ↔ (
    (framed : Bytes) × (frame_request short_message ≡ ok framed)
    × (parse_grpc_web_response (λ s. s) framed
        ≡ ok (record { payload = short_message; trailer = no_trailer })))
parse_grpc_web_response-frame_request_example =
    parse_grpc_web_response-frame_request (λ s. s) short_message

-- No byte of the text is `b`.
free_of : ℕ → Bytes → Bool
free_of b [] = true
free_of b (c ∷ s) = let rest = free_of b s in if c == b then false else rest

free_of-Lacks : (b : ℕ) (s : Bytes) → free_of b s ≡ true → Lacks b s
unfolding free_of
free_of-Lacks b [] h = tt
free_of-Lacks b (c ∷ s) h = elim (Bool-cases (c == b)) [
  | inl p ↦ absurd (ground arith)
  | inr p ↦ (ground arith, free_of-Lacks b s (ground arith))
]

abbrev status_field : Trailers.Field
status_field = record { name = codes "grpc-status"; value = codes " 5" }

abbrev message_field : Trailers.Field
message_field = record { name = codes "grpc-message"; value = codes " no data " }

status_field-IsField : Trailers.IsField status_field
unfolding free_of
status_field-IsField = record {
  no_colon = free_of-Lacks b':' (codes "grpc-status") refl;
  one_line = free_of-Lacks b'\r' (codes "grpc-status: 5") refl;
}

message_field-IsField : Trailers.IsField message_field
unfolding free_of
message_field-IsField = record {
  no_colon = free_of-Lacks b':' (codes "grpc-message") refl;
  one_line = free_of-Lacks b'\r' (codes "grpc-message: no data ") refl;
}

-- An error with its message, after a status that says that there is none.
abbrev error_fields : List Trailers.Field
error_fields =
    record { name = codes "grpc-status"; value = codes "0" } ∷ status_field ∷ message_field ∷ []

error_fields-IsField : All Trailers.IsField error_fields
unfolding free_of
error_fields-IsField = (
  record {
    no_colon = free_of-Lacks b':' (codes "grpc-status") refl;
    one_line = free_of-Lacks b'\r' (codes "grpc-status:0") refl;
  },
  (status_field-IsField, (message_field-IsField, tt)),
)

parse_grpc_web_trailer-encode_fields_example :
    parse_grpc_web_trailer (λ s. s) (encode_fields error_fields)
    ≡ trailer_of (pos 5) (codes "no data")
unfolding last_status last_message trim_space same to_lower atoi
parse_grpc_web_trailer-encode_fields_example =
    parse_grpc_web_trailer-encode_fields (λ s. s) error_fields error_fields-IsField

abbrev offline_flags : Flags
offline_flags = record {
  opts = sample_options;
  kubeconfig_path = [];
  namespace = codes "observability";
  no_port_forward = true;
}

-- Only the profiles are requested.
abbrev profiles_flags : Flags
profiles_flags = record offline_flags { opts = record sample_options { skip_metrics = true } }

-- Parca cannot be reached, and the exit code is 0.
unreachable_parca_test : (Main.run offline sample_kube profiles_flags []).0 ≡ ok 0
unfolding Main.run run_export ◌>>=◌ attempt act ask acquire deferring wrapped lift export_profiles
    log
unreachable_parca_test = refl
