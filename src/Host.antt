-- ===== src/Host.antt =====
-- What cmd/observability-export calls and does not implement: HTTP, DuckDB, the file system, the
-- clock, JSON, URLs, base64 and protowire, as a record of functions. An answer of the outside
-- world may depend on all that the program did before, the trace of its events.
pub mod Io
pub mod Held
pub mod Releases
pub mod Sound
pub mod Table
use tilt_common.Base.{ℕ, Bool, true, false, Option, none, some, List, [], ◌∷◌, Bytes}
use tilt_common.Base.Dict.{Dict}
use tilt_common.Base.Int.{ℤ}
use tilt_common.Errors.{Error, Result}
use tilt_common.Proto.{Protowire}

-- `*url.URL`: the path and the raw query, which the program reads and sets, and all else as `base`.
pub record Url : Type 0 where
  pub base : Bytes
  pub path : Bytes
  pub raw_query : Bytes

pub data Verb : Type 0 where
  get post : Verb

pub record Request : Type 0 where
  pub verb : Verb
  pub url : Bytes
  pub headers : Dict Bytes
  pub payload : Bytes

-- A response body: what it delivers before it ends, the read error that ends it, if it is one, and
-- whether the last read reports the end together with its bytes.
pub record Body : Type 0 where
  pub content : Bytes
  pub broken : Option Error
  pub together : Bool

pub record Response : Type 0 where
  pub status : ℕ
  pub content_type : Bytes
  pub body : Body

-- A service and port that a host name stands for.
pub record Route : Type 0 where
  pub service_name : Bytes
  pub port : ℕ

-- `*http.Client`: the shared client, one that was handed in, or one that dials by routes,
-- with the cluster's configuration and the namespace.
pub data Client : Type 0 where
  default_client : Client
  custom_client : ℕ → Client
  forwarding_client : ℕ → Bytes → Dict Route → Client

-- What is opened and has to be closed.
pub data Resource : Type 0 where
  response_body connection appender database profile_file : Resource

-- A value in a row. A float64 is only passed on, so it is its bit pattern.
pub data Cell : Type 0 where
  timestamp : ℤ → Cell
  varchar : Bytes → Cell
  null : Cell
  double : ℕ → Cell
  bigint : ℤ → Cell
  dict : Dict Bytes → Cell
  nil_dict : Cell

-- What is logged that depends on the data.
pub data LogLine : Type 0 where
  skipped_line : Bytes → LogLine
  skipped_service : Bytes → LogLine
  skipped_profile : Bytes → LogLine
  parca_unavailable : LogLine
  rows_written : Bytes → ℕ → LogLine
  profiles_downloaded : ℕ → LogLine

-- A request to the Kubernetes API, by the client function that makes it: a namespace, a service of a
-- namespace, the pods of a namespace by a selector, a connection to a pod's port.
pub data KubeCall : Type 0 where
  namespaces_get : Bytes → KubeCall
  services_get : Bytes → Bytes → KubeCall
  pods_list : Bytes → Bytes → KubeCall
  pod_forward : ℕ → ℕ → KubeCall

pub data Event : Type 0 where
  sent : Client → Request → Event
  opened : Resource → Event
  closed : Resource → Event
  appended : Bytes → List Cell → Event
  flushed : Bytes → Event
  executed : Bytes → Event
  made_dir : Bytes → Event
  queried : KubeCall → Event
  created_file : Bytes → Event
  wrote_file : Bytes → Bytes → Event
  logged : LogLine → Event

-- The latest event comes first.
abbrev pub Trace : Type 0
Trace = List Event

-- A JSON value where Go decodes into `any`: a string, or another value with what `%v` prints of it.
pub data Value : Type 0 where
  text : Bytes → Value
  other : Bytes → Value

pub record MetricLine : Type 0 where
  pub metric : Dict Bytes
  pub values : List ℕ
  pub timestamps : List ℤ

pub record JaegerRef : Type 0 where
  pub ref_type : Bytes
  pub trace_id : Bytes
  pub span_id : Bytes

pub record JaegerTag : Type 0 where
  pub key : Bytes
  pub kind : Bytes
  pub value : Value

pub record JaegerSpan : Type 0 where
  pub trace_id : Bytes
  pub span_id : Bytes
  pub operation_name : Bytes
  pub references : List JaegerRef
  pub start_time : ℤ
  pub duration : ℤ
  pub tags : List JaegerTag
  pub process_id : Bytes

pub record JaegerProcess : Type 0 where
  pub service_name : Bytes
  pub tags : List JaegerTag

pub record JaegerTrace : Type 0 where
  pub trace_id : Bytes
  pub spans : List JaegerSpan
  pub processes : Dict JaegerProcess

pub record QueryRequest : Type 0 where
  pub mode : ℕ
  pub query : Bytes
  pub report_type : ℕ
  pub start : Bytes
  pub end : Bytes

pub record QueryResponse : Type 0 where
  pub pprof : Bytes
  pub report_pprof : Bytes
  pub data_pprof : Bytes

pub record Host : Type 0 where
  -- net/url, net/http
  pub url_parse : Bytes → Result Url
  pub url_string : Url → Bytes
  pub parse_query : Bytes → Dict (List Bytes)
  pub encode_query : Dict (List Bytes) → Bytes
  pub request_error : Verb → Bytes → Option Error
  -- encoding/json, from a stream or from bytes
  pub decode_services : Body → Result (List Bytes)
  pub decode_traces : Body → Result (List JaegerTrace)
  pub unmarshal_metric_line : Bytes → Result MetricLine
  pub unmarshal_log_line : Bytes → Result (Dict Value)
  pub unmarshal_object : Bytes → Result (Dict Bytes)
  pub unmarshal_strings : Bytes → Result (List Bytes)
  pub unmarshal_profile_types : Bytes → Result (List Bytes)
  pub unmarshal_query_response : Bytes → Result QueryResponse
  pub marshal_query_request : QueryRequest → Result Bytes
  -- encoding/base64, the Unicode tables, time, path/filepath, protowire
  pub base64_decode : Bytes → Result Bytes
  pub unicode_lower : Bytes → Bytes
  pub format_time : Bytes → ℤ → Bytes
  pub parse_rfc3339 : Bytes → Result ℤ
  pub join_path : Bytes → Bytes → Bytes
  pub clean_path : Bytes → Bytes
  pub protowire : Protowire
  -- the world
  pub now : Trace → ℤ
  pub respond : Trace → Client → Request → Result Response
  pub connect_error : Trace → Option Error
  pub connection_is_typed : Trace → Bool
  pub appender_error : Trace → Bytes → Option Error
  pub append_error : Trace → Bytes → List Cell → Option Error
  pub flush_error : Trace → Bytes → Option Error
  pub open_error : Trace → Bytes → Option Error
  pub exec_error : Trace → Bytes → Option Error
  pub mkdir_error : Trace → Bytes → Option Error
  pub create_error : Trace → Bytes → Option Error
  pub write_error : Trace → Bytes → Bytes → Option Error
