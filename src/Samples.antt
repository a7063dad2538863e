-- ===== src/Samples.antt =====
-- A small protowire, worlds and machines: what the other modules' parameters can be.
use tilt_common.Base.{
  same, ap, ◌<◌, ◌≤◌, ℕ, suc, ◌+◌, ◌*◌, ◌/◌, ◌%◌, ◌≡◌, refl, true, false, none, some, List, [], ◌∷◌,
  ◌++◌, ◌==◌, leb, if◌then◌else◌, arith, Bytes, codes, length, take, length-append, take-append,
}
use tilt_common.Base.Int.{pos, negsuc}
use tilt_common.Base.Dict.{Dict}
use tilt_common.Errors.{library, ok, err, Result}
use tilt_common.Export.{ExportOptions}
use tilt_common.Host.Sound.{Answers, ok-ne-stuck}
use tilt_common.Mage.{Tools, World}
use tilt_common.Host.{Response, JaegerSpan, Host, Value, text, JaegerTrace, MetricLine}
use tilt_common.PortForward.{Kube}
use tilt_common.Proto.{Consumed, took, bad, Protowire}
use tilt_common.Proto.Wire.{IsProtowire}

-- A tag and a number take a cell each; bytes follow their number.
abbrev read_tag : Bytes → Consumed (ℕ × ℕ)
read_tag [] = bad (negsuc 0)
read_tag (c ∷ s) = took (c / 8, c % 8) 1

abbrev read_bytes : Bytes → Consumed Bytes
read_bytes [] = bad (negsuc 0)
read_bytes (n ∷ s) = if leb n (length s) then took (take n s) (suc n) else bad (negsuc 0)

abbrev read_number : Bytes → Consumed (Unit {0})
read_number [] = bad (negsuc 0)
read_number (n ∷ s) = took tt 1

abbrev forget : Consumed Bytes → Consumed (Unit {0})
forget (took v n) = took tt n
forget (bad e) = bad e

abbrev read_value : ℕ → Bytes → Consumed (Unit {0})
read_value wire_type b =
    if wire_type == 0
    then read_number b
    else if wire_type == 2
    then forget (read_bytes b)
    else bad (negsuc 0)

abbrev pub cells : Protowire
cells = record {
  consume_tag = read_tag;
  consume_bytes = read_bytes;
  consume_field_value = λ num wire_type b. read_value wire_type b;
  append_tag = λ b num wire_type. b ++ (num * 8 + wire_type) ∷ [];
  append_varint = λ b v. b ++ v ∷ [];
  append_bytes = λ b v. b ++ length v ∷ v;
  append_string = λ b v. b ++ length v ∷ v;
}

-- How many cells were taken.
abbrev size {ℓ} : {A : Type ℓ} → Consumed A → ℕ
size (took v n) = n
size (bad e) = 0

tag_takes : (b : Bytes) (x : ℕ × ℕ) (n : ℕ) → read_tag b ≡ took x n → (0 < n) × (n ≤ length b)
tag_takes [] x n h = cc
tag_takes (c ∷ s) x n h = let p = ap size h in (omega (arith, p), omega (arith, p))

size-read_bytes : (b : Bytes) → size (read_bytes b) ≤ length b
size-read_bytes [] = omega arith
size-read_bytes (m ∷ s) = ground arith

bytes_take : (b v : Bytes) (n : ℕ) → read_bytes b ≡ took v n → n ≤ length b
bytes_take b v n h = omega (arith, ap size h, size-read_bytes b)

size-forget : (c : Consumed Bytes) → size (forget c) ≡ size c
size-forget (took v n) = refl
size-forget (bad e) = refl

size-read_number : (b : Bytes) → size (read_number b) ≤ length b
size-read_number [] = omega arith
size-read_number (c ∷ s) = omega arith

size-read_value : (wire_type : ℕ) (b : Bytes) → size (read_value wire_type b) ≤ length b
size-read_value wire_type b =
    ground (arith, size-read_number b, size-forget (read_bytes b), size-read_bytes b)

value_takes :
    (wire_type : ℕ) (b : Bytes) (n : ℕ) → read_value wire_type b ≡ took tt n → n ≤ length b
value_takes wire_type b n h = omega (arith, ap size h, size-read_value wire_type b)

tag_written :
    (num wire_type : ℕ)
    → wire_type < 8
    → ((num * 8 + wire_type) / 8 ≡ num) × ((num * 8 + wire_type) % 8 ≡ wire_type)
tag_written num wire_type h = (omega arith, omega arith)

read_written : (v rest : Bytes) → read_bytes (length v ∷ (v ++ rest)) ≡ took v (suc (length v))
read_written v rest = ground (arith, length-append v rest, take-append v rest)

pub cells-IsProtowire : IsProtowire cells
cells-IsProtowire = record {
  tag_takes = tag_takes;
  bytes_takes = bytes_take;
  field_takes = λ num wire_type b n h. value_takes wire_type b n h;
  append_tag-append = λ b num wire_type. refl;
  append_varint-append = λ b v. refl;
  append_bytes-append = λ b v. refl;
  append_string-append_bytes = λ b v. refl;
  consume_tag-append_tag =
      λ num wire_type rest p q r. let (p, q) = tag_written num wire_type r in rw (p, q);
  consume_bytes-append_bytes = λ v rest h. read_written v rest;
  consume_field_value-append_bytes = λ num v rest h. ap forget (read_written v rest);
  consume_field_value-append_varint = λ num v rest h. refl;
}

abbrev join : List Bytes → Bytes
join [] = []
join (part ∷ parts) = let rest = join parts in part ++ b'/' ∷ rest

-- A world in which every request gets the same answer and nothing on the machine fails.
abbrev pub sample_span : JaegerSpan
sample_span = record {
  trace_id = codes "t1";
  span_id = codes "s2";
  operation_name = codes "get";
  references =
      record { ref_type = codes "FOLLOWS_FROM"; trace_id = codes "t1"; span_id = codes "s0" }
      ∷ record { ref_type = codes "CHILD_OF"; trace_id = codes "t1"; span_id = codes "s1" }
      ∷ [];
  start_time = pos 5;
  duration = pos 3;
  tags =
      record { key = codes "span.kind"; kind = codes "string"; value = text (codes "server") } ∷ [];
  process_id = codes "p1";
}

abbrev pub sample_trace : JaegerTrace
sample_trace = record {
  trace_id = codes "t1";
  spans = sample_span ∷ sample_span ∷ [];
  processes = (codes "p1", record { service_name = codes "api"; tags = [] }) ∷ [];
}

abbrev pub sample_line : MetricLine
sample_line = record {
  metric = (codes "__name__", codes "up") ∷ (codes "job", codes "api") ∷ [];
  values = 1 ∷ 2 ∷ 3 ∷ [];
  timestamps = pos 10 ∷ pos 20 ∷ [];
}

abbrev pub sample_entry : Dict Value
sample_entry =
    (codes "_msg", text (codes "hi"))
    ∷ (codes "_time", text (codes "now"))
    ∷ (codes "level", text (codes "info"))
    ∷ (codes "pod", text (codes "a"))
    ∷ []

abbrev pub answering : Result Response → Host
answering response = record {
  url_parse = λ s. ok (record { base = s; path = []; raw_query = [] });
  url_string = λ u. u.base ++ u.path;
  parse_query = λ s. [];
  encode_query = λ q. [];
  request_error = λ verb url. none;
  decode_services = λ body. ok (codes "api" ∷ []);
  decode_traces = λ body. ok (sample_trace ∷ []);
  unmarshal_metric_line = λ line. ok sample_line;
  unmarshal_log_line = λ line. ok sample_entry;
  unmarshal_object = λ line. ok ((codes "types", line) ∷ []);
  unmarshal_strings = λ line. ok (line ∷ []);
  unmarshal_profile_types = λ line. ok [];
  unmarshal_query_response =
      λ line. ok (record { pprof = line; report_pprof = []; data_pprof = [] });
  marshal_query_request = λ q. ok q.query;
  base64_decode = λ s. ok s;
  unicode_lower = λ s. s;
  format_time = λ layout t. codes "T";
  parse_rfc3339 = λ s. ok (pos 7);
  join_path = λ a b. a ++ b'/' ∷ b;
  clean_path = λ s. s;
  protowire = cells;
  now = λ tr. pos 9;
  respond = λ tr client request. response;
  connect_error = λ tr. none;
  connection_is_typed = λ tr. true;
  appender_error = λ tr table. none;
  append_error = λ tr table row. none;
  flush_error = λ tr table. none;
  open_error = λ tr path. none;
  exec_error = λ tr sql. none;
  mkdir_error = λ tr path. none;
  create_error = λ tr path. none;
  write_error = λ tr path bytes. none;
}

abbrev pub calm : Host
calm = answering (
    ok (record {
      status = 200;
      content_type = codes "application/json";
      body = record { content = codes "ab"; broken = none; together = true };
    }))

-- No request gets an answer.
abbrev pub offline : Host
offline = answering (err (library 7))

-- No directory can be made.
abbrev pub read_only : Host
read_only = record calm { mkdir_error = λ tr path. some (library 8) }

abbrev pub sample_options : ExportOptions
sample_options = record {
  output_dir = codes "out";
  metrics_url = codes "m";
  traces_url = codes "t";
  logs_url = codes "l";
  parca_url = codes "p";
  skip_metrics = false;
  skip_traces = true;
  skip_logs = true;
  skip_profiles = false;
  http_client = none;
}

-- A cluster in which every service has one pod.
abbrev pub sample_kube : Kube
sample_kube = record {
  getenv = λ name. [];
  join_path = λ a b. a ++ b;
  split_host_port = λ addr. ok (addr, codes "80");
  build_config_from_flags = λ path. ok 1;
  in_cluster_config = err (library 1);
  new_for_config = λ cfg. ok tt;
  get_namespace = λ tr cfg name. ok tt;
  service_selector = λ tr cfg ns name. ok ((codes "app", name) ∷ []);
  format_selector = λ labels. codes "app";
  list_pods = λ tr cfg ns selector. ok (1 ∷ []);
  forward = λ tr cfg pod port. ok 3;
}

pub calm-Answers : Answers calm
calm-Answers = record {
  url_parse = λ s. ok-ne-stuck _;
  decode_services = λ b. ok-ne-stuck _;
  decode_traces = λ b. ok-ne-stuck _;
  unmarshal_metric_line = λ s. ok-ne-stuck _;
  unmarshal_log_line = λ s. ok-ne-stuck _;
  unmarshal_object = λ s. ok-ne-stuck _;
  unmarshal_query_response = λ s. ok-ne-stuck _;
  marshal_query_request = λ q. ok-ne-stuck _;
  base64_decode = λ s. ok-ne-stuck _;
  parse_rfc3339 = λ s. ok-ne-stuck _;
  protowire = cells-IsProtowire;
  respond = λ tr c r. ok-ne-stuck _;
}

-- A machine on which every tool works.
abbrev pub working : Tools
working = record {
  ensure_error = λ w tool. none;
  run_tool_error = λ w tool args. none;
  run_error = λ w tool args env. none;
  getwd_error = λ w. none;
  chdir_error = λ w dir. none;
  abs_path = λ cwd path. some (cwd ++ b'/' ∷ path);
  abs_error = library 9;
  join_path = λ parts. join parts;
  getenv = λ name. codes "bin";
  temp_dir = codes "tmp";
  goos = codes "linux";
  goarch = codes "amd64";
}

-- A machine on which helm cannot be installed.
abbrev pub bare : Tools
bare = record working {
  ensure_error = λ w tool. if same tool (codes "helm") then some (library 4) else none;
}

abbrev pub repository : World
repository = record { cwd = codes "repo"; history = [] }
