-- ===== src/Parca.antt =====
-- cmd/observability-export/pprof.go: the download of Parca's profiles over the API that answers.
pub mod Releases
pub mod Sound
pub mod Discover
pub mod Profiles
pub mod Names
pub mod Unary
use tilt_common.Base.{
  ℕ, ◌+◌, Bool, true, false, ◌||◌, Option, none, some, List, [], ◌∷◌, ◌++◌, map, ◌==◌,
  if◌then◌else◌, Bytes, codes, is_empty,
}
use tilt_common.Base.Dict.{Dict, lookup, insert}
use tilt_common.Base.Int.{ℤ, pos, negsuc}
use tilt_common.Errors.{
  Step, unexpected_http_status, grpc_status, html_response, no_pprof, no_types_field, no_endpoint,
  parsing_url, creating_request, reading_response, fetching_types, fetching_types_grpc,
  decoding_types, decoding_types_grpc, sending_grpc, encoding_query, querying_profile,
  querying_profile_grpc, decoding_query, decoding_query_grpc, decoding_base64,
  creating_profile_file, writing_profile, creating_directory, Error, fault, tried, Result, ok, err,
  stuck, wrapping,
}
use tilt_common.Errors
use tilt_common.Grpc.{Reply, parse_grpc_web_response, frame_request, looks_like_html}
use tilt_common.Host.{
  Verb, get, post, Request, Response, QueryRequest, QueryResponse, Client, response_body,
  profile_file, made_dir, created_file, wrote_file, skipped_profile, parca_unavailable,
  profiles_downloaded, opened, Trace, Host,
}
use tilt_common.Host.Io.{
  Io, ◌>>=◌, ◌>>◌, lift, pure, raise, wrapped, attempt, deferring, act, acquire, log, ask,
}
use tilt_common.Http.{client_or_default, check_request, read_all, send}
use tilt_common.Proto.{
  parse_profile_type_names_proto, parse_query_response_pprof_proto, build_query_request_proto,
}

pub record ParcaApi : Type 0 where
  pub profile_types_path : Bytes
  pub query_path : Bytes
  pub profile_types_post : Bool
  pub connect_protocol : Bool
  pub grpc_web : Bool

abbrev grpc_web_api : ParcaApi
grpc_web_api = record {
  profile_types_path = codes "/api/parca.query.v1alpha1.QueryService/ProfileTypes";
  query_path = codes "/api/parca.query.v1alpha1.QueryService/Query";
  profile_types_post = true;
  connect_protocol = false;
  grpc_web = true;
}

abbrev pub gateway_api : ParcaApi
gateway_api = record {
  profile_types_path = codes "/profiles/types";
  query_path = codes "/profiles/query";
  profile_types_post = false;
  connect_protocol = false;
  grpc_web = false;
}

abbrev rest_api : ParcaApi
rest_api = record {
  profile_types_path = codes "/api/v1/profile_types";
  query_path = codes "/api/v1/query";
  profile_types_post = false;
  connect_protocol = false;
  grpc_web = false;
}

abbrev legacy_api : ParcaApi
legacy_api = record {
  profile_types_path = codes "/parca.query.v1alpha1.QueryService/ProfileTypes";
  query_path = codes "/parca.query.v1alpha1.QueryService/Query";
  profile_types_post = true;
  connect_protocol = true;
  grpc_web = false;
}

unfoldable pub parca_api_candidates : List ParcaApi
parca_api_candidates = grpc_web_api ∷ gateway_api ∷ rest_api ∷ legacy_api ∷ []

-- `sanitizeProfileName`: the replacer's three pairs, a byte each.
unfoldable pub sanitize_byte : ℕ → ℕ
sanitize_byte c = if c == b':' || c == b'/' || c == b' ' then b'_' else c

unfoldable pub sanitize_profile_name : Bytes → Bytes
unfolding sanitize_byte
sanitize_profile_name profile_type = map sanitize_byte profile_type

abbrev json_headers : ParcaApi → Dict Bytes
json_headers api =
    let headers : Dict Bytes =
      (codes "Content-Type", codes "application/json")
      ∷ (codes "Accept", codes "application/json")
      ∷ [] in
    if api.connect_protocol
    then headers ++ (codes "Connect-Protocol-Version", codes "1") ∷ []
    else headers

abbrev grpc_web_headers : Dict Bytes
grpc_web_headers =
    (codes "Content-Type", codes "application/grpc-web+proto")
    ∷ (codes "Accept", codes "application/grpc-web+proto")
    ∷ (codes "X-Grpc-Web", codes "1")
    ∷ []

-- The names that are not empty.
abbrev pub non_empty_names : List Bytes → List Bytes
non_empty_names [] = []
non_empty_names (name ∷ names) =
    let rest = non_empty_names names in if is_empty name then rest else name ∷ rest

abbrev timestamp_format : Bytes
timestamp_format = codes "2006-01-02T150405"

abbrev rfc3339 : Bytes
rfc3339 = codes "2006-01-02T15:04:05Z07:00"

-- `queryResp.Pprof`, then that of the report, then that of the data.
unfoldable pub response_pprof_text : QueryResponse → Bytes
response_pprof_text r =
    if is_empty r.pprof
    then (if is_empty r.report_pprof then r.data_pprof else r.report_pprof)
    else r.pprof

-- The probe's result with an earlier candidate's error in front.
abbrev noting : Bytes → Error → Result (ParcaApi × List Bytes) → Result (ParcaApi × List Bytes)
noting path e (ok found) = ok found
noting path e (err rest) = err (tried path e rest)
noting path e stuck = stuck

module _ (H : Host) where
  abbrev refuse_html : Bytes → Response → Bytes → Result Bytes
  refuse_html what resp body =
      if looks_like_html H.unicode_lower resp.content_type body
      then err (fault (html_response what))
      else ok body

  -- What `grpcWebUnary` makes of the reply that it parsed.
  unfoldable pub check_reply : Bytes → Reply → Result Bytes
  check_reply path reply = elim reply.trailer.status [
    | pos n ↦
        if n == 0
        then ok reply.payload
        else err (fault (grpc_status (pos n) path reply.trailer.message))
    | negsuc n ↦ err (fault (grpc_status (negsuc n) path reply.trailer.message))
  ]

  -- The checks on a response that all requests share: its status, a read error, HTML. `what` is
  -- the path or the profile type that the error names.
  unfoldable pub read_response : Bytes → Response → Result Bytes
  unfolding looks_like_html
  read_response what resp =
      if resp.status == 200
      then Errors.◌>>=◌ (wrapping (reading_response what) (read_all resp.body))
          (refuse_html what resp)
      else err (fault (unexpected_http_status resp.status what))

  -- The part of `grpcWebUnary` behind the response.
  unfoldable pub read_grpc_web_response : Bytes → Response → Result Bytes
  unfolding read_response check_reply parse_grpc_web_response
  read_grpc_web_response path resp =
      Errors.◌>>=◌ (read_response path resp)
        λ body. Errors.◌>>=◌ (parse_grpc_web_response H.unicode_lower body) (check_reply path)

  unfoldable pub grpc_web_unary : Client → Bytes → Bytes → Bytes → Io Bytes
  unfolding frame_request send read_grpc_web_response
  grpc_web_unary client base_url path message = do
    parsed_url ← lift (wrapping (parsing_url base_url) (H.url_parse base_url))
    framed ← lift (frame_request message)
    let url = H.url_string (record parsed_url { path = path })
    lift (wrapping (creating_request path) (check_request H post url))
    resp ← wrapped sending_grpc (
        send H client
          (record { verb = post; url = url; headers = grpc_web_headers; payload = framed }))
    deferring response_body (lift (read_grpc_web_response path resp))

  -- One key of the loop of `parseProfileTypeNames`: strings, or objects with a name.
  types_of : Result (List Bytes) → Result (List Bytes) → Option (List Bytes)
  types_of (ok names) typed = some names
  types_of (err e) (ok typed) = some (non_empty_names typed)
  types_of _ _ = none

  types_at : Option Bytes → Option (List Bytes)
  types_at none = none
  types_at (some payload) =
      types_of (H.unmarshal_strings payload) (H.unmarshal_profile_types payload)

  unfoldable pub types_in : Dict Bytes → List Bytes → Result (List Bytes)
  unfolding types_at types_of
  types_in raw [] = err (fault no_types_field)
  types_in raw (key ∷ keys) = elim (types_at (lookup key raw)) [
    | some names ↦ ok names
    | none ↦ types_in raw keys
  ]

  unfoldable pub parse_profile_type_names : Bytes → Result (List Bytes)
  unfolding types_in
  parse_profile_type_names body =
      Errors.◌>>=◌ (wrapping decoding_types (H.unmarshal_object body))
        λ raw. types_in raw (codes "profileTypes" ∷ codes "types" ∷ codes "data" ∷ [])

  types_over_grpc : Option Client → Bytes → ParcaApi → Io (List Bytes)
  unfolding grpc_web_unary
  types_over_grpc client parca_url api = do
    payload ←
        wrapped fetching_types_grpc
          (grpc_web_unary (client_or_default client) parca_url api.profile_types_path [])
    lift (wrapping decoding_types_grpc (parse_profile_type_names_proto H.protowire payload))

  types_over_json : Option Client → Bytes → ParcaApi → Io (List Bytes)
  unfolding send read_response parse_profile_type_names
  types_over_json client parca_url api = do
    parsed_url ← lift (wrapping (parsing_url parca_url) (H.url_parse parca_url))
    let url = H.url_string (record parsed_url { path = api.profile_types_path })
    let verb = if api.profile_types_post then post else get
    lift (wrapping (creating_request api.profile_types_path) (check_request H verb url))
    resp ← wrapped fetching_types (
        send H (client_or_default client) (record {
          verb = verb;
          url = url;
          headers = json_headers api;
          payload = if api.profile_types_post then codes "{}" else [];
        }))
    deferring response_body do
      body ← lift (read_response api.profile_types_path resp)
      lift (wrapping decoding_types (parse_profile_type_names body))

  unfoldable pub fetch_profile_types_with_api : Option Client → Bytes → ParcaApi → Io (List Bytes)
  unfolding types_over_grpc types_over_json
  fetch_profile_types_with_api client parca_url api =
      if api.grpc_web
      then types_over_grpc client parca_url api
      else types_over_json client parca_url api

  -- Behind a probe: the candidate that answered, or the next ones with this error noted.
  found_or_next :
      ParcaApi → Result (List Bytes) → Io (ParcaApi × List Bytes) → Io (ParcaApi × List Bytes)
  found_or_next api (ok types) next tr = (ok (api, types), tr)
  found_or_next api (err e) next tr =
      let (r, tr') = next tr in (noting api.profile_types_path e r, tr')
  found_or_next api stuck next tr = (stuck, tr)

  unfoldable pub probe : Option Client → Bytes → List ParcaApi → Io (ParcaApi × List Bytes)
  unfolding found_or_next
  probe client parca_url [] = raise (fault no_endpoint)
  probe client parca_url (api ∷ candidates) = do
    types ← attempt (fetch_profile_types_with_api client parca_url api)
    found_or_next api types (probe client parca_url candidates)

  unfoldable pub discover_parca_api : Option Client → Bytes → Io (ParcaApi × List Bytes)
  unfolding probe fetch_profile_types_with_api parca_api_candidates
  discover_parca_api client parca_url = probe client parca_url parca_api_candidates

  unfoldable pub download_profile_grpc_web : Client → Bytes → ParcaApi → Bytes → ℤ → Io Bytes
  unfolding grpc_web_unary
  download_profile_grpc_web client parca_url api profile_type now = do
    payload ← wrapped (querying_profile_grpc profile_type) (
        grpc_web_unary client parca_url api.query_path
          (build_query_request_proto H.protowire profile_type now))
    pprof ← lift (
        wrapping (decoding_query_grpc profile_type)
          (parse_query_response_pprof_proto H.protowire payload))
    if is_empty pprof then raise (fault (no_pprof profile_type)) else pure pprof

  -- The pprof data of a JSON response.
  unfoldable pub pprof_of_response : Bytes → Bytes → Result Bytes
  unfolding response_pprof_text
  pprof_of_response profile_type body =
      Errors.◌>>=◌ (wrapping (decoding_query profile_type) (H.unmarshal_query_response body)) λ r.
        if is_empty (response_pprof_text r)
        then err (fault (no_pprof profile_type))
        else wrapping (decoding_base64 profile_type) (H.base64_decode (response_pprof_text r))

  query_request : Bytes → ℤ → QueryRequest
  query_request profile_type now = record {
    mode = 1;
    query = profile_type ++ codes "{}";
    report_type = 1;
    start = codes "1970-01-01T00:00:00Z";
    end = H.format_time rfc3339 now;
  }

  -- The file that a profile is saved to.
  unfoldable pub profile_filename : Bytes → Bytes → ℤ → Bytes
  unfolding sanitize_profile_name
  profile_filename profiles_dir profile_type now = H.clean_path (
      H.join_path profiles_dir (
        sanitize_profile_name profile_type
        ++ b'-' ∷ (H.format_time timestamp_format now ++ codes ".pb.gz")))

  unfoldable pub save_profile : Bytes → Bytes → ℤ → Bytes → Io (Unit {0})
  unfolding profile_filename
  save_profile profiles_dir profile_type now pprof = do
    let filename = profile_filename profiles_dir profile_type now
    wrapped (creating_profile_file filename) (
        act (created_file filename) (λ tr. H.create_error tr filename)
        >> acquire profile_file (λ tr. none))
    deferring profile_file (
        wrapped writing_profile
          (act (wrote_file filename pprof) (λ tr. H.write_error tr filename pprof)))

  save_over_grpc : Option Client → Bytes → ParcaApi → Bytes → Bytes → ℤ → Io (Unit {0})
  unfolding download_profile_grpc_web save_profile
  save_over_grpc client parca_url api profile_type profiles_dir now = do
    pprof ← download_profile_grpc_web (client_or_default client) parca_url api profile_type now
    save_profile profiles_dir profile_type now pprof

  save_over_json : Option Client → Bytes → ParcaApi → Bytes → Bytes → ℤ → Io (Unit {0})
  unfolding send read_response pprof_of_response query_request save_profile
  save_over_json client parca_url api profile_type profiles_dir now = do
    parsed_url ← lift (wrapping (parsing_url parca_url) (H.url_parse parca_url))
    let url = H.url_string (record parsed_url { path = api.query_path })
    payload ← lift (
        wrapping (encoding_query profile_type)
          (H.marshal_query_request (query_request profile_type now)))
    lift (wrapping (creating_request profile_type) (check_request H post url))
    resp ← wrapped (querying_profile profile_type) (
        send H (client_or_default client)
          (record { verb = post; url = url; headers = json_headers api; payload = payload }))
    deferring response_body do
      pprof ← lift (Errors.◌>>=◌ (read_response profile_type resp) (pprof_of_response profile_type))
      save_profile profiles_dir profile_type now pprof

  unfoldable pub download_profile : Option Client → Bytes → ParcaApi → Bytes → Bytes → Io (Unit {0})
  unfolding save_over_grpc save_over_json
  download_profile client parca_url api profile_type profiles_dir = do
    now ← ask H.now
    if api.grpc_web
        then save_over_grpc client parca_url api profile_type profiles_dir now
        else save_over_json client parca_url api profile_type profiles_dir now

  -- One round of the loop over the profile types: a download that fails is skipped.
  count_download : Bytes → ℕ → Result (Unit {0}) → Io ℕ
  count_download profile_type downloaded (ok u) = pure (downloaded + 1)
  count_download profile_type downloaded (err e) = do
    log (skipped_profile profile_type)
    pure downloaded
  count_download profile_type downloaded stuck = lift stuck

  unfoldable pub download_profiles :
      Option Client → Bytes → ParcaApi → Bytes → List Bytes → ℕ → Io ℕ
  unfolding count_download
  download_profiles client parca_url api profiles_dir [] downloaded = pure downloaded
  download_profiles client parca_url api profiles_dir (profile_type ∷ types) downloaded = do
    done ← attempt (download_profile client parca_url api profile_type profiles_dir)
    downloaded' ← count_download profile_type downloaded done
    download_profiles client parca_url api profiles_dir types downloaded'

  -- Behind the discovery: Parca being unavailable is no error.
  download_found : Option Client → Bytes → Bytes → Result (ParcaApi × List Bytes) → Io (Unit {0})
  unfolding download_profiles
  download_found client parca_url profiles_dir (err e) = log parca_unavailable
  download_found client parca_url profiles_dir stuck = lift stuck
  download_found client parca_url profiles_dir (ok (api, [])) = pure tt
  download_found client parca_url profiles_dir (ok (api, profile_type ∷ types)) = do
    downloaded ← download_profiles client parca_url api profiles_dir (profile_type ∷ types) 0
    log (profiles_downloaded downloaded)

  unfoldable pub export_profiles : Bytes → Bytes → Option Client → Io (Unit {0})
  unfolding discover_parca_api download_found
  export_profiles parca_url output_dir client = do
    let profiles_dir = H.join_path output_dir (codes "profiles")
    wrapped (creating_directory profiles_dir)
        (act (made_dir profiles_dir) (λ tr. H.mkdir_error tr profiles_dir))
    found ← attempt (discover_parca_api client parca_url)
    download_found client parca_url profiles_dir found
