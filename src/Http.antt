-- ===== src/Http.antt =====
-- cmd/observability-export/helpers.go: requests, table appenders, and closing what was opened.
pub mod Releases
pub mod Sound
pub mod Table
use tilt_common.Base.{
  ℕ, ◌+◌, Bool, true, false, Option, none, some, List, [], ◌∷◌, ◌==◌, if◌then◌else◌, Bytes, codes,
}
use tilt_common.Base.Dict.{Dict, insert}
use tilt_common.Errors.{
  unexpected_http_status, driver_type_assertion, parsing_url, creating_request, fetching,
  reading_response, decoding_response, obtaining_connection, creating_appender,
  initializing_appender, Error, fault, wrap, Result, ok, err, stuck, wrapping,
}
use tilt_common.Host.{
  Url, Verb, get, Request, Body, Response, Client, default_client, response_body, connection,
  appender, sent, opened, Trace, Host,
}
use tilt_common.Host.Io.{
  Io, ◌>>=◌, ◌>>◌, lift, pure, raise, wrapped, deferring, acquire, close, ask, refusal, attempt,
}

abbrev pub metrics_export_path : Bytes
metrics_export_path = codes "/api/v1/export"

abbrev pub services_api_path : Bytes
services_api_path = codes "/select/jaeger/api/services"

abbrev pub traces_api_path : Bytes
traces_api_path = codes "/select/jaeger/api/traces"

abbrev pub logs_query_path : Bytes
logs_query_path = codes "/select/logsql/query"

pub client_or_default : Option Client → Client
client_or_default none = default_client
client_or_default (some c) = c

-- `query.Set(key, value)`
abbrev pub set_value : Bytes → Bytes → Dict (List Bytes) → Dict (List Bytes)
set_value key value query = insert key (value ∷ []) query

-- `io.ReadAll(resp.Body)`
abbrev pub read_all : Body → Result Bytes
read_all body = elim body.broken [ none ↦ ok body.content | some e ↦ err e ]

abbrev pub get_request : Bytes → Request
get_request url = record { verb = get; url = url; headers = []; payload = [] }

abbrev responded : Result Response → Trace → Result Response × Trace
responded (ok resp) tr = (ok resp, opened response_body ∷ tr)
responded (err e) tr = (err e, tr)
responded stuck tr = (stuck, tr)

module _ (H : Host) where
  -- `http.NewRequestWithContext`
  abbrev pub check_request : Verb → Bytes → Result (Unit {0})
  check_request verb url = refusal (H.request_error verb url)

  -- `client.Do(request)`
  unfoldable pub send : Client → Request → Io Response
  send client request tr = responded (H.respond tr client request) (sent client request ∷ tr)

  -- The part of `fetchJSON` behind the request; `decode` reads the type parameter's type.
  unfoldable pub decode_response {ℓ} : {A : Type ℓ} → (Body → Result A) → Bytes → Response → Io A
  decode_response decode path resp =
      if resp.status == 200
      then lift (wrapping (decoding_response path) (decode resp.body))
      else raise (fault (unexpected_http_status resp.status path))

  unfoldable pub fetch_json {ℓ} :
      {A : Type ℓ} → (Body → Result A) → Option Client → Bytes → Bytes → Io A
  unfolding decode_response send client_or_default
  fetch_json decode client base_url path = do
    parsed_url ← lift (wrapping (parsing_url base_url) (H.url_parse base_url))
    let url = H.url_string (record parsed_url { path = path })
    lift (wrapping (creating_request path) (check_request get url))
    resp ← wrapped (fetching path) (send (client_or_default client) (get_request url))
    deferring response_body (decode_response decode path resp)

  -- The check of `httpGetStream` on a response, which is closed here if it is refused.
  unfoldable pub check_status : Bytes → Response → Io Response
  check_status url resp =
      if resp.status == 200
      then pure resp
      else do close response_body; raise (fault (unexpected_http_status resp.status url))

  unfoldable pub http_get_stream : Option Client → Bytes → Io Response
  unfolding check_status send client_or_default
  http_get_stream client request_url = do
    lift (wrapping (creating_request request_url) (check_request get request_url))
    resp ←
        wrapped (fetching request_url) (send (client_or_default client) (get_request request_url))
    check_status request_url resp

  -- The function that `newTableAppender` hands to `conn.Raw`.
  unfoldable pub raw_appender : Bytes → Io (Unit {0})
  raw_appender table = do
    typed ← ask H.connection_is_typed
    if typed
        then wrapped (creating_appender table) (acquire appender (λ tr. H.appender_error tr table))
        else raise (fault driver_type_assertion)

  closing_connection : Bytes → Result (Unit {0}) → Io (Unit {0})
  closing_connection table (ok u) = pure tt
  closing_connection table (err e) = do
    close connection
    raise (wrap (initializing_appender table) e)
  closing_connection table stuck = do close connection; lift stuck

  -- Opens a connection and an appender, which the caller has to close.
  unfoldable pub new_table_appender : Bytes → Io (Unit {0})
  unfolding raw_appender closing_connection
  new_table_appender table = do
    wrapped obtaining_connection (acquire connection H.connect_error)
    raw ← attempt (raw_appender table)
    closing_connection table raw
