-- ===== src/Http/Releases.antt =====
-- What the helpers open, close and hand to their callers.
use tilt_common.Base.{
  inl, inr, refl, Bool, true, false, if◌then◌else◌, List, [], ◌∷◌, ◌==◌, Bool-cases, Bytes,
}
use tilt_common.Errors.{Result, ok, err, stuck, fault, creating_appender, driver_type_assertion}
use tilt_common.Host.{
  Body, Request, Response, Client, Host, Resource, Trace, sent, response_body, connection, appender,
}
use tilt_common.Host.Held.{Held, opening, other}
use tilt_common.Host.Io.{wrapped, acquire, raise}
use tilt_common.Host.Releases.{
  Moves, Releases, Acquires, left, Releases-lift, Releases-ask, Releases-bind, Acquires-bind,
  Acquires-wrapped, Acquires-acquire, Acquires-attempt-bind, Discharges-deferring, Discharges-close,
  Moves-bind, Moves-ok, Moves-err, Moves-stuck,
}
use tilt_common.Http.{
  responded, send, decode_response, fetch_json, check_status, http_get_stream, raw_appender,
  closing_connection, new_table_appender,
}
use mathlib.Core.Option.{Option}

module _ (H : Host) where
  pub Acquires-send :
      (client : Client) (request : Request) → Acquires (response_body ∷ []) (send H client request)
  unfolding send
  Acquires-send client request = record {
    at = λ rs tr h. by_response rs tr (H.respond tr client request) h;
  }
    where
      by_response :
          (rs : List Resource) (tr : Trace) (r : Result Response)
          → Held rs tr
          → Held
              (left (response_body ∷ []) rs (responded r (sent client request ∷ tr)).0)
              (responded r (sent client request ∷ tr)).1
      by_response rs tr (ok resp) h = opening response_body (other (sent client request) refl h)
      by_response rs tr (err e) h = other (sent client request) refl h
      by_response rs tr stuck h = other (sent client request) refl h

  Releases-decode_response {ℓ} :
      {A : Type ℓ} (decode : Body → Result A) (path : Bytes) (resp : Response)
      → Releases (decode_response H decode path resp)
  unfolding decode_response
  Releases-decode_response decode path resp = elim (Bool-cases (resp.status == 200)) [
    | inl e ↦ rw e (Releases-lift _)
    | inr e ↦ rw e (Releases-lift _)
  ]

  pub Releases-fetch_json {ℓ} :
      {A : Type ℓ} (decode : Body → Result A) (client : Option Client) (base_url path : Bytes)
      → Releases (fetch_json H decode client base_url path)
  unfolding fetch_json
  Releases-fetch_json decode client base_url path = Releases-bind _ _ (Releases-lift _) λ u.
      Releases-bind _ _ (Releases-lift _) λ v.
        Acquires-bind (response_body ∷ []) _ _ (Acquires-wrapped _ _ _ (Acquires-send _ _)) λ resp.
          Discharges-deferring [] response_body _ (Releases-decode_response decode path resp)

  Moves-check_status :
      (url : Bytes) (resp : Response)
      → Moves (response_body ∷ []) (response_body ∷ []) (check_status H url resp)
  unfolding check_status
  Moves-check_status url resp = elim (Bool-cases (resp.status == 200)) [
    | inl e ↦ rw e (Moves-ok (response_body ∷ []) resp)
    | inr e ↦ rw e (
        Moves-bind (response_body ∷ []) [] (response_body ∷ []) _ _ (Discharges-close response_body)
          λ u. Moves-err (response_body ∷ []) _)
  ]

  -- The caller of `httpGetStream` has the body to close.
  pub Acquires-http_get_stream :
      (client : Option Client) (url : Bytes)
      → Acquires (response_body ∷ []) (http_get_stream H client url)
  unfolding http_get_stream
  Acquires-http_get_stream client url =
      Moves-bind [] [] (response_body ∷ []) _ _ (Releases-lift _) λ u.
        Moves-bind [] (response_body ∷ []) (response_body ∷ []) _ _
          (Acquires-wrapped _ _ _ (Acquires-send _ _)) λ resp. Moves-check_status url resp

  Acquires-raw_appender : (table : Bytes) → Acquires (appender ∷ []) (raw_appender H table)
  unfolding raw_appender
  Acquires-raw_appender table =
      Moves-bind [] [] (appender ∷ []) _ _ (Releases-ask H.connection_is_typed)
        λ typed. by_test typed
    where
      by_test :
          (b : Bool)
          → Acquires (appender ∷ []) (
              if b
              then wrapped
                  (creating_appender table)
                  (acquire appender (λ tr. H.appender_error tr table))
              else raise (fault driver_type_assertion))
      by_test true = Acquires-wrapped _ _ _ (Acquires-acquire appender _)
      by_test false = Moves-err (appender ∷ []) _

  -- The caller of `newTableAppender` has the connection and the appender to close.
  pub Acquires-new_table_appender :
      (table : Bytes) → Acquires (connection ∷ appender ∷ []) (new_table_appender H table)
  unfolding new_table_appender closing_connection
  Acquires-new_table_appender table =
      Moves-bind [] (connection ∷ []) (connection ∷ appender ∷ []) _ _
        (Acquires-wrapped _ _ _ (Acquires-acquire connection _))
        λ u.
          Acquires-attempt-bind (connection ∷ []) (appender ∷ []) (connection ∷ appender ∷ []) _ _
            (Acquires-raw_appender table) (λ v. Moves-ok _ _)
            (λ e.
              Moves-bind (connection ∷ []) [] (connection ∷ appender ∷ []) _ _
                (Discharges-close connection) λ v. Moves-err _ _)
            (Moves-bind (connection ∷ []) [] (connection ∷ appender ∷ []) _ _
              (Discharges-close connection) λ v. Moves-stuck _)
