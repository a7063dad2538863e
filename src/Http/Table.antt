-- ===== src/Http/Table.antt =====
-- What requests and the opening of an appender do to the tables, and which responses are streamed.
use tilt_common.Base.{
  ℕ, sym, ◌≡◌, refl, Bool, true, false, ◌==◌, ==_iff, if◌then◌else◌, Option, ◌∷◌, Bytes, append-nil,
  ap, ◌∙◌,
}
use tilt_common.Effect.Keeps.{
  Keeps, Keeps-bind, Keeps-lift, Keeps-ask, Keeps-wrapped, Keeps-attempt, Keeps-if,
}
use tilt_common.Effect.Outcomes.{bind-eq-ok, wrapped-eq-ok}
use tilt_common.Errors.{fault, unexpected_http_status, Result, ok, err, stuck}
use tilt_common.Host.{Body, sent, Client, Request, Response, Trace, Host, connection, response_body}
use tilt_common.Host.Io.{lift, close, ◌>>=◌, wrapped}
use tilt_common.Host.Table.{rows_in, Keeps-deferring, Keeps-acquire, Keeps-close}
use tilt_common.Http.{
  decode_response, fetch_json, get_request, client_or_default, responded, send, check_status,
  http_get_stream, raw_appender, closing_connection, new_table_appender,
}

module _ (H : Host) (table : Bytes) where
  Keeps-send : (client : Client) (request : Request) → Keeps (rows_in table) (send H client request)
  unfolding send rows_in
  Keeps-send client request tr =
      by_response (H.respond tr client request) ∙ append-nil (rows_in table tr)
    where
      by_response :
          (r : Result Response)
          → rows_in table (responded r (sent client request ∷ tr)).1
            ≡ rows_in table (sent client request ∷ tr)
      by_response (ok resp) = append-nil _
      by_response (err e) = refl
      by_response stuck = refl

  Keeps-check_status :
      (url : Bytes) (resp : Response) → Keeps (rows_in table) (check_status H url resp)
  unfolding check_status
  Keeps-check_status url resp =
      Keeps-if (rows_in table) (resp.status == 200) _ _ (Keeps-lift (rows_in table) (ok resp)) (
        Keeps-bind (rows_in table) _ _ (Keeps-close table response_body)
          λ u. Keeps-lift (rows_in table) _)

  pub Keeps-http_get_stream :
      (client : Option Client) (url : Bytes) → Keeps (rows_in table) (http_get_stream H client url)
  unfolding http_get_stream
  Keeps-http_get_stream client url =
      Keeps-bind (rows_in table) _ _ (Keeps-lift (rows_in table) _) λ u.
        Keeps-bind (rows_in table) _ _ (Keeps-wrapped (rows_in table) _ _ (Keeps-send _ _))
          λ resp. Keeps-check_status url resp

  Keeps-decode_response {ℓ} :
      {A : Type ℓ} (decode : Body → Result A) (path : Bytes) (resp : Response)
      → Keeps (rows_in table) (decode_response H decode path resp)
  unfolding decode_response
  Keeps-decode_response decode path resp =
      Keeps-if (rows_in table) (resp.status == 200) _ _ (Keeps-lift (rows_in table) _)
        (Keeps-lift (rows_in table) _)

  pub Keeps-fetch_json {ℓ} :
      {A : Type ℓ} (decode : Body → Result A) (client : Option Client) (base_url path : Bytes)
      → Keeps (rows_in table) (fetch_json H decode client base_url path)
  unfolding fetch_json
  Keeps-fetch_json decode client base_url path =
      Keeps-bind (rows_in table) _ _ (Keeps-lift (rows_in table) _) λ u.
        Keeps-bind (rows_in table) _ _ (Keeps-lift (rows_in table) _) λ v.
          Keeps-bind (rows_in table) _ _ (Keeps-wrapped (rows_in table) _ _ (Keeps-send _ _))
            λ resp. Keeps-deferring table response_body _ (Keeps-decode_response decode path resp)

  Keeps-closing_connection :
      (t : Bytes) (r : Result (Unit {0})) → Keeps (rows_in table) (closing_connection H t r)
  unfolding closing_connection
  Keeps-closing_connection t (ok u) = Keeps-lift (rows_in table) _
  Keeps-closing_connection t (err e) =
      Keeps-bind (rows_in table) _ _ (Keeps-close table connection)
        λ u. Keeps-lift (rows_in table) _
  Keeps-closing_connection t stuck =
      Keeps-bind (rows_in table) _ _ (Keeps-close table connection)
        λ u. Keeps-lift (rows_in table) _

  pub Keeps-new_table_appender : (t : Bytes) → Keeps (rows_in table) (new_table_appender H t)
  unfolding new_table_appender raw_appender
  Keeps-new_table_appender t =
      Keeps-bind (rows_in table) _ _
        (Keeps-wrapped (rows_in table) _ _ (Keeps-acquire table connection _))
        λ u.
          Keeps-bind (rows_in table) _ _
            (Keeps-attempt (rows_in table) _ (
              Keeps-bind (rows_in table) _ _ (Keeps-ask (rows_in table) _) λ typed.
                Keeps-if (rows_in table) typed _ _
                  (Keeps-wrapped (rows_in table) _ _ (Keeps-acquire table _ _))
                  (Keeps-lift (rows_in table) _)))
            λ r. Keeps-closing_connection t r

status_of : Result Response → ℕ
status_of (ok resp) = resp.status
status_of (err e) = 0
status_of stuck = 0

module _ (H : Host) where
  check_status-eq-ok :
      (url : Bytes) (resp : Response) (tr : Trace) {r : Response}
      → (check_status H url resp tr).0 ≡ ok r
      → r.status ≡ 200
  unfolding check_status close lift ◌>>=◌ status_of
  check_status-eq-ok url resp tr {r} = by_test (resp.status == 200) refl
    where
      by_test :
          (b : Bool)
          → (resp.status == 200) ≡ b
          → ((if b
                then lift (ok resp)
                else (close response_body >>= λ u.
                    lift (err (fault (unexpected_http_status resp.status url)))))
              tr).0
            ≡ ok r
          → r.status ≡ 200
      by_test true p h = sym (ap status_of h) ∙ (==_iff resp.status 200).0 p
      by_test false p h = cc

  send-eq-ok :
      (client : Client) (request : Request) (tr : Trace) {resp : Response}
      → (send H client request tr).0 ≡ ok resp
      → H.respond tr client request ≡ ok resp
  unfolding send
  send-eq-ok client request tr {resp} h = answered (H.respond tr client request) h
    where
      answered :
          (r : Result Response) → (responded r (sent client request ∷ tr)).0 ≡ ok resp → r ≡ ok resp
      answered (ok x) h = h
      answered (err e) h = cc
      answered stuck h = cc

  -- The check hands on the response that it is given.
  check_status-same :
      (url : Bytes) (resp : Response) (tr : Trace) {r : Response}
      → (check_status H url resp tr).0 ≡ ok r
      → resp ≡ r
  unfolding check_status close lift ◌>>=◌
  check_status-same url resp tr {r} = by_test (resp.status == 200)
    where
      by_test :
          (b : Bool)
          → ((if b
                then lift (ok resp)
                else (close response_body >>= λ u.
                    lift (err (fault (unexpected_http_status resp.status url)))))
              tr).0
            ≡ ok r
          → resp ≡ r
      by_test true h = cc
      by_test false h = cc

  -- A streamed response is the answer to the request that was made, with status 200.
  pub http_get_stream-eq-ok :
      (client : Option Client) (url : Bytes) (tr : Trace) {r : Response}
      → (http_get_stream H client url tr).0 ≡ ok r
      → (H.respond tr (client_or_default client) (get_request url) ≡ ok r) × (r.status ≡ 200)
  unfolding http_get_stream lift
  http_get_stream-eq-ok client url tr h =
      let (u, p, q) = bind-eq-ok (lift _) _ tr h in
      let (resp, p', q') = bind-eq-ok (wrapped _ (send H _ _)) _ _ q in
      let p'' =
        send-eq-ok (client_or_default client) (get_request url) tr (wrapped-eq-ok _ _ tr p') in
      (p'' ∙ ap (λ x. ok x) (check_status-same url resp _ q'), check_status-eq-ok url resp _ q')
