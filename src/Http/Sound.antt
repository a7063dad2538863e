-- ===== src/Http/Sound.antt =====
-- Requests and table appenders: whether they return, and the rows of their traces.
use tilt_common.Base.{◌≢◌, refl, ◌==◌, Option, Bytes}
use tilt_common.Errors.{Result, ok, err, stuck}
use tilt_common.Host.{Body, Client, Request, Response, Trace, Host, connection, response_body}
use tilt_common.Schema.Rows.{AllTyped}
use tilt_common.Host.Sound.{
  Answers, Sound, ok-ne-stuck, err-ne-stuck, wrapping-ne-stuck, refusal-ne-stuck, Sound-lift,
  Sound-pure, Sound-raise, Sound-ask, Sound-wrapped, Sound-deferring, Sound-if, Sound-bind,
  Sound-close, Sound-acquire, Sound-attempt,
}
use tilt_common.Http.{
  responded, send, decode_response, fetch_json, check_status, http_get_stream, raw_appender,
  closing_connection, new_table_appender,
}

responded_typed : (r : Result Response) (tr : Trace) → AllTyped tr → AllTyped (responded r tr).1
responded_typed (ok resp) tr t = (tt, t)
responded_typed (err e) tr t = t
responded_typed stuck tr t = t

responded-ne-stuck : (r : Result Response) (tr : Trace) → r ≢ stuck → (responded r tr).0 ≢ stuck
responded-ne-stuck (ok resp) tr h = ok-ne-stuck resp
responded-ne-stuck (err e) tr h = err-ne-stuck e
responded-ne-stuck stuck tr h = absurd (h refl)

module _ (H : Host) where
  pub Sound-send : (client : Client) (request : Request) → Sound (Answers H) (send H client request)
  unfolding send
  Sound-send client request = record {
    typed = λ tr t. responded_typed (H.respond tr client request) _ (tt, t);
    returns = λ law tr.
        responded-ne-stuck (H.respond tr client request) _ (law.respond tr client request);
  }

  Sound-decode_response :
      {A : Type 0} (decode : Body → Result A) (path : Bytes) (resp : Response)
      → (Answers H → (b : Body) → decode b ≢ stuck)
      → Sound (Answers H) (decode_response H decode path resp)
  unfolding decode_response
  Sound-decode_response decode path resp h =
      Sound-if (resp.status == 200) _ _
        (Sound-lift _ (λ law. wrapping-ne-stuck _ (decode resp.body) (h law resp.body)))
        (Sound-raise _)

  pub Sound-fetch_json :
      {A : Type 0} (decode : Body → Result A) (client : Option Client) (base_url path : Bytes)
      → (Answers H → (b : Body) → decode b ≢ stuck)
      → Sound (Answers H) (fetch_json H decode client base_url path)
  unfolding fetch_json
  Sound-fetch_json decode client base_url path h =
      Sound-bind _ _ (Sound-lift _ (λ law. wrapping-ne-stuck _ _ (law.url_parse base_url))) λ u.
        Sound-bind _ _ (Sound-lift _ (λ law. wrapping-ne-stuck _ _ (refusal-ne-stuck _))) λ v.
          Sound-bind _ _ (Sound-wrapped _ _ (Sound-send _ _))
            λ resp. Sound-deferring response_body _ (Sound-decode_response decode path resp h)

  Sound-check_status : (url : Bytes) (resp : Response) → Sound (Answers H) (check_status H url resp)
  unfolding check_status
  Sound-check_status url resp =
      Sound-if (resp.status == 200) _ _ (Sound-pure resp)
        (Sound-bind _ _ (Sound-close response_body) (λ u. Sound-raise _))

  pub Sound-http_get_stream :
      (client : Option Client) (url : Bytes) → Sound (Answers H) (http_get_stream H client url)
  unfolding http_get_stream
  Sound-http_get_stream client url =
      Sound-bind _ _ (Sound-lift _ (λ law. wrapping-ne-stuck _ _ (refusal-ne-stuck _)))
        λ v. Sound-bind _ _ (Sound-wrapped _ _ (Sound-send _ _)) λ resp. Sound-check_status url resp

  Sound-raw_appender : (table : Bytes) → Sound (Answers H) (raw_appender H table)
  unfolding raw_appender
  Sound-raw_appender table =
      Sound-bind _ _ (Sound-ask _)
        λ typed. Sound-if typed _ _ (Sound-wrapped _ _ (Sound-acquire _ _)) (Sound-raise _)

  Sound-closing_connection :
      (table : Bytes) (r : Result (Unit {0}))
      → Sound (Answers H × (r ≢ stuck)) (closing_connection H table r)
  unfolding closing_connection
  Sound-closing_connection table (ok u) = Sound-pure tt
  Sound-closing_connection table (err e) =
      Sound-bind _ _ (Sound-close connection) (λ u. Sound-raise _)
  Sound-closing_connection table stuck =
      Sound-bind _ _ (Sound-close connection) (λ u. Sound-lift stuck (λ p. absurd (p.1 refl)))

  pub Sound-new_table_appender : (table : Bytes) → Sound (Answers H) (new_table_appender H table)
  unfolding new_table_appender
  Sound-new_table_appender table =
      Sound-bind _ _ (Sound-wrapped _ _ (Sound-acquire connection _))
        λ u. Sound-attempt _ _ (Sound-raw_appender table) (Sound-closing_connection table)
