-- ===== src/Traces/Sound.antt =====
-- The export of spans: whether it returns, and the types of its rows.
use tilt_common.Base.{
  ◌≡◌, ◌≢◌, refl, same, Option, none, some, List, [], ◌∷◌, true, false, Bytes, codes,
}
use tilt_common.Base.Dict.{Dict}
use tilt_common.Base.Int.{ℤ}
use tilt_common.Errors.{Result, ok, err, stuck}
use tilt_common.Host.{Client, Host, response_body, connection, appender, appended}
use tilt_common.Host.Sound.{
  Answers, Sound, ok-ne-stuck, wrapping-ne-stuck, bind-ne-stuck, Sound-lift, Sound-pure, Sound-ask,
  Sound-log, Sound-wrapped, Sound-deferring, Sound-bind, Sound-attempt, Sound-weaken,
}
use tilt_common.Http.Sound.{Sound-fetch_json, Sound-http_get_stream, Sound-new_table_appender}
use tilt_common.Logs.Sound.{nil_if_empty-accepts}
use tilt_common.Metrics.Sound.{Sound-append_row, Sound-flush_appender}
use tilt_common.Schema.{map_type, spans_columns}
use tilt_common.Schema.Rows.{accepts, IsTyped, columns_of}
use tilt_common.Traces.{
  FlatSpan, attrs_cell, span_row, fetch_services, service_url, fetch_traces_for_service, add_spans,
  collect_spans, span_rows, write_spans, write_collected, export_services, export_traces,
}

attrs_cell-accepts :
    (attrs : Option (Dict Bytes)) → accepts map_type false (attrs_cell attrs) ≡ true
attrs_cell-accepts none = refl
attrs_cell-accepts (some attrs) = refl

span_row-IsTyped : (s : FlatSpan) (t : ℤ) → IsTyped (appended (codes "spans") (span_row s t))
unfolding columns_of spans_columns span_row same
span_row-IsTyped s t = (
  refl,
  (
    refl,
    (
      nil_if_empty-accepts s.parent_span_id,
      (
        refl,
        (
          refl,
          (
            nil_if_empty-accepts s.span_kind,
            (
              refl,
              (
                refl,
                (
                  refl,
                  (
                    nil_if_empty-accepts s.status_code,
                    (
                      nil_if_empty-accepts s.status_message,
                      (refl, (attrs_cell-accepts s.resource_attrs, (refl, tt))),
                    ),
                  ),
                ),
              ),
            ),
          ),
        ),
      ),
    ),
  ),
)

module _ (H : Host) where
  service_url-ne-stuck : (url service : Bytes) → Answers H → service_url H url service ≢ stuck
  unfolding service_url
  service_url-ne-stuck url service law =
      bind-ne-stuck _ _ (wrapping-ne-stuck _ _ (law.url_parse url)) (λ u. ok-ne-stuck _)

  Sound-fetch_traces :
      (client : Option Client) (url service : Bytes)
      → Sound (Answers H) (fetch_traces_for_service H client url service)
  unfolding fetch_traces_for_service
  Sound-fetch_traces client url service =
      Sound-bind _ _ (Sound-lift _ (service_url-ne-stuck url service)) λ u.
        Sound-bind _ _ (Sound-wrapped _ _ (Sound-http_get_stream H client u)) λ resp.
          Sound-deferring response_body _ (
            Sound-bind _ _
              (Sound-lift _ (λ law. wrapping-ne-stuck _ _ (law.decode_traces resp.body)))
              λ traces. Sound-pure _)

  Sound-add_spans :
      (service : Bytes) (all_spans : List FlatSpan) (r : Result (List FlatSpan))
      → Sound (Answers H × (r ≢ stuck)) (add_spans H service all_spans r)
  unfolding add_spans
  Sound-add_spans service all_spans (ok spans) = Sound-pure _
  Sound-add_spans service all_spans (err e) = Sound-bind _ _ (Sound-log _) λ u. Sound-pure all_spans
  Sound-add_spans service all_spans stuck = Sound-lift stuck (λ p. absurd (p.1 refl))

  Sound-collect_spans :
      (client : Option Client) (url : Bytes) (services : List Bytes) (all_spans : List FlatSpan)
      → Sound (Answers H) (collect_spans H client url services all_spans)
  unfolding collect_spans
  Sound-collect_spans client url [] all_spans = Sound-pure all_spans
  Sound-collect_spans client url (service ∷ services) all_spans =
      Sound-attempt _ _ (Sound-fetch_traces client url service) λ fetched.
        Sound-bind _ _ (Sound-add_spans service all_spans fetched)
          λ spans. Sound-weaken (λ p. p.0) (Sound-collect_spans client url services spans)

  Sound-span_rows : (t : ℤ) (spans : List FlatSpan) → Sound (Answers H) (span_rows H t spans)
  unfolding span_rows
  Sound-span_rows t [] = Sound-pure tt
  Sound-span_rows t (s ∷ spans) =
      Sound-bind _ _ (Sound-append_row H _ _ (span_row-IsTyped s t)) λ u. Sound-span_rows t spans

  Sound-write_spans : (spans : List FlatSpan) → Sound (Answers H) (write_spans H spans)
  unfolding write_spans
  Sound-write_spans spans = Sound-bind _ _ (Sound-new_table_appender H _) λ u.
      Sound-deferring connection _ (
        Sound-deferring appender _ (
          Sound-bind _ _ (Sound-ask _)
            λ t. Sound-bind _ _ (Sound-span_rows t spans) λ v. Sound-flush_appender H _))

  Sound-write_collected : (spans : List FlatSpan) → Sound (Answers H) (write_collected H spans)
  unfolding write_collected
  Sound-write_collected [] = Sound-pure tt
  Sound-write_collected (s ∷ spans) =
      Sound-bind _ _ (Sound-wrapped _ _ (Sound-write_spans (s ∷ spans))) λ u. Sound-log _

  Sound-export_services :
      (client : Option Client) (url : Bytes) (services : List Bytes)
      → Sound (Answers H) (export_services H client url services)
  unfolding export_services
  Sound-export_services client url [] = Sound-pure tt
  Sound-export_services client url (service ∷ services) =
      Sound-bind _ _ (Sound-collect_spans client url (service ∷ services) [])
        λ spans. Sound-write_collected spans

  pub Sound-export_traces :
      (client : Option Client) (url : Bytes) → Sound (Answers H) (export_traces H client url)
  unfolding export_traces fetch_services
  Sound-export_traces client url =
      Sound-bind _ _
        (Sound-wrapped _ _
          (Sound-wrapped _ _ (Sound-fetch_json H _ client url _ (λ law. law.decode_services))))
        λ services. Sound-export_services client url services
