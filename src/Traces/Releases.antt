-- ===== src/Traces/Releases.antt =====
-- What the export of spans opens and closes.
use tilt_common.Base.{List, [], ◌∷◌, Option, Bytes}
use tilt_common.Base.Int.{ℤ}
use tilt_common.Errors.{Result, ok, err, stuck}
use tilt_common.Host.{Client, Host, response_body, connection, appender}
use tilt_common.Host.Releases.{
  Releases, Releases-lift, Releases-ask, Releases-log, Releases-bind, Releases-attempt,
  Acquires-bind, Acquires-wrapped, Discharges-wrapped, Discharges-deferring,
}
use tilt_common.Http.Releases.{
  Releases-fetch_json, Acquires-http_get_stream, Acquires-new_table_appender,
}
use tilt_common.Metrics.Releases.{Releases-append_row, Releases-flush_appender}
use tilt_common.Traces.{
  FlatSpan, fetch_services, fetch_traces_for_service, add_spans, collect_spans, span_rows,
  write_spans, write_collected, export_services, export_traces,
}

module _ (H : Host) where
  Releases-fetch_traces :
      (client : Option Client) (url service : Bytes)
      → Releases (fetch_traces_for_service H client url service)
  unfolding fetch_traces_for_service
  Releases-fetch_traces client url service = Releases-bind _ _ (Releases-lift _) λ u.
      Acquires-bind (response_body ∷ []) _ _
        (Acquires-wrapped _ _ _ (Acquires-http_get_stream H client u))
        λ resp.
          Discharges-deferring [] response_body _
            (Releases-bind _ _ (Releases-lift _) λ traces. Releases-lift _)

  Releases-add_spans :
      (service : Bytes) (all_spans : List FlatSpan) (r : Result (List FlatSpan))
      → Releases (add_spans H service all_spans r)
  unfolding add_spans
  Releases-add_spans service all_spans (ok spans) = Releases-lift _
  Releases-add_spans service all_spans (err e) =
      Releases-bind _ _ (Releases-log _) λ u. Releases-lift _
  Releases-add_spans service all_spans stuck = Releases-lift _

  Releases-collect_spans :
      (client : Option Client) (url : Bytes) (services : List Bytes) (all_spans : List FlatSpan)
      → Releases (collect_spans H client url services all_spans)
  unfolding collect_spans
  Releases-collect_spans client url [] all_spans = Releases-lift _
  Releases-collect_spans client url (service ∷ services) all_spans =
      Releases-bind _ _ (Releases-attempt _ (Releases-fetch_traces client url service)) λ fetched.
        Releases-bind _ _ (Releases-add_spans service all_spans fetched)
          λ spans. Releases-collect_spans client url services spans

  Releases-span_rows : (t : ℤ) (spans : List FlatSpan) → Releases (span_rows H t spans)
  unfolding span_rows
  Releases-span_rows t [] = Releases-lift _
  Releases-span_rows t (s ∷ spans) =
      Releases-bind _ _ (Releases-append_row H _ _) λ u. Releases-span_rows t spans

  Releases-write_spans : (spans : List FlatSpan) → Releases (write_spans H spans)
  unfolding write_spans
  Releases-write_spans spans =
      Acquires-bind (connection ∷ appender ∷ []) _ _ (Acquires-new_table_appender H _) λ u.
        Discharges-deferring (appender ∷ []) connection _ (
          Discharges-deferring [] appender _ (
            Releases-bind _ _ (Releases-ask _)
              λ t. Releases-bind _ _ (Releases-span_rows t spans) λ v. Releases-flush_appender H _))

  Releases-write_collected : (spans : List FlatSpan) → Releases (write_collected H spans)
  unfolding write_collected
  Releases-write_collected [] = Releases-lift _
  Releases-write_collected (s ∷ spans) =
      Releases-bind _ _ (Discharges-wrapped [] _ _ (Releases-write_spans (s ∷ spans)))
        λ u. Releases-log _

  Releases-export_services :
      (client : Option Client) (url : Bytes) (services : List Bytes)
      → Releases (export_services H client url services)
  unfolding export_services
  Releases-export_services client url [] = Releases-lift _
  Releases-export_services client url (service ∷ services) =
      Releases-bind _ _ (Releases-collect_spans client url (service ∷ services) [])
        λ spans. Releases-write_collected spans

  pub Releases-export_traces :
      (client : Option Client) (url : Bytes) → Releases (export_traces H client url)
  unfolding export_traces fetch_services
  Releases-export_traces client url =
      Releases-bind _ _
        (Discharges-wrapped [] _ _
          (Discharges-wrapped [] _ _ (Releases-fetch_json H _ client url _)))
        λ services. Releases-export_services client url services
