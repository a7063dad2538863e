-- ===== src/Traces/Collected.antt =====
-- `ExportTraces`: which spans a successful export has collected, and what it adds to the table.
use tilt_common.Base.{
  ◌≡◌, refl, sym, ap, ◌∙◌, Option, List, [], ◌∷◌, ◌++◌, Bytes, codes, append-nil, append_assoc,
}
use tilt_common.Base.Int.{ℤ}
use tilt_common.Effect.Keeps.{Keeps, Keeps-bind, Keeps-lift, Keeps-wrapped, Keeps-attempt}
use tilt_common.Effect.Outcomes.{bind-eq-ok, bind-step, wrapped-eq-ok}
use tilt_common.Errors.{Error, listing_services, writing_spans, Result, ok, err, stuck}
use tilt_common.Host.{Client, Host, Cell, Trace, logged, skipped_service, response_body}
use tilt_common.Host.Io.{◌>>=◌, wrapped, attempt, lift, log}
use tilt_common.Host.Table.{rows_in, Keeps-log, Keeps-deferring}
use tilt_common.Http.Table.{Keeps-fetch_json, Keeps-http_get_stream}
use tilt_common.Traces.{
  FlatSpan, fetch_services, fetch_traces_for_service, add_spans, collect_spans, write_spans,
  write_collected, export_services, export_traces,
}
use tilt_common.Traces.Table.{span_table, write_spans-span_table}

-- The services are asked in turn, and the spans are those of the services that answered.
pub data Collected (H : Host) (client : Option Client) (url : Bytes)
    : List Bytes → List FlatSpan → Trace → Trace → Type 0 where
  done : (tr : Trace) → Collected H client url [] [] tr tr
  fetched :
      (service : Bytes) {services : List Bytes} {spans rest : List FlatSpan} {tr tr' : Trace}
      → (fetch_traces_for_service H client url service tr).0 ≡ ok spans
      → Collected H client url services rest
          (fetch_traces_for_service H client url service tr).1
          tr'
      → Collected H client url (service ∷ services) (spans ++ rest) tr tr'
  skipped :
      (service : Bytes) {services : List Bytes} {rest : List FlatSpan} {tr tr' : Trace} (e : Error)
      → (fetch_traces_for_service H client url service tr).0 ≡ err e
      → Collected H client url services rest
          (logged (skipped_service service) ∷ (fetch_traces_for_service H client url service tr).1)
          tr'
      → Collected H client url (service ∷ services) rest tr tr'

-- What a successful export did between two traces.
pub record Exported (H : Host) (client : Option Client) (url : Bytes) (tr tr' : Trace)
    : Type 0 where
  pub services : List Bytes
  pub spans : List FlatSpan
  pub after : Trace
  pub export_time : ℤ
  pub answered : (fetch_services H client url tr).0 ≡ ok services
  pub collected : Collected H client url services spans (fetch_services H client url tr).1 after
  pub written :
      rows_in (codes "spans") tr' ≡ rows_in (codes "spans") tr ++ span_table export_time spans

module _ (H : Host) (client : Option Client) (url : Bytes) where
  -- What the loop returns: what it had, and the spans that it collected.
  abbrev Gathers : List Bytes → List FlatSpan → Trace → Result (List FlatSpan) × Trace → Type 0
  Gathers services all_spans tr (result, tr') =
      (r : List FlatSpan)
      → result ≡ ok r
      → (spans : List FlatSpan) × (r ≡ all_spans ++ spans)
        × Collected H client url services spans tr tr'

  -- One round, by what the service answers.
  Gathers-add_spans :
      (service : Bytes) (services : List Bytes) (all_spans : List FlatSpan) (tr : Trace)
      (result : Result (List FlatSpan))
      → (fetch_traces_for_service H client url service tr).0 ≡ result
      → ((all : List FlatSpan) (tr : Trace)
          → Gathers services all tr (collect_spans H client url services all tr))
      → Gathers (service ∷ services) all_spans tr (
          (add_spans H service all_spans result >>= λ all. collect_spans H client url services all)
            (fetch_traces_for_service H client url service tr).1)
  unfolding add_spans ◌>>=◌ lift log
  Gathers-add_spans service services all_spans tr (ok spans) p loop r h =
      let (rest, e, c) =
        loop (all_spans ++ spans) (fetch_traces_for_service H client url service tr).1 r h in
      (spans ++ rest, e ∙ append_assoc all_spans spans rest, fetched service p c)
  Gathers-add_spans service services all_spans tr (err x) p loop r h =
      let (rest, e, c) = loop all_spans _ r h in (rest, e, skipped service x p c)
  Gathers-add_spans service services all_spans tr stuck p loop r h = cc

  Gathers-collect_spans :
      (services : List Bytes) (all_spans : List FlatSpan) (tr : Trace)
      → Gathers services all_spans tr (collect_spans H client url services all_spans tr)
  unfolding collect_spans ◌>>=◌ attempt lift
  Gathers-collect_spans [] all_spans tr =
      λ r h. (let e : r ≡ all_spans = cc in ([], e ∙ sym (append-nil all_spans), done tr))
  Gathers-collect_spans (service ∷ services) all_spans tr =
      Gathers-add_spans service services all_spans tr _ refl
        λ all tr'. Gathers-collect_spans services all tr'

  abbrev span_rows_in : Trace → List (List Cell)
  span_rows_in tr = rows_in (codes "spans") tr

  Keeps-fetch_services : Keeps span_rows_in (fetch_services H client url)
  unfolding fetch_services
  Keeps-fetch_services =
      Keeps-wrapped span_rows_in _ _ (Keeps-fetch_json H (codes "spans") _ client url _)

  Keeps-fetch_traces :
      (service : Bytes) → Keeps span_rows_in (fetch_traces_for_service H client url service)
  unfolding fetch_traces_for_service
  Keeps-fetch_traces service = Keeps-bind span_rows_in _ _ (Keeps-lift span_rows_in _) λ u.
      Keeps-bind span_rows_in _ _
        (Keeps-wrapped span_rows_in _ _ (Keeps-http_get_stream H (codes "spans") client u))
        λ resp. Keeps-deferring (codes "spans") response_body _ (
          Keeps-bind span_rows_in _ _ (Keeps-lift span_rows_in _)
            λ traces. Keeps-lift span_rows_in _)

  Keeps-add_spans :
      (service : Bytes) (all_spans : List FlatSpan) (r : Result (List FlatSpan))
      → Keeps span_rows_in (add_spans H service all_spans r)
  unfolding add_spans
  Keeps-add_spans service all_spans (ok spans) = Keeps-lift span_rows_in _
  Keeps-add_spans service all_spans (err e) =
      Keeps-bind span_rows_in _ _ (Keeps-log (codes "spans") _) λ u. Keeps-lift span_rows_in _
  Keeps-add_spans service all_spans stuck = Keeps-lift span_rows_in _

  Keeps-collect_spans :
      (services : List Bytes) (all_spans : List FlatSpan)
      → Keeps span_rows_in (collect_spans H client url services all_spans)
  unfolding collect_spans
  Keeps-collect_spans [] all_spans = Keeps-lift span_rows_in _
  Keeps-collect_spans (service ∷ services) all_spans =
      Keeps-bind span_rows_in _ _ (Keeps-attempt span_rows_in _ (Keeps-fetch_traces service))
        λ result.
          Keeps-bind span_rows_in _ _ (Keeps-add_spans service all_spans result)
            λ all. Keeps-collect_spans services all

  write_collected-span_table :
      (spans : List FlatSpan) (tr : Trace)
      → (write_collected H spans tr).0 ≡ ok tt
      → (t : ℤ) × (span_rows_in (write_collected H spans tr).1
          ≡ span_rows_in tr ++ span_table t spans)
  unfolding write_collected lift wrapped
  write_collected-span_table [] tr h = (H.now tr, sym (append-nil _))
  write_collected-span_table (s ∷ spans) tr h =
      let written = wrapped writing_spans (write_spans H (s ∷ spans)) in
      let (u, p, q) = bind-eq-ok written _ tr h in
      let (t, e) =
        write_spans-span_table H (s ∷ spans) tr
          (wrapped-eq-ok writing_spans (write_spans H (s ∷ spans)) tr p) in
      (t, ap (λ x. span_rows_in x.1) (bind-step written _ tr p) ∙ Keeps-log (codes "spans") _ _ ∙ e)

  export_services-written :
      (services : List Bytes) (tr : Trace)
      → (export_services H client url services tr).0 ≡ ok tt
      → (spans : List FlatSpan) × (after : Trace) × (t : ℤ) × Collected H client url services spans
          tr after
        × (span_rows_in (export_services H client url services tr).1
            ≡ span_rows_in tr ++ span_table t spans)
  unfolding export_services lift
  export_services-written [] tr h = ([], tr, H.now tr, done tr, sym (append-nil _))
  export_services-written (service ∷ services) tr h =
      let loop = collect_spans H client url (service ∷ services) [] in
      let (r, p, q) = bind-eq-ok loop (write_collected H) tr h in
      let (spans, e, c) = Gathers-collect_spans (service ∷ services) [] tr r p in
      let (t, rows) = write_collected-span_table r (loop tr).1 q in
      (
        spans,
        (loop tr).1,
        t,
        c,
        ap (λ x. span_rows_in x.1) (bind-step loop (write_collected H) tr p)
            ∙ rows
            ∙ ap (λ x. x ++ span_table t r) (Keeps-collect_spans (service ∷ services) [] tr)
            ∙ ap (λ x. span_rows_in tr ++ span_table t x) e,
      )

  -- A traces export that succeeds got a list of services, asked each of them for its traces in turn,
  -- and collected the spans of those that answered, a service that failed being skipped; and the table
  -- `spans` then holds what it held, followed by one row for each collected span, in their order and
  -- all with one export time.
  pub export_traces-Exported :
      (tr : Trace)
      → (export_traces H client url tr).0 ≡ ok tt
      → Exported H client url tr (export_traces H client url tr).1
  unfolding export_traces wrapped
  export_traces-Exported tr h =
      let listing = wrapped listing_services (fetch_services H client url) in
      let (services, p, q) = bind-eq-ok listing (export_services H client url) tr h in
      let after = (fetch_services H client url tr).1 in
      let (spans, after', t, c, rows) = export_services-written services after q in
      record {
        services = services;
        spans = spans;
        after = after';
        export_time = t;
        answered = wrapped-eq-ok listing_services (fetch_services H client url) tr p;
        collected = c;
        written =
            ap (λ x. span_rows_in x.1) (bind-step listing (export_services H client url) tr p)
            ∙ rows
            ∙ ap (λ x. x ++ span_table t spans) (Keeps-fetch_services tr);
      }
