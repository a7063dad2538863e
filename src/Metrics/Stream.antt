-- ===== src/Metrics/Stream.antt =====
-- `ExportMetrics` and `ExportLogs` stream the lines of a response into a table.
use tilt_common.Base.{
  ℕ, ◌≡◌, refl, sym, ap, subst, ◌∙◌, Bool, true, false, Option, none, some, List, [], ◌∷◌, ◌++◌,
  append-nil, Bytes, same_refl, if◌then◌else◌,
}
use tilt_common.Base.Int.{ℤ}
use tilt_common.Effect.Keeps.{Keeps-bind, Keeps-lift, Keeps-wrapped}
use tilt_common.Effect.Outcomes.{bind-eq-ok, bind-step, wrapped-eq-ok}
use tilt_common.Errors.{reading_lines, building_export_url, Error, Result, ok, wrapping}
use tilt_common.Host.{
  Body, Response, Cell, Client, Host, response_body, connection, appender, flushed, rows_written,
  Trace,
}
use tilt_common.Host.Io.{Io, lift, wrapped, act, ask, log, deferring, ◌>>=◌, ◌>>◌}
use tilt_common.Host.Table.{
  rows_in, Adds, Adds-bind, Adds-Keeps, Adds-wrapped, Keeps-act, Keeps-log,
}
use tilt_common.Http.Table.{Keeps-http_get_stream, Keeps-new_table_appender, http_get_stream-eq-ok}
use tilt_common.Http.{client_or_default, get_request, http_get_stream, new_table_appender}
use tilt_common.Metrics.{append_row, flush_appender, scanner_error}
use tilt_common.Text.Scan.Lines.{segments, lines_of, AllFit, scan_lines-lines_of}
use tilt_common.Text.Scan.{scan_lines, last_size, max_scanner_buf}

-- The body was read to its end, and each line fitted into the scanner's buffer.
abbrev pub IsWhole : Body → Type 0
IsWhole body =
    AllFit max_scanner_buf (last_size body.together max_scanner_buf) (segments body.content)
    × (body.broken ≡ none)

-- What a successful export did between two traces: the answer to its request has status 200 and was
-- read as a whole, and the table has got the rows of the answer's lines, at one export time.
pub record Streamed (H : Host) (client : Option Client) (url table : Bytes)
    (rows : ℤ → List Bytes → List (List Cell)) (tr tr' : Trace) : Type 0 where
  pub response : Response
  pub export_time : ℤ
  pub answered : H.respond tr (client_or_default client) (get_request url) ≡ ok response
  pub accepted : response.status ≡ 200
  pub whole : IsWhole response.body
  pub written :
      rows_in table tr'
      ≡ rows_in table tr ++ rows export_time (lines_of (segments response.body.content))

module _ (H : Host) (table : Bytes) where
  pub Adds-append_row : (row : List Cell) → Adds table (row ∷ []) (append_row H table row)
  unfolding append_row act rows_in
  Adds-append_row row =
      Adds-wrapped table (row ∷ []) _ _
        λ tr a e. ap (λ b. rows_in table tr ++ (if b then row ∷ [] else [])) (same_refl table)

  scanner_error-IsWhole :
      (b : Bool) (broken : Option Error)
      → wrapping (reading_lines table) (scanner_error b broken) ≡ ok tt
      → (b ≡ false) × (broken ≡ none)
  scanner_error-IsWhole true broken h = cc
  scanner_error-IsWhole false none h = (refl, refl)
  scanner_error-IsWhole false (some e) h = cc

  Adds-rest :
      (r : Result (Unit {0})) (total : ℕ)
      → Adds table [] (lift r >> (flush_appender H table >> log (rows_written table total)))
  unfolding flush_appender
  Adds-rest r total = Adds-Keeps table _ (
      Keeps-bind (rows_in table) _ _ (Keeps-lift (rows_in table) r) λ u.
        Keeps-bind (rows_in table) _ _
          (Keeps-wrapped (rows_in table) _ _ (Keeps-act table (flushed table) _ refl))
          λ v. Keeps-log table _)

  -- The loop over the lines that are found, then the scanner's error, the flush and the message.
  abbrev pub write_found :
      (ℤ → List Bytes → Io ℕ) → Option Error → List Bytes × Bool → Io (Unit {0})
  write_found loop broken found = ask H.now >>= λ t. loop t found.0 >>= λ total.
      lift (wrapping (reading_lines table) (scanner_error found.1 broken))
      >> (flush_appender H table >> log (rows_written table total))

  abbrev pub write_lines : (ℤ → List Bytes → Io ℕ) → Body → Io (Unit {0})
  write_lines loop body =
      write_found loop body.broken (scan_lines body.together max_scanner_buf body.content)

  module _ (rows : ℤ → List Bytes → List (List Cell)) (loop : ℤ → List Bytes → Io ℕ)
      (adds : (t : ℤ) (lines : List Bytes) → Adds table (rows t lines) (loop t lines)) where
    write_lines-eq-ok :
        (body : Body) (tr : Trace)
        → (write_lines loop body tr).0 ≡ ok tt
        → IsWhole body
          × ((t : ℤ) × (rows_in table (write_lines loop body tr).1
                ≡ rows_in table tr ++ rows t (lines_of (segments body.content))))
    unfolding ask lift
    write_lines-eq-ok body tr h =
        let lines = (scan_lines body.together max_scanner_buf body.content).0 in
        let (t, p, q) = bind-eq-ok (ask H.now) _ tr h in
        let (total, p', q') = bind-eq-ok (loop t lines) _ tr q in
        let (u, p'', q'') = bind-eq-ok (lift _) _ _ q' in
        let (fits, unbroken) = scanner_error-IsWhole _ body.broken p'' in
        let (short, found) = scan_lines-lines_of body.together max_scanner_buf body.content fits in
        (
          (short, unbroken),
          (
            t,
            ap (λ x. rows_in table x.1) (bind-step (ask H.now) _ tr p)
                ∙ Adds-bind table (rows t lines) [] (loop t lines) _ (adds t lines)
                    (λ n. Adds-rest _ n) tr tt q
                ∙ ap (λ r. rows_in table tr ++ r) (append-nil (rows t lines) ∙ ap (rows t) found),
          ),
        )

    -- Behind the URL: the request, the connection, the appender, and what is deferred.
    abbrev pub stream : (Body → Io (Unit {0})) → Option Client → Bytes → Io (Unit {0})
    stream write client export_url = http_get_stream H client export_url >>= λ resp.
        deferring response_body (
          new_table_appender H table >> deferring connection (deferring appender (write resp.body)))

    stream-Streamed :
        (client : Option Client) (url : Bytes) (tr : Trace)
        → (stream (write_lines loop) client url tr).0 ≡ ok tt
        → Streamed H client url table rows tr (stream (write_lines loop) client url tr).1
    unfolding deferring rows_in
    stream-Streamed client url tr h =
        let (resp, p, q) = bind-eq-ok (http_get_stream H client url) _ tr h in
        let after = (http_get_stream H client url tr).1 in
        let (u, p', q') = bind-eq-ok (new_table_appender H table) _ after q in
        let (whole, (t, rows_eq)) = write_lines-eq-ok resp.body _ q' in
        let (answered, accepted) = http_get_stream-eq-ok H client url tr p in
        record {
          response = resp;
          export_time = t;
          answered = answered;
          accepted = accepted;
          whole = whole;
          written =
              ap (λ x. rows_in table x.1) (bind-step (http_get_stream H client url) _ tr p)
              ∙ append-nil _
              ∙ ap (λ x. rows_in table x.1) (bind-step (new_table_appender H table) _ after p')
              ∙ append-nil _
              ∙ append-nil _
              ∙ rows_eq
              ∙ ap (λ r. r ++ rows t (lines_of (segments resp.body.content)))
                  (Keeps-new_table_appender H table table after
                    ∙ Keeps-http_get_stream H table client url tr);
        }

    pub lines-Streamed :
        (built : Result Bytes) (client : Option Client) (tr : Trace)
        → ((lift (wrapping building_export_url built) >>= stream (write_lines loop) client) tr).0
          ≡ ok tt
        → (export_url : Bytes) × (built ≡ ok export_url)
          × Streamed H client export_url table rows tr
              ((lift (wrapping building_export_url built) >>= stream (write_lines loop) client)
                tr).1
    unfolding lift wrapped
    lines-Streamed built client tr h =
        let url = lift (wrapping building_export_url built) in
        let (export_url, p, q) = bind-eq-ok url (stream (write_lines loop) client) tr h in
        (
          export_url,
          wrapped-eq-ok building_export_url (lift built) tr p,
          subst (λ x. Streamed H client export_url table rows tr x.1)
              (sym (bind-step url (stream (write_lines loop) client) tr p))
              (stream-Streamed client export_url tr q),
        )
