-- ===== src/Traces/Flatten.antt =====
-- `FlattenTraces`: which rows it makes, in which order, and what a row holds.
use tilt_common.Base.{
  ℕ, ◌+◌, ◌<◌, ◌≤◌, ◌≡◌, sym, ◌∙◌, ap, List, [], ◌∷◌, ◌++◌, map, append-nil, append_assoc, arith,
  length, length-append, length-map,
}
use tilt_common.Host.{JaegerSpan, JaegerTrace}
use tilt_common.Traces.{
  FlatSpan, SpanSlice, make_spans, append_span, total_spans, flatten_span, flatten_spans,
  flatten_loop, flatten_slice,
}

-- The rows in plain form: trace by trace, span by span.
unfoldable pub rows_of : List JaegerTrace → List FlatSpan
rows_of [] = []
rows_of (trace ∷ traces) = map (flatten_span trace) trace.spans ++ rows_of traces

-- A slice with more elements, all in the room that it has.
abbrev extended : SpanSlice → List FlatSpan → SpanSlice
extended spans more = record spans { elements = spans.elements ++ more }

append_span-room :
    (spans : SpanSlice) (s : FlatSpan)
    → length spans.elements < spans.capacity
    → append_span spans s ≡ extended spans (s ∷ [])
unfolding append_span
append_span-room spans s h =
    ap (λ c. record { elements = spans.elements ++ s ∷ []; capacity = c }) (ground arith)

flatten_spans-map :
    (trace : JaegerTrace) (spans : List JaegerSpan) (out : SpanSlice)
    → length out.elements + length spans ≤ out.capacity
    → flatten_spans trace spans out ≡ extended out (map (flatten_span trace) spans)
unfolding flatten_spans
flatten_spans-map trace [] out h =
    ap (λ l. record { elements = l; capacity = out.capacity }) (sym (append-nil out.elements))
flatten_spans-map trace (s ∷ spans) out h =
    let row = flatten_span trace s in
    ap (flatten_spans trace spans) (append_span-room out row (omega (arith, h)))
    ∙ flatten_spans-map trace spans (extended out (row ∷ []))
        (omega (arith, h, length-append out.elements (row ∷ [])))
    ∙ ap (λ l. record { elements = l; capacity = out.capacity })
        (append_assoc out.elements (row ∷ []) (map (flatten_span trace) spans))

flatten_loop-rows_of :
    (traces : List JaegerTrace) (out : SpanSlice)
    → length out.elements + length (rows_of traces) ≤ out.capacity
    → flatten_loop traces out ≡ extended out (rows_of traces)
unfolding flatten_loop rows_of
flatten_loop-rows_of [] out h =
    ap (λ l. record { elements = l; capacity = out.capacity }) (sym (append-nil out.elements))
flatten_loop-rows_of (trace ∷ traces) out h =
    let rows = map (flatten_span trace) trace.spans in
    let l = length-append rows (rows_of traces) in
    let k = length-map (flatten_span trace) trace.spans in
    ap (flatten_loop traces) (flatten_spans-map trace trace.spans out (omega (arith, h, l, k)))
    ∙ flatten_loop-rows_of traces (extended out rows)
        (omega (arith, h, l, length-append out.elements rows))
    ∙ ap (λ l. record { elements = l; capacity = out.capacity })
        (append_assoc out.elements rows (rows_of traces))

total_spans-rows_of :
    (total : ℕ) (traces : List JaegerTrace)
    → total_spans total traces ≡ total + length (rows_of traces)
unfolding total_spans rows_of
total_spans-rows_of total [] = omega arith
total_spans-rows_of total (trace ∷ traces) = omega (
  arith,
  total_spans-rows_of (total + length trace.spans) traces,
  length-append (map (flatten_span trace) trace.spans) (rows_of traces),
  length-map (flatten_span trace) trace.spans,
)

-- `FlattenTraces` makes one row for each span, in the order of the traces and of their spans, each
-- with the processes of its own trace; and the capacity that it reserves by counting the spans first
-- is the number of these rows, so the slice never grows.
pub flatten_slice-rows_of :
    (traces : List JaegerTrace)
    → ((flatten_slice traces).elements ≡ rows_of traces)
      × (((flatten_slice traces).capacity ≡ total_spans 0 traces)
          × (total_spans 0 traces ≡ length (rows_of traces)))
unfolding flatten_slice
flatten_slice-rows_of traces =
    let total = total_spans-rows_of 0 traces in
    let e =
      flatten_loop-rows_of traces (make_spans (total_spans 0 traces)) (omega (arith, total)) in
    (ap (λ s. s.elements) e, (ap (λ s. s.capacity) e, omega (arith, total)))
