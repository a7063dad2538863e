-- ===== src/Traces/Times.antt =====
-- `FlattenTraces`: the times and the parent of a row.
use tilt_common.Base.{
  ◌≡◌, refl, ap, subst, ◌∙◌, Bool, true, false, Option, none, some, List, [], ◌∷◌, if◌then◌else◌,
  Bytes, codes, same,
}
use tilt_common.Base.Int.{◌+ℤ◌, ◌*ℤ◌, wrap64-eq, IsInt64}
use tilt_common.Host.{JaegerRef, JaegerTag, JaegerSpan, JaegerProcess, JaegerTrace}
use tilt_common.Base.Dict.{lookup}
use tilt_common.Traces.{
  FlatSpan, unix_micro, micros, set_parent, set_tag, set_tags, set_process, extract_span_metadata,
  resolve_process, bare_span, flatten_span,
}

-- The span of the first reference that says CHILD_OF.
unfoldable pub parent_of : List JaegerRef → Bytes
parent_of [] = []
parent_of (ref ∷ refs) =
    if same ref.ref_type (codes "CHILD_OF") then ref.span_id else parent_of refs

-- Two rows that differ in nothing that tags and a process do not set.
record Agrees (s s' : FlatSpan) : Type 0 where
  trace_id : s'.trace_id ≡ s.trace_id
  span_id : s'.span_id ≡ s.span_id
  operation : s'.operation ≡ s.operation
  duration_us : s'.duration_us ≡ s.duration_us
  parent_span_id : s'.parent_span_id ≡ s.parent_span_id
  start_time : s'.start_time ≡ s.start_time
  end_time : s'.end_time ≡ s.end_time

Agrees-refl : (s : FlatSpan) → Agrees s s
Agrees-refl s = record {
  trace_id = refl;
  span_id = refl;
  operation = refl;
  duration_us = refl;
  parent_span_id = refl;
  start_time = refl;
  end_time = refl;
}

Agrees-trans : {s t u : FlatSpan} → Agrees s t → Agrees t u → Agrees s u
Agrees-trans a b = record {
  trace_id = b.trace_id ∙ a.trace_id;
  span_id = b.span_id ∙ a.span_id;
  operation = b.operation ∙ a.operation;
  duration_us = b.duration_us ∙ a.duration_us;
  parent_span_id = b.parent_span_id ∙ a.parent_span_id;
  start_time = b.start_time ∙ a.start_time;
  end_time = b.end_time ∙ a.end_time;
}

Agrees-if : (b : Bool) {s t u : FlatSpan} → Agrees s t → Agrees s u → Agrees s (if b then t else u)
Agrees-if true p q = p
Agrees-if false p q = q

set_tag-Agrees : (s : FlatSpan) (tag : JaegerTag) → Agrees s (set_tag s tag)
unfolding set_tag
set_tag-Agrees s tag = Agrees-if (same tag.key (codes "span.kind")) (same_times) (
    Agrees-if (same tag.key (codes "otel.status_code")) same_times
      (Agrees-if (same tag.key (codes "otel.status_description")) same_times same_times))
  where
    same_times :
        {k c m : Bytes} {a : _}
        → Agrees s (record s { span_kind = k; status_code = c; status_message = m; attributes = a })
    same_times = record {
      trace_id = refl;
      span_id = refl;
      operation = refl;
      duration_us = refl;
      parent_span_id = refl;
      start_time = refl;
      end_time = refl;
    }

set_tags-Agrees : (tags : List JaegerTag) (s : FlatSpan) → Agrees s (set_tags tags s)
unfolding set_tags
set_tags-Agrees [] s = Agrees-refl s
set_tags-Agrees (tag ∷ tags) s =
    Agrees-trans (set_tag-Agrees s tag) (set_tags-Agrees tags (set_tag s tag))

set_process-Agrees : (p : Option JaegerProcess) (s : FlatSpan) → Agrees s (set_process p s)
set_process-Agrees none s = Agrees-refl s
set_process-Agrees (some p) s = record {
  trace_id = refl;
  span_id = refl;
  operation = refl;
  duration_us = refl;
  parent_span_id = refl;
  start_time = refl;
  end_time = refl;
}

set_parent-parent_of :
    (refs : List JaegerRef) (s : FlatSpan)
    → s.parent_span_id ≡ []
    → set_parent refs s ≡ record s { parent_span_id = parent_of refs }
unfolding set_parent parent_of
set_parent-parent_of [] s h = cc
set_parent-parent_of (ref ∷ refs) s h =
    by_type (same ref.ref_type (codes "CHILD_OF")) (set_parent-parent_of refs s h)
  where
    by_type :
        (b : Bool)
        → set_parent refs s ≡ record s { parent_span_id = parent_of refs }
        → (if b then record s { parent_span_id = ref.span_id } else set_parent refs s)
          ≡ record s { parent_span_id = if b then ref.span_id else parent_of refs }
    by_type true p = refl
    by_type false p = p

same_fields :
    (trace : JaegerTrace) (span : JaegerSpan)
    → Agrees
        (record (bare_span span) { parent_span_id = parent_of span.references })
        (flatten_span trace span)
unfolding flatten_span resolve_process extract_span_metadata
same_fields trace span =
    subst (λ s. Agrees s (flatten_span trace span))
      (set_parent-parent_of span.references (bare_span span) refl)
      (Agrees-trans (set_tags-Agrees span.tags (set_parent span.references (bare_span span)))
        (set_process-Agrees (lookup span.process_id trace.processes) _))

-- A row has its span's ids and its operation, the first CHILD_OF reference as its parent (empty if
-- there is none), the span's duration in microseconds, and its start in nanoseconds.
pub flatten_span-parent_of :
    (trace : JaegerTrace) (span : JaegerSpan)
    → ((flatten_span trace span).trace_id ≡ span.trace_id)
      × (((flatten_span trace span).span_id ≡ span.span_id)
          × (((flatten_span trace span).operation ≡ span.operation_name)
              × (((flatten_span trace span).parent_span_id ≡ parent_of span.references)
                  × (((flatten_span trace span).duration_us ≡ span.duration)
                      × ((flatten_span trace span).start_time ≡ span.start_time *ℤ 1000)))))
unfolding unix_micro
flatten_span-parent_of trace span =
    let a = same_fields trace span in
    (a.trace_id, (a.span_id, (a.operation, (a.parent_span_id, (a.duration_us, a.start_time)))))

-- If a span's duration in nanoseconds fits into an int64, its row ends this long after the span's
-- start.
pub flatten_span-end_time :
    (trace : JaegerTrace) (span : JaegerSpan)
    → IsInt64 (span.duration *ℤ 1000)
    → (flatten_span trace span).end_time ≡ span.start_time *ℤ 1000 +ℤ span.duration *ℤ 1000
unfolding unix_micro micros
flatten_span-end_time trace span h =
    (same_fields trace span).end_time
    ∙ ap (λ d. span.start_time *ℤ 1000 +ℤ d) (wrap64-eq (span.duration *ℤ 1000) h)
