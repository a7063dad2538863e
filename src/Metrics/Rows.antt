-- ===== src/Metrics/Rows.antt =====
-- `appendMetricRows`: which rows a line of metrics adds to the table, and their labels.
use tilt_common.Base.{
  Bool, true, false, ℕ, ◌+◌, ◌≡◌, refl, ap, ◌∙◌, Option, none, some, List, [], ◌∷◌, if◌then◌else◌,
  arith, Bytes, codes, length, min, same,
}
use tilt_common.Base.Dict.{
  IsMap, or_else, copy_step, lookup-if_insert, one_key, Dict, lookup, insert,
}
use tilt_common.Base.Int.{ℤ}
use tilt_common.Errors.{ok}
use tilt_common.Host.{MetricLine, Event, appended, Trace, Host}
use tilt_common.Host.Io.{lift, wrapped, act}
use tilt_common.Effect.Outcomes.{bind-eq-ok, bind-step}
use tilt_common.Metrics.{
  metric_name_key, get_or_empty, labels_of, copy_labels, metric_row, append_row, metric_rows,
  append_metric_rows,
}

-- The rows of a series in plain form, the latest first, as a trace has them.
unfoldable pub rows_of : Bytes → Dict Bytes → ℤ → List ℕ → List ℤ → List Event → List Event
rows_of name labels export_time [] timestamps tr = tr
rows_of name labels export_time (v ∷ values) [] tr = tr
rows_of name labels export_time (v ∷ values) (ms ∷ timestamps) tr =
    rows_of name labels export_time values timestamps
      (appended (codes "metrics") (metric_row name labels ms v export_time) ∷ tr)

module _ (H : Host) where
  metric_rows-rows_of :
      (name : Bytes) (labels : Dict Bytes) (export_time : ℤ) (values : List ℕ) (timestamps : List ℤ)
      (count n : ℕ) (tr : Trace)
      → (metric_rows H name labels export_time values timestamps count tr).0 ≡ ok n
      → ((metric_rows H name labels export_time values timestamps count tr).1
          ≡ rows_of name labels export_time values timestamps tr)
        × (n ≡ count + min (length values) (length timestamps))
  unfolding metric_rows rows_of lift append_row wrapped act
  metric_rows-rows_of name labels export_time [] timestamps count n tr h = (refl, ground arith)
  metric_rows-rows_of name labels export_time (v ∷ values) [] count n tr h = (refl, ground arith)
  metric_rows-rows_of name labels export_time (v ∷ values) (ms ∷ timestamps) count n tr h =
      let row = append_row H (codes "metrics") (metric_row name labels ms v export_time) in
      let rest =
        λ (u : Unit {0}). metric_rows H name labels export_time values timestamps (count + 1) in
      let (u, p, q) = bind-eq-ok row rest tr h in
      let (trace, number) =
        metric_rows-rows_of name labels export_time values timestamps (count + 1) n
          (appended (codes "metrics") (metric_row name labels ms v export_time) ∷ tr) q in
      (ap (λ x. x.1) (bind-step row rest tr p) ∙ trace, omega (arith, number))

lookup-copy_labels :
    (k : Bytes) (labels metric : Dict Bytes)
    → IsMap metric
    → lookup k (copy_labels labels metric) ≡ (
        if same k metric_name_key
        then lookup k labels
        else or_else (lookup k metric) (lookup k labels))
unfolding copy_labels lookup
lookup-copy_labels k labels [] h = unfold lookup in Bool_same (same k metric_name_key)
  where
    Bool_same : (b : Bool) {x : Option Bytes} → x ≡ (if b then x else x)
    Bool_same true = refl
    Bool_same false = refl
lookup-copy_labels k labels ((j, v) ∷ metric) (h, hs) =
    let name_is = λ (x : Bytes). same x metric_name_key in
    let copied = if name_is j then labels else insert j v labels in
    lookup-copy_labels k copied metric hs
    ∙ ap (λ o. if name_is k then o else or_else (lookup k metric) o)
        (lookup-if_insert (name_is j) k j v labels)
    ∙ copy_step (name_is j) (name_is k) (same j k) v (lookup k metric) (lookup k labels)
        (one_key name_is k j metric h)

-- The labels of a series are the entries of its metric but for the name.
labels_of-lookup :
    (k : Bytes) (metric : Dict Bytes)
    → IsMap metric
    → lookup k (labels_of metric) ≡ (if same k metric_name_key then none else lookup k metric)
unfolding labels_of lookup
labels_of-lookup k metric h =
    lookup-copy_labels k [] metric h
    ∙ ap (λ o. if same k metric_name_key then none else o) (or_else-none (lookup k metric))
  where
    or_else-none : (o : Option Bytes) → or_else o none ≡ o
    or_else-none none = refl
    or_else-none (some v) = refl

module _ (H : Host) where
  -- When a line's rows are appended without an error, the rows are one for each value that has a
  -- timestamp, in their order and with the name that the metric has or the empty name; as many are
  -- counted; and the labels of each are the metric's but for the name.
  pub append_metric_rows-rows_of :
      (line : MetricLine) (export_time : ℤ) (n : ℕ) (tr : Trace)
      → IsMap line.metric
      → (append_metric_rows H line export_time tr).0 ≡ ok n
      → ((append_metric_rows H line export_time tr).1
          ≡ rows_of
              (get_or_empty metric_name_key line.metric)
              (labels_of line.metric)
              export_time
              line.values
              line.timestamps
              tr)
        × ((n ≡ min (length line.values) (length line.timestamps))
            × ((k : Bytes)
                → lookup k (labels_of line.metric)
                  ≡ (if same k metric_name_key then none else lookup k line.metric)))
  unfolding append_metric_rows
  append_metric_rows-rows_of line export_time n tr h e =
      let (trace, number) =
        metric_rows-rows_of H (get_or_empty metric_name_key line.metric) (labels_of line.metric)
          export_time line.values line.timestamps 0 n tr e in
      (trace, (omega (arith, number), λ k. labels_of-lookup k line.metric h))
