-- ===== src/Traces/Tags.antt =====
-- `extractSpanMetadata`: which tags a row holds, and where.
use tilt_common.Base.{
  ◌≡◌, ◌≢◌, refl, sym, ap, ◌∙◌, Bool, true, false, Option, none, some, List, [], ◌∷◌, if◌then◌else◌,
  Bytes, codes, same, same_iff, same_refl, subst,
}
use tilt_common.Base.Dict.{lookup, insert, lookup-insert}
use tilt_common.Host.{JaegerRef, JaegerTag, JaegerSpan, JaegerProcess, JaegerTrace}
use tilt_common.Logs.{print_value}
use tilt_common.Traces.{
  FlatSpan, set_parent, set_tag, set_tags, set_process, extract_span_metadata, resolve_process,
  bare_span, flatten_span,
}

-- What a row holds for a key, given whether it is one of the three keys that have their own column.
abbrev read_by : Bool → Bool → Bool → Bytes → FlatSpan → Option Bytes
read_by is_kind is_code is_message k s =
    if is_kind
    then some s.span_kind
    else if is_code
    then some s.status_code
    else if is_message
    then some s.status_message
    else lookup k s.attributes

abbrev pub tag_of : Bytes → FlatSpan → Option Bytes
tag_of k s =
    read_by (same k (codes "span.kind")) (same k (codes "otel.status_code"))
      (same k (codes "otel.status_description")) k s

-- The value of the last tag with the key, and `o` if there is none.
unfoldable pub last_tag : Bytes → Option Bytes → List JaegerTag → Option Bytes
last_tag k o [] = o
last_tag k o (tag ∷ tags) =
    last_tag k (if same tag.key k then some (print_value tag.value) else o) tags

-- `set_tag`, given which column the key has.
abbrev set_by : Bool → Bool → Bool → Bytes → Bytes → FlatSpan → FlatSpan
set_by is_kind is_code is_message key v s =
    if is_kind
    then record s { span_kind = v }
    else if is_code
    then record s { status_code = v }
    else if is_message
    then record s { status_message = v }
    else record s { attributes = insert key v s.attributes }

set_then_read :
    (a b c : Bool) (k v : Bytes) (s : FlatSpan) → read_by a b c k (set_by a b c k v s) ≡ some v
set_then_read true b c k v s = refl
set_then_read false true c k v s = refl
set_then_read false false true k v s = refl
set_then_read false false false k v s = rw (lookup-insert k k v s.attributes, same_refl k)

-- A key that has a column is not another key that has it.
abbrev Apart : Bool → Bool → Type 0
Apart a b = a ≡ true → b ≡ true → ⊥

set_other :
    (a b c a' b' c' : Bool) (key k v : Bytes) (s : FlatSpan)
    → same key k ≡ false
    → Apart a a'
    → Apart b b'
    → Apart c c'
    → read_by a' b' c' k (set_by a b c key v s) ≡ read_by a' b' c' k s
set_other true b c true b' c' key k v s h p q r = absurd (p refl refl)
set_other true b c false b' c' key k v s h p q r = refl
set_other false true c true b' c' key k v s h p q r = refl
set_other false true c false true c' key k v s h p q r = absurd (q refl refl)
set_other false true c false false c' key k v s h p q r = refl
set_other false false true true b' c' key k v s h p q r = refl
set_other false false true false true c' key k v s h p q r = refl
set_other false false true false false true key k v s h p q r = absurd (r refl refl)
set_other false false true false false false key k v s h p q r = refl
set_other false false false true b' c' key k v s h p q r = refl
set_other false false false false true c' key k v s h p q r = refl
set_other false false false false false true key k v s h p q r = refl
set_other false false false false false false key k v s h p q r =
    rw (lookup-insert k key v s.attributes, h)

apart : (key k name : Bytes) → same key k ≡ false → Apart (same key name) (same k name)
apart key k name h p q =
    let e = (same_iff key name).0 p ∙ sym ((same_iff k name).0 q) in
    let t = (same_iff key k).1 e in true-ne-false (sym t ∙ h)
  where
    true-ne-false : true ≢ false
    true-ne-false e = cc

tag_of-set_tag :
    (k : Bytes) (s : FlatSpan) (tag : JaegerTag)
    → tag_of k (set_tag s tag)
      ≡ (if same tag.key k then some (print_value tag.value) else tag_of k s)
unfolding set_tag
tag_of-set_tag k s tag = by_key (same tag.key k) refl
  where
    by_key :
        (b : Bool)
        → same tag.key k ≡ b
        → tag_of k (
            set_by
              (same tag.key (codes "span.kind"))
              (same tag.key (codes "otel.status_code"))
              (same tag.key (codes "otel.status_description"))
              tag.key
              (print_value tag.value)
              s)
          ≡ (if b then some (print_value tag.value) else tag_of k s)
    by_key true h =
        subst
          (λ j.
            tag_of k (
              set_by (same j (codes "span.kind")) (same j (codes "otel.status_code"))
                (same j (codes "otel.status_description")) j (print_value tag.value) s)
            ≡ some (print_value tag.value))
          (sym ((same_iff tag.key k).0 h))
          (set_then_read (same k (codes "span.kind")) (same k (codes "otel.status_code"))
            (same k (codes "otel.status_description")) k (print_value tag.value) s)
    by_key false h =
        set_other (same tag.key (codes "span.kind")) (same tag.key (codes "otel.status_code"))
          (same tag.key (codes "otel.status_description")) (same k (codes "span.kind"))
          (same k (codes "otel.status_code")) (same k (codes "otel.status_description")) tag.key k
          (print_value tag.value) s h (apart tag.key k (codes "span.kind") h)
          (apart tag.key k (codes "otel.status_code") h)
          (apart tag.key k (codes "otel.status_description") h)

tag_of-set_tags :
    (k : Bytes) (tags : List JaegerTag) (s : FlatSpan)
    → tag_of k (set_tags tags s) ≡ last_tag k (tag_of k s) tags
unfolding set_tags last_tag
tag_of-set_tags k [] s = refl
tag_of-set_tags k (tag ∷ tags) s =
    tag_of-set_tags k tags (set_tag s tag) ∙ ap (λ o. last_tag k o tags) (tag_of-set_tag k s tag)

tag_of-set_parent :
    (k : Bytes) (refs : List JaegerRef) (s : FlatSpan) → tag_of k (set_parent refs s) ≡ tag_of k s
unfolding set_parent
tag_of-set_parent k [] s = refl
tag_of-set_parent k (ref ∷ refs) s =
    by_type (same ref.ref_type (codes "CHILD_OF")) (tag_of-set_parent k refs s)
  where
    by_type :
        (b : Bool)
        → tag_of k (set_parent refs s) ≡ tag_of k s
        → tag_of k (if b then record s { parent_span_id = ref.span_id } else set_parent refs s)
          ≡ tag_of k s
    by_type true p = refl
    by_type false p = p

tag_of-set_process :
    (k : Bytes) (p : Option JaegerProcess) (s : FlatSpan) → tag_of k (set_process p s) ≡ tag_of k s
tag_of-set_process k none s = refl
tag_of-set_process k (some p) s = refl

-- What is held for a key that no tag has.
abbrev pub unset : Bytes → Option Bytes
unset k =
    if same k (codes "span.kind")
    then some []
    else if same k (codes "otel.status_code")
    then some []
    else if same k (codes "otel.status_description")
    then some []
    else none

-- A row holds for each key the value of the span's last tag with this key, in the column for the
-- span's kind, its status or the status message if the key is that of one, and in the attributes
-- otherwise; where no tag has the key, the column is empty, or the attributes lack the key.
pub flatten_span-last_tag :
    (trace : JaegerTrace) (span : JaegerSpan) (k : Bytes)
    → tag_of k (flatten_span trace span) ≡ last_tag k (unset k) span.tags
unfolding flatten_span resolve_process extract_span_metadata lookup
flatten_span-last_tag trace span k =
    tag_of-set_process k (lookup span.process_id trace.processes) _
    ∙ tag_of-set_tags k span.tags (set_parent span.references (bare_span span))
    ∙ ap (λ o. last_tag k o span.tags) (tag_of-set_parent k span.references (bare_span span))
