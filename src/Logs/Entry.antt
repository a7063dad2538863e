-- ===== src/Logs/Entry.antt =====
-- `ParseLogEntry`: which part of a line goes into which field of an entry.
use tilt_common.Base.{
  Bool, true, false, ◌≡◌, refl, sym, ap, ◌∙◌, Option, none, some, List, [], ◌∷◌, if◌then◌else◌,
  Bytes, codes, same,
}
use tilt_common.Base.Dict.{
  Dict, IsMap, erase-IsMap, or_else, copy_step, lookup-if_insert, one_key, lookup, insert, erase,
}
use tilt_common.Base.Int.{ℤ}
use tilt_common.Host.{Value}
use tilt_common.Logs.{
  severity_keys, string_field, usable, or_empty, print_value, severity_of, extract_severity,
  is_system_key, collect_fields, log_entry,
}

abbrev pub printed : Option Value → Option Bytes
printed none = none
printed (some v) = some (print_value v)

printed-if :
    (b : Bool) (v : Value) (o : Option Value)
    → (if b then some (print_value v) else printed o) ≡ printed (if b then some v else o)
printed-if true v o = refl
printed-if false v o = refl

lookup-collect_fields :
    (k : Bytes) (fields : Dict Bytes) (raw : Dict Value)
    → IsMap raw
    → lookup k (collect_fields fields raw) ≡ (
        if is_system_key k
        then lookup k fields
        else or_else (printed (lookup k raw)) (lookup k fields))
unfolding collect_fields lookup
lookup-collect_fields k fields [] h = unfold lookup in either (is_system_key k)
  where
    either : (b : Bool) {x : Option Bytes} → x ≡ (if b then x else x)
    either true = refl
    either false = refl
lookup-collect_fields k fields ((j, v) ∷ raw) (h, hs) =
    let fields' = if is_system_key j then fields else insert j (print_value v) fields in
    lookup-collect_fields k fields' raw hs
    ∙ ap (λ o. if is_system_key k then o else or_else (printed (lookup k raw)) o)
        (lookup-if_insert (is_system_key j) k j (print_value v) fields)
    ∙ copy_step (is_system_key j) (is_system_key k) (same j k) (print_value v)
        (printed (lookup k raw)) (lookup k fields)
        (λ e. let (p, q) = one_key is_system_key k j raw h e in (p, ap printed q))
    ∙ ap (λ o. if is_system_key k then lookup k fields else or_else o (lookup k fields))
        (printed-if (same j k) v (lookup k raw))

-- The first of the keys that holds a string other than the empty one.
unfoldable pub severity_key : List Bytes → Dict Value → Option Bytes
severity_key [] raw = none
severity_key (key ∷ keys) raw = elim (usable (string_field key raw)) [
  | some v ↦ some key
  | none ↦ severity_key keys raw
]

-- What is found under a key, and the rest of the entry, if there is the key.
abbrev pub severity_at : Option Bytes → Dict Value → Bytes
severity_at none raw = []
severity_at (some key) raw = or_empty (string_field key raw)

abbrev pub without : Option Bytes → Dict Value → Dict Value
without none raw = raw
without (some key) raw = erase key raw

abbrev split_by : Option Bytes → Dict Value → Bytes × Dict Value
split_by key raw = (severity_at key raw, without key raw)

severity_step :
    (key : Bytes) (keys : List Bytes) (raw : Dict Value) (o : Option Bytes)
    → string_field key raw ≡ o
    → severity_of keys raw ≡ split_by (severity_key keys raw) raw
    → severity_of (key ∷ keys) raw ≡ split_by (severity_key (key ∷ keys) raw) raw
unfolding severity_of severity_key
severity_step key keys raw none p q = rw (p, severity_of, severity_key) q
severity_step key keys raw (some []) p q = rw (p, severity_of, severity_key) q
severity_step key keys raw (some (c ∷ s)) p q =
    rw (p, severity_of, severity_key) (ap (λ o. (or_empty o, erase key raw)) (sym p))

severity_of-severity_key :
    (keys : List Bytes) (raw : Dict Value)
    → severity_of keys raw ≡ split_by (severity_key keys raw) raw
unfolding severity_of severity_key
severity_of-severity_key [] raw = refl
severity_of-severity_key (key ∷ keys) raw =
    severity_step key keys raw (string_field key raw) refl (severity_of-severity_key keys raw)

without-IsMap : (key : Option Bytes) (raw : Dict Value) → IsMap raw → IsMap (without key raw)
without-IsMap none raw h = h
without-IsMap (some key) raw h = erase-IsMap key raw h

or_else-none : (o : Option Bytes) → or_else o none ≡ o
or_else-none none = refl
or_else-none (some v) = refl

-- An entry's message and stream are those of the line, its severity is what the first of the
-- severity's keys with a string other than the empty one holds (empty if there is none), and its
-- fields are the line's other keys, with their values printed: all but `_msg`, `_time`, `_stream` and
-- the key that the severity was taken from.
pub log_entry-lookup :
    (raw : Dict Value) (ts : ℤ)
    → IsMap raw
    → ((log_entry raw ts).message ≡ or_empty (string_field (codes "_msg") raw))
      × (((log_entry raw ts).stream ≡ or_empty (string_field (codes "_stream") raw))
          × (((log_entry raw ts).severity ≡ severity_at (severity_key severity_keys raw) raw)
              × ((k : Bytes)
                  → lookup k (log_entry raw ts).fields ≡ (
                      if is_system_key k
                      then none
                      else printed (lookup k (without (severity_key severity_keys raw) raw))))))
unfolding log_entry extract_severity lookup
log_entry-lookup raw ts h =
    let key = severity_key severity_keys raw in
    let e = severity_of-severity_key severity_keys raw in
    (
      refl,
      (
        refl,
        (
          ap (λ x. x.0) e,
          λ k.
              ap (λ x. lookup k (collect_fields [] x.1)) e
              ∙ lookup-collect_fields k [] (without key raw) (without-IsMap key raw h)
              ∙ ap (λ o. if is_system_key k then none else o)
                  (or_else-none (printed (lookup k (without key raw)))),
        ),
      ),
    )
