-- ===== src/Schema/Rows.antt =====
-- Rows that a table takes, and traces in which every row appended is one.
use tilt_common.Base.{
  ◌≡◌, Bool, true, false, not, Option, none, some, List, [], ◌∷◌, Bytes, codes, same, All,
  if◌then◌else◌,
}
use tilt_common.Host.{
  Cell, timestamp, varchar, null, double, bigint, dict, nil_dict, Event, sent, opened, closed,
  appended, flushed, executed, made_dir, queried, created_file, wrote_file, logged, Trace,
}
use tilt_common.Schema.{
  ColumnType, timestamp_type, varchar_type, double_type, bigint_type, map_type, Column,
  metrics_columns, logs_columns, spans_columns,
}

-- Whether a column of a type and nullability takes a value. A nil map is taken as NULL.
abbrev pub accepts : ColumnType → Bool → Cell → Bool
accepts t not_null null = not not_null
accepts timestamp_type not_null (timestamp x) = true
accepts varchar_type not_null (varchar x) = true
accepts double_type not_null (double x) = true
accepts bigint_type not_null (bigint x) = true
accepts map_type not_null (dict x) = true
accepts map_type not_null nil_dict = not not_null
accepts _ not_null _ = false

-- As many cells as columns, each accepted by its column.
abbrev pub Fits : List Column → List Cell → Type 0
Fits [] [] = Unit
Fits [] (v ∷ row) = ⊥
Fits (c ∷ columns) [] = ⊥
Fits (c ∷ columns) (v ∷ row) = (accepts c.column_type c.not_null v ≡ true) × Fits columns row

unfoldable pub columns_of : Bytes → Option (List Column)
columns_of table =
    if same table (codes "metrics")
    then some metrics_columns
    else if same table (codes "logs")
    then some logs_columns
    else if same table (codes "spans")
    then some spans_columns
    else none

-- A row for a table that there is, and that the table takes.
abbrev pub FitsTable : Option (List Column) → List Cell → Type 0
FitsTable none row = ⊥
FitsTable (some columns) row = Fits columns row

abbrev pub IsTyped : Event → Type 0
IsTyped (appended table row) = FitsTable (columns_of table) row
IsTyped (sent client request) = Unit
IsTyped (opened r) = Unit
IsTyped (closed r) = Unit
IsTyped (flushed table) = Unit
IsTyped (executed sql) = Unit
IsTyped (made_dir path) = Unit
IsTyped (queried call) = Unit
IsTyped (created_file path) = Unit
IsTyped (wrote_file path content) = Unit
IsTyped (logged line) = Unit

abbrev pub AllTyped : Trace → Type 0
AllTyped tr = All IsTyped tr
