-- ===== src/Schema.antt =====
-- The tables of cmd/observability-export/export.go: their columns, and the SQL that makes them.
pub mod Rows
use tilt_common.Base.{
  ℕ, zero, suc, ◌≡◌, refl, Bool, true, false, Option, none, some, List, [], ◌∷◌, ◌++◌,
  if◌then◌else◌, Bytes, codes,
}

pub data ColumnType : Type 0 where
  timestamp_type varchar_type double_type bigint_type map_type : ColumnType

pub record Column : Type 0 where
  pub name : Bytes
  pub column_type : ColumnType
  pub not_null : Bool

abbrev column : Bytes → ColumnType → Bool → Column
column name t not_null = record { name = name; column_type = t; not_null = not_null }

unfoldable pub metrics_columns : List Column
metrics_columns =
    column (codes "timestamp") timestamp_type true
    ∷ column (codes "metric_name") varchar_type true
    ∷ column (codes "labels") map_type false
    ∷ column (codes "value") double_type true
    ∷ column (codes "export_time") timestamp_type false
    ∷ []

unfoldable pub logs_columns : List Column
logs_columns =
    column (codes "timestamp") timestamp_type true
    ∷ column (codes "message") varchar_type true
    ∷ column (codes "stream") varchar_type false
    ∷ column (codes "severity") varchar_type false
    ∷ column (codes "fields") map_type false
    ∷ column (codes "export_time") timestamp_type false
    ∷ []

unfoldable pub spans_columns : List Column
spans_columns =
    column (codes "trace_id") varchar_type true
    ∷ column (codes "span_id") varchar_type true
    ∷ column (codes "parent_span_id") varchar_type false
    ∷ column (codes "operation") varchar_type true
    ∷ column (codes "service_name") varchar_type true
    ∷ column (codes "span_kind") varchar_type false
    ∷ column (codes "start_time") timestamp_type true
    ∷ column (codes "end_time") timestamp_type true
    ∷ column (codes "duration_us") bigint_type true
    ∷ column (codes "status_code") varchar_type false
    ∷ column (codes "status_message") varchar_type false
    ∷ column (codes "attributes") map_type false
    ∷ column (codes "resource_attrs") map_type false
    ∷ column (codes "export_time") timestamp_type false
    ∷ []

abbrev pub create_metrics_table : Bytes
create_metrics_table =
    codes
      "CREATE TABLE metrics (\n    timestamp       TIMESTAMP NOT NULL,\n    metric_name     VARCHAR NOT NULL,\n    labels          MAP(VARCHAR, VARCHAR),\n    value           DOUBLE NOT NULL,\n    export_time     TIMESTAMP\n);"

abbrev pub create_logs_table : Bytes
create_logs_table =
    codes
      "CREATE TABLE logs (\n    timestamp       TIMESTAMP NOT NULL,\n    message         VARCHAR NOT NULL,\n    stream          VARCHAR,\n    severity        VARCHAR,\n    fields          MAP(VARCHAR, VARCHAR),\n    export_time     TIMESTAMP\n);"

abbrev pub create_spans_table : Bytes
create_spans_table =
    codes
      "CREATE TABLE spans (\n    trace_id        VARCHAR NOT NULL,\n    span_id         VARCHAR NOT NULL,\n    parent_span_id  VARCHAR,\n    operation       VARCHAR NOT NULL,\n    service_name    VARCHAR NOT NULL,\n    span_kind       VARCHAR,\n    start_time      TIMESTAMP NOT NULL,\n    end_time        TIMESTAMP NOT NULL,\n    duration_us     BIGINT NOT NULL,\n    status_code     VARCHAR,\n    status_message  VARCHAR,\n    attributes      MAP(VARCHAR, VARCHAR),\n    resource_attrs  MAP(VARCHAR, VARCHAR),\n    export_time     TIMESTAMP\n);"

-- A column as SQL: the name in 16 places, the type, and whether NULL is refused.
abbrev type_name : ColumnType → Bytes
type_name timestamp_type = codes "TIMESTAMP"
type_name varchar_type = codes "VARCHAR"
type_name double_type = codes "DOUBLE"
type_name bigint_type = codes "BIGINT"
type_name map_type = codes "MAP(VARCHAR, VARCHAR)"

abbrev padded : ℕ → Bytes → Bytes
padded zero s = s
padded (suc n) [] = b' ' ∷ padded n []
padded (suc n) (c ∷ s) = c ∷ padded n s

unfoldable pub column_sql : Column → Bytes
column_sql c =
    codes "\n    "
    ++ (padded 16 c.name
        ++ (type_name c.column_type ++ (if c.not_null then codes " NOT NULL" else [])))

abbrev columns_sql : List Column → Bytes
columns_sql [] = []
columns_sql (c ∷ []) = column_sql c
columns_sql (c ∷ d ∷ cs) = column_sql c ++ b',' ∷ columns_sql (d ∷ cs)

unfoldable pub table_sql : Bytes → List Column → Bytes
unfolding column_sql
table_sql name columns =
    codes "CREATE TABLE " ++ (name ++ (codes " (" ++ (columns_sql columns ++ codes "\n);")))

-- The columns are those of the statements.
table_sql-columns :
    (table_sql (codes "metrics") metrics_columns ≡ create_metrics_table)
    × ((table_sql (codes "logs") logs_columns ≡ create_logs_table)
        × (table_sql (codes "spans") spans_columns ≡ create_spans_table))
unfolding table_sql metrics_columns logs_columns spans_columns
table_sql-columns = (refl, (refl, refl))
