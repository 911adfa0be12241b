-- ===== src/Sqlite/Schema.antt =====
-- `EnsureSchema` of sqlite/store.go, and the statements that it executes: what each says of a table, in
-- the text's own names and types. An `Exec` of several statements executes them in turn, up to the first
-- that fails.
use promolog.Prelude.{List, [], ◌∷◌, Option, none, some, Str, lit, contains, if◌then◌else◌}

pub data TableName : Type 0 where
  error_traces filter_rules retention_rules : TableName

-- `CREATE TABLE IF NOT EXISTS` with its columns, `ALTER TABLE ... ADD COLUMN`, and `CREATE INDEX IF NOT
-- EXISTS` on one column.
pub data Statement : Type 0 where
  create_table : TableName → List (Str × Str) → Statement
  add_column : TableName → Str → Str → Statement
  create_index : Str → TableName → Str → Statement

abbrev pub trace_columns : List (Str × Str)
trace_columns =
    (lit "id", lit "INTEGER PRIMARY KEY AUTOINCREMENT")
    ∷ (lit "request_id", lit "VARCHAR(64) NOT NULL UNIQUE")
    ∷ (lit "parent_request_id", lit "VARCHAR(64)")
    ∷ (lit "error_chain", lit "TEXT NOT NULL")
    ∷ (lit "status_code", lit "INT NOT NULL")
    ∷ (lit "route", lit "VARCHAR(500) NOT NULL")
    ∷ (lit "method", lit "VARCHAR(10) NOT NULL")
    ∷ (lit "user_agent", lit "TEXT")
    ∷ (lit "remote_ip", lit "VARCHAR(45)")
    ∷ (lit "user_id", lit "VARCHAR(255)")
    ∷ (lit "entries", lit "TEXT NOT NULL")
    ∷ (lit "tags", lit "TEXT")
    ∷ (lit "kind", lit "TEXT")
    ∷ (lit "operation_name", lit "TEXT")
    ∷ (lit "origin_request_id", lit "VARCHAR(64)")
    ∷ (lit "status", lit "TEXT")
    ∷ (lit "started_at", lit "TIMESTAMP")
    ∷ (lit "duration_ms", lit "INTEGER")
    ∷ (lit "created_at", lit "TIMESTAMP NOT NULL")
    ∷ []

abbrev pub schema : List Statement
schema =
    create_table error_traces trace_columns
    ∷ create_index (lit "idx_error_traces_request_id") error_traces (lit "request_id")
    ∷ create_index (lit "idx_error_traces_created_at") error_traces (lit "created_at")
    ∷ []

abbrev pub add_column_migrations : List Statement
add_column_migrations =
    add_column error_traces (lit "tags") (lit "TEXT")
    ∷ add_column error_traces (lit "request_body") (lit "TEXT")
    ∷ add_column error_traces (lit "response_body") (lit "TEXT")
    ∷ add_column error_traces (lit "parent_request_id") (lit "VARCHAR(64)")
    ∷ add_column error_traces (lit "kind") (lit "TEXT")
    ∷ add_column error_traces (lit "operation_name") (lit "TEXT")
    ∷ add_column error_traces (lit "origin_request_id") (lit "VARCHAR(64)")
    ∷ add_column error_traces (lit "status") (lit "TEXT")
    ∷ add_column error_traces (lit "started_at") (lit "TIMESTAMP")
    ∷ add_column error_traces (lit "duration_ms") (lit "INTEGER")
    ∷ []

abbrev pub index_migrations : List Statement
index_migrations =
    create_index (lit "idx_error_traces_parent_request_id") error_traces (lit "parent_request_id")
    ∷ create_index (lit "idx_error_traces_kind") error_traces (lit "kind")
    ∷ create_index (lit "idx_error_traces_origin_request_id") error_traces (lit "origin_request_id")
    ∷ []

abbrev pub retention_rules_schema : Statement
retention_rules_schema = create_table retention_rules (
    (lit "id", lit "INTEGER PRIMARY KEY AUTOINCREMENT")
    ∷ (lit "name", lit "TEXT NOT NULL")
    ∷ (lit "field", lit "TEXT NOT NULL")
    ∷ (lit "operator", lit "TEXT NOT NULL")
    ∷ (lit "value", lit "TEXT NOT NULL")
    ∷ (lit "ttl_hours", lit "INTEGER NOT NULL")
    ∷ (lit "enabled", lit "BOOLEAN NOT NULL DEFAULT 1")
    ∷ (lit "created_at", lit "TIMESTAMP NOT NULL DEFAULT CURRENT_TIMESTAMP")
    ∷ [])

abbrev pub filter_rules_schema : Statement
filter_rules_schema = create_table filter_rules (
    (lit "id", lit "INTEGER PRIMARY KEY AUTOINCREMENT")
    ∷ (lit "name", lit "TEXT NOT NULL")
    ∷ (lit "field", lit "TEXT NOT NULL")
    ∷ (lit "operator", lit "TEXT NOT NULL")
    ∷ (lit "value", lit "TEXT NOT NULL")
    ∷ (lit "action", lit "TEXT NOT NULL")
    ∷ (lit "enabled", lit "BOOLEAN NOT NULL DEFAULT 1")
    ∷ (lit "created_at", lit "TIMESTAMP NOT NULL DEFAULT CURRENT_TIMESTAMP")
    ∷ [])

-- Return at an error, or go on.
abbrev pub and_then : {S E : Type 0} → S × Option E → (S → S × Option E) → S × Option E
and_then (s, some e) rest = (s, some e)
and_then (s, none) rest = rest s

-- A loop over statements that returns at the first error.
unfoldable pub run_all :
    {S E : Type 0} → (Statement → S → S × Option E) → List Statement → S → S × Option E
run_all step [] s = (s, none)
run_all step (stmt ∷ stmts) s = and_then (step stmt s) (run_all step stmts)

module _ {S E : Type 0} (exec : Statement → S → S × Option E) (error_text : E → Str) where
  -- The error of an `ALTER TABLE` that the loop returns.
  abbrev pub migration_error : Option E → Option E
  migration_error none = none
  migration_error (some e) =
      if contains (error_text e) (lit "duplicate column") then none else some e

  -- A round of the loop over `addColumnMigrations`.
  unfoldable pub migrate_column : Statement → S → S × Option E
  migrate_column stmt s = ((exec stmt s).0, migration_error (exec stmt s).1)

  unfoldable pub ensure_schema : S → S × Option E
  ensure_schema s = and_then (run_all exec schema s) (λ s1.
      and_then (run_all migrate_column add_column_migrations s1) (λ s2.
        and_then (run_all exec index_migrations s2)
          (λ s3. and_then (exec filter_rules_schema s3) (exec retention_rules_schema))))
