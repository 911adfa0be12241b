-- ===== src/Sqlite/Startup.antt =====
-- What `EnsureSchema` leaves of the tables, at a fresh database, at an older one, and when it runs again.
use promolog.Prelude.{
  true, Bool-cases, inl, inr, ◌⊎◌, List, [], ◌∷◌, ◌++◌, Option, none, some, ◌≡◌, All, Str,
}
use promolog.Prelude.Sort.{has_str}
use promolog.Sqlite.Schema.{
  TableName, error_traces, filter_rules, retention_rules, Statement, create_table, add_column,
  trace_columns, schema, add_column_migrations, index_migrations, retention_rules_schema,
  filter_rules_schema, and_then, run_all, migrate_column, ensure_schema,
}
use promolog.Sqlite.Migrated.{names, IsSchemaDatabase, Kept, Same, HasColumn, Kept-IsDone}
use promolog.Sqlite.Ensured.{
  IsPhase, exec-IsPhase, migrate_column-IsPhase, run_all-IsPhase, all_exec, All-split,
  and_then-IsPhase, and_then_ok,
}
use promolog.Sqlite.WrittenColumns.{
  inserted_columns, first_columns, first_indexes, migrated_names, all_known, All-all_known,
  All-join, first_columns_made, inserted_columns_known,
}

module _ {S E : Type 0} (exec : Statement → S → S × Option E) (error_text : E → Str)
    (columns : S → TableName → Option (List Str))
    (db : IsSchemaDatabase exec error_text columns) where
  abbrev Phase : (S → S × Option E) → List Statement → Type 0
  Phase = IsPhase exec error_text columns db

  abbrev pub Has : S → List Str → Type 0
  Has s = All (HasColumn exec error_text columns s error_traces)

  abbrev ensured : S → S × Option E
  ensured = ensure_schema exec error_text

  abbrev rules : List Statement
  rules = filter_rules_schema ∷ retention_rules_schema ∷ []

  columns-Phase :
      Phase (run_all (migrate_column exec error_text) add_column_migrations) add_column_migrations
  columns-Phase =
      let add : (c type : Str)
          → Phase (migrate_column exec error_text (add_column error_traces c type))
              (add_column error_traces c type ∷ []) =
        migrate_column-IsPhase exec error_text columns db error_traces in
      run_all-IsPhase exec error_text columns db (migrate_column exec error_text)
        add_column_migrations
        (
          add _ _,
          (
            add _ _,
            (
              add _ _,
              (add _ _, (add _ _, (add _ _, (add _ _, (add _ _, (add _ _, (add _ _, tt))))))),
            ),
          ),
        )

  exec-Phase : (stmts : List Statement) → Phase (run_all exec stmts) stmts
  exec-Phase stmts =
      run_all-IsPhase exec error_text columns db exec stmts
        (all_exec exec error_text columns db stmts)

  -- What follows the first `Exec`.
  abbrev upgraded : S → S × Option E
  upgraded s1 = and_then (run_all (migrate_column exec error_text) add_column_migrations s1) (λ s2.
      and_then (run_all exec index_migrations s2)
        (λ s3. and_then (exec filter_rules_schema s3) (exec retention_rules_schema)))

  upgraded-Phase : Phase upgraded (add_column_migrations ++ (index_migrations ++ rules))
  upgraded-Phase = and_then-IsPhase exec error_text columns db _ _ _ _ columns-Phase (
      and_then-IsPhase exec error_text columns db _ _ _ _ (exec-Phase index_migrations) (
        and_then-IsPhase exec error_text columns db _ _ _ _
          (exec-IsPhase exec error_text columns db filter_rules_schema)
          (exec-IsPhase exec error_text columns db retention_rules_schema)))

  ensured-Phase : Phase ensured (schema ++ (add_column_migrations ++ (index_migrations ++ rules)))
  unfolding ensure_schema
  ensured-Phase =
      and_then-IsPhase exec error_text columns db _ _ _ _ (exec-Phase schema) upgraded-Phase

  Has-Kept : (s s' : S) (cs : List Str) → Kept exec error_text columns s s' → Has s cs → Has s' cs
  Has-Kept s s' [] k has = tt
  Has-Kept s s' (c ∷ cs) k has = (
    Kept-IsDone exec error_text columns s s' (add_column error_traces c []) k has.0,
    Has-Kept s s' cs k has.1,
  )

  Has-all_known :
      (s : S) (known cs : List Str)
      → columns s error_traces ≡ some known
      → all_known known cs ≡ true
      → Has s cs
  Has-all_known s known [] made h = tt
  Has-all_known s known (c ∷ cs) made h = elim (Bool-cases (has_str c known)) [
    | inl there ↦ ((known, made, there), Has-all_known s known cs made (rw there at h))
    | inr missing ↦ absurd (cc (rw missing at h))
  ]

  made_first :
      (s : S)
      → columns s error_traces ≡ none
      → (ensured s).1 ≡ none
      → Has (ensured s).0 first_columns
  unfolding ensure_schema run_all
  made_first s missing ok =
      let (ok1, kept1) =
        and_then_ok exec error_text columns db _ _ _ _ (exec-Phase schema) upgraded-Phase
          (run_all exec schema s) ok in
      let (ok2, kept2) =
        and_then_ok exec error_text columns db _ _ _ _
          (exec-IsPhase exec error_text columns db (create_table error_traces trace_columns))
          (exec-Phase first_indexes) (exec (create_table error_traces trace_columns) s) ok1 in
      Has-Kept _ _ first_columns kept1 (
        Has-Kept _ _ first_columns kept2 (
          Has-all_known _ (names trace_columns) first_columns
            (db.table_made error_traces trace_columns s missing ok2) first_columns_made))

  -- Behind the migrations.
  Has-inserted :
      (s : S)
      → Has s first_columns
      → Has s (migrated_names add_column_migrations)
      → Has s inserted_columns
  Has-inserted s first migrated =
      All-all_known (HasColumn exec error_text columns s error_traces)
        (first_columns ++ migrated_names add_column_migrations) inserted_columns
        (All-join (HasColumn exec error_text columns s error_traces) first_columns
          (migrated_names add_column_migrations) first migrated)
        inserted_columns_known

  -- However `EnsureSchema` ends, every table that was there has its columns at the front of what it has now.
  -- If it returns nil, both tables of rules are there; `error_traces` has every column of the INSERT
  -- of `promoteAt`, where it was not there before or had those that no migration adds; and to
  -- run it again, with whatever errors, changes the columns of no table.
  pub ensure_schema_cases :
      (s : S)
      → Kept exec error_text columns s (ensure_schema exec error_text s).0
        × ((ensure_schema exec error_text s).1 ≡ none
            → ((cs : List Str) × (columns (ensure_schema exec error_text s).0 filter_rules
                  ≡ some cs))
              × ((cs : List Str) × (columns (ensure_schema exec error_text s).0 retention_rules
                    ≡ some cs))
              × ((columns s error_traces ≡ none) ⊎ Has s first_columns
                  → Has (ensure_schema exec error_text s).0 inserted_columns)
              × Same exec error_text columns
                  (ensure_schema exec error_text s).0
                  (ensure_schema exec error_text (ensure_schema exec error_text s).0).0)
  ensure_schema_cases s = (
    ensured-Phase.kept s,
    λ ok.
        let done = ensured-Phase.done s ok in
        let rest =
          (All-split exec error_text columns db (ensured s).0 schema
            (add_column_migrations ++ (index_migrations ++ rules)) done).1 in
        let (migrated, last) =
          All-split exec error_text columns db (ensured s).0 add_column_migrations
            (index_migrations ++ rules) rest in
        let both =
          (All-split exec error_text columns db (ensured s).0 index_migrations rules last).1 in
        (
          both.0,
          both.1.0,
          elim [
            | inl missing ↦ Has-inserted _ (made_first s missing ok) migrated
            | inr first ↦
                Has-inserted _ (Has-Kept s (ensured s).0 first_columns (ensured-Phase.kept s) first)
                  migrated
          ],
          ensured-Phase.idle (ensured s).0 done,
        ),
  )
