-- ===== src/Sqlite/SchemaExamples.antt =====
-- Tests of the schema: tables in memory that meet `IsSchemaDatabase`, and an older database.
use promolog.Prelude.{
  true, false, Bool-cases, inl, inr, ◌⊎◌, List, [], ◌∷◌, ◌++◌, Option, none, some, ◌≡◌, ◌≢◌, refl,
  sym, ap, ◌∙◌, Str, lit, contains, has_prefix, str_eq, if◌then◌else◌,
}
use promolog.Prelude.Sort.{has_str}
use promolog.Sqlite.Schema.{
  TableName, error_traces, filter_rules, retention_rules, Statement, create_table, add_column,
  create_index, run_all, migrate_column, ensure_schema,
}
use promolog.Sqlite.Migrated.{names, IsSchemaDatabase, Kept, Same}
use promolog.Sqlite.WrittenColumns.{first_columns, inserted_columns}
use promolog.Sqlite.Startup.{Has, ensure_schema_cases}

record Tables : Type 0 where
  traces : Option (List Str)
  filters : Option (List Str)
  retentions : Option (List Str)

abbrev get : Tables → TableName → Option (List Str)
get s error_traces = s.traces
get s filter_rules = s.filters
get s retention_rules = s.retentions

abbrev put : TableName → List Str → Tables → Tables
put error_traces cs s = record s { traces = some cs }
put filter_rules cs s = record s { filters = some cs }
put retention_rules cs s = record s { retentions = some cs }

abbrev make : TableName → List (Str × Str) → Tables → Option (List Str) → Tables × Option Str
make t cols s none = (put t (names cols) s, none)
make t cols s (some cs) = (s, none)

abbrev add : TableName → Str → Tables → Option (List Str) → Tables × Option Str
add t c s none = (s, some (lit "no such table"))
add t c s (some cs) =
    if has_str c cs then (s, some (lit "duplicate column")) else (put t (cs ++ c ∷ []) s, none)

unfoldable exec : Statement → Tables → Tables × Option Str
exec (create_table t cols) s = make t cols s (get s t)
exec (add_column t c type) s = add t c s (get s t)
exec (create_index name t c) s = (s, none)

abbrev error_text : Str → Str
error_text e = e

get-put : (t : TableName) (cs : List Str) (s : Tables) → get (put t cs s) t ≡ some cs
get-put error_traces cs s = refl
get-put filter_rules cs s = refl
get-put retention_rules cs s = refl

-- A table is kept, or is the one that is put.
get-put_cases :
    (t u : TableName) (cs : List Str) (s : Tables) → (get (put t cs s) u ≡ get s u) ⊎ (t ≡ u)
get-put_cases error_traces error_traces cs s = inr refl
get-put_cases error_traces filter_rules cs s = inl refl
get-put_cases error_traces retention_rules cs s = inl refl
get-put_cases filter_rules error_traces cs s = inl refl
get-put_cases filter_rules filter_rules cs s = inr refl
get-put_cases filter_rules retention_rules cs s = inl refl
get-put_cases retention_rules error_traces cs s = inl refl
get-put_cases retention_rules filter_rules cs s = inl refl
get-put_cases retention_rules retention_rules cs s = inr refl

other_message : contains (lit "no such table") (lit "duplicate column") ≡ false
unfolding contains has_prefix lit
other_message = refl

make_kept :
    (t : TableName) (cols : List (Str × Str)) (s : Tables) (cs : List Str) (u : TableName)
    (o : Option (List Str))
    → get s t ≡ o
    → get s u ≡ some cs
    → get (make t cols s o).0 u ≡ some cs
make_kept t cols s cs u (some there) at_t at_u = at_u
make_kept t cols s cs u none at_t at_u = elim (get-put_cases t u (names cols) s) [
  | inl other ↦ other ∙ at_u
  | inr same ↦ absurd (cc (same, at_t, at_u))
]

add_failed :
    (t : TableName) (c : Str) (s : Tables) (e : Str) (u : TableName) (o : Option (List Str))
    → (add t c s o).1 ≡ some e
    → get (add t c s o).0 u ≡ get s u
add_failed t c s e u none h = refl
add_failed t c s e u (some cs) h = elim (Bool-cases (has_str c cs)) [
  | inl there ↦ rw there refl
  | inr fresh ↦ absurd (cc (rw fresh at h))
]

add_added :
    (t : TableName) (c : Str) (s : Tables) (o : Option (List Str))
    → get s t ≡ o
    → (add t c s o).1 ≡ none
    → (cs : List Str) × (get s t ≡ some cs)
      × (has_str c cs ≡ false)
      × (get (add t c s o).0 t ≡ some (cs ++ c ∷ []))
add_added t c s none at_t h = absurd (cc h)
add_added t c s (some cs) at_t h = elim (Bool-cases (has_str c cs)) [
  | inl there ↦ absurd (cc (rw there at h))
  | inr fresh ↦ rw fresh (cs, at_t, fresh, get-put t (cs ++ c ∷ []) s)
]

add_behind :
    (t : TableName) (c : Str) (s : Tables) (cs : List Str) (u : TableName) (o : Option (List Str))
    → get s t ≡ o
    → get s u ≡ some cs
    → (get (add t c s o).0 u ≡ some cs) ⊎ (get (add t c s o).0 u ≡ some (cs ++ c ∷ []))
add_behind t c s cs u none at_t at_u = inl at_u
add_behind t c s cs u (some ds) at_t at_u = elim (Bool-cases (has_str c ds)) [
  | inl there ↦ rw there (inl at_u)
  | inr fresh ↦ rw fresh (elim (get-put_cases t u (ds ++ c ∷ []) s) [
    | inl other ↦ inl (other ∙ at_u)
    | inr same ↦ inr (
        ap (get (put t (ds ++ c ∷ []) s)) (sym same)
        ∙ (get-put t (ds ++ c ∷ []) s ∙ ap (λ l. some (l ++ c ∷ [])) (cc (same, at_t, at_u))))
  ])
]

add_duplicate :
    (t : TableName) (c : Str) (s : Tables) (e : Str) (o : Option (List Str))
    → get s t ≡ o
    → (add t c s o).1 ≡ some e
    → contains e (lit "duplicate column") ≡ true
    → (cs : List Str) × (get s t ≡ some cs) × (has_str c cs ≡ true)
add_duplicate t c s e none at_t h d = absurd (cc (h, d, other_message))
add_duplicate t c s e (some cs) at_t h d = elim (Bool-cases (has_str c cs)) [
  | inl there ↦ (cs, at_t, there)
  | inr fresh ↦ absurd (cc (rw fresh at h))
]

make_failed :
    (t : TableName) (cols : List (Str × Str)) (s : Tables) (e : Str) (o : Option (List Str))
    → (make t cols s o).1 ≢ some e
make_failed t cols s e none h = cc h
make_failed t cols s e (some cs) h = cc h

exec_failed :
    (stmt : Statement) (s : Tables) (e : Str) (u : TableName)
    → (exec stmt s).1 ≡ some e
    → get (exec stmt s).0 u ≡ get s u
unfolding exec
exec_failed (create_table t cols) s e u h = absurd (make_failed t cols s e (get s t) h)
exec_failed (add_column t c type) s e u h = add_failed t c s e u (get s t) h
exec_failed (create_index name t c) s e u h = refl

memory-IsSchemaDatabase : IsSchemaDatabase exec error_text get
unfolding exec
memory-IsSchemaDatabase = record {
  failed = exec_failed;
  table_there = λ t cols s cs u there. ap (λ o. get (make t cols s o).0 u) there;
  table_made =
      λ t cols s missing ok. ap (λ o. get (make t cols s o).0 t) missing ∙ get-put t (names cols) s;
  others_kept = λ t cols s cs u there. make_kept t cols s cs u (get s t) refl there;
  index_only = λ name t c s u. refl;
  column_added = λ t c type s ok. add_added t c s (get s t) refl ok;
  column_behind = λ t c type s cs u there. add_behind t c s cs u (get s t) refl there;
  duplicate = λ t c type s e failure d. add_duplicate t c s e (get s t) refl failure d;
}

-- A database from before the tags, with rules of one kind.
abbrev older : Tables
older = record {
  traces = some (lit "id" ∷ first_columns);
  filters = some (lit "id" ∷ []);
  retentions = none;
}

upgraded : (ensure_schema exec error_text older).1 ≡ none
unfolding ensure_schema run_all migrate_column exec contains has_prefix str_eq lit
upgraded = refl

-- The columns that the migrations add stand behind the others.
upgraded_columns :
    (ensure_schema exec error_text older).0.traces
    ≡ some (
        lit "id" ∷ first_columns
        ++ lit "tags"
          ∷ lit "request_body"
          ∷ lit "response_body"
          ∷ lit "parent_request_id"
          ∷ lit "kind"
          ∷ lit "operation_name"
          ∷ lit "origin_request_id"
          ∷ lit "status"
          ∷ lit "started_at"
          ∷ lit "duration_ms"
          ∷ [])
unfolding ensure_schema run_all migrate_column exec contains has_prefix str_eq lit
upgraded_columns = refl

ensure_schema_cases_example :
    Kept exec error_text get older (ensure_schema exec error_text older).0
    × ((ensure_schema exec error_text older).1 ≡ none
        → ((cs : List Str) × (get (ensure_schema exec error_text older).0 filter_rules ≡ some cs))
          × ((cs : List Str) × (get (ensure_schema exec error_text older).0 retention_rules
                ≡ some cs))
          × ((get older error_traces ≡ none)
                ⊎ Has exec error_text get memory-IsSchemaDatabase older first_columns
              → Has exec error_text get memory-IsSchemaDatabase
                  (ensure_schema exec error_text older).0
                  inserted_columns)
          × Same exec error_text get
              (ensure_schema exec error_text older).0
              (ensure_schema exec error_text (ensure_schema exec error_text older).0).0)
ensure_schema_cases_example = ensure_schema_cases exec error_text get memory-IsSchemaDatabase older
