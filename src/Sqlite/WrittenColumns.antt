-- ===== src/Sqlite/WrittenColumns.antt =====
-- The columns that the store writes, and which of them the CREATE TABLE and the migrations make.
use promolog.Prelude.{
  Bool, true, ◌&&◌, Bool-cases, inl, inr, List, [], ◌∷◌, ◌++◌, ◌≡◌, refl, subst, All, Str, lit,
  str_eq, str_eq_iff,
}
use promolog.Prelude.Sort.{has_str}
use promolog.Sqlite.Schema.{
  error_traces, Statement, create_table, add_column, create_index, trace_columns,
  add_column_migrations,
}
use promolog.Sqlite.Migrated.{names}

-- The columns of the INSERT of `promoteAt`.
abbrev pub inserted_columns : List Str
inserted_columns =
    lit "request_id"
    ∷ lit "parent_request_id"
    ∷ lit "error_chain"
    ∷ lit "status_code"
    ∷ lit "route"
    ∷ lit "method"
    ∷ lit "user_agent"
    ∷ lit "remote_ip"
    ∷ lit "user_id"
    ∷ lit "entries"
    ∷ lit "tags"
    ∷ lit "request_body"
    ∷ lit "response_body"
    ∷ lit "kind"
    ∷ lit "operation_name"
    ∷ lit "origin_request_id"
    ∷ lit "status"
    ∷ lit "started_at"
    ∷ lit "duration_ms"
    ∷ lit "created_at"
    ∷ []

-- Those of them that no migration adds.
abbrev pub first_columns : List Str
first_columns =
    lit "request_id"
    ∷ lit "error_chain"
    ∷ lit "status_code"
    ∷ lit "route"
    ∷ lit "method"
    ∷ lit "user_agent"
    ∷ lit "remote_ip"
    ∷ lit "user_id"
    ∷ lit "entries"
    ∷ lit "created_at"
    ∷ []

-- The statements of `schema` behind the first.
abbrev pub first_indexes : List Statement
first_indexes =
    create_index (lit "idx_error_traces_request_id") error_traces (lit "request_id")
    ∷ create_index (lit "idx_error_traces_created_at") error_traces (lit "created_at")
    ∷ []

abbrev pub migrated_names : List Statement → List Str
migrated_names [] = []
migrated_names (create_table t cols ∷ stmts) = migrated_names stmts
migrated_names (add_column t c type ∷ stmts) = c ∷ migrated_names stmts
migrated_names (create_index name t c ∷ stmts) = migrated_names stmts

abbrev pub all_known : List Str → List Str → Bool
all_known known [] = true
all_known known (c ∷ cs) = has_str c known && all_known known cs

All-has_str : (P : Str → Type 0) (c : Str) (cs : List Str) → All P cs → has_str c cs ≡ true → P c
All-has_str P c [] all h = cc h
All-has_str P c (d ∷ cs) all h = elim (Bool-cases (str_eq d c)) [
  | inl this ↦ subst P ((str_eq_iff d c).0 this) all.0
  | inr other ↦ All-has_str P c cs all.1 (rw other at h)
]

pub All-all_known :
    (P : Str → Type 0) (known cs : List Str) → All P known → all_known known cs ≡ true → All P cs
All-all_known P known [] all h = tt
All-all_known P known (c ∷ cs) all h = elim (Bool-cases (has_str c known)) [
  | inl there ↦ (All-has_str P c known all there, All-all_known P known cs all (rw there at h))
  | inr missing ↦ absurd (cc (rw missing at h))
]

pub All-join : (P : Str → Type 0) (xs ys : List Str) → All P xs → All P ys → All P (xs ++ ys)
All-join P [] ys d e = e
All-join P (x ∷ xs) ys d e = (d.0, All-join P xs ys d.1 e)

pub first_columns_made : all_known (names trace_columns) first_columns ≡ true
unfolding lit str_eq
first_columns_made = refl

pub inserted_columns_known :
    all_known (first_columns ++ migrated_names add_column_migrations) inserted_columns ≡ true
unfolding lit str_eq
inserted_columns_known = refl
