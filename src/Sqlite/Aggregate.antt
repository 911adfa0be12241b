-- ===== src/Sqlite/Aggregate.antt =====
-- `Aggregate` of sqlite/store.go: its two queries, and the loops over their rows. The table does not
-- change while it runs. An answer is pairs of a text and a number.
use promolog.Prelude.{
  ℕ, ℤ, pos, ltb_ℤ, List, [], ◌∷◌, ◌++◌, Option, none, some, Str, lit, lookup, is_empty, map, not,
  keep, take, if◌then◌else◌,
}
use promolog.Trace.{Time, Duration}
use promolog.Sqlite.Table.{Result, ok, err, CursorEnd, finished, scan_error, iterate_error}
use promolog.Sqlite.Cleanup.{cutoff_of}
use promolog.Sqlite.Query.{Arg, text_arg, int_arg, time_arg, where_string}

pub record AggregateFilter : Type 0 where
  pub group_by : Str
  pub window : Duration
  pub min_count : ℤ

pub record AggregateResult : Type 0 where
  pub key : Str
  pub count : ℕ
  pub top_errors : List Str

pub data AggregateError (E : Type 0) : Type 0 where
  unsupported_group_by : Str → AggregateError E
  aggregate_query_failed : E → AggregateError E
  scan_aggregate_failed : E → AggregateError E
  iterate_aggregate_failed : E → AggregateError E
  top_errors_query_failed : E → AggregateError E
  scan_top_error_failed : E → AggregateError E
  iterate_top_errors_failed : E → AggregateError E

pub record Counts (E : Type 0) : Type 0 where
  pub found : List (Str × ℕ)
  pub end : CursorEnd E

-- `colMap[f.GroupBy]`.
unfoldable pub column_of : Str → Option Str
unfolding lookup
column_of group_by = lookup group_by (
    (lit "route", lit "route")
    ∷ (lit "status_code", lit "status_code")
    ∷ (lit "method", lit "method")
    ∷ (lit "error_chain", lit "error_chain")
    ∷ [])

-- The clauses of the window, and their arguments.
unfoldable pub window_clauses : AggregateFilter → Time → List Str × List Arg
window_clauses f now =
    if ltb_ℤ (pos 0) f.window
    then (lit "created_at >= ?" ∷ [], time_arg (cutoff_of now f.window) ∷ [])
    else ([], [])

unfoldable pub least_count : AggregateFilter → ℤ
least_count f = if ltb_ℤ f.min_count (pos 1) then pos 1 else f.min_count

unfoldable pub aggregate_query : Str → AggregateFilter → Time → Str × List Arg
aggregate_query col f now =
    let (clauses, args) = window_clauses f now in
    (
      lit "SELECT "
          ++ (col
              ++ (lit ", COUNT(*) AS cnt FROM error_traces"
                  ++ (where_string clauses
                      ++ (lit " GROUP BY " ++ (col ++ lit " HAVING cnt >= ? ORDER BY cnt DESC"))))),
      args ++ int_arg (least_count f) ∷ [],
    )

-- `args[0]` is the cutoff, if there is a window.
unfoldable pub top_query : Str → AggregateFilter → Time → Str → Str × List Arg
top_query col f now key =
    let where_text = where_string (window_clauses f now).0 in
    let args = (aggregate_query col f now).1 in
    (
      if is_empty where_text
          then lit "SELECT error_chain, COUNT(*) AS ecnt FROM error_traces WHERE "
            ++ (col ++ lit " = ? GROUP BY error_chain ORDER BY ecnt DESC LIMIT 5")
          else lit "SELECT error_chain, COUNT(*) AS ecnt FROM error_traces"
            ++ (where_text
                ++ (lit " AND "
                    ++ (col ++ lit " = ? GROUP BY error_chain ORDER BY ecnt DESC LIMIT 5"))),
      (if ltb_ℤ (pos 0) f.window then take 1 args else []) ++ text_arg key ∷ [],
    )

-- The chains of the answer that are not empty.
abbrev pub nonempty_chains : List (Str × ℕ) → List Str
nonempty_chains found = keep (λ chain. not (is_empty chain)) (map (λ p. p.0) found)

-- Behind the loop over the top errors of a group.
unfoldable pub finish_top :
    {E : Type 0} → List (Str × ℕ) → CursorEnd E → Result (AggregateError E) (List Str)
finish_top found (scan_error e) = err (scan_top_error_failed e)
finish_top found (iterate_error e) = err (iterate_top_errors_failed e)
finish_top found finished = ok (nonempty_chains found)

module _ {S E : Type 0} (query_counts : Str → List Arg → S → Result E (Counts E)) where
  unfoldable pub top_errors :
      Str → AggregateFilter → Time → Str → S → Result (AggregateError E) (List Str)
  unfolding finish_top
  top_errors col f now key s =
      let (text, args) = top_query col f now key in
      elim (query_counts text args s) [
        | err e ↦ err (top_errors_query_failed e)
        | ok c ↦ finish_top c.found c.end
      ]

  -- The loop over the groups.
  unfoldable pub collect_results :
      Str
      → AggregateFilter
      → Time
      → List (Str × ℕ)
      → S
      → Result (AggregateError E) (List AggregateResult)
  collect_results col f now [] s = ok []
  collect_results col f now ((key, count) ∷ groups) s =
      let rest = collect_results col f now groups s in
      elim (top_errors col f now key s) [
        | err e ↦ err e
        | ok top ↦ elim rest [
          | err e ↦ err e
          | ok results ↦ ok (record { key = key; count = count; top_errors = top } ∷ results)
        ]
      ]

  -- Behind the loop over the rows of the first query.
  unfoldable pub finish_groups :
      Str
      → AggregateFilter
      → Time
      → List (Str × ℕ)
      → CursorEnd E
      → S
      → Result (AggregateError E) (List AggregateResult)
  finish_groups col f now found (scan_error e) s = err (scan_aggregate_failed e)
  finish_groups col f now found (iterate_error e) s = err (iterate_aggregate_failed e)
  finish_groups col f now found finished s = collect_results col f now found s

  unfoldable pub aggregate_column :
      Str → AggregateFilter → Time → S → Result (AggregateError E) (List AggregateResult)
  aggregate_column col f now s =
      let (text, args) = aggregate_query col f now in
      elim (query_counts text args s) [
        | err e ↦ err (aggregate_query_failed e)
        | ok c ↦ finish_groups col f now c.found c.end s
      ]

  unfoldable pub aggregate :
      AggregateFilter → Time → S → Result (AggregateError E) (List AggregateResult)
  aggregate f now s = elim (column_of f.group_by) [
    | none ↦ err (unsupported_group_by f.group_by)
    | some col ↦ aggregate_column col f now s
  ]
