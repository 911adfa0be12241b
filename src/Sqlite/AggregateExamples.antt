-- ===== src/Sqlite/AggregateExamples.antt =====
-- Tests of the aggregates, and their theorem at a table of one trace.
use promolog.Prelude.{
  ℕ, ℤ, pos, List, [], ◌∷◌, Bool, true, false, Bool-cases, inl, inr, none, some, ◌≡◌, refl, subst,
  arith, Str, lit, str_eq, str_eq_refl, lookup, take, ◌&&◌, if◌then◌else◌, ◌+ℤ◌,
}
use promolog.StatusCode.{negate_int}
use promolog.Decimal.{decimal}
use promolog.Sqlite.Row.{Row}
use promolog.Sqlite.Table.{Result, ok, err, finished}
use promolog.Sqlite.Query.{Arg, text_arg, time_arg, where_string, join_and}
use promolog.Sqlite.Aggregate.{
  AggregateFilter, AggregateResult, Counts, column_of, window_clauses, least_count, aggregate_query,
  top_query, finish_top, top_errors, collect_results, finish_groups, aggregate_column, aggregate,
  unsupported_group_by,
}
use promolog.Sqlite.Select.{IsAnswer, IsGrouped, Select, select_text, select_args, column_text}
use promolog.Sqlite.Issued.{Issued, issued_groups, issued_top, groups_select, top_select}
use promolog.Sqlite.Aggregated.{IsAggregate, IsAnswered, Documented, aggregate-IsAggregate}

abbrev by_route : AggregateFilter
by_route = record { group_by = lit "route"; window = pos 10; min_count = pos 0 }

abbrev row : Row
row = record {
  request_id = lit "r-1";
  parent_request_id = none;
  error_chain = lit "boom";
  status_code = pos 500;
  route = lit "/a";
  method = lit "GET";
  user_agent = [];
  remote_ip = [];
  user_id = [];
  entries = lit "[]";
  tags = none;
  request_body = none;
  response_body = none;
  kind = none;
  operation_name = none;
  origin_request_id = none;
  status = none;
  started_at = none;
  duration_ms = none;
  created_at = pos 15;
}

top_by_route : top_query (lit "route") by_route (pos 20) (lit "/a") ≡ (
  lit
      "SELECT error_chain, COUNT(*) AS ecnt FROM error_traces WHERE created_at >= ? AND route = ? GROUP BY error_chain ORDER BY ecnt DESC LIMIT 5",
  time_arg (pos 10) ∷ text_arg (lit "/a") ∷ [],
)
unfolding top_query aggregate_query window_clauses where_string join_and lit negate_int ◌+ℤ◌
top_by_route = refl

abbrev no_text : ℤ → Str
no_text n = []

abbrev top_answer : List Arg → List (Str × ℕ)
top_answer (time_arg t ∷ text_arg key ∷ []) =
    if str_eq (lit "/a") key then (lit "boom", 1) ∷ [] else []
top_answer _ = []

-- A database with one trace, which knows the statements of this call.
abbrev one_trace : Str → List Arg → Row → Result ℕ (Counts ℕ)
one_trace text args s =
    if str_eq text (select_text (groups_select by_route (pos 20) (lit "route")))
    then ok (record { found = (lit "/a", 1) ∷ []; end = finished })
    else ok (record { found = top_answer args; end = finished })

aggregated :
    aggregate one_trace by_route (pos 20) row
    ≡ ok (record { key = lit "/a"; count = 1; top_errors = lit "boom" ∷ [] } ∷ [])
unfolding aggregate aggregate_column finish_groups collect_results top_errors finish_top column_of
    lookup aggregate_query top_query window_clauses where_string join_and least_count lit str_eq
    negate_int ◌+ℤ◌ decimal
aggregated = refl

-- The groups of the only trace by a key.
one_group :
    (key : Row → Str) (name : Str)
    → key row ≡ name
    → IsGrouped key (row ∷ []) (pos 1) ((name, 1) ∷ [])
one_group key name e =
    subst (λ n. IsGrouped key (row ∷ []) (pos 1) ((n, 1) ∷ [])) e
      (record {
        counted = ((rw (str_eq_refl (key row)) refl, omega arith, omega arith), tt);
        complete = λ k least some_row. elim (Bool-cases (str_eq (key row) k)) [
          | inl same ↦ rw same refl
          | inr other ↦ absurd (omega (arith, rw other at some_row))
        ];
        distinct = (refl, tt);
        descending = (tt, tt);
      })

no_groups : (key : Row → Str) → IsGrouped key [] (pos 1) []
no_groups key = record {
  counted = tt;
  complete = λ k least some_row. absurd (omega arith);
  distinct = tt;
  descending = tt;
}

abbrev boom_if : Bool → List (Str × ℕ)
boom_if b = if b then (lit "boom", 1) ∷ [] else []

top_group :
    (b : Bool)
    → IsGrouped
        (column_text no_text (lit "error_chain"))
        (if b && true then row ∷ [] else [])
        (pos 1)
        (boom_if b)
unfolding lit str_eq
top_group true = one_group (column_text no_text (lit "error_chain")) (lit "boom") refl
top_group false = no_groups (column_text no_text (lit "error_chain"))

top_first : (b : Bool) → boom_if b ≡ take 5 (boom_if b)
top_first true = refl
top_first false = refl

one_trace-Issued :
    (q : Select) (c : Counts ℕ)
    → Issued by_route (pos 20) no_text (lit "route") q
    → one_trace (select_text q) (select_args q) row ≡ ok c
    → c.end ≡ finished
    → IsAnswer no_text q (row ∷ []) c.found
unfolding lit str_eq negate_int ◌+ℤ◌ least_count decimal
one_trace-Issued q c issued_groups h end =
    let same : record { found = (lit "/a", 1) ∷ []; end = finished } ≡ c = cc h in
    subst (λ d. IsAnswer no_text (groups_select by_route (pos 20) (lit "route")) (row ∷ []) d.found)
      same
      (record {
        all = (lit "/a", 1) ∷ [];
        grouped = one_group (column_text no_text (lit "route")) (lit "/a") refl;
        first = refl;
      })
one_trace-Issued q c (issued_top key) h end =
    let same : record { found = top_answer (time_arg (pos 10) ∷ text_arg key ∷ []); end = finished }
        ≡ c =
      cc h in
    subst
      (λ d. IsAnswer no_text (top_select by_route (pos 20) (lit "route") key) (row ∷ []) d.found)
      same
      (record {
        all = top_answer (time_arg (pos 10) ∷ text_arg key ∷ []);
        grouped = top_group (str_eq (lit "/a") key);
        first = top_first (str_eq (lit "/a") key);
      })

one_trace-Documented :
    (col : Str)
    → column_of by_route.group_by ≡ some col
    → Documented by_route (pos 20) no_text one_trace row (row ∷ []) col
unfolding column_of lookup str_eq lit
one_trace-Documented col supported =
    let same : lit "route" ≡ col = cc supported in
    subst (Documented by_route (pos 20) no_text one_trace row (row ∷ [])) same one_trace-Issued

aggregate-IsAggregate_example :
    ((results : List AggregateResult)
      → aggregate one_trace by_route (pos 20) row ≡ ok results
      → IsAggregate by_route (pos 20) no_text (row ∷ []) results)
    × ((col : Str)
        → column_of by_route.group_by ≡ some col
        → IsAnswered by_route
            (pos 20)
            no_text
            one_trace
            row
            (row ∷ [])
            (groups_select by_route (pos 20) col)
        → ((key : Str)
            → IsAnswered by_route
                (pos 20)
                no_text
                one_trace
                row
                (row ∷ [])
                (top_select by_route (pos 20) col key))
        → (results : List AggregateResult) × (aggregate one_trace by_route (pos 20) row
            ≡ ok results))
    × (column_of by_route.group_by ≡ none
        → aggregate one_trace by_route (pos 20) row ≡ err (unsupported_group_by by_route.group_by))
aggregate-IsAggregate_example =
    aggregate-IsAggregate by_route (pos 20) no_text one_trace row (row ∷ []) one_trace-Documented
