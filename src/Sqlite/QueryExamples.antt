-- ===== src/Sqlite/QueryExamples.antt =====
-- Tests of the queries, and their theorems at a concrete filter.
use promolog.Prelude.{
  length, Dict, ℕ, ◌+◌, ℤ, pos, ◌≤ℤ◌, List, [], ◌∷◌, ◌++◌, Option, none, some, ◌≡◌, refl, Str, lit,
  str_eq, ◌*ℤ◌, ◌-ℤ◌, map, contains, if◌then◌else◌, ltb,
}
use promolog.Rule.{wrap_int}
use promolog.Sqlite.Query.{
  TraceFilter, text_arg, int_arg, replace_byte, escape_like, like_pattern, search_clause,
  add_search, add_terms, add_status, add_code, add_method, add_tags, join_and, where_string,
  build_where, build_where_excluding, count_query, list_query, page_of, per_page_of, offset_of,
}
use promolog.Sqlite.Row.{Row, Json, operation_id_of, string_of}
use promolog.Sqlite.Table.{ok, finished}
use promolog.Sqlite.Listing.{Reader, summary_of_row, finish_list, list_traces}
use promolog.Sqlite.Like.{like, like_pattern-contains}
use promolog.Sqlite.Placeholders.{IsComplete, queries-IsComplete}

escaped : escape_like (lit "50%_a\\") ≡ lit "50\\%\\_a\\\\"
unfolding escape_like replace_byte lit
escaped = refl

abbrev one_field : Str → List Str
one_field s = s ∷ []

abbrev no_number : Str → Option ℤ
no_number s = none

abbrev not_found : Str → Option ℤ
not_found s = some (pos 404)

abbrev filter : TraceFilter
filter = record {
  q = lit "pay";
  status = lit "4xx";
  method = lit "GET";
  tags = (lit "tenant", lit "a") ∷ [];
  sort = lit "Route";
  dir = lit "asc";
  page = pos 3;
  per_page = pos 0;
}

abbrev plain_filter : TraceFilter
plain_filter = record filter { q = []; status = lit "404"; tags = []; method = [] }

where_text : build_where_excluding one_field no_number filter (lit "status") ≡ (
  lit " WHERE " ++ (search_clause ++ lit " AND method = ? AND json_extract(tags, ?) = ?"),
  text_arg (lit "%pay%")
      ∷ text_arg (lit "%pay%")
      ∷ text_arg (lit "%pay%")
      ∷ text_arg (lit "%pay%")
      ∷ text_arg (lit "%pay%")
      ∷ text_arg (lit "%pay%")
      ∷ text_arg (lit "GET")
      ∷ text_arg (lit "$.tenant")
      ∷ text_arg (lit "a")
      ∷ [],
)
unfolding build_where_excluding add_search add_terms add_status add_method add_tags where_string
    join_and escape_like replace_byte lit str_eq
where_text = refl

count_text :
    count_query one_field not_found plain_filter
    ≡ (lit "SELECT COUNT(*) FROM error_traces WHERE status_code = ?", int_arg (pos 404) ∷ [])
unfolding count_query build_where add_search add_status add_code add_method add_tags where_string
    join_and lit str_eq
count_text = refl

page_args :
    (list_query one_field not_found plain_filter).1
    ≡ int_arg (pos 404) ∷ int_arg (pos 25) ∷ int_arg (pos 50) ∷ []
unfolding list_query build_where add_search add_status add_code add_method add_tags where_string
    page_of per_page_of offset_of lit str_eq wrap_int ◌*ℤ◌ ◌-ℤ◌
page_args = refl

-- The case of an ASCII letter.
abbrev fold : ℕ → ℕ
fold c = if ltb 64 c then if ltb c 91 then c + 32 else c else c

like_pattern-contains_example :
    like fold (like_pattern (lit "0%_a")) (lit "is 50%_AB")
    ≡ contains (map fold (lit "is 50%_AB")) (map fold (lit "0%_a"))
like_pattern-contains_example = like_pattern-contains fold (lit "0%_a") (lit "is 50%_AB")

queries-IsComplete_example :
    IsComplete (count_query one_field no_number filter)
    × IsComplete (list_query one_field no_number filter)
    × ((exclude : Str) → IsComplete (build_where_excluding one_field no_number filter exclude))
    × (pos 1 ≤ℤ per_page_of filter)
queries-IsComplete_example = queries-IsComplete one_field no_number filter

abbrev no_json : Json
no_json = record {
  marshal_entries = λ entries. none;
  unmarshal_entries = λ text. some [];
  marshal_tags = λ m. none;
  unmarshal_tags = λ text. none;
}

abbrev no_tags : Str → Option (Dict Str)
no_tags text = none

abbrev row : Row
row = record {
  request_id = lit "op-1";
  parent_request_id = none;
  error_chain = [];
  status_code = pos 500;
  route = lit "/pay";
  method = lit "GET";
  user_agent = lit "curl";
  remote_ip = [];
  user_id = [];
  entries = lit "[]";
  tags = some (lit "?");
  request_body = none;
  response_body = none;
  kind = some (lit "operation");
  operation_name = none;
  origin_request_id = none;
  status = none;
  started_at = none;
  duration_ms = some (pos 2);
  created_at = pos 9;
}

-- A database that answers every query with its rows.
abbrev all_rows : Reader (List Row) ℕ
all_rows = record {
  query_count = λ text args rows. ok (pos (length rows));
  query_rows = λ text args rows. ok (record { found = rows; end = finished });
}

operation_listed :
    map
      (λ t. t.operation_id)
      (list_traces no_json no_tags all_rows one_field no_number filter (row ∷ [])).0
    ≡ lit "op-1" ∷ []
unfolding list_traces finish_list summary_of_row operation_id_of string_of str_eq lit
operation_listed = refl
