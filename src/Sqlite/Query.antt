-- ===== src/Sqlite/Query.antt =====
-- The queries that `ListTraces` and `AvailableFilters` of sqlite/store.go build: the WHERE clauses with
-- their arguments, the order and the page. `strings.Fields` and the `%d` of `fmt.Sscanf` are parameters.
use promolog.Prelude.{
  ℕ, ◌==◌, ℤ, pos, ◌-ℤ◌, ◌*ℤ◌, ltb_ℤ, List, [], ◌∷◌, ◌++◌, Option, none, some, Str, lit, str_eq,
  Dict, is_empty, if◌then◌else◌,
}
use promolog.Trace.{Time}
use promolog.Rule.{wrap_int}

pub record TraceFilter : Type 0 where
  pub q : Str
  pub status : Str
  pub method : Str
  pub tags : Dict Str
  pub sort : Str
  pub dir : Str
  pub page : ℤ
  pub per_page : ℤ

-- An argument of a query; a time is in UTC.
pub data Arg : Type 0 where
  text_arg : Str → Arg
  int_arg : ℤ → Arg
  time_arg : Time → Arg

-- `strings.ReplaceAll` of one byte.
unfoldable pub replace_byte : ℕ → Str → Str → Str
replace_byte b w [] = []
replace_byte b w (c ∷ s) = let rest = replace_byte b w s in if c == b then w ++ rest else c ∷ rest

unfoldable pub escape_like : Str → Str
unfolding replace_byte
escape_like s =
    replace_byte b'_' (b'\\' ∷ b'_' ∷ [])
      (replace_byte b'%' (b'\\' ∷ b'%' ∷ []) (replace_byte b'\\' (b'\\' ∷ b'\\' ∷ []) s))

-- The clauses and the arguments so far.
abbrev pub Clauses : Type 0
Clauses = List Str × List Arg

abbrev pub search_clause : Str
search_clause =
    lit
      "(route LIKE ? ESCAPE '\\' OR error_chain LIKE ? ESCAPE '\\' OR request_id LIKE ? ESCAPE '\\' OR user_id LIKE ? ESCAPE '\\' OR remote_ip LIKE ? ESCAPE '\\' OR method LIKE ? ESCAPE '\\')"

abbrev pub like_pattern : Str → Str
like_pattern term = b'%' ∷ (escape_like term ++ b'%' ∷ [])

-- The loop of `addSearch` over the terms.
unfoldable pub add_terms : List Str → Clauses → Clauses
add_terms [] c = c
add_terms (term ∷ terms) (clauses, args) =
    let p = text_arg (like_pattern term) in
    add_terms terms (clauses ++ search_clause ∷ [], args ++ p ∷ p ∷ p ∷ p ∷ p ∷ p ∷ [])

unfoldable pub add_method : TraceFilter → Clauses → Clauses
add_method f (clauses, args) =
    if is_empty f.method
    then (clauses, args)
    else (clauses ++ lit "method = ?" ∷ [], args ++ text_arg f.method ∷ [])

-- The loop of `addTags`, in the order of the iteration.
unfoldable pub add_tags : Dict Str → Clauses → Clauses
add_tags [] c = c
add_tags ((k, v) ∷ m) (clauses, args) = add_tags m (
  clauses ++ lit "json_extract(tags, ?) = ?" ∷ [],
  args ++ text_arg (lit "$." ++ k) ∷ text_arg v ∷ [],
)

-- `strings.Join(clauses, " AND ")`.
unfoldable pub join_and : List Str → Str
join_and [] = []
join_and (c ∷ []) = c
join_and (c ∷ d ∷ cs) = c ++ (lit " AND " ++ join_and (d ∷ cs))

unfoldable pub where_string : List Str → Str
unfolding join_and
where_string [] = []
where_string (c ∷ cs) = lit " WHERE " ++ join_and (c ∷ cs)

-- `default` of the switch on the status.
unfoldable pub add_code : Option ℤ → Clauses → Clauses
add_code none c = c
add_code (some code) (clauses, args) =
    if ltb_ℤ (pos 0) code
    then (clauses ++ lit "status_code = ?" ∷ [], args ++ int_arg code ∷ [])
    else (clauses, args)

abbrev pub finish_where : Clauses → Str × List Arg
finish_where (clauses, args) = (where_string clauses, args)

unfoldable pub page_of : TraceFilter → ℤ
page_of f = if ltb_ℤ f.page (pos 1) then pos 1 else f.page

unfoldable pub per_page_of : TraceFilter → ℤ
per_page_of f = if ltb_ℤ f.per_page (pos 1) then pos 25 else f.per_page

-- `validSorts`.
unfoldable pub order_column : Str → Str
order_column sort =
    if str_eq sort (lit "CreatedAt")
    then lit "created_at"
    else if str_eq sort (lit "StatusCode")
    then lit "status_code"
    else if str_eq sort (lit "Route")
    then lit "route"
    else if str_eq sort (lit "Method")
    then lit "method"
    else lit "created_at"

unfoldable pub order_direction : Str → Str
order_direction dir = if str_eq dir (lit "asc") then lit "ASC" else lit "DESC"

unfoldable pub offset_of : TraceFilter → ℤ
offset_of f = wrap_int ((page_of f -ℤ pos 1) *ℤ per_page_of f)

abbrev pub list_columns : Str
list_columns =
    lit
      "SELECT request_id, parent_request_id, error_chain, status_code, route, method, remote_ip, user_id, tags, kind, operation_name, origin_request_id, status, started_at, duration_ms, created_at\n\t\tFROM error_traces"

module _ (split_fields : Str → List Str) (scan_int : Str → Option ℤ) where
  unfoldable pub add_search : TraceFilter → Clauses → Clauses
  add_search f c = if is_empty f.q then c else add_terms (split_fields f.q) c

  unfoldable pub add_status : TraceFilter → Clauses → Clauses
  add_status f (clauses, args) =
      if is_empty f.status
      then (clauses, args)
      else if str_eq f.status (lit "4xx")
      then (clauses ++ lit "status_code >= 400 AND status_code < 500" ∷ [], args)
      else if str_eq f.status (lit "5xx")
      then (clauses ++ lit "status_code >= 500" ∷ [], args)
      else add_code (scan_int f.status) (clauses, args)

  unfoldable pub build_where : TraceFilter → Str × List Arg
  build_where f =
      finish_where (add_tags f.tags (add_method f (add_status f (add_search f ([], [])))))

  unfoldable pub build_where_excluding : TraceFilter → Str → Str × List Arg
  build_where_excluding f exclude =
      let searched = add_search f ([], []) in
      let with_status = if str_eq exclude (lit "status") then searched else add_status f searched in
      let with_method =
        if str_eq exclude (lit "method") then with_status else add_method f with_status in
      finish_where
        (if str_eq exclude (lit "tags") then with_method else add_tags f.tags with_method)

  unfoldable pub count_query : TraceFilter → Str × List Arg
  count_query f =
      let (clauses, args) = build_where f in
      (lit "SELECT COUNT(*) FROM error_traces" ++ clauses, args)

  unfoldable pub list_query : TraceFilter → Str × List Arg
  list_query f =
      let (clauses, args) = build_where f in
      (
        list_columns
            ++ (clauses
                ++ (lit " ORDER BY "
                    ++ (order_column f.sort
                        ++ (lit " " ++ (order_direction f.dir ++ lit " LIMIT ? OFFSET ?"))))),
        args ++ int_arg (per_page_of f) ∷ int_arg (offset_of f) ∷ [],
      )
