-- ===== src/Sqlite/Placeholders.antt =====
-- The queries have an argument for each placeholder, and no text of the filter in them.
use promolog.Prelude.{
  ℕ, ◌+◌, ◌==◌, ℤ, pos, ◌≤ℤ◌, List, [], ◌∷◌, ◌++◌, Bool, true, false, Option, none, some, ◌≡◌, refl,
  ◌∙◌, arith, Str, lit, str_eq, Dict, length, length-append, is_empty, if◌then◌else◌, ltb_ℤ,
}
use promolog.Sqlite.Query.{
  TraceFilter, Arg, text_arg, int_arg, like_pattern, Clauses, search_clause, add_terms, add_method,
  add_tags, join_and, where_string, add_search, add_code, add_status, finish_where, build_where,
  build_where_excluding, count_query, per_page_of, order_column, order_direction, offset_of,
  list_columns, list_query,
}

-- The placeholders of a text.
abbrev pub placeholders : Str → ℕ
placeholders [] = 0
placeholders (c ∷ s) = let rest = placeholders s in if c == b'?' then 1 + rest else rest

placeholders-append : (s t : Str) → placeholders (s ++ t) ≡ placeholders s + placeholders t
placeholders-append [] t = omega arith
placeholders-append (c ∷ s) t = ground (arith, placeholders-append s t)

abbrev total : List Str → ℕ
total [] = 0
total (c ∷ cs) = placeholders c + total cs

total-append : (cs ds : List Str) → total (cs ++ ds) ≡ total cs + total ds
total-append [] ds = omega arith
total-append (c ∷ cs) ds = omega (arith, total-append cs ds)

-- An argument for each placeholder.
abbrev IsMatched : Clauses → Type 0
IsMatched (clauses, args) = total clauses ≡ length args

one_more :
    (clauses : List Str) (args : List Arg) (c : Str) (more : List Arg)
    → IsMatched (clauses, args)
    → placeholders c ≡ length more
    → IsMatched (clauses ++ c ∷ [], args ++ more)
one_more clauses args c more h e =
    omega (arith, total-append clauses (c ∷ []), length-append args more, h, e)

no_argument :
    (clauses : List Str) (args : List Arg) (c : Str)
    → IsMatched (clauses, args)
    → placeholders c ≡ 0
    → IsMatched (clauses ++ c ∷ [], args)
no_argument clauses args c h e = omega (arith, total-append clauses (c ∷ []), h, e)

four_plain : placeholders (lit "status_code >= 400 AND status_code < 500") ≡ 0
unfolding lit
four_plain = refl

five_plain : placeholders (lit "status_code >= 500") ≡ 0
unfolding lit
five_plain = refl

columns_plain : placeholders list_columns ≡ 0
unfolding lit
columns_plain = refl

if-IsMatched :
    (b : Bool) (c d : Clauses) → IsMatched c → IsMatched d → IsMatched (if b then c else d)
if-IsMatched true c d hc hd = hc
if-IsMatched false c d hc hd = hd

search_placeholders : placeholders search_clause ≡ 6
unfolding lit
search_placeholders = refl

add_terms-IsMatched : (terms : List Str) (c : Clauses) → IsMatched c → IsMatched (add_terms terms c)
unfolding add_terms
add_terms-IsMatched [] c h = h
add_terms-IsMatched (t ∷ terms) (clauses, args) h =
    let p : Arg = text_arg (like_pattern t) in
    let six : List Arg = p ∷ p ∷ p ∷ p ∷ p ∷ p ∷ [] in
    add_terms-IsMatched terms (clauses ++ search_clause ∷ [], args ++ six)
      (one_more clauses args search_clause six h search_placeholders)

add_method-IsMatched : (f : TraceFilter) (c : Clauses) → IsMatched c → IsMatched (add_method f c)
unfolding add_method lit
add_method-IsMatched f (clauses, args) h =
    if-IsMatched (is_empty f.method) (clauses, args)
      (clauses ++ lit "method = ?" ∷ [], args ++ text_arg f.method ∷ []) h
      (one_more clauses args (lit "method = ?") (text_arg f.method ∷ []) h refl)

add_tags-IsMatched : (m : Dict Str) (c : Clauses) → IsMatched c → IsMatched (add_tags m c)
unfolding add_tags lit
add_tags-IsMatched [] c h = h
add_tags-IsMatched ((k, v) ∷ m) (clauses, args) h =
    let pair : List Arg = text_arg (lit "$." ++ k) ∷ text_arg v ∷ [] in
    add_tags-IsMatched m (clauses ++ lit "json_extract(tags, ?) = ?" ∷ [], args ++ pair)
      (one_more clauses args (lit "json_extract(tags, ?) = ?") pair h refl)

join_and-total : (cs : List Str) → placeholders (join_and cs) ≡ total cs
unfolding join_and lit
join_and-total [] = refl
join_and-total (c ∷ []) = omega arith
join_and-total (c ∷ d ∷ cs) = omega (
  arith,
  placeholders-append c (lit " AND " ++ join_and (d ∷ cs)),
  placeholders-append (lit " AND ") (join_and (d ∷ cs)),
  join_and-total (d ∷ cs),
)

where_string-total : (cs : List Str) → placeholders (where_string cs) ≡ total cs
unfolding where_string lit
where_string-total [] = refl
where_string-total (c ∷ cs) =
    omega (arith, placeholders-append (lit " WHERE ") (join_and (c ∷ cs)), join_and-total (c ∷ cs))

-- An argument for each placeholder of a query.
abbrev pub IsComplete : Str × List Arg → Type 0
IsComplete (text, args) = placeholders text ≡ length args

finish_where-IsComplete : (c : Clauses) → IsMatched c → IsComplete (finish_where c)
finish_where-IsComplete (clauses, args) h = where_string-total clauses ∙ h

if-plain :
    (b : Bool) (s t : Str)
    → placeholders s ≡ 0
    → placeholders t ≡ 0
    → placeholders (if b then s else t) ≡ 0
if-plain true s t hs ht = hs
if-plain false s t hs ht = ht

order_column-plain : (sort : Str) → placeholders (order_column sort) ≡ 0
unfolding order_column lit
order_column-plain sort = ground arith

order_direction-plain : (dir : Str) → placeholders (order_direction dir) ≡ 0
unfolding order_direction lit
order_direction-plain dir = ground arith

add_code-IsMatched : (o : Option ℤ) (c : Clauses) → IsMatched c → IsMatched (add_code o c)
unfolding add_code lit
add_code-IsMatched none c h = h
add_code-IsMatched (some code) (clauses, args) h =
    if-IsMatched (ltb_ℤ (pos 0) code)
      (clauses ++ lit "status_code = ?" ∷ [], args ++ int_arg code ∷ []) (clauses, args)
      (one_more clauses args (lit "status_code = ?") (int_arg code ∷ []) h refl) h

module _ (split_fields : Str → List Str) (scan_int : Str → Option ℤ) where
  add_search-IsMatched :
      (f : TraceFilter) (c : Clauses)
      → IsMatched c
      → IsMatched (add_search split_fields scan_int f c)
  unfolding add_search
  add_search-IsMatched f c h =
      if-IsMatched (is_empty f.q) c (add_terms (split_fields f.q) c) h
        (add_terms-IsMatched (split_fields f.q) c h)

  add_status-IsMatched :
      (f : TraceFilter) (c : Clauses)
      → IsMatched c
      → IsMatched (add_status split_fields scan_int f c)
  unfolding add_status
  add_status-IsMatched f (clauses, args) h =
      let four : Str = lit "status_code >= 400 AND status_code < 500" in
      let five : Str = lit "status_code >= 500" in
      let exact : Clauses = add_code (scan_int f.status) (clauses, args) in
      let grouped : Clauses =
        if str_eq f.status (lit "5xx") then (clauses ++ five ∷ [], args) else exact in
      if-IsMatched (is_empty f.status) (clauses, args)
        (if str_eq f.status (lit "4xx") then (clauses ++ four ∷ [], args) else grouped) h
        (if-IsMatched (str_eq f.status (lit "4xx")) (clauses ++ four ∷ [], args) grouped
          (no_argument clauses args four h four_plain)
          (if-IsMatched (str_eq f.status (lit "5xx")) (clauses ++ five ∷ [], args) exact
            (no_argument clauses args five h five_plain)
            (add_code-IsMatched (scan_int f.status) (clauses, args) h)))

  build_where-IsComplete : (f : TraceFilter) → IsComplete (build_where split_fields scan_int f)
  unfolding build_where
  build_where-IsComplete f =
      let searched : Clauses = add_search split_fields scan_int f ([], []) in
      let with_status : Clauses = add_status split_fields scan_int f searched in
      let with_method : Clauses = add_method f with_status in
      finish_where-IsComplete (add_tags f.tags with_method) (
        add_tags-IsMatched f.tags with_method (
          add_method-IsMatched f with_status
            (add_status-IsMatched f searched (add_search-IsMatched f ([], []) refl))))

  build_where_excluding-IsComplete :
      (f : TraceFilter) (exclude : Str)
      → IsComplete (build_where_excluding split_fields scan_int f exclude)
  unfolding build_where_excluding
  build_where_excluding-IsComplete f exclude =
      let searched : Clauses = add_search split_fields scan_int f ([], []) in
      let h0 : IsMatched searched = add_search-IsMatched f ([], []) refl in
      let c1 : Clauses = add_status split_fields scan_int f searched in
      let with_status : Clauses = if str_eq exclude (lit "status") then searched else c1 in
      let h1 : IsMatched with_status =
        if-IsMatched (str_eq exclude (lit "status")) searched c1 h0
          (add_status-IsMatched f searched h0) in
      let c2 : Clauses = add_method f with_status in
      let with_method : Clauses = if str_eq exclude (lit "method") then with_status else c2 in
      let h2 : IsMatched with_method =
        if-IsMatched (str_eq exclude (lit "method")) with_status c2 h1
          (add_method-IsMatched f with_status h1) in
      let c3 : Clauses = add_tags f.tags with_method in
      finish_where-IsComplete (if str_eq exclude (lit "tags") then with_method else c3) (
        if-IsMatched (str_eq exclude (lit "tags")) with_method c3 h2
          (add_tags-IsMatched f.tags with_method h2))

  count_query-IsComplete : (f : TraceFilter) → IsComplete (count_query split_fields scan_int f)
  unfolding count_query lit
  count_query-IsComplete f =
      let w : Str × List Arg = build_where split_fields scan_int f in
      omega (
        arith,
        placeholders-append (lit "SELECT COUNT(*) FROM error_traces") w.0,
        build_where-IsComplete f,
      )

  -- The page clauses: an order, and two placeholders.
  abbrev page_text : TraceFilter → Str
  page_text f =
      lit " ORDER BY "
      ++ (order_column f.sort ++ (lit " " ++ (order_direction f.dir ++ lit " LIMIT ? OFFSET ?")))

  page_text-two : (f : TraceFilter) → placeholders (page_text f) ≡ 2
  unfolding lit
  page_text-two f = omega (
    arith,
    placeholders-append (lit " ORDER BY ")
        (order_column f.sort ++ (lit " " ++ (order_direction f.dir ++ lit " LIMIT ? OFFSET ?"))),
    placeholders-append (order_column f.sort)
        (lit " " ++ (order_direction f.dir ++ lit " LIMIT ? OFFSET ?")),
    placeholders-append (lit " ") (order_direction f.dir ++ lit " LIMIT ? OFFSET ?"),
    placeholders-append (order_direction f.dir) (lit " LIMIT ? OFFSET ?"),
    order_column-plain f.sort,
    order_direction-plain f.dir,
  )

  list_query-IsComplete : (f : TraceFilter) → IsComplete (list_query split_fields scan_int f)
  unfolding list_query
  list_query-IsComplete f =
      let w : Str × List Arg = build_where split_fields scan_int f in
      omega (
        arith,
        placeholders-append list_columns (w.0 ++ page_text f),
        placeholders-append w.0 (page_text f),
        columns_plain,
        page_text-two f,
        build_where-IsComplete f,
        length-append w.1 (int_arg (per_page_of f) ∷ int_arg (offset_of f) ∷ []),
      )

  -- For every filter, the queries of `ListTraces` and the clauses of `AvailableFilters` have exactly as many arguments as
  -- placeholders, and a page asks for at least one trace.
  pub queries-IsComplete :
      (f : TraceFilter)
      → IsComplete (count_query split_fields scan_int f)
        × IsComplete (list_query split_fields scan_int f)
        × ((exclude : Str) → IsComplete (build_where_excluding split_fields scan_int f exclude))
        × (pos 1 ≤ℤ per_page_of f)
  unfolding per_page_of
  queries-IsComplete f = (
    count_query-IsComplete f,
    list_query-IsComplete f,
    build_where_excluding-IsComplete f,
    ground arith,
  )
