-- ===== src/Sqlite/Filters.antt =====
-- `AvailableFilters` of sqlite/store.go: its six queries in their order, and the distinct tags. The code
-- does not call `rows.Err()`, so an error that ends an iteration is taken for its end.
use promolog.Prelude.{
  ℤ, List, [], ◌∷◌, ◌++◌, not, Option, none, some, Str, lit, Dict, lookup, insert, is_empty, keep,
  if◌then◌else◌,
}
use promolog.Prelude.Sort.{add_str, sort_strings}
use promolog.Sqlite.Row.{Json, string_of}
use promolog.Sqlite.Table.{Result, ok, err, CursorEnd, finished, scan_error, iterate_error}
use promolog.Sqlite.Query.{TraceFilter, Arg, build_where, build_where_excluding}

-- `none` is a nil map.
pub record FilterOptions : Type 0 where
  pub status_codes : List ℤ
  pub methods : List Str
  pub tag_keys : List Str
  pub remote_ips : List Str
  pub routes : List Str
  pub user_ids : List Str
  pub tags : Option (Dict (List Str))

abbrev pub no_options : FilterOptions
no_options = record {
  status_codes = [];
  methods = [];
  tag_keys = [];
  remote_ips = [];
  routes = [];
  user_ids = [];
  tags = none;
}

pub record Answer (A E : Type 0) : Type 0 where
  pub found : List A
  pub end : CursorEnd E

-- The queries by the type of their column.
pub record ColumnReader (S E : Type 0) : Type 0 where
  pub query_ints : Str → List Arg → S → Result E (Answer ℤ E)
  pub query_texts : Str → List Arg → S → Result E (Answer Str E)
  pub query_nullable : Str → List Arg → S → Result E (Answer (Option Str) E)

-- The error with which a loop over rows returns.
abbrev pub loop_error : {E : Type 0} → CursorEnd E → Option E
loop_error (scan_error e) = some e
loop_error (iterate_error e) = none
loop_error finished = none

-- The values that a loop has read, and the error with which it or its query returned.
abbrev pub read_values : {A E : Type 0} → Result E (Answer A E) → List A × Option E
read_values (err e) = ([], some e)
read_values (ok c) = (c.found, loop_error c.end)

-- A step that returns at an error, or goes on.
abbrev pub go_on :
    {E : Type 0}
    → FilterOptions
    → Option E
    → (FilterOptions → FilterOptions × Option E)
    → FilterOptions × Option E
go_on opts (some e) rest = (opts, some e)
go_on opts none rest = rest opts

unfoldable pub distinct_query : Str → Str × List Arg → Str × List Arg
distinct_query col (where_text, args) = (
  lit "SELECT DISTINCT "
      ++ (col ++ (lit " FROM error_traces" ++ (where_text ++ (lit " ORDER BY " ++ col)))),
  args,
)

-- The values that are not empty.
abbrev pub nonempty_texts : List Str → List Str
nonempty_texts texts = keep (λ t. not (is_empty t)) texts

abbrev pub texts_of : List (Option Str) → List Str
texts_of [] = []
texts_of (c ∷ cells) = string_of c ∷ texts_of cells

-- `tagKeySet` and `tagValues`, sets as lists.
pub record TagSets : Type 0 where
  pub keys : List Str
  pub values : Dict (List Str)

-- A nil set has no values.
abbrev pub set_of : Option (List Str) → List Str
set_of none = []
set_of (some vs) = vs

abbrev pub values_of : Str → Dict (List Str) → List Str
values_of k values = set_of (lookup k values)

unfoldable pub add_tag : Str → Str → TagSets → TagSets
add_tag k v sets = record {
  keys = add_str k sets.keys;
  values = insert k (add_str v (values_of k sets.values)) sets.values;
}

-- The loop over the tags of a row.
unfoldable pub add_tag_map : Dict Str → TagSets → TagSets
add_tag_map [] sets = sets
add_tag_map ((k, v) ∷ m) sets = add_tag_map m (add_tag k v sets)

abbrev pub sort_values : Dict (List Str) → Dict (List Str)
sort_values [] = []
sort_values ((k, vs) ∷ values) = (k, sort_strings vs) ∷ sort_values values

-- Behind the loop over the rows of tags.
unfoldable pub finish_tags : FilterOptions → TagSets → FilterOptions
finish_tags opts sets =
    if is_empty sets.keys
    then opts
    else record opts { tag_keys = sort_strings sets.keys; tags = some (sort_values sets.values) }

module _ (json : Json) where
  -- The tags of a row; `none` where the loop goes on to the next row.
  unfoldable pub decode_tags : Option Str → Option (Dict Str)
  decode_tags none = none
  decode_tags (some []) = none
  decode_tags (some (c ∷ s)) = json.unmarshal_tags (c ∷ s)

  -- The loop over the rows of tags.
  unfoldable pub add_rows : List (Option Str) → TagSets → TagSets
  add_rows [] sets = sets
  add_rows (raw ∷ raws) sets =
      add_rows raws (elim (decode_tags raw) [ none ↦ sets | some m ↦ add_tag_map m sets ])

  abbrev pub tag_sets : List (Option Str) → TagSets
  tag_sets raws = add_rows raws (record { keys = []; values = [] })

  module _ {S E : Type 0} (reader : ColumnReader S E) (split_fields : Str → List Str)
      (scan_int : Str → Option ℤ) (f : TraceFilter) (s : S) where
    unfoldable pub read_tags : FilterOptions → FilterOptions × Option E
    unfolding finish_tags add_rows
    read_tags opts =
        let (where_text, args) = build_where_excluding split_fields scan_int f (lit "tags") in
        let got =
          read_values
            (reader.query_nullable (lit "SELECT tags FROM error_traces" ++ where_text) args s) in
        go_on opts got.1 (λ o. (finish_tags o (tag_sets got.0), none))

    unfoldable pub read_user_ids : FilterOptions → FilterOptions × Option E
    read_user_ids opts =
        let q = distinct_query (lit "user_id") (build_where split_fields scan_int f) in
        let got = read_values (reader.query_nullable q.0 q.1 s) in
        go_on (record opts { user_ids = nonempty_texts (texts_of got.0) }) got.1 read_tags

    unfoldable pub read_routes : FilterOptions → FilterOptions × Option E
    read_routes opts =
        let q = distinct_query (lit "route") (build_where split_fields scan_int f) in
        let got = read_values (reader.query_texts q.0 q.1 s) in
        go_on (record opts { routes = nonempty_texts got.0 }) got.1 read_user_ids

    unfoldable pub read_remote_ips : FilterOptions → FilterOptions × Option E
    read_remote_ips opts =
        let q = distinct_query (lit "remote_ip") (build_where split_fields scan_int f) in
        let got = read_values (reader.query_nullable q.0 q.1 s) in
        go_on (record opts { remote_ips = nonempty_texts (texts_of got.0) }) got.1 read_routes

    unfoldable pub read_methods : FilterOptions → FilterOptions × Option E
    read_methods opts =
        let q =
          distinct_query (lit "method")
            (build_where_excluding split_fields scan_int f (lit "method")) in
        let got = read_values (reader.query_texts q.0 q.1 s) in
        go_on (record opts { methods = got.0 }) got.1 read_remote_ips

    -- From a zero `FilterOptions`.
    unfoldable pub available_filters : FilterOptions × Option E
    available_filters =
        let q =
          distinct_query (lit "status_code")
            (build_where_excluding split_fields scan_int f (lit "status")) in
        let got = read_values (reader.query_ints q.0 q.1 s) in
        go_on (record no_options { status_codes = got.0 }) got.1 read_methods
