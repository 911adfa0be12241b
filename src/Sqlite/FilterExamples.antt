-- ===== src/Sqlite/FilterExamples.antt =====
-- Tests of `AvailableFilters`, and its theorems at a small database.
use promolog.Prelude.{
  ℤ, pos, List, [], ◌∷◌, Option, none, some, ◌≡◌, refl, Str, lit, str_eq, lookup, insert,
  if◌then◌else◌,
}
use promolog.Prelude.Sort.{sort_strings, insert_sorted, add_str}
use promolog.Sqlite.Row.{Json, string_of}
use promolog.Sqlite.Table.{ok, finished, iterate_error}
use promolog.Sqlite.Query.{TraceFilter}
use promolog.Sqlite.Filters.{
  ColumnReader, available_filters, read_methods, read_remote_ips, read_routes, read_user_ids,
  read_tags, finish_tags, add_rows, add_tag_map, add_tag, decode_tags,
}
use promolog.Sqlite.Unreported.{quiet_reader, iteration_errors_lost}

abbrev no_filter : TraceFilter
no_filter = record {
  q = [];
  status = [];
  method = [];
  tags = [];
  sort = [];
  dir = [];
  page = pos 1;
  per_page = pos 1;
}

abbrev one_field : Str → List Str
one_field s = s ∷ []

abbrev no_number : Str → Option ℤ
no_number s = none

-- JSON that knows the tags of one text.
abbrev two_tags : Json
two_tags = record {
  marshal_entries = λ entries. none;
  unmarshal_entries = λ text. none;
  marshal_tags = λ m. none;
  unmarshal_tags = λ text.
      if str_eq text (lit "{}") then some ((lit "b", lit "2") ∷ (lit "a", lit "1") ∷ []) else none;
}

-- Every nullable column has these cells, and the codes end with an error.
abbrev small : ColumnReader (List (Option Str)) Str
small = record {
  query_ints =
      λ text args s. ok (record { found = pos 404 ∷ []; end = iterate_error (lit "lost") });
  query_texts = λ text args s. ok (record { found = lit "GET" ∷ [] ∷ []; end = finished });
  query_nullable = λ text args s. ok (record { found = s; end = finished });
}

abbrev cells : List (Option Str)
cells = none ∷ some (lit "{}") ∷ some (lit "?") ∷ []

offered_here : available_filters two_tags small one_field no_number no_filter cells ≡ (
  record {
    status_codes = pos 404 ∷ [];
    methods = lit "GET" ∷ [] ∷ [];
    tag_keys = lit "a" ∷ lit "b" ∷ [];
    remote_ips = lit "{}" ∷ lit "?" ∷ [];
    routes = lit "GET" ∷ [];
    user_ids = lit "{}" ∷ lit "?" ∷ [];
    tags = some ((lit "b", lit "2" ∷ []) ∷ (lit "a", lit "1" ∷ []) ∷ []);
  },
  none,
)
unfolding available_filters read_methods read_remote_ips read_routes read_user_ids read_tags
    finish_tags add_rows add_tag_map add_tag decode_tags sort_strings insert_sorted add_str lookup
    insert str_eq lit string_of
offered_here = refl

iteration_errors_lost_example :
    available_filters two_tags small one_field no_number no_filter cells
    ≡ available_filters two_tags (quiet_reader small) one_field no_number no_filter cells
iteration_errors_lost_example =
    iteration_errors_lost two_tags small one_field no_number no_filter cells
