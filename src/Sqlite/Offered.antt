-- ===== src/Sqlite/Offered.antt =====
-- When `AvailableFilters` returns without an error, and what it offers then.
use promolog.Prelude.{ℤ, List, [], ◌++◌, Option, none, ◌≡◌, Str, lit}
use promolog.Sqlite.Row.{Json}
use promolog.Sqlite.Table.{Result, ok}
use promolog.Sqlite.Query.{TraceFilter, Arg, build_where, build_where_excluding}
use promolog.Sqlite.Filters.{
  FilterOptions, Answer, ColumnReader, loop_error, distinct_query, nonempty_texts, texts_of,
  available_filters,
}
use promolog.Sqlite.TagSets.{pairs_of, IsTagOptions}

-- A query whose rows are read without an error.
pub record IsRead {A E : Type 0} (r : Result E (Answer A E)) : Type 0 where
  pub answer : Answer A E
  pub answered : r ≡ ok answer
  pub no_error : loop_error answer.end ≡ none

module _ (json : Json) {S E : Type 0} (reader : ColumnReader S E) (split_fields : Str → List Str)
    (scan_int : Str → Option ℤ) (f : TraceFilter) (s : S) where
  abbrev all_filters : Str × List Arg
  all_filters = build_where split_fields scan_int f

  abbrev all_but : Str → Str × List Arg
  all_but exclude = build_where_excluding split_fields scan_int f exclude

  abbrev ask_texts : Str × List Arg → Result E (Answer Str E)
  ask_texts q = reader.query_texts q.0 q.1 s

  abbrev ask_nullable : Str × List Arg → Result E (Answer (Option Str) E)
  ask_nullable q = reader.query_nullable q.0 q.1 s

  abbrev ask_ints : Str × List Arg → Result E (Answer ℤ E)
  ask_ints q = reader.query_ints q.0 q.1 s

  abbrev ask_tags : Result E (Answer (Option Str) E)
  ask_tags =
      ask_nullable
        (lit "SELECT tags FROM error_traces" ++ (all_but (lit "tags")).0, (all_but (lit "tags")).1)

  -- The six queries: each leaves out the filter of its own column.
  pub record AllRead : Type 0 where
    pub codes : IsRead (ask_ints (distinct_query (lit "status_code") (all_but (lit "status"))))
    pub methods : IsRead (ask_texts (distinct_query (lit "method") (all_but (lit "method"))))
    pub remote_ips : IsRead (ask_nullable (distinct_query (lit "remote_ip") all_filters))
    pub routes : IsRead (ask_texts (distinct_query (lit "route") all_filters))
    pub user_ids : IsRead (ask_nullable (distinct_query (lit "user_id") all_filters))
    pub tags : IsRead ask_tags

  -- The options before the tags.
  abbrev columns : AllRead → FilterOptions
  columns r = record {
    status_codes = r.codes.answer.found;
    methods = r.methods.answer.found;
    tag_keys = [];
    remote_ips = nonempty_texts (texts_of r.remote_ips.answer.found);
    routes = nonempty_texts r.routes.answer.found;
    user_ids = nonempty_texts (texts_of r.user_ids.answer.found);
    tags = none;
  }

  abbrev pub offering : FilterOptions × Option E
  offering = available_filters json reader split_fields scan_int f s

  -- The options that six answers make.
  pub record IsOffering (opts : FilterOptions) : Type 0 where
    pub read : AllRead
    pub status_codes : opts.status_codes ≡ read.codes.answer.found
    pub methods : opts.methods ≡ read.methods.answer.found
    pub remote_ips : opts.remote_ips ≡ nonempty_texts (texts_of read.remote_ips.answer.found)
    pub routes : opts.routes ≡ nonempty_texts read.routes.answer.found
    pub user_ids : opts.user_ids ≡ nonempty_texts (texts_of read.user_ids.answer.found)
    pub tag_options : IsTagOptions json opts (pairs_of json read.tags.answer.found)
