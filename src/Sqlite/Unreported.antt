-- ===== src/Sqlite/Unreported.antt =====
-- The errors that `AvailableFilters` does not report.
use promolog.Prelude.{ℤ, List, ◌++◌, Option, none, ◌≡◌, refl, sym, ap, ◌∙◌, Str, lit}
use mathlib.Core.Path.{fun_ext}
use promolog.Sqlite.Row.{Json}
use promolog.Sqlite.Table.{Result, ok, err, CursorEnd, finished, scan_error, iterate_error}
use promolog.Sqlite.Query.{TraceFilter, Arg, build_where, build_where_excluding}
use promolog.Sqlite.Filters.{
  FilterOptions, no_options, Answer, ColumnReader, read_values, go_on, distinct_query,
  nonempty_texts, texts_of, finish_tags, tag_sets, read_tags, read_user_ids, read_routes,
  read_remote_ips, read_methods, available_filters,
}

-- An iteration that an error ended, as one that came to its end.
abbrev pub without_error : {E : Type 0} → CursorEnd E → CursorEnd E
without_error (iterate_error e) = finished
without_error (scan_error e) = scan_error e
without_error finished = finished

abbrev pub quiet : {A E : Type 0} → Result E (Answer A E) → Result E (Answer A E)
quiet (err e) = err e
quiet (ok c) = ok (record c { end = without_error c.end })

abbrev pub quiet_reader : {S E : Type 0} → ColumnReader S E → ColumnReader S E
quiet_reader reader = record {
  query_ints = λ text args s. quiet (reader.query_ints text args s);
  query_texts = λ text args s. quiet (reader.query_texts text args s);
  query_nullable = λ text args s. quiet (reader.query_nullable text args s);
}

read_values-quiet :
    {A E : Type 0} (r : Result E (Answer A E)) → read_values (quiet r) ≡ read_values r
read_values-quiet (err e) = refl
read_values-quiet (ok c) = same c.end
  where
    same :
        (x : CursorEnd _)
        → read_values (ok (record c { end = without_error x }))
          ≡ read_values (ok (record c { end = x }))
    same finished = refl
    same (scan_error e) = refl
    same (iterate_error e) = refl

-- A step of the quiet reader, before the quiet rest.
step_quiet :
    {A E : Type 0} (r : Result E (Answer A E)) (fill : List A → FilterOptions)
    (rest rest' : FilterOptions → FilterOptions × Option E)
    → ((o : FilterOptions) → rest' o ≡ rest o)
    → go_on (fill (read_values (quiet r)).0) (read_values (quiet r)).1 rest'
      ≡ go_on (fill (read_values r).0) (read_values r).1 rest
step_quiet r fill rest rest' same =
    ap (λ v. go_on (fill v.0) v.1 rest') (read_values-quiet r)
    ∙ ap (λ k. go_on (fill (read_values r).0) (read_values r).1 k) (fun_ext same)

module _ (json : Json) {S E : Type 0} (reader : ColumnReader S E) (split_fields : Str → List Str)
    (scan_int : Str → Option ℤ) (f : TraceFilter) (s : S) where
  quiet_tags :
      (opts : FilterOptions)
      → read_tags json (quiet_reader reader) split_fields scan_int f s opts
        ≡ read_tags json reader split_fields scan_int f s opts
  unfolding read_tags
  quiet_tags opts =
      let q : Str × List Arg = build_where_excluding split_fields scan_int f (lit "tags") in
      ap (λ v. go_on opts v.1 (λ o. (finish_tags o (tag_sets json v.0), none)))
        (read_values-quiet
          (reader.query_nullable (lit "SELECT tags FROM error_traces" ++ q.0) q.1 s))

  quiet_user_ids :
      (opts : FilterOptions)
      → read_user_ids json (quiet_reader reader) split_fields scan_int f s opts
        ≡ read_user_ids json reader split_fields scan_int f s opts
  unfolding read_user_ids
  quiet_user_ids opts =
      let q : Str × List Arg =
        distinct_query (lit "user_id") (build_where split_fields scan_int f) in
      step_quiet (reader.query_nullable q.0 q.1 s)
        (λ l. record opts { user_ids = nonempty_texts (texts_of l) })
        (read_tags json reader split_fields scan_int f s)
        (read_tags json (quiet_reader reader) split_fields scan_int f s) quiet_tags

  quiet_routes :
      (opts : FilterOptions)
      → read_routes json (quiet_reader reader) split_fields scan_int f s opts
        ≡ read_routes json reader split_fields scan_int f s opts
  unfolding read_routes
  quiet_routes opts =
      let q : Str × List Arg = distinct_query (lit "route") (build_where split_fields scan_int f) in
      step_quiet (reader.query_texts q.0 q.1 s) (λ l. record opts { routes = nonempty_texts l })
        (read_user_ids json reader split_fields scan_int f s)
        (read_user_ids json (quiet_reader reader) split_fields scan_int f s) quiet_user_ids

  quiet_remote_ips :
      (opts : FilterOptions)
      → read_remote_ips json (quiet_reader reader) split_fields scan_int f s opts
        ≡ read_remote_ips json reader split_fields scan_int f s opts
  unfolding read_remote_ips
  quiet_remote_ips opts =
      let q : Str × List Arg =
        distinct_query (lit "remote_ip") (build_where split_fields scan_int f) in
      step_quiet (reader.query_nullable q.0 q.1 s)
        (λ l. record opts { remote_ips = nonempty_texts (texts_of l) })
        (read_routes json reader split_fields scan_int f s)
        (read_routes json (quiet_reader reader) split_fields scan_int f s) quiet_routes

  quiet_methods :
      (opts : FilterOptions)
      → read_methods json (quiet_reader reader) split_fields scan_int f s opts
        ≡ read_methods json reader split_fields scan_int f s opts
  unfolding read_methods
  quiet_methods opts =
      let q : Str × List Arg =
        distinct_query (lit "method")
          (build_where_excluding split_fields scan_int f (lit "method")) in
      step_quiet (reader.query_texts q.0 q.1 s) (λ l. record opts { methods = l })
        (read_remote_ips json reader split_fields scan_int f s)
        (read_remote_ips json (quiet_reader reader) split_fields scan_int f s) quiet_remote_ips

  -- `AvailableFilters` returns the same options and the same error, whether an iteration over rows was ended by an error
  -- or came to its end there: the values before the error are offered as if there were no others.
  pub iteration_errors_lost :
      available_filters json reader split_fields scan_int f s
      ≡ available_filters json (quiet_reader reader) split_fields scan_int f s
  unfolding available_filters
  iteration_errors_lost =
      let q : Str × List Arg =
        distinct_query (lit "status_code")
          (build_where_excluding split_fields scan_int f (lit "status")) in
      sym (
        step_quiet (reader.query_ints q.0 q.1 s) (λ l. record no_options { status_codes = l })
          (read_methods json reader split_fields scan_int f s)
          (read_methods json (quiet_reader reader) split_fields scan_int f s) quiet_methods)
