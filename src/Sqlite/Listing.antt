-- ===== src/Sqlite/Listing.antt =====
-- `ListTraces` of sqlite/store.go behind its queries: the scan of the rows, and the errors. What a failed
-- json.Unmarshal leaves in the tags is a parameter, since `ListTraces` drops that error.
use promolog.Prelude.{ℤ, pos, List, [], ◌∷◌, Option, none, some, Str, Dict, map}
use promolog.Trace.{TraceSummary}
use promolog.Sqlite.Row.{Row, Json, string_of, time_of, duration_of, operation_id_of}
use promolog.Sqlite.Table.{Result, ok, err, Cursor, CursorEnd, finished, scan_error, iterate_error}
use promolog.Sqlite.Query.{TraceFilter, Arg, count_query, list_query}

pub data ListError (E : Type 0) : Type 0 where
  count_failed : E → ListError E
  list_failed : E → ListError E
  scan_failed : E → ListError E
  iterate_failed : E → ListError E

-- The two kinds of query, by their text and arguments.
pub record Reader (S E : Type 0) : Type 0 where
  pub query_count : Str → List Arg → S → Result E ℤ
  pub query_rows : Str → List Arg → S → Result E (Cursor E)

module _ (json : Json) (left_tags : Str → Option (Dict Str)) where
  unfoldable pub listed_tags : Option Str → Option (Dict Str)
  listed_tags none = none
  listed_tags (some []) = none
  listed_tags (some (c ∷ s)) = elim (json.unmarshal_tags (c ∷ s)) [
    | none ↦ left_tags (c ∷ s)
    | some m ↦ some m
  ]

  unfoldable pub summary_of_row : Row → TraceSummary
  unfolding listed_tags
  summary_of_row r = record {
    request_id = r.request_id;
    parent_request_id = string_of r.parent_request_id;
    error_chain = r.error_chain;
    status_code = r.status_code;
    route = r.route;
    method = r.method;
    remote_ip = r.remote_ip;
    user_id = r.user_id;
    tags = listed_tags r.tags;
    created_at = r.created_at;
    kind = string_of r.kind;
    operation_id = operation_id_of (string_of r.kind) r.request_id;
    operation_name = string_of r.operation_name;
    origin_request_id = string_of r.origin_request_id;
    status = string_of r.status;
    started_at = time_of r.started_at;
    duration = duration_of r.duration_ms;
  }

  -- Behind the loop over the rows: the page, the total and the error.
  unfoldable pub finish_list :
      {E : Type 0} → ℤ → List Row → CursorEnd E → List TraceSummary × ℤ × Option (ListError E)
  finish_list total rows (scan_error e) = ([], pos 0, some (scan_failed e))
  finish_list total rows (iterate_error e) =
      (map summary_of_row rows, total, some (iterate_failed e))
  finish_list total rows finished = (map summary_of_row rows, total, none)

  module _ {S E : Type 0} (reader : Reader S E) (split_fields : Str → List Str)
      (scan_int : Str → Option ℤ) where
    unfoldable pub list_traces : TraceFilter → S → List TraceSummary × ℤ × Option (ListError E)
    list_traces f s =
        let counted = count_query split_fields scan_int f in
        let paged = list_query split_fields scan_int f in
        elim (reader.query_count counted.0 counted.1 s) [
          | err e ↦ ([], pos 0, some (count_failed e))
          | ok total ↦ elim (reader.query_rows paged.0 paged.1 s) [
            | err e ↦ ([], pos 0, some (list_failed e))
            | ok c ↦ finish_list total c.found c.end
          ]
        ]
