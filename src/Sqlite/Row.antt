-- ===== src/Sqlite/Row.antt =====
-- A row of `error_traces`, and what `promoteAt` and `Get` of sqlite/store.go make of it. The JSON
-- texts of package encoding/json are parameters; `none` is an error.
use promolog.Prelude.{
  ◌/◌, ℤ, pos, pos_part, ◌*ℤ◌, ltb_ℤ, List, [], ◌∷◌, Option, none, some, Str, lit, str_eq, Dict,
  if◌then◌else◌,
}
use promolog.Trace.{Entry, Trace, Time, Duration, zero_time, is_zero}
use promolog.Rule.{wrap_int}

pub record Row : Type 0 where
  pub request_id : Str
  pub parent_request_id : Option Str
  pub error_chain : Str
  pub status_code : ℤ
  pub route : Str
  pub method : Str
  pub user_agent : Str
  pub remote_ip : Str
  pub user_id : Str
  pub entries : Str
  pub tags : Option Str
  pub request_body : Option Str
  pub response_body : Option Str
  pub kind : Option Str
  pub operation_name : Option Str
  pub origin_request_id : Option Str
  pub status : Option Str
  pub started_at : Option Time
  pub duration_ms : Option ℤ
  pub created_at : Time

pub record Json : Type 0 where
  pub marshal_entries : List Entry → Option Str
  pub unmarshal_entries : Str → Option (List Entry)
  pub marshal_tags : Dict Str → Option Str
  pub unmarshal_tags : Str → Option (Dict Str)

unfoldable pub nullable_string : Str → Option Str
nullable_string [] = none
nullable_string (c ∷ s) = some (c ∷ s)

-- A `sql.NullString` that is copied where it is valid.
unfoldable pub string_of : Option Str → Str
string_of none = []
string_of (some s) = s

unfoldable pub nullable_time : Time → Option Time
nullable_time t = if is_zero t then none else some t

unfoldable pub time_of : Option Time → Time
time_of none = zero_time
time_of (some t) = t

-- `d.Milliseconds()` of a positive duration; no other is stored.
unfoldable pub duration_column : Duration → Option ℤ
duration_column d = if ltb_ℤ (pos 0) d then some (pos (pos_part d / 1000000)) else none

unfoldable pub duration_of : Option ℤ → Duration
duration_of none = pos 0
duration_of (some ms) = wrap_int (ms *ℤ pos 1000000)

-- `applyOperationFields`: the ID of an operation's row is its operation ID.
unfoldable pub operation_id_of : Str → Str → Str
operation_id_of kind request_id = if str_eq kind (lit "operation") then request_id else []

module _ (json : Json) where
  -- The JSON text of the tags; `none` outside is the error, inside the NULL.
  unfoldable pub tags_column : Option (Dict Str) → Option (Option Str)
  tags_column none = some none
  tags_column (some []) = some none
  tags_column (some (e ∷ m)) = elim (json.marshal_tags (e ∷ m)) [
    | none ↦ none
    | some text ↦ some (some text)
  ]

  unfoldable pub tags_of : Option Str → Option (Option (Dict Str))
  tags_of none = some none
  tags_of (some []) = some none
  tags_of (some (c ∷ s)) = elim (json.unmarshal_tags (c ∷ s)) [
    | none ↦ none
    | some m ↦ some (some m)
  ]

-- The row that `promoteAt` inserts, for the JSON texts of entries and tags.
unfoldable pub row_of : Trace → Str → Option Str → Time → Row
row_of t entries tags created_at = record {
  request_id = t.request_id;
  parent_request_id = nullable_string t.parent_request_id;
  error_chain = t.error_chain;
  status_code = t.status_code;
  route = t.route;
  method = t.method;
  user_agent = t.user_agent;
  remote_ip = t.remote_ip;
  user_id = t.user_id;
  entries = entries;
  tags = tags;
  request_body = nullable_string t.request_body;
  response_body = nullable_string t.response_body;
  kind = nullable_string t.kind;
  operation_name = nullable_string t.operation_name;
  origin_request_id = nullable_string t.origin_request_id;
  status = nullable_string t.status;
  started_at = nullable_time t.started_at;
  duration_ms = duration_column t.duration;
  created_at = created_at;
}

-- The trace that `Get` returns of a row, with the entries and tags that were read from JSON.
unfoldable pub trace_of_row : Row → List Entry → Option (Dict Str) → Trace
trace_of_row r entries tags = record {
  request_id = r.request_id;
  parent_request_id = string_of r.parent_request_id;
  error_chain = r.error_chain;
  status_code = r.status_code;
  route = r.route;
  method = r.method;
  user_agent = r.user_agent;
  remote_ip = r.remote_ip;
  user_id = r.user_id;
  tags = tags;
  entries = entries;
  request_body = string_of r.request_body;
  response_body = string_of r.response_body;
  created_at = r.created_at;
  kind = string_of r.kind;
  operation_id = operation_id_of (string_of r.kind) r.request_id;
  operation_name = string_of r.operation_name;
  origin_request_id = string_of r.origin_request_id;
  status = string_of r.status;
  started_at = time_of r.started_at;
  duration = duration_of r.duration_ms;
}
