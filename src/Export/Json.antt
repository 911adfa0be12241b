-- ===== src/Export/Json.antt =====
-- export/json/json.go. The formats of package time and the texts of encoding/json are parameters; `none` is
-- an error of theirs. The writer is any state that answers each write with an error or none.
use promolog.Prelude.{
  ℤ, ◌++◌, List, [], ◌∷◌, Bool, true, false, Option, none, some, Str, lit, Dict, str_eq, ◌||◌, keep,
  is_empty, if◌then◌else◌,
}
use promolog.Trace.{Entry, Trace, Time, is_zero}
use promolog.Export.{
  Object, text, number, milliseconds, optional_text, optional_number, optional_texts,
  optional_entries,
}

-- A set of names as the list of its members; `none` is nil.
pub record JsonExporter : Type 0 where
  pub pretty : Bool
  pub fields : Option (List Str)

unfoldable pub with_pretty : JsonExporter → JsonExporter
with_pretty e = record e { pretty = true }

unfoldable pub with_fields : List Str → JsonExporter → JsonExporter
with_fields fields e = record e { fields = some fields }

unfoldable pub apply_json_options : List (JsonExporter → JsonExporter) → JsonExporter → JsonExporter
apply_json_options [] e = e
apply_json_options (o ∷ os) e = apply_json_options os (o e)

unfoldable pub new_json_exporter : List (JsonExporter → JsonExporter) → JsonExporter
unfolding apply_json_options
new_json_exporter opts = apply_json_options opts (record { pretty = false; fields = none })

pub record TraceView : Type 0 where
  pub request_id : Str
  pub parent_request_id : Str
  pub error_chain : Str
  pub status_code : ℤ
  pub route : Str
  pub method : Str
  pub user_agent : Str
  pub remote_ip : Str
  pub user_id : Str
  pub tags : Option (Dict Str)
  pub entries : List Entry
  pub request_body : Str
  pub response_body : Str
  pub kind : Str
  pub operation_id : Str
  pub operation_name : Str
  pub origin_request_id : Str
  pub status : Str
  pub started_at : Str
  pub duration_ms : ℤ
  pub created_at : Str

unfoldable pub to_view : (Time → Str) → Trace → TraceView
to_view format t = record {
  request_id = t.request_id;
  parent_request_id = t.parent_request_id;
  error_chain = t.error_chain;
  status_code = t.status_code;
  route = t.route;
  method = t.method;
  user_agent = t.user_agent;
  remote_ip = t.remote_ip;
  user_id = t.user_id;
  tags = t.tags;
  entries = t.entries;
  request_body = t.request_body;
  response_body = t.response_body;
  kind = t.kind;
  operation_id = t.operation_id;
  operation_name = t.operation_name;
  origin_request_id = t.origin_request_id;
  status = t.status;
  started_at = if is_zero t.started_at then [] else format t.started_at;
  duration_ms = milliseconds t.duration;
  created_at = format t.created_at;
}

-- What encoding/json writes of the view, by its tags.
unfoldable pub view_object : TraceView → Object
view_object v =
    (lit "request_id", text v.request_id)
    ∷ (optional_text (lit "parent_request_id") v.parent_request_id (
        optional_text (lit "error_chain") v.error_chain (
          (lit "status_code", number v.status_code)
          ∷ ((lit "route", text v.route)
              ∷ ((lit "method", text v.method)
                  ∷ (optional_text (lit "user_agent") v.user_agent (
                      optional_text (lit "remote_ip") v.remote_ip (
                        optional_text (lit "user_id") v.user_id (
                          optional_texts (lit "tags") v.tags (
                            optional_entries (lit "entries") v.entries (
                              optional_text (lit "request_body") v.request_body (
                                optional_text (lit "response_body") v.response_body (
                                  optional_text (lit "kind") v.kind (
                                    optional_text (lit "operation_id") v.operation_id (
                                      optional_text (lit "operation_name") v.operation_name (
                                        optional_text (lit "origin_request_id") v.origin_request_id
                                          (optional_text (lit "status") v.status (
                                            optional_text (lit "started_at") v.started_at (
                                              optional_number (lit "duration_ms") v.duration_ms (
                                                (lit "created_at", text v.created_at)
                                                ∷ ([])))))))))))))))))))))

abbrev pub is_allowed : List Str → Str → Bool
is_allowed [] key = false
is_allowed (name ∷ names) key = str_eq name key || is_allowed names key

-- The members of a map whose keys are allowed.
unfoldable pub keep_allowed : {V : Type 0} → List Str → Dict V → Dict V
keep_allowed names m = keep (λ p. is_allowed names p.0) m

-- `len(e.fields) > 0`.
abbrev pub chosen_fields : Option (List Str) → List Str
chosen_fields none = []
chosen_fields (some names) = names

-- The functions of encoding/json on the view, and on the map `m` that it is read back into, where a
-- nil map is `none`; each with the choice of the indented form.
pub record JsonText (V : Type 0) : Type 0 where
  pub marshal_view : Bool → Object → Option Str
  pub unmarshal_map : Str → Option (Dict V)
  pub marshal_map : Bool → Option (Dict V) → Option Str

module _ {V : Type 0} (json : JsonText V) where
  -- The errors of both calls are dropped.
  unfoldable pub filter_fields : Object → List Str → Option (Dict V)
  filter_fields view names = elim (json.marshal_view false view) [
    | none ↦ none
    | some b ↦ elim (json.unmarshal_map b) [ none ↦ none | some m ↦ some (keep_allowed names m) ]
  ]

  unfoldable pub export_text : (Time → Str) → JsonExporter → Trace → Option Str
  export_text format e t =
      let view = view_object (to_view format t) in
      let names = chosen_fields e.fields in
      if is_empty names
      then json.marshal_view e.pretty view
      else json.marshal_map e.pretty (filter_fields view names)

  -- `Export`: the writer behind it and the error; a marshal error writes nothing.
  unfoldable pub export_json :
      {W X : Type 0}
      → (W → Str → W × Option X)
      → X
      → (Time → Str)
      → JsonExporter
      → Trace
      → W
      → W × Option X
  export_json write marshal_error format e t w = elim (export_text format e t) [
    | none ↦ (w, some marshal_error)
    | some b ↦ write w (b ++ b'\n' ∷ [])
  ]
