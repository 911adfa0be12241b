-- ===== src/Export/Webhook.antt =====
-- export/webhook/webhook.go. Outside are package time's formats, encoding/json, `http.NewRequest`, the
-- canonical form of header names, and `Client.Do`. A client is a pointer into the heap of clients.
use promolog.Prelude.{
  ℕ, zero, suc, ◌*◌, ℤ, pos, leb_ℤ, List, [], ◌∷◌, ◌++◌, Bool, Option, none, some, Str, lit, Dict,
  insert, length, if◌then◌else◌,
}
use promolog.Trace.{Entry, Trace, Time, Duration, is_zero}
use promolog.Export.{
  Object, text, number, milliseconds, optional_text, optional_number, optional_texts,
  optional_entries,
}

pub record Client : Type 0 where
  pub timeout : Duration

pub record WebhookExporter : Type 0 where
  pub url : Str
  pub client : ℕ
  pub headers : Dict Str

-- The exporter and the heap of clients, which an option may change.
abbrev pub Setup : Type 0
Setup = WebhookExporter × List Client

abbrev pub set_timeout : Duration → ℕ → List Client → List Client
set_timeout d p [] = []
set_timeout d zero (c ∷ cs) = record c { timeout = d } ∷ cs
set_timeout d (suc p) (c ∷ cs) = c ∷ set_timeout d p cs

unfoldable pub with_timeout : Duration → Setup → Setup
with_timeout d (e, heap) = (e, set_timeout d e.client heap)

unfoldable pub with_header : Str → Str → Setup → Setup
with_header key value (e, heap) = (record e { headers = insert key value e.headers }, heap)

unfoldable pub with_client : ℕ → Setup → Setup
with_client p (e, heap) = (record e { client = p }, heap)

unfoldable pub apply_webhook_options : List (Setup → Setup) → Setup → Setup
apply_webhook_options [] s = s
apply_webhook_options (o ∷ os) s = apply_webhook_options os (o s)

-- `New`, with a fresh client of five seconds.
unfoldable pub new_webhook_exporter : Str → List (Setup → Setup) → List Client → Setup
unfolding apply_webhook_options
new_webhook_exporter url opts heap = apply_webhook_options opts (
  record { url = url; client = length heap; headers = [] },
  heap ++ record { timeout = pos (5 * 1000000000) } ∷ [],
)

pub record TracePayload : Type 0 where
  pub request_id : Str
  pub parent_request_id : Str
  pub error_chain : Str
  pub status_code : ℤ
  pub route : Str
  pub method : Str
  pub user_agent : Str
  pub remote_ip : Str
  pub user_id : Str
  pub tags : Option (Dict Str)
  pub entries : List Entry
  pub request_body : Str
  pub response_body : Str
  pub kind : Str
  pub operation_id : Str
  pub operation_name : Str
  pub origin_request_id : Str
  pub status : Str
  pub started_at : Str
  pub duration_ms : ℤ
  pub created_at : Str

unfoldable pub to_payload : (Time → Str) → Trace → TracePayload
to_payload format t = record {
  request_id = t.request_id;
  parent_request_id = t.parent_request_id;
  error_chain = t.error_chain;
  status_code = t.status_code;
  route = t.route;
  method = t.method;
  user_agent = t.user_agent;
  remote_ip = t.remote_ip;
  user_id = t.user_id;
  tags = t.tags;
  entries = t.entries;
  request_body = t.request_body;
  response_body = t.response_body;
  kind = t.kind;
  operation_id = t.operation_id;
  operation_name = t.operation_name;
  origin_request_id = t.origin_request_id;
  status = t.status;
  started_at = if is_zero t.started_at then [] else format t.started_at;
  duration_ms = milliseconds t.duration;
  created_at = format t.created_at;
}

-- What encoding/json writes of the payload, by its tags.
unfoldable pub payload_object : TracePayload → Object
payload_object v =
    (lit "request_id", text v.request_id)
    ∷ (optional_text (lit "parent_request_id") v.parent_request_id (
        optional_text (lit "error_chain") v.error_chain (
          (lit "status_code", number v.status_code)
          ∷ ((lit "route", text v.route)
              ∷ ((lit "method", text v.method)
                  ∷ (optional_text (lit "user_agent") v.user_agent (
                      optional_text (lit "remote_ip") v.remote_ip (
                        optional_text (lit "user_id") v.user_id (
                          optional_texts (lit "tags") v.tags (
                            optional_entries (lit "entries") v.entries (
                              optional_text (lit "request_body") v.request_body (
                                optional_text (lit "response_body") v.response_body (
                                  optional_text (lit "kind") v.kind (
                                    optional_text (lit "operation_id") v.operation_id (
                                      optional_text (lit "operation_name") v.operation_name (
                                        optional_text (lit "origin_request_id") v.origin_request_id
                                          (optional_text (lit "status") v.status (
                                            optional_text (lit "started_at") v.started_at (
                                              optional_number (lit "duration_ms") v.duration_ms (
                                                (lit "created_at", text v.created_at)
                                                ∷ ([])))))))))))))))))))))

-- A request that `Do` sends.
pub record Post : Type 0 where
  pub method : Str
  pub url : Str
  pub header : Dict Str
  pub body : Str

pub data ExportError (X : Type 0) : Type 0 where
  marshal_trace : ExportError X
  create_request : ExportError X
  send_request : X → ExportError X
  server_returned : ℤ → ExportError X

-- `req.Header.Set` for each of the exporter's headers, in the order of the iteration.
unfoldable pub set_headers : (Str → Str) → Dict Str → Dict Str → Dict Str
set_headers canonical [] header = header
set_headers canonical ((k, v) ∷ rest) header =
    set_headers canonical rest (insert (canonical k) v header)

-- `Do`: the answer is an error or the status of the response.
pub data Answer (X : Type 0) : Type 0 where
  failed : X → Answer X
  responded : ℤ → Answer X

-- `range` is the order in which an iteration over a map visits its entries; Go fixes none.
pub record Net (G X : Type 0) : Type 0 where
  pub range : Dict Str → Dict Str
  pub marshal : Object → Option Str
  pub url_is_valid : Str → Bool
  pub canonical : Str → Str
  pub perform : Client → Post → G → G × Answer X

abbrev pub answer_error : {X : Type 0} → Answer X → Option (ExportError X)
answer_error (failed e) = some (send_request e)
answer_error (responded code) = if leb_ℤ (pos 400) code then some (server_returned code) else none

abbrev pub answered : {G X : Type 0} → G × Answer X → G × Option (ExportError X)
answered (g, answer) = (g, answer_error answer)

module _ {G X : Type 0} (net : Net G X) where
  unfoldable pub post_of : WebhookExporter → Str → Post
  post_of e body = record {
    method = lit "POST";
    url = e.url;
    header =
        set_headers net.canonical (net.range e.headers)
          (insert (lit "Content-Type") (lit "application/json") []);
    body = body;
  }

  -- `Export`, with the client that the exporter points to.
  unfoldable pub export_webhook :
      (Time → Str) → Client → WebhookExporter → Trace → G → G × Option (ExportError X)
  export_webhook format client e t g = elim (net.marshal (payload_object (to_payload format t))) [
    | none ↦ (g, some marshal_trace)
    | some body ↦
        if net.url_is_valid e.url
        then answered (net.perform client (post_of e body) g)
        else (g, some create_request)
  ]
