-- ===== src/Export/Examples.antt =====
-- Tests of the exporters, and their theorems at concrete traces.
use promolog.Prelude.{
  ℕ, zero, pos, ℤ, negsuc, ◌<ℤ◌, List, [], ◌∷◌, true, false, none, some, ◌≡◌, ◌↔◌, ◌⊎◌, refl, All,
  Str, lit, lookup, str_eq, if◌then◌else◌,
}
use promolog.Trace.{Trace, Time}
use promolog.Export.{
  text, number, milliseconds, optional_text, optional_number, optional_texts, optional_entries,
}
use promolog.Export.Json.{
  JsonExporter, JsonText, with_fields, new_json_exporter, apply_json_options, to_view, view_object,
  filter_fields, export_text, keep_allowed,
}
use promolog.Export.Webhook.{
  WebhookExporter, Client, Post, Net, responded, with_timeout, with_client, new_webhook_exporter,
  apply_webhook_options, post_of, export_webhook, server_returned,
}
use promolog.Export.Lines.{lines, marshalled, export_all, OneLine, lines-export_all}
use promolog.Export.Sent.{Answers, body_text, Agrees, has_header, export_webhook_iff}

abbrev trace : Trace
trace = record {
  request_id = lit "r-1";
  parent_request_id = [];
  error_chain = [];
  status_code = pos 500;
  route = lit "/pay";
  method = lit "POST";
  user_agent = [];
  remote_ip = [];
  user_id = [];
  tags = none;
  entries = [];
  request_body = [];
  response_body = [];
  created_at = pos 9;
  kind = [];
  operation_id = [];
  operation_name = [];
  origin_request_id = [];
  status = [];
  started_at = pos 0;
  duration = negsuc 2499999;
}

abbrev no_format : Time → Str
no_format t = lit "T"

members :
    view_object (to_view no_format trace)
    ≡ (lit "request_id", text (lit "r-1"))
      ∷ (lit "status_code", number (pos 500))
      ∷ (lit "route", text (lit "/pay"))
      ∷ (lit "method", text (lit "POST"))
      ∷ (lit "duration_ms", number (negsuc 1))
      ∷ (lit "created_at", text (lit "T"))
      ∷ []
unfolding view_object to_view milliseconds optional_text optional_number optional_texts
    optional_entries
members = refl

-- Texts that name the request only.
abbrev short_json : JsonText Str
short_json = record {
  marshal_view = λ pretty view. some (lit "{r-1}");
  unmarshal_map = λ b. some ((lit "request_id", lit "r-1") ∷ (lit "route", lit "/pay") ∷ []);
  marshal_map = λ pretty m. elim m [
    | none ↦ some (lit "null")
    | some [] ↦ some (lit "{}")
    | some (p ∷ ps) ↦ some p.1
  ];
}

abbrev routes_only : JsonExporter
routes_only = new_json_exporter (with_fields (lit "route" ∷ []) ∷ [])

filtered : export_text short_json no_format routes_only trace ≡ some (lit "/pay")
unfolding export_text filter_fields keep_allowed new_json_exporter with_fields apply_json_options
    view_object to_view str_eq lit
filtered = refl

abbrev plain : JsonExporter
plain = record { pretty = false; fields = none }

one_lines : All OneLine (marshalled short_json no_format plain zero (trace ∷ trace ∷ []))
unfolding export_text lit
one_lines =
    ((refl, (refl, (refl, (refl, (refl, tt))))), ((refl, (refl, (refl, (refl, (refl, tt))))), tt))

lines-export_all_example :
    lines (export_all short_json no_format plain zero (trace ∷ trace ∷ []) [])
    ≡ marshalled short_json no_format plain zero (trace ∷ trace ∷ [])
lines-export_all_example =
    lines-export_all short_json no_format plain zero (trace ∷ trace ∷ []) one_lines

-- `WithTimeout` behind `WithClient` changes the caller's client.
caller_client_changed :
    (new_webhook_exporter
      (lit "u")
      (with_client 0 ∷ with_timeout (pos 7) ∷ [])
      (record { timeout = pos 3 } ∷ [])).1
    ≡ record { timeout = pos 7 } ∷ record { timeout = pos 5000000000 } ∷ []
unfolding new_webhook_exporter apply_webhook_options with_client with_timeout
caller_client_changed = refl

-- A server that logs the requests and answers with a status.
abbrev server : Net (List Post) ℕ
server = record {
  marshal = λ members. some (lit "{}");
  url_is_valid = λ url. true;
  range = λ m. m;
  canonical = λ name. name;
  perform = λ client post log. (post ∷ log, responded (pos 404));
}

abbrev hook : WebhookExporter
hook = record { url = lit "http://h"; client = 0; headers = (lit "X-Key", lit "k") ∷ [] }

abbrev client : Client
client = record { timeout = pos 1 }

not_found :
    (export_webhook server no_format client hook trace []).1 ≡ some (server_returned (pos 404))
unfolding export_webhook
not_found = refl

export_webhook_iff_example :
    (((export_webhook server no_format client hook trace []).1 ≡ none) ↔ (
      (body : Str) × (code : ℤ) × Answers server no_format client hook trace [] body
        (responded code)
      × (code <ℤ pos 400)))
    × ((body_text server no_format client hook trace [] ≡ none) ⊎ (true ≡ false)
        → (export_webhook server no_format client hook trace []).0 ≡ [])
    × ((body : Str)
        → body_text server no_format client hook trace [] ≡ some body
        → true ≡ true
        → (export_webhook server no_format client hook trace []).0 ≡ post_of server hook body ∷ [])
    × ((body name v : Str)
        → All (Agrees (λ name. name) name v) hook.headers
        → lookup name (post_of server hook body).header ≡ (
            if has_header (λ name. name) name hook.headers
            then some v
            else if str_eq (lit "Content-Type") name
            then some (lit "application/json")
            else none))
export_webhook_iff_example =
    export_webhook_iff server no_format client hook trace [] (λ P m. (λ all. all, λ all. all))
