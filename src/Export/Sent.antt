-- ===== src/Export/Sent.antt =====
-- What the webhook exporter sends, and when it returns an error.
use promolog.Prelude.{
  ◌||◌, All, ℤ, pos, leb_ℤ, ◌≤ℤ◌, ◌<ℤ◌, leb_ℤ_iff, [], ◌∷◌, Bool, true, false, Bool-cases, inl, inr,
  Option, none, some, Option-cases, ◌≡◌, ◌↔◌, ◌⊎◌, refl, sym, ap, ◌∙◌, subst, arith, Str, lit, Dict,
  lookup, insert, lookup-insert, str_eq, or_else, or_else_assoc, last_value, if◌then◌else◌,
}
use promolog.Trace.{Trace, Time}
use promolog.Export.Json.{to_view, view_object}
use promolog.Export.Webhook.{
  WebhookExporter, Client, Net, Answer, failed, responded, ExportError, to_payload, payload_object,
  set_headers, post_of, export_webhook, answered, answer_error, create_request, marshal_trace,
}

-- Both exporters write the same members of a trace.
pub payload_object-view_object :
    (format : Time → Str) (t : Trace)
    → payload_object (to_payload format t) ≡ view_object (to_view format t)
unfolding payload_object to_payload view_object to_view
payload_object-view_object format t = refl

-- The exporter's headers under their canonical names.
abbrev pub canonical_pairs : (Str → Str) → Dict Str → Dict Str
canonical_pairs canonical [] = []
canonical_pairs canonical ((k, v) ∷ m) = (canonical k, v) ∷ canonical_pairs canonical m

if-or_else :
    (b : Bool) (v : Str) (o : Option Str)
    → (if b then some v else o) ≡ or_else (if b then some v else none) o
if-or_else true v o = refl
if-or_else false v o = refl

-- The header of the request: the last of the exporter's headers with a name, else what was there.
set_headers-lookup :
    (canonical : Str → Str) (m header : Dict Str) (name : Str)
    → lookup name (set_headers canonical m header)
      ≡ or_else (last_value name (canonical_pairs canonical m)) (lookup name header)
unfolding set_headers last_value
set_headers-lookup canonical [] header name = refl
set_headers-lookup canonical ((k, v) ∷ m) header name =
    set_headers-lookup canonical m (insert (canonical k) v header) name
    ∙ (ap (or_else (last_value name (canonical_pairs canonical m))) (
          lookup-insert (canonical k) name v header
          ∙ if-or_else (str_eq (canonical k) name) v (lookup name header))
        ∙ sym (
            or_else_assoc (last_value name (canonical_pairs canonical m))
              (if str_eq (canonical k) name then some v else none) (lookup name header)))

-- An iteration visits the entries of the map, and nothing else.
abbrev pub IsRange : (Dict Str → Dict Str) → Type 1
IsRange range =
    (P : Str × Str → Type 0) (m : Dict Str)
    → (All P m → All P (range m)) × (All P (range m) → All P m)

-- A header with the canonical name has the value.
abbrev pub Agrees : (Str → Str) → Str → Str → Str × Str → Type 0
Agrees canonical name v p = str_eq (canonical p.0) name ≡ true → p.1 ≡ v

abbrev pub has_header : (Str → Str) → Str → Dict Str → Bool
has_header canonical name [] = false
has_header canonical name ((k, v) ∷ m) = str_eq (canonical k) name || has_header canonical name m

module _ (canonical : Str → Str) (name : Str) where
  abbrev Other : Str × Str → Type 0
  Other p = str_eq (canonical p.0) name ≡ false

  all-Other : (m : Dict Str) → has_header canonical name m ≡ false → All Other m
  all-Other [] h = tt
  all-Other ((k, v) ∷ m) h = elim (Bool-cases (str_eq (canonical k) name)) [
    | inl this ↦ cc (rw this at h)
    | inr other ↦ (other, all-Other m (rw other at h))
  ]

  Other-none : (m : Dict Str) → All Other m → has_header canonical name m ≡ false
  Other-none [] h = refl
  Other-none ((k, v) ∷ m) (other, h) = rw other (Other-none m h)

  last_value-Other :
      (m : Dict Str) → All Other m → last_value name (canonical_pairs canonical m) ≡ none
  unfolding last_value
  last_value-Other [] h = refl
  last_value-Other ((k, v) ∷ m) (other, h) = rw (other, last_value-Other m h) refl

  last_value-agreed :
      (v : Str) (m : Dict Str)
      → All (Agrees canonical name v) m
      → last_value name (canonical_pairs canonical m)
        ≡ (if has_header canonical name m then some v else none)
  unfolding last_value
  last_value-agreed v [] h = refl
  last_value-agreed v ((k, w) ∷ m) (agree, h) =
      ap (λ o. or_else o (if str_eq (canonical k) name then some w else none))
        (last_value-agreed v m h)
      ∙ first_agreed (has_header canonical name m) (str_eq (canonical k) name) w agree
    where
      first_agreed :
          (later this : Bool) (w : Str)
          → (this ≡ true → w ≡ v)
          → or_else (if later then some v else none) (if this then some w else none)
            ≡ (if this || later then some v else none)
      first_agreed true true w agree = refl
      first_agreed true false w agree = refl
      first_agreed false true w agree = ap some (agree refl)
      first_agreed false false w agree = refl

  last_value-range :
      (range : Dict Str → Dict Str) (v : Str) (m : Dict Str)
      → IsRange range
      → All (Agrees canonical name v) m
      → last_value name (canonical_pairs canonical (range m))
        ≡ (if has_header canonical name m then some v else none)
  last_value-range range v m visits agree =
      last_value-agreed v (range m) ((visits (Agrees canonical name v) m).0 agree)
      ∙ ap (λ b. if b then some v else none) (same (has_header canonical name m) refl)
    where
      same : (b : Bool) → has_header canonical name m ≡ b → has_header canonical name (range m) ≡ b
      same false none_there = Other-none (range m) ((visits Other m).0 (all-Other m none_there))
      same true there = elim (Bool-cases (has_header canonical name (range m))) [
        | inl visited ↦ visited
        | inr missed ↦
            let gone = Other-none m ((visits Other m).1 (all-Other (range m) missed)) in
            cc (there, gone)
      ]

or_else-if :
    (b : Bool) (v : Str) (o : Option Str)
    → or_else (if b then some v else none) o ≡ (if b then some v else o)
or_else-if true v o = refl
or_else-if false v o = refl

module _ {G X : Type 0} (net : Net G X) (format : Time → Str) (client : Client)
    (e : WebhookExporter) (t : Trace) (g : G) where
  abbrev exported : G × Option (ExportError X)
  exported = export_webhook net format client e t g

  -- The JSON text of the trace, which is that of the JSON exporter's object.
  abbrev pub body_text : Option Str
  body_text = net.marshal (view_object (to_view format t))

  -- The request could be made, and `Do` answered it.
  abbrev pub Answers : Str → Answer X → Type 0
  Answers body answer =
      (body_text ≡ some body)
      × (net.url_is_valid e.url ≡ true)
      × ((net.perform client (post_of net e body) g).1 ≡ answer)

  same_text :
      (o : Option Str) → body_text ≡ o → net.marshal (payload_object (to_payload format t)) ≡ o
  same_text o made = ap net.marshal (payload_object-view_object format t) ∙ made

  exported_sent :
      (body : Str)
      → body_text ≡ some body
      → net.url_is_valid e.url ≡ true
      → exported ≡ answered (net.perform client (post_of net e body) g)
  unfolding export_webhook
  exported_sent body made valid = rw (same_text (some body) made, export_webhook, valid)

  exported_invalid :
      (body : Str)
      → body_text ≡ some body
      → net.url_is_valid e.url ≡ false
      → exported ≡ (g, some create_request)
  unfolding export_webhook
  exported_invalid body made invalid = rw (same_text (some body) made, export_webhook, invalid)

  exported_refused : body_text ≡ none → exported ≡ (g, some marshal_trace)
  unfolding export_webhook
  exported_refused refused = rw (same_text none refused, export_webhook)

  answer_error_iff :
      (a : Answer X)
      → (answer_error a ≡ none) ↔ ((code : ℤ) × (a ≡ responded code) × (code <ℤ pos 400))
  answer_error_iff (failed x) = (λ h. cc h, λ (code, h, small). cc h)
  answer_error_iff (responded code) = elim (Bool-cases (leb_ℤ (pos 400) code)) [
    | inl large ↦ rw large (
      λ h. cc h,
      λ (other, h, small).
          let same : code ≡ other = cc h in
          let below : code <ℤ pos 400 = subst (λ c. c <ℤ pos 400) (sym same) small in
          let above : pos 400 ≤ℤ code = (leb_ℤ_iff (pos 400) code).0 large in absurd (omega arith),
    )
    | inr small ↦ rw small (λ _. (code, refl, ground arith), λ _. refl)
  ]

  nil_error :
      exported.1 ≡ none
      → (body : Str) × (code : ℤ) × Answers body (responded code) × (code <ℤ pos 400)
  nil_error h = elim (Option-cases body_text) [
    | inl refused ↦ cc (h, ap (λ p. p.1) (exported_refused refused))
    | inr (body, made) ↦ elim (Bool-cases (net.url_is_valid e.url)) [
      | inr invalid ↦ cc (h, ap (λ p. p.1) (exported_invalid body made invalid))
      | inl valid ↦
          let (code, got, small) =
            (answer_error_iff (net.perform client (post_of net e body) g).1).0
              (sym (ap (λ p. p.1) (exported_sent body made valid)) ∙ h) in
          (body, code, (made, valid, got), small)
    ]
  ]

  nothing_sent : (body_text ≡ none) ⊎ (net.url_is_valid e.url ≡ false) → exported.0 ≡ g
  nothing_sent (inl refused) = ap (λ p. p.0) (exported_refused refused)
  nothing_sent (inr invalid) = elim (Option-cases body_text) [
    | inl refused ↦ ap (λ p. p.0) (exported_refused refused)
    | inr (body, made) ↦ ap (λ p. p.0) (exported_invalid body made invalid)
  ]

  header_of :
      (body name : Str)
      → lookup name (post_of net e body).header
        ≡ or_else
            (last_value name (canonical_pairs net.canonical (net.range e.headers)))
            (if str_eq (lit "Content-Type") name then some (lit "application/json") else none)
  unfolding post_of lookup
  header_of body name =
      set_headers-lookup net.canonical (net.range e.headers)
        (insert (lit "Content-Type") (lit "application/json") []) name
      ∙ ap (or_else (last_value name (canonical_pairs net.canonical (net.range e.headers))))
          (lookup-insert (lit "Content-Type") name (lit "application/json") [])

  agreed_header :
      (body name v : Str)
      → IsRange net.range
      → All (Agrees net.canonical name v) e.headers
      → lookup name (post_of net e body).header ≡ (
          if has_header net.canonical name e.headers
          then some v
          else if str_eq (lit "Content-Type") name
          then some (lit "application/json")
          else none)
  agreed_header body name v visits agree =
      header_of body name
      ∙ ap
          (λ o.
            or_else o
              (if str_eq (lit "Content-Type") name then some (lit "application/json") else none))
          (last_value-range net.canonical name net.range v e.headers visits agree)
      ∙ or_else-if (has_header net.canonical name e.headers) v _

  -- `Export` returns nil exactly if the trace could be marshalled, the request made, and `Do` answered
  -- it with a status below 400. `Do` is called once at most: if the trace cannot be marshalled or the URL
  -- is not valid, it is not called. Whatever the order in which the headers are visited: where all
  -- headers of the exporter with a canonical name have one value, that is the request's, and
  -- where there is none, it has the JSON content type and no other header.
  pub export_webhook_iff :
      IsRange net.range
      → ((exported.1 ≡ none)
          ↔ ((body : Str) × (code : ℤ) × Answers body (responded code) × (code <ℤ pos 400)))
        × ((body_text ≡ none) ⊎ (net.url_is_valid e.url ≡ false) → exported.0 ≡ g)
        × ((body : Str)
            → body_text ≡ some body
            → net.url_is_valid e.url ≡ true
            → exported.0 ≡ (net.perform client (post_of net e body) g).0)
        × ((body name v : Str)
            → All (Agrees net.canonical name v) e.headers
            → lookup name (post_of net e body).header ≡ (
                if has_header net.canonical name e.headers
                then some v
                else if str_eq (lit "Content-Type") name
                then some (lit "application/json")
                else none))
  export_webhook_iff visits = (
    (
      nil_error,
      λ (body, code, (made, valid, got), small).
          ap (λ p. p.1) (exported_sent body made valid)
          ∙ (answer_error_iff (net.perform client (post_of net e body) g).1).1 (code, got, small),
    ),
    nothing_sent,
    λ body made valid. ap (λ p. p.0) (exported_sent body made valid),
    λ body name v agree. agreed_header body name v visits agree,
  )
