-- ===== src/Correlation.antt =====
-- correlation.go: the middleware that gives each request an ID, a start time and a buffer, and the
-- transport and the client that pass the ID on. Random bytes and the time are arguments; the headers
-- are those of the request and of the response.
pub mod Linked
mod Examples
use promolog.Prelude.{
  ℕ, ℤ, pos, ltb_ℤ, Bool, true, false, not, ◌&&◌, List, [], ◌∷◌, Option, none, some, Str, lit, Dict,
  insert, is_empty, if◌then◌else◌,
}
use promolog.Trace.{Time, Duration, is_zero, time_sub}
use promolog.Context.{
  Context, Heap, request_id, parent_request_id, start_time, get_request_id, get_request_start_time,
  new_buffer_context, new_buffer_context_with_limit,
}
use promolog.Http.{Request, header_get}
use promolog.Identifier.{generate_id}

abbrev pub id_header : Str
id_header = lit "X-Request-Id"

abbrev pub parent_header : Str
parent_header = lit "X-Parent-Request-Id"

-- The two IDs of a request, from the two headers that came with it and a generated ID.
unfoldable pub choose_ids : Str → Str → Str → Str × Str
choose_ids incoming parent generated =
    if is_empty parent && not (is_empty incoming)
    then (generated, incoming)
    else (if is_empty incoming then generated else incoming, parent)

unfoldable pub with_parent : Str → Context → Context
with_parent parent ctx = if is_empty parent then ctx else parent_request_id parent ∷ ctx

unfoldable pub with_buffer : ℤ → Context → Heap → Context × Heap
with_buffer limit ctx heap =
    if ltb_ℤ (pos 0) limit
    then new_buffer_context_with_limit ctx limit heap
    else new_buffer_context ctx heap

-- `correlationMiddleware`: the handler behind it gets the response header, the request with its new
-- context, and the heap with its new buffer.
unfoldable pub correlation_middleware :
    {A : Type 0}
    → (Dict Str → Request → Heap → A)
    → ℤ
    → Option (List ℕ)
    → Time
    → Dict Str
    → Request
    → Heap
    → A
correlation_middleware next limit random now w_header r heap =
    let (id, parent) =
      choose_ids (header_get id_header r.header) (header_get parent_header r.header)
        (generate_id random) in
    let (ctx, heap') =
      with_buffer limit (start_time now ∷ with_parent parent (request_id id ∷ r.ctx)) heap in
    next (insert id_header id w_header) (record r { ctx = ctx }) heap'

-- `CorrelationMiddleware`, with no limit.
abbrev pub correlation_middleware_unlimited :
    {A : Type 0}
    → (Dict Str → Request → Heap → A)
    → Option (List ℕ)
    → Time
    → Dict Str
    → Request
    → Heap
    → A
correlation_middleware_unlimited next = correlation_middleware next (pos 0)

unfoldable pub get_request_duration : Time → Request → Duration
get_request_duration now r =
    let start = get_request_start_time r.ctx in if is_zero start then pos 0 else time_sub now start

-- `RoundTrip`: a clone of the request with the ID in its header, where the context has one.
unfoldable pub round_trip : {A : Type 0} → (Request → A) → Request → A
round_trip base req =
    let id = get_request_id req.ctx in
    if is_empty id then base req else base (record req { header = insert id_header id req.header })

-- `CorrelationTransport` with `http.DefaultTransport` for nil, and the client that uses it.
unfoldable pub correlation_transport :
    {A : Type 0} → (Request → A) → Option (Request → A) → Request → A
unfolding round_trip
correlation_transport default none = round_trip default
correlation_transport default (some base) = round_trip base

-- A client: its transport, if it has one, and its other fields.
pub record HttpClient (A Rest : Type 0) : Type 0 where
  pub transport : Option (Request → A)
  pub rest : Rest

-- A nil client stands for `http.DefaultClient`.
abbrev pub client_or_default :
    {A Rest : Type 0} → HttpClient A Rest → Option (HttpClient A Rest) → HttpClient A Rest
client_or_default default_client none = default_client
client_or_default default_client (some base) = base

-- `NewCorrelatedClient`: a copy, with `default_transport` for `http.DefaultTransport`.
unfoldable pub new_correlated_client :
    {A Rest : Type 0}
    → (Request → A)
    → HttpClient A Rest
    → Option (HttpClient A Rest)
    → HttpClient A Rest
new_correlated_client default_transport default_client base =
    let cp = client_or_default default_client base in
    record cp { transport = some (correlation_transport default_transport cp.transport) }
