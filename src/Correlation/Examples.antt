-- ===== src/Correlation/Examples.antt =====
-- Tests of the correlation middleware, and its theorems at concrete requests.
use promolog.Prelude.{
  none, Dict, insert, pos, [], ◌∷◌, some, ◌≡◌, ◌≢◌, refl, Str, lit, str_eq, lookup,
}
use promolog.Buffer.{empty_buffer}
use promolog.Context.{Heap, request_id, get_request_id, get_parent_request_id}
use promolog.Http.{Request, header_get}
use promolog.Identifier.{generate_id}
use promolog.Correlation.{
  parent_header, id_header, choose_ids, round_trip, correlation_transport, HttpClient,
  new_correlated_client,
}
use promolog.Correlation.Linked.{
  choose_ids_cases, seen, received, IsCorrelated, correlation_middleware-IsCorrelated,
  transport_links,
}

abbrev outgoing : Request
outgoing = record {
  path = lit "/api";
  method = lit "GET";
  user_agent = [];
  remote_addr = [];
  header = (lit "Accept", lit "*") ∷ [];
  ctx = request_id (lit "req-1") ∷ [];
}

chosen_ids :
    (lit "up" ≢ []
      → ◌≡◌ {A = Str} [] []
      → choose_ids (lit "up") [] (lit "new") ≡ (lit "new", lit "up"))
    × (lit "up" ≢ [] → ◌≢◌ {A = Str} [] [] → choose_ids (lit "up") [] (lit "new") ≡ (lit "up", []))
    × (lit "up" ≡ [] → choose_ids (lit "up") [] (lit "new") ≡ (lit "new", []))
chosen_ids = choose_ids_cases (lit "up") [] (lit "new")

abbrev heap : Heap
heap = empty_buffer 0 ∷ []

correlation_middleware-IsCorrelated_example :
    IsCorrelated
      (pos 10)
      (some (1 ∷ 2 ∷ []))
      (pos 7)
      outgoing
      heap
      (seen (pos 10) (some (1 ∷ 2 ∷ [])) (pos 7) [] outgoing heap)
correlation_middleware-IsCorrelated_example =
    correlation_middleware-IsCorrelated (pos 10) (some (1 ∷ 2 ∷ [])) (pos 7) [] outgoing heap

has_id : get_request_id outgoing.ctx ≢ []
unfolding get_request_id lit
has_id e = cc e

no_parent : header_get parent_header outgoing.header ≡ []
unfolding header_get lookup str_eq lit
no_parent = refl

transport_links_example :
    (get_request_id (received (pos 0) (some (1 ∷ [])) (pos 7) [] outgoing [] heap).1.ctx
      ≡ generate_id (some (1 ∷ [])))
    × (get_parent_request_id (received (pos 0) (some (1 ∷ [])) (pos 7) [] outgoing [] heap).1.ctx
        ≡ get_request_id outgoing.ctx)
transport_links_example =
    transport_links (pos 0) (some (1 ∷ [])) (pos 7) [] outgoing [] heap has_id no_parent

-- A client that tells the header it sends, and no transport of its own.
abbrev client : HttpClient (Dict Str) Str
client = record { transport = none; rest = lit "10s" }

client_sends_id :
    new_correlated_client (λ r. r.header) client none
    ≡ record { transport = some (round_trip (λ r. r.header)); rest = lit "10s" }
unfolding new_correlated_client correlation_transport
client_sends_id = refl

sent_header :
    round_trip (λ r. r.header) outgoing ≡ (lit "Accept", lit "*") ∷ (id_header, lit "req-1") ∷ []
unfolding round_trip get_request_id insert str_eq lit
sent_header = refl
