-- ===== src/Correlation/Linked.antt =====
-- What the middleware puts into the context, and how two services are linked by it.
use promolog.Prelude.{
  ℕ, ◌<◌, ℤ, pos, ltb_ℤ, false, List, [], ◌∷◌, Option, some, ◌≡◌, ◌≢◌, refl, ap, ◌∙◌, inl, inr,
  Bool-cases, Str, lit, str_eq, str_eq_refl, Dict, insert, lookup-insert, is_empty, is_empty_of_ne,
  if◌then◌else◌, length, get_elem?,
}
use promolog.Trace.{Time}
use promolog.Buffer.{new_buffer, empty_buffer}
use promolog.Context.{
  Context, Heap, request_id, start_time, get_request_id, get_parent_request_id,
  get_request_start_time, get_buffer, get_operation, alloc, new_buffer_context,
  new_buffer_context_with_limit,
}
use promolog.Context.Laws.{alloc_new, alloc_old}
use promolog.Http.{Request, header_get, text_or_empty}
use promolog.Identifier.{generate_id}
use promolog.Correlation.{
  id_header, parent_header, choose_ids, with_parent, with_buffer, correlation_middleware,
  round_trip,
}

header_get-insert_self : (k v : Str) (h : Dict Str) → header_get k (insert k v h) ≡ v
unfolding header_get
header_get-insert_self k v h = ap text_or_empty (lookup-insert k k v h) ∙ rw (str_eq_refl k)

header_get-insert_other :
    (k j v : Str) (h : Dict Str) → str_eq k j ≡ false → header_get j (insert k v h) ≡ header_get j h
unfolding header_get
header_get-insert_other k j v h ne = ap text_or_empty (lookup-insert k j v h) ∙ rw ne

-- Where a request has only an `X-Request-ID`, that ID becomes the parent and a fresh ID is made;
-- with an `X-Parent-Request-ID` too, both are taken over; with no `X-Request-ID` a fresh ID is made,
-- and the parent is what the parent header says.
pub choose_ids_cases :
    (incoming parent generated : Str)
    → (incoming ≢ [] → parent ≡ [] → choose_ids incoming parent generated ≡ (generated, incoming))
      × (incoming ≢ [] → parent ≢ [] → choose_ids incoming parent generated ≡ (incoming, parent))
      × (incoming ≡ [] → choose_ids incoming parent generated ≡ (generated, parent))
unfolding choose_ids
choose_ids_cases [] [] g = (λ h _. absurd (h refl), λ h _. absurd (h refl), λ _. refl)
choose_ids_cases [] (p ∷ ps) g = (λ h _. absurd (h refl), λ h _. absurd (h refl), λ _. refl)
choose_ids_cases (c ∷ cs) [] g = (λ _ _. refl, λ _ h. absurd (h refl), λ h. cc h)
choose_ids_cases (c ∷ cs) (p ∷ ps) g = (λ _ h. cc h, λ _ _. refl, λ h. cc h)

-- What the handler behind the middleware sees.
abbrev pub seen : ℤ → Option (List ℕ) → Time → Dict Str → Request → Heap → Dict Str × Request × Heap
seen = correlation_middleware (λ w_header r heap. (w_header, r, heap))

abbrev pub chosen : Option (List ℕ) → Request → Str × Str
chosen random r =
    choose_ids (header_get id_header r.header) (header_get parent_header r.header)
      (generate_id random)

get_request_id-with_parent :
    (parent id : Str) (ctx : Context)
    → get_request_id (with_parent parent (request_id id ∷ ctx)) ≡ id
unfolding with_parent get_request_id
get_request_id-with_parent [] id ctx = refl
get_request_id-with_parent (p ∷ ps) id ctx = refl

get_parent-with_parent :
    (parent id : Str) (ctx : Context)
    → get_parent_request_id (with_parent parent (request_id id ∷ ctx))
      ≡ (if is_empty parent then get_parent_request_id ctx else parent)
unfolding with_parent get_parent_request_id
get_parent-with_parent [] id ctx = refl
get_parent-with_parent (p ∷ ps) id ctx = refl

get_operation-with_parent :
    (parent id : Str) (ctx : Context)
    → get_operation (with_parent parent (request_id id ∷ ctx)) ≡ get_operation ctx
unfolding with_parent get_operation
get_operation-with_parent [] id ctx = refl
get_operation-with_parent (p ∷ ps) id ctx = refl

-- The context of the request behind the middleware, whatever the limit.
with_buffer-ctx :
    (limit : ℤ) (ctx : Context) (heap : Heap)
    → (get_request_id (with_buffer limit ctx heap).0 ≡ get_request_id ctx)
      × (get_parent_request_id (with_buffer limit ctx heap).0 ≡ get_parent_request_id ctx)
      × (get_request_start_time (with_buffer limit ctx heap).0 ≡ get_request_start_time ctx)
      × (get_operation (with_buffer limit ctx heap).0 ≡ get_operation ctx)
      × (get_buffer (with_buffer limit ctx heap).0 ≡ some (length heap))
      × ((with_buffer limit ctx heap).1
          ≡ alloc heap (if ltb_ℤ (pos 0) limit then new_buffer limit else empty_buffer 0))
unfolding with_buffer new_buffer_context new_buffer_context_with_limit get_request_id
    get_parent_request_id get_request_start_time get_buffer get_operation
with_buffer-ctx limit ctx heap = elim (Bool-cases (ltb_ℤ (pos 0) limit)) [
  | inl limited ↦ rw limited (refl, refl, refl, refl, refl, refl)
  | inr unlimited ↦ rw unlimited (refl, refl, refl, refl, refl, refl)
]

-- What a request looks like behind the middleware.
pub record IsCorrelated (limit : ℤ) (random : Option (List ℕ)) (now : Time) (r : Request)
    (heap : Heap) (out : Dict Str × Request × Heap) : Type 0 where
  pub id_in_context : get_request_id out.1.ctx ≡ (chosen random r).0
  pub id_in_response : header_get id_header out.0 ≡ (chosen random r).0
  pub parent_in_context :
      get_parent_request_id out.1.ctx
      ≡ (if is_empty (chosen random r).1 then get_parent_request_id r.ctx else (chosen random r).1)
  pub started : get_request_start_time out.1.ctx ≡ now
  pub operation_kept : get_operation out.1.ctx ≡ get_operation r.ctx
  pub buffered : get_buffer out.1.ctx ≡ some (length heap)
  pub fresh_buffer :
      get_elem? out.2 (length heap)
      ≡ some (if ltb_ℤ (pos 0) limit then new_buffer limit else empty_buffer 0)
  pub others_kept : (q : ℕ) → q < length heap → get_elem? out.2 q ≡ get_elem? heap q
  pub request_kept :
      (out.1.path ≡ r.path)
      × (out.1.method ≡ r.method)
      × (out.1.user_agent ≡ r.user_agent)
      × (out.1.remote_addr ≡ r.remote_addr)
      × (out.1.header ≡ r.header)

-- The handler behind the middleware finds the chosen ID in the context and in the response header,
-- the chosen parent in the context (an outer one where none is chosen), the time of the call as
-- start time, and a fresh buffer of the given limit that no other request holds; the request is
-- otherwise as it came, and so are the other buffers.
pub correlation_middleware-IsCorrelated :
    (limit : ℤ) (random : Option (List ℕ)) (now : Time) (w_header : Dict Str) (r : Request)
    (heap : Heap)
    → IsCorrelated limit random now r heap (seen limit random now w_header r heap)
unfolding correlation_middleware
correlation_middleware-IsCorrelated limit random now w_header r heap =
    let id = (chosen random r).0 in
    let parent = (chosen random r).1 in
    let ctx = start_time now ∷ with_parent parent (request_id id ∷ r.ctx) in
    let c = with_buffer-ctx limit ctx heap in
    let b = if ltb_ℤ (pos 0) limit then new_buffer limit else empty_buffer 0 in
    record {
      id_in_context = c.0 ∙ unfold get_request_id in get_request_id-with_parent parent id r.ctx;
      id_in_response = header_get-insert_self id_header id w_header;
      parent_in_context =
          c.1 ∙ unfold get_parent_request_id in get_parent-with_parent parent id r.ctx;
      started = c.2 ∙ unfold get_request_start_time in refl;
      operation_kept = c.3 ∙ unfold get_operation in get_operation-with_parent parent id r.ctx;
      buffered = c.4;
      fresh_buffer = ap (λ hp. get_elem? hp (length heap)) c.5 ∙ alloc_new heap b;
      others_kept = λ q old. ap (λ hp. get_elem? hp q) c.5 ∙ alloc_old heap b q old;
      request_kept = (refl, refl, refl, refl, refl);
    }

distinct_headers : str_eq id_header parent_header ≡ false
unfolding str_eq lit
distinct_headers = refl

round_trip_sends :
    {A : Type 0} (base : Request → A) (req : Request)
    → get_request_id req.ctx ≢ []
    → round_trip base req
      ≡ base (record req { header = insert id_header (get_request_id req.ctx) req.header })
unfolding round_trip
round_trip_sends base req h = rw (is_empty_of_ne (get_request_id req.ctx) h)

-- The request as the next service receives it.
abbrev pub received :
    ℤ → Option (List ℕ) → Time → Dict Str → Request → Context → Heap → Dict Str × Request × Heap
received limit random now w_header req server heap =
    round_trip (λ q. seen limit random now w_header (record q { ctx = server }) heap) req

-- A request that a service sends through the transport, with a request ID in its context and no
-- parent header of its own, is received by the next service under a fresh ID whose parent is the
-- sender's ID.
pub transport_links :
    (limit : ℤ) (random : Option (List ℕ)) (now : Time) (w_header : Dict Str) (req : Request)
    (server : Context) (heap : Heap)
    → get_request_id req.ctx ≢ []
    → header_get parent_header req.header ≡ []
    → (get_request_id (received limit random now w_header req server heap).1.ctx
        ≡ generate_id random)
      × (get_parent_request_id (received limit random now w_header req server heap).1.ctx
          ≡ get_request_id req.ctx)
transport_links limit random now w_header req server heap has_id no_parent =
    let id = get_request_id req.ctx in
    let sent = record req { header = insert id_header id req.header; ctx = server } in
    let c = correlation_middleware-IsCorrelated limit random now w_header sent heap in
    let ids : chosen random sent ≡ (generate_id random, id) =
      rw
        (
          header_get-insert_self id_header id req.header,
          header_get-insert_other id_header parent_header id req.header distinct_headers,
        )
        ((choose_ids_cases id (header_get parent_header req.header) (generate_id random)).0 has_id
          no_parent) in
    let arrives =
      round_trip_sends (λ q. seen limit random now w_header (record q { ctx = server }) heap) req
        has_id in
    (
      ap (λ out. get_request_id out.1.ctx) arrives ∙ c.id_in_context ∙ ap (λ p. p.0) ids,
      ap (λ out. get_parent_request_id out.1.ctx) arrives
          ∙ c.parent_in_context
          ∙ ap (λ p. if is_empty p.1 then get_parent_request_id server else p.1) ids
          ∙ rw (is_empty_of_ne id has_id),
    )
