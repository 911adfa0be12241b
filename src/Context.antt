-- ===== src/Context.antt =====
-- The request context: the values that promolog.go, correlation.go and operation.go put into it
-- with `context.WithValue`, newest first, and the getters that look them up. A `*Buffer` is an
-- index into the heap of buffers, so contexts that share a buffer share its contents.
pub mod Laws
use promolog.Prelude.{
  ℕ, ℤ, pos, List, [], ◌∷◌, ◌++◌, Option, none, some, Str, Dict, length, get_elem?, set,
}
use promolog.Trace.{Time, zero_time}
use promolog.Buffer.{Buffer, new_buffer, empty_buffer}

abbrev pub Heap : Type 0
Heap = List Buffer

-- `Operation` of operation.go. Nothing writes to it after `StartOperation`, so the pointer is the
-- value; its buffer is shared.
pub record Operation : Type 0 where
  pub id : Str
  pub name : Str
  pub origin_request_id : Str
  pub parent_request_id : Str
  pub attrs : Dict Str
  pub buf : ℕ
  pub started_at : Time

pub data Binding : Type 0 where
  request_id : Str → Binding
  parent_request_id : Str → Binding
  start_time : Time → Binding
  buffer : ℕ → Binding
  operation : Operation → Binding

abbrev pub Context : Type 0
Context = List Binding

unfoldable pub get_request_id : Context → Str
get_request_id [] = []
get_request_id (request_id s ∷ ctx) = s
get_request_id (_ ∷ ctx) = get_request_id ctx

unfoldable pub get_parent_request_id : Context → Str
get_parent_request_id [] = []
get_parent_request_id (parent_request_id s ∷ ctx) = s
get_parent_request_id (_ ∷ ctx) = get_parent_request_id ctx

unfoldable pub get_request_start_time : Context → Time
get_request_start_time [] = zero_time
get_request_start_time (start_time t ∷ ctx) = t
get_request_start_time (_ ∷ ctx) = get_request_start_time ctx

unfoldable pub get_buffer : Context → Option ℕ
get_buffer [] = none
get_buffer (buffer p ∷ ctx) = some p
get_buffer (_ ∷ ctx) = get_buffer ctx

unfoldable pub get_operation : Context → Option Operation
get_operation [] = none
get_operation (operation op ∷ ctx) = some op
get_operation (_ ∷ ctx) = get_operation ctx

-- `&Buffer{…}`: the new pointer is the first free index.
abbrev pub alloc : Heap → Buffer → Heap
alloc heap b = heap ++ b ∷ []

-- A method call through a pointer. Every pointer in a context was allocated, so the index exists.
unfoldable pub update : (Buffer → Buffer) → ℕ → Heap → Heap
update f p heap = elim (get_elem? heap p) [ none ↦ heap | some b ↦ set heap p (f b) ]

unfoldable pub new_buffer_context : Context → Heap → Context × Heap
new_buffer_context ctx heap = (buffer (length heap) ∷ ctx, alloc heap (empty_buffer 0))

unfoldable pub new_buffer_context_with_limit : Context → ℤ → Heap → Context × Heap
new_buffer_context_with_limit ctx limit heap =
    (buffer (length heap) ∷ ctx, alloc heap (new_buffer limit))
