-- ===== src/Operation.antt =====
-- operation.go: detached operations. What the package takes from outside is an argument: the
-- bytes of `rand.Read`, the time of `time.Now`, and the store's `Promote`.
pub mod Merge
pub mod Lifecycle
mod Examples
use promolog.Prelude.{
  ℕ, ℤ, pos, List, [], ◌∷◌, Option, none, some, Str, lit, Dict, lookup, insert, length, get_elem?,
}
use promolog.Trace.{Trace, Time, Duration, time_sub}
use promolog.Buffer.{Buffer, empty_buffer, tags, get_entries}
use promolog.Context.{
  Operation, Context, Heap, alloc, request_id, operation, buffer, get_request_id,
  get_parent_request_id, get_operation,
}
use promolog.Identifier.{generate_id}

pub record OperationAttr : Type 0 where
  pub key : Str
  pub value : Str

unfoldable pub attr : Str → Str → OperationAttr
attr key value = record { key = key; value = value }

-- `op.attrs[a.Key] = a.Value` for each attribute in turn. No attribute leaves the map nil.
unfoldable pub attr_map : Dict Str → List OperationAttr → Dict Str
attr_map m [] = m
attr_map m (a ∷ rest) = attr_map (insert a.key a.value m) rest

unfoldable pub start_operation :
    Option (List ℕ) → Time → Context → Str → List OperationAttr → Heap → Context × Operation × Heap
start_operation random now ctx name attrs heap =
    let op : Operation = record {
      id = generate_id random;
      name = name;
      origin_request_id = get_request_id ctx;
      parent_request_id = get_parent_request_id ctx;
      attrs = attr_map [] attrs;
      buf = length heap;
      started_at = now;
    } in
    (buffer op.buf ∷ operation op ∷ ctx, op, alloc heap (empty_buffer 0))

-- `if _, ok := tags[k]; !ok { tags[k] = v }`.
abbrev pub add_missing : Str → Str → Dict Str → Option Str → Dict Str
add_missing k v m none = insert k v m
add_missing k v m (some w) = m

-- The loop over `o.attrs`.
unfoldable pub merge_missing : Dict Str → Dict Str → Dict Str
merge_missing [] m = m
merge_missing ((k, v) ∷ attrs) m = merge_missing attrs (add_missing k v m (lookup k m))

-- The tags of an operation's trace: those of its buffer, and the attributes that they lack.
unfoldable pub operation_tags : Dict Str → Option (Dict Str) → Option (Dict Str)
operation_tags [] buffer_tags = buffer_tags
operation_tags (a ∷ attrs) none = some (merge_missing (a ∷ attrs) [])
operation_tags (a ∷ attrs) (some m) = some (merge_missing (a ∷ attrs) m)

-- `err.Error()`, and the status.
unfoldable pub error_text : Option Str → Str
error_text none = []
error_text (some text) = text

unfoldable pub operation_status : Option Str → Str
operation_status none = lit "ok"
operation_status (some text) = lit "failed"

-- `op.trace(err, now)`; an error is its text. The route and the other request fields stay empty.
unfoldable pub operation_trace : Operation → Buffer → Option Str → Time → Trace
operation_trace op b err now = record {
  request_id = op.id;
  parent_request_id = op.parent_request_id;
  error_chain = error_text err;
  status_code = pos 0;
  route = [];
  method = [];
  user_agent = [];
  remote_ip = [];
  user_id = [];
  tags = operation_tags op.attrs (tags b);
  entries = get_entries now b;
  request_body = [];
  response_body = [];
  created_at = now;
  kind = lit "operation";
  operation_id = op.id;
  operation_name = op.name;
  origin_request_id = op.origin_request_id;
  status = operation_status err;
  started_at = op.started_at;
  duration = time_sub now op.started_at;
}

-- The buffer that a pointer names. Every pointer is allocated before it is used.
unfoldable pub deref : Heap → ℕ → Buffer
deref heap p = elim (get_elem? heap p) [ none ↦ empty_buffer 0 | some b ↦ b ]

-- The error of `PromoteOperation`: its own, or what the store returned.
pub data PromoteError (E : Type 0) : Type 0 where
  no_operation : PromoteError E
  store_error : E → PromoteError E

abbrev pub map_error : {S E : Type 0} → S × Option E → S × Option (PromoteError E)
map_error (s, none) = (s, none)
map_error (s, some e) = (s, some (store_error e))

module _ (S E : Type 0) (promote : Context → Trace → S → S × Option E) where
  unfoldable pub promote_found :
      Context → Option Str → Time → Heap → S → Option Operation → S × Option (PromoteError E)
  promote_found ctx err now heap s none = (s, some no_operation)
  promote_found ctx err now heap s (some op) =
      map_error (promote ctx (operation_trace op (deref heap op.buf) err now) s)

  unfoldable pub promote_operation :
      Context → Option Str → Time → Heap → S → S × Option (PromoteError E)
  unfolding promote_found
  promote_operation ctx err now heap s = promote_found ctx err now heap s (get_operation ctx)
