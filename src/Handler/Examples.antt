-- ===== src/Handler/Examples.antt =====
-- Tests of the log handler, and its theorems at a concrete record.
use promolog.Prelude.{
  ℕ, ◌<◌, pos, [], ◌∷◌, ◌++◌, none, some, ◌≡◌, ◌≢◌, ◌⊎◌, refl, Str, lit, str_eq, insert, or_else,
  length, get_elem?,
}
use promolog.Buffer.{Buffer, append, empty_buffer}
use promolog.Buffer.Tags.{lookup_tag}
use promolog.Context.{Context, Heap, request_id, buffer, get_buffer, get_operation}
use promolog.Operation.{start_operation}
use promolog.Handler.{
  LogRecord, Handler, new_handler, with_buffer_limit, with_attrs, captured_entry, put_attrs,
  put_operation, handle,
}
use promolog.Handler.Attrs.{attr_pairs, visible, operation_attr, captured_entry-attrs}
use promolog.Handler.Capture.{Belongs, handle-heap, operation_isolated}

-- A wrapped handler without state, which answers with the message.
abbrev echo : Unit {0} → Context → LogRecord → Str
echo inner ctx r = r.message

abbrev base : Handler (Unit {0}) Str
base = record { inner = tt; request_id = []; attrs = []; buffer_limit = pos 0 }

abbrev line : LogRecord
line = record {
  time = pos 3;
  level = lit "INFO";
  message = lit "hello";
  attrs =
      record { key = lit "request_id"; value = lit "r" }
      ∷ record { key = lit "k"; value = lit "v" }
      ∷ [];
}

abbrev ctx : Context
ctx = buffer 0 ∷ request_id (lit "req-1") ∷ []

bound_id : (with_attrs (Unit {0}) Str (λ inner attrs. inner) line.attrs base).request_id ≡ lit "r"
unfolding with_attrs lit str_eq
bound_id = refl

limited_handler :
    (new_handler (Unit {0}) Str tt (with_buffer_limit (Unit {0}) Str (pos 7) ∷ [])).buffer_limit
    ≡ pos 7
unfolding new_handler with_buffer_limit
limited_handler = refl

no_request_id : (captured_entry (Unit {0}) Str base ctx line).attrs ≡ some ((lit "k", lit "v") ∷ [])
unfolding captured_entry put_attrs put_operation get_operation insert str_eq lit
no_request_id = refl

captured_entry-attrs_example :
    lookup_tag (lit "k") (captured_entry (Unit {0}) Str base ctx line).attrs
    ≡ or_else
        (operation_attr (lit "k") (get_operation ctx))
        (visible (lit "k") (attr_pairs base.attrs ++ attr_pairs line.attrs))
captured_entry-attrs_example = captured_entry-attrs (Unit {0}) Str base ctx line (lit "k")

abbrev heap : Heap
heap = empty_buffer 0 ∷ empty_buffer 2 ∷ []

handle-heap_example :
    ((p : ℕ) (b : Buffer)
      → Belongs (Unit {0}) Str echo base ctx
      → get_buffer ctx ≡ some p
      → get_elem? heap p ≡ some b
      → (get_elem? (handle (Unit {0}) Str echo base ctx line heap).0 p
          ≡ some (append b (captured_entry (Unit {0}) Str base ctx line)))
        × ((q : ℕ)
            → p ≢ q
            → get_elem? (handle (Unit {0}) Str echo base ctx line heap).0 q ≡ get_elem? heap q))
    × ((¬ Belongs (Unit {0}) Str echo base ctx) ⊎ (get_buffer ctx ≡ none)
        → (handle (Unit {0}) Str echo base ctx line heap).0 ≡ heap)
    × ((handle (Unit {0}) Str echo base ctx line heap).1 ≡ lit "hello")
handle-heap_example = handle-heap (Unit {0}) Str echo base ctx line heap

operation_isolated_example :
    let (ctx', op, heap') = start_operation (some (7 ∷ [])) (pos 5) ctx (lit "sync") [] heap in
    (get_elem? (handle (Unit {0}) Str echo base ctx' line heap').0 op.buf
      ≡ some (append (empty_buffer 0) (captured_entry (Unit {0}) Str base ctx' line)))
    × ((q : ℕ)
        → q < length heap
        → get_elem? (handle (Unit {0}) Str echo base ctx' line heap').0 q ≡ get_elem? heap q)
operation_isolated_example =
    operation_isolated (Unit {0}) Str echo (some (7 ∷ [])) (pos 5) ctx (lit "sync") [] heap base
      line
