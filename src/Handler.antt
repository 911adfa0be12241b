-- ===== src/Handler.antt =====
-- handler.go: the `slog.Handler` that copies records into the buffer of the context. The handler
-- that it wraps is any other one: a type, what it does with attributes and groups, and what
-- its `Handle` makes of a record. An attribute's value is the text of its `Value.String()`.
pub mod Attrs
pub mod Capture
mod Examples
use promolog.Prelude.{
  ℕ, ℤ, pos, Bool, true, false, List, [], ◌∷◌, ◌++◌, Option, none, some, Str, lit, str_eq, Dict,
  insert, is_empty, not, ◌&&◌, ◌||◌, if◌then◌else◌,
}
use promolog.Trace.{Entry, Time}
use promolog.Buffer.{append}
use promolog.Context.{Context, Heap, Operation, get_request_id, get_buffer, get_operation, update}

pub record Attr : Type 0 where
  pub key : Str
  pub value : Str

-- `slog.Record`.
pub record LogRecord : Type 0 where
  pub time : Time
  pub level : Str
  pub message : Str
  pub attrs : List Attr

-- `if a.Key != "request_id" { attrs[a.Key] = a.Value.String() }`, for each attribute in turn.
unfoldable pub put_attrs : List Attr → Dict Str → Dict Str
put_attrs [] m = m
put_attrs (a ∷ rest) m =
    put_attrs rest (if str_eq a.key (lit "request_id") then m else insert a.key a.value m)

unfoldable pub put_operation : Option Operation → Dict Str → Dict Str
put_operation none m = m
put_operation (some op) m = insert (lit "operation_id") op.id m

abbrev pub nil_if_empty : Dict Str → Option (Dict Str)
nil_if_empty [] = none
nil_if_empty (e ∷ m) = some (e ∷ m)

unfoldable pub is_some {ℓ} : {A : Type ℓ} → Option A → Bool
is_some none = false
is_some (some a) = true

-- `cloneAttrs` copies; a copy of an immutable list is the list.
abbrev pub clone_attrs : List Attr → List Attr
clone_attrs attrs = attrs

-- The request ID that `WithAttrs` keeps: that of the first attribute of this name, if there is one.
unfoldable pub bound_request_id : Str → List Attr → Str
bound_request_id current [] = current
bound_request_id current (a ∷ rest) =
    if str_eq a.key (lit "request_id") then a.value else bound_request_id current rest

-- `if buf := GetBuffer(ctx); buf != nil { … }`.
unfoldable pub append_to : Option ℕ → Entry → Heap → Heap
append_to none e heap = heap
append_to (some p) e heap = update (λ b. append b e) p heap

module _ (Inner Out : Type 0) where
  pub record Handler : Type 0 where
    pub inner : Inner
    pub request_id : Str
    pub attrs : List Attr
    pub buffer_limit : ℤ

  -- The options of `NewHandler` are functions that change the handler.
  unfoldable pub with_buffer_limit : ℤ → Handler → Handler
  with_buffer_limit n h = record h { buffer_limit = n }

  unfoldable pub apply_options : Handler → List (Handler → Handler) → Handler
  apply_options h [] = h
  apply_options h (o ∷ opts) = apply_options (o h) opts

  unfoldable pub new_handler : Inner → List (Handler → Handler) → Handler
  unfolding apply_options
  new_handler inner opts =
      apply_options (record { inner = inner; request_id = []; attrs = []; buffer_limit = pos 0 })
        opts

  unfoldable pub with_attrs : (Inner → List Attr → Inner) → List Attr → Handler → Handler
  unfolding bound_request_id
  with_attrs inner_with_attrs attrs h = record {
    inner = inner_with_attrs h.inner attrs;
    request_id = bound_request_id h.request_id attrs;
    attrs = clone_attrs h.attrs ++ attrs;
    buffer_limit = h.buffer_limit;
  }

  unfoldable pub with_group : (Inner → Str → Inner) → Str → Handler → Handler
  with_group inner_with_group name h = record {
    inner = inner_with_group h.inner name;
    request_id = h.request_id;
    attrs = clone_attrs h.attrs;
    buffer_limit = h.buffer_limit;
  }

  -- The request ID of a record: the handler's own, or else that of the context.
  abbrev pub effective_id : Handler → Context → Str
  effective_id h ctx = if is_empty h.request_id then get_request_id ctx else h.request_id

  unfoldable pub captured_entry : Handler → Context → LogRecord → Entry
  captured_entry h ctx r = record {
    time = r.time;
    level = r.level;
    message = r.message;
    attrs =
        nil_if_empty (put_operation (get_operation ctx) (put_attrs r.attrs (put_attrs h.attrs [])));
  }

  -- `Handle`: the heap after it, and what the wrapped handler returned.
  unfoldable pub handle :
      (Inner → Context → LogRecord → Out) → Handler → Context → LogRecord → Heap → Heap × Out
  unfolding append_to
  handle inner_handle h ctx r heap = (
    if not (is_empty (effective_id h ctx)) || is_some (get_operation ctx)
        then append_to (get_buffer ctx) (captured_entry h ctx r) heap
        else heap,
    inner_handle h.inner ctx r,
  )
