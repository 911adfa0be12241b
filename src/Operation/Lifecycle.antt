-- ===== src/Operation/Lifecycle.antt =====
-- An operation from its start to its promotion.
use promolog.Prelude.{
  ℕ, List, [], Option, none, some, ◌≡◌, ◌≢◌, refl, ap, sym, ◌∙◌, ◌↔◌, Str, lit, lookup, or_else,
  last_value, or_else-none,
}
use promolog.Trace.{Trace, Time}
use promolog.Buffer.{tags, get_entries}
use promolog.Buffer.Tags.{lookup_tag}
use promolog.Context.{
  Context, Heap, Operation, get_request_id, get_parent_request_id, get_operation,
}
use promolog.Identifier.{generate_id}
use promolog.Operation.{
  OperationAttr, attr_map, start_operation, operation_trace, operation_status, deref, no_operation,
  map_error, promote_found, promote_operation,
}
use promolog.Operation.Merge.{operation_tags_lem, lookup-attr_map, pairs}

module _ (S E : Type 0) (promote : Context → Trace → S → S × Option E) where
  -- What the trace of an operation says, for the context and attributes of its start, the heap and
  -- the error of its end.
  pub record Reports (random : Option (List ℕ)) (ctx : Context) (name : Str)
      (attrs : List OperationAttr) (op : Operation) (err : Option Str) (now : Time) (heap : Heap)
      (t : Trace) : Type 0 where
    pub keyed : (t.request_id ≡ generate_id random) × (t.operation_id ≡ generate_id random)
    pub named : t.operation_name ≡ name
    pub origin :
        (t.origin_request_id ≡ get_request_id ctx)
        × (t.parent_request_id ≡ get_parent_request_id ctx)
    pub logged : t.entries ≡ get_entries now (deref heap op.buf)
    pub tagged :
        (j : Str)
        → lookup_tag j t.tags
          ≡ or_else (lookup_tag j (tags (deref heap op.buf))) (last_value j (pairs attrs))
    pub failed : (t.status ≡ lit "failed") ↔ (err ≢ none)
    pub succeeded : (t.status ≡ lit "ok") ↔ (err ≡ none)

  status_failed : (err : Option Str) → (operation_status err ≡ lit "failed") ↔ (err ≢ none)
  unfolding operation_status lit
  status_failed none = (λ h. cc h, λ h. absurd (h refl))
  status_failed (some text) = (λ h e. cc e, λ h. refl)

  status_ok : (err : Option Str) → (operation_status err ≡ lit "ok") ↔ (err ≡ none)
  unfolding operation_status lit
  status_ok none = (λ h. refl, λ h. refl)
  status_ok (some text) = (λ h. cc h, λ h. cc h)

  -- Promoting in the context that `StartOperation` returned, with whatever the heap holds by then,
  -- hands the store one trace. It is keyed by the generated ID, names the request that the
  -- operation came from, carries the entries of the operation's buffer, and its status is failed
  -- exactly where an error is given. A key has the tag that the buffer has for it, and else the
  -- last attribute of that name given at the start.
  pub promote-start :
      (random : Option (List ℕ)) (start now : Time) (ctx : Context) (name : Str)
      (attrs : List OperationAttr) (heap later : Heap) (err : Option Str) (s : S)
      → let (ctx', op, _) = start_operation random start ctx name attrs heap in
        (t : Trace) × (promote_operation S E promote ctx' err now later s
          ≡ map_error (promote ctx' t s))
        × Reports random ctx name attrs op err now later t
  unfolding promote_operation start_operation get_operation operation_trace
  promote-start random start now ctx name attrs heap later err s =
      let op = (start_operation random start ctx name attrs heap).1 in
      let b = deref later op.buf in
      (
        operation_trace op b err now,
        refl,
        record {
          keyed = (refl, refl);
          named = refl;
          origin = (refl, refl);
          logged = refl;
          tagged = λ j.
              operation_tags_lem j (attr_map [] attrs) (tags b)
              ∙ ap (or_else (lookup_tag j (tags b))) (
                  lookup-attr_map j attrs []
                  ∙ unfold lookup in sym (or_else-none (last_value j (pairs attrs))));
          failed = status_failed err;
          succeeded = status_ok err;
        },
      )

  map_error-ne : (r : S × Option E) → (map_error r).1 ≢ some no_operation
  map_error-ne (s, none) h = cc h
  map_error-ne (s, some e) h = cc h

  promote_found_iff :
      (ctx : Context) (err : Option Str) (now : Time) (heap : Heap) (s : S) (o : Option Operation)
      → ((promote_found S E promote ctx err now heap s o).1 ≡ some no_operation) ↔ (o ≡ none)
  unfolding promote_found
  promote_found_iff ctx err now heap s none = (λ h. refl, λ h. refl)
  promote_found_iff ctx err now heap s (some op) = (
    λ h. absurd (map_error-ne (promote ctx (operation_trace op (deref heap op.buf) err now) s) h),
    λ h. cc h,
  )

  -- `PromoteOperation` answers `ErrNoOperation` exactly in a context that carries no operation, and
  -- then leaves the store as it was.
  pub no_operation_iff :
      (ctx : Context) (err : Option Str) (now : Time) (heap : Heap) (s : S)
      → (((promote_operation S E promote ctx err now heap s).1 ≡ some no_operation)
          ↔ (get_operation ctx ≡ none))
        × (get_operation ctx ≡ none → (promote_operation S E promote ctx err now heap s).0 ≡ s)
  unfolding promote_operation promote_found
  no_operation_iff ctx err now heap s =
      (promote_found_iff ctx err now heap s (get_operation ctx), λ h. rw h)
