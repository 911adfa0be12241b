-- ===== src/Operation/Examples.antt =====
-- Tests of operations, and their theorems at a concrete context.
use promolog.Prelude.{
  pos, List, [], ◌∷◌, Option, none, some, ◌≡◌, ◌↔◌, refl, Str, lit, str_eq, lookup, insert, or_else,
}
use promolog.Trace.{Trace}
use promolog.Buffer.Tags.{lookup_tag}
use promolog.Context.{Context, request_id, get_operation}
use promolog.Operation.{
  OperationAttr, attr_map, start_operation, operation_tags, merge_missing, promote_operation,
  no_operation, map_error,
}
use promolog.Operation.Merge.{operation_tags_lem}
use promolog.Operation.Lifecycle.{Reports, promote-start, no_operation_iff}

-- A store that keeps the traces it was given, and never fails.
abbrev keep_trace : Context → Trace → List Trace → List Trace × Option Str
keep_trace ctx t s = (t ∷ s, none)

abbrev request_ctx : Context
request_ctx = request_id (lit "req-1") ∷ []

abbrev attrs : List OperationAttr
attrs =
    record { key = lit "job"; value = lit "a" }
    ∷ record { key = lit "job"; value = lit "b" }
    ∷ record { key = lit "queue"; value = lit "q" }
    ∷ []

buffer_tag_wins :
    operation_tags (attr_map [] attrs) (some ((lit "queue", lit "set") ∷ []))
    ≡ some ((lit "queue", lit "set") ∷ (lit "job", lit "b") ∷ [])
unfolding operation_tags attr_map merge_missing insert lookup str_eq lit
buffer_tag_wins = refl

merged_operation_tags :
    lookup_tag (lit "job") (operation_tags ((lit "job", lit "b") ∷ []) none)
    ≡ or_else (lookup_tag (lit "job") none) (lookup (lit "job") ((lit "job", lit "b") ∷ []))
merged_operation_tags = operation_tags_lem (lit "job") ((lit "job", lit "b") ∷ []) none

promote-start_example :
    let (ctx', op, _) = start_operation (some (7 ∷ [])) (pos 5) request_ctx (lit "sync") attrs [] in
    (t : Trace) × (promote_operation
        (List Trace)
        Str
        keep_trace
        ctx'
        (some (lit "boom"))
        (pos 9)
        []
        []
      ≡ map_error (keep_trace ctx' t []))
    × Reports
        (List Trace)
        Str
        keep_trace
        (some (7 ∷ []))
        request_ctx
        (lit "sync")
        attrs
        op
        (some (lit "boom"))
        (pos 9)
        []
        t
promote-start_example =
    promote-start (List Trace) Str keep_trace (some (7 ∷ [])) (pos 5) (pos 9) request_ctx
      (lit "sync") attrs [] [] (some (lit "boom")) []

promoting_without_operation :
    (((promote_operation (List Trace) Str keep_trace request_ctx none (pos 9) [] []).1
        ≡ some no_operation)
      ↔ (get_operation request_ctx ≡ none))
    × (get_operation request_ctx ≡ none
        → (promote_operation (List Trace) Str keep_trace request_ctx none (pos 9) [] []).0 ≡ [])
promoting_without_operation =
    no_operation_iff (List Trace) Str keep_trace request_ctx none (pos 9) [] []
