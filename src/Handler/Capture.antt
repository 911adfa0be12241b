-- ===== src/Handler/Capture.antt =====
-- Which buffer a record goes to.
use promolog.Prelude.{
  if_same, ℕ, ◌<◌, true, false, List, [], ◌∷◌, Option, none, some, ◌≡◌, ◌≢◌, ◌⊎◌, inl, inr, refl,
  ◌∙◌, arith, Str, is_empty, not, ◌||◌, length, get_elem?,
}
use promolog.Trace.{Time}
use promolog.Buffer.{Buffer, append, empty_buffer}
use promolog.Context.{Context, Heap, Operation, get_buffer, get_operation, alloc}
use promolog.Context.Laws.{update_self, update_other, alloc_new, alloc_old}
use promolog.Operation.{OperationAttr, start_operation}
use promolog.Handler.{LogRecord, Handler, is_some, effective_id, captured_entry, append_to, handle}

belongs_test :
    (s : Str) (o : Option Operation)
    → (s ≢ []) ⊎ (o ≢ none)
    → (not (is_empty s) || is_some o) ≡ true
unfolding is_some
belongs_test [] none (inl h) = absurd (h refl)
belongs_test [] none (inr h) = absurd (h refl)
belongs_test [] (some op) h = refl
belongs_test (c ∷ s) o h = refl

stray_test :
    (s : Str) (o : Option Operation)
    → ¬ ((s ≢ []) ⊎ (o ≢ none))
    → (not (is_empty s) || is_some o) ≡ false
unfolding is_some
stray_test [] none n = refl
stray_test [] (some op) n = absurd (n (inr (λ e. cc e)))
stray_test (c ∷ s) o n = absurd (n (inl (λ e. cc e)))

module _ (Inner Out : Type 0) (inner_handle : Inner → Context → LogRecord → Out) where
  -- The record belongs to a request or to an operation.
  abbrev pub Belongs : Handler Inner Out → Context → Type 0
  Belongs h ctx = (effective_id Inner Out h ctx ≢ []) ⊎ (get_operation ctx ≢ none)

  -- A record that belongs to a request or an operation, in a context with a buffer, is appended to
  -- that buffer and to no other. Any other record changes no buffer. The wrapped handler gets
  -- every record as it came.
  pub handle-heap :
      (h : Handler Inner Out) (ctx : Context) (r : LogRecord) (heap : Heap)
      → ((p : ℕ) (b : Buffer)
          → Belongs h ctx
          → get_buffer ctx ≡ some p
          → get_elem? heap p ≡ some b
          → (get_elem? (handle Inner Out inner_handle h ctx r heap).0 p
              ≡ some (append b (captured_entry Inner Out h ctx r)))
            × ((q : ℕ)
                → p ≢ q
                → get_elem? (handle Inner Out inner_handle h ctx r heap).0 q ≡ get_elem? heap q))
        × ((¬ Belongs h ctx) ⊎ (get_buffer ctx ≡ none)
            → (handle Inner Out inner_handle h ctx r heap).0 ≡ heap)
        × ((handle Inner Out inner_handle h ctx r heap).1 ≡ inner_handle h.inner ctx r)
  unfolding handle append_to
  handle-heap h ctx r heap = (
    λ p b belongs found at_p. (
      rw (belongs_test (effective_id Inner Out h ctx) (get_operation ctx) belongs, found)
          (update_self (λ c. append c (captured_entry Inner Out h ctx r)) p heap b at_p),
      λ q ne.
          rw (belongs_test (effective_id Inner Out h ctx) (get_operation ctx) belongs, found)
            (update_other (λ c. append c (captured_entry Inner Out h ctx r)) p q heap ne),
    ),
    λ e. elim e [
      | inl stray ↦ rw (stray_test (effective_id Inner Out h ctx) (get_operation ctx) stray)
      | inr no_buffer ↦ rw no_buffer (if_same _ heap)
    ],
    refl,
  )

  -- In the context of a new operation a record goes to the operation's own buffer, and every buffer
  -- that was there before, that of the request included, stays as it was.
  pub operation_isolated :
      (random : Option (List ℕ)) (start : Time) (ctx : Context) (name : Str)
      (attrs : List OperationAttr) (heap : Heap) (h : Handler Inner Out) (r : LogRecord)
      → let (ctx', op, heap') = start_operation random start ctx name attrs heap in
        (get_elem? (handle Inner Out inner_handle h ctx' r heap').0 op.buf
          ≡ some (append (empty_buffer 0) (captured_entry Inner Out h ctx' r)))
        × ((q : ℕ)
            → q < length heap
            → get_elem? (handle Inner Out inner_handle h ctx' r heap').0 q ≡ get_elem? heap q)
  unfolding start_operation get_buffer get_operation
  operation_isolated random start ctx name attrs heap h r =
      let op = (start_operation random start ctx name attrs heap).1 in
      let ctx' = (start_operation random start ctx name attrs heap).0 in
      let heap' = alloc heap (empty_buffer 0) in
      let (here, elsewhere) =
        (handle-heap h ctx' r heap').0 (length heap) (empty_buffer 0) (inr (λ e. cc e)) refl
          (alloc_new heap (empty_buffer 0)) in
      (here, λ q old. elsewhere q (omega arith) ∙ alloc_old heap (empty_buffer 0) q old)
