-- ===== src/AutoPromote/Pipeline.antt =====
-- The middleware stack of the README, `CorrelationMiddleware(AutoPromoteMiddleware(store,
-- StatusPolicy(min)))`, round a handler that logs and answers.
use promolog.Prelude.{
  true, ℕ, ℤ, pos, pos_part, ltb_ℤ, leb_ℤ, leb_ℤ_iff, leb_ℤ_of_gt, ◌≤ℤ◌, List, [], ◌∷◌, map, Option,
  some, ◌≡◌, ◌≢◌, inl, inr, ap, sym, ◌∙◌, Str, Dict, Bool-cases, is_empty, if◌then◌else◌, All,
  get_elem?, length,
}
use promolog.Trace.{Trace, Time, Entry}
use promolog.Buffer.{Buffer, new_buffer, empty_buffer, append, append_all, get_entries}
use promolog.Buffer.Window.{window, get_entries-append_all, new_buffer-pos}
use promolog.Context.{Context, Heap, get_request_id, get_buffer}
use promolog.Http.{Request, Call}
use promolog.Http.Sent.{sent_status}
use promolog.Response.{fresh_writer, pass_all}
use promolog.Response.Recorded.{IsFinal, is_settled, recorded-sent_status}
use promolog.Policy.{status_policy, any_policy}
use promolog.Operation.{deref}
use promolog.Handler.{LogRecord, Handler, effective_id, captured_entry, handle}
use promolog.Handler.Capture.{handle-heap}
use promolog.Correlation.{correlation_middleware}
use promolog.Correlation.Linked.{seen, chosen, correlation_middleware-IsCorrelated}
use promolog.AutoPromote.{request_trace, Served, auto_promote_middleware}
use promolog.AutoPromote.Promoted.{auto_promote_store}

module _ (Inner Out : Type 0) (inner_handle : Inner → Context → LogRecord → Out)
    (h : Handler Inner Out) where
  -- A handler that logs some records through a promolog `Handler`, in turn.
  unfoldable pub log_all : Context → List LogRecord → Heap → Heap
  log_all ctx [] heap = heap
  log_all ctx (r ∷ rs) heap = log_all ctx rs (handle Inner Out inner_handle h ctx r heap).0

  abbrev pub captured : Context → List LogRecord → List Entry
  captured ctx = map (captured_entry Inner Out h ctx)

  effective_id-ne : (ctx : Context) → get_request_id ctx ≢ [] → effective_id Inner Out h ctx ≢ []
  effective_id-ne ctx id_there = effective (h.request_id)
    where
      effective : (s : Str) → (if is_empty s then get_request_id ctx else s) ≢ []
      effective [] = id_there
      effective (c ∷ s) = λ e. cc e

  log_all-buffer :
      (ctx : Context) (rs : List LogRecord) (heap : Heap) (p : ℕ) (b : Buffer)
      → get_request_id ctx ≢ []
      → get_buffer ctx ≡ some p
      → get_elem? heap p ≡ some b
      → get_elem? (log_all ctx rs heap) p ≡ some (append_all b (captured ctx rs))
  unfolding log_all append_all
  log_all-buffer ctx [] heap p b id_there found at_p = at_p
  log_all-buffer ctx (r ∷ rs) heap p b id_there found at_p =
      log_all-buffer ctx rs (handle Inner Out inner_handle h ctx r heap).0 p
        (append b (captured_entry Inner Out h ctx r)) id_there found
        ((handle-heap Inner Out inner_handle h ctx r heap).0 p b
          (inl (effective_id-ne ctx id_there)) found at_p).0

entries_of_fresh :
    (read : Time) (limit : ℤ) (es : List Entry)
    → get_entries read
        (append_all (if ltb_ℤ (pos 0) limit then new_buffer limit else empty_buffer 0) es)
      ≡ (if ltb_ℤ (pos 0) limit then window read (pos_part limit) es else es)
entries_of_fresh read limit es = elim (Bool-cases (ltb_ℤ (pos 0) limit)) [
  | inl limited ↦ rw limited (get_entries-append_all read limit es ∙ rw limited)
  | inr unlimited ↦ rw (unlimited, ← new_buffer-pos 0) (get_entries-append_all read (pos 0) es)
]

pub deref-some : (heap : Heap) (p : ℕ) (b : Buffer) → get_elem? heap p ≡ some b → deref heap p ≡ b
unfolding deref
deref-some heap p b e = rw (e, deref)

status_decision :
    {E : Type 0} (min_code code : ℤ) (r : Request) (env : E)
    → (any_policy (status_policy min_code ∷ []) r code env).0 ≡ leb_ℤ min_code code
unfolding any_policy status_policy
status_decision min_code code r env = elim (Bool-cases (leb_ℤ min_code code)) [
  | inl fires ↦ rw fires
  | inr quiet ↦ rw quiet
]

module _ (S Err : Type 0) (promote : Context → Trace → S → S × Option Err) (E W : Type 0)
    (send : W → Call → W) (Inner Out : Type 0) (inner_handle : Inner → Context → LogRecord → Out)
    (h : Handler Inner Out) (records : List LogRecord) (calls : List Call) where
  -- The handler at the end of the stack: it logs the records, and then makes the calls.
  abbrev pub endpoint : Request → Heap → E → List Call × Heap × E
  endpoint r heap env = (calls, log_all Inner Out inner_handle h r.ctx records heap, env)

  module _ (min_code limit : ℤ) (random : Option (List ℕ)) (start read now : Time)
      (w_header : Dict Str) (r : Request) (heap : Heap) (env : E) (s : S) (w : W) where
    abbrev pub stack : Served S Err promote E W send
    stack =
        correlation_middleware
          (λ _ r' heap'.
            auto_promote_middleware S Err promote E W send (status_policy min_code ∷ []) endpoint
              read now r' heap' env s w)
          limit random start w_header r heap

    -- The context that the middleware made, and what the store is given of the request.
    abbrev pub inner_request : Request
    inner_request = (seen limit random start w_header r heap).1

    -- The trace of the request: its ID and status, its route and method, and every record that it
    -- logged, as far as the buffer's limit keeps them.
    pub record Tells (t : Trace) : Type 0 where
      pub keyed : t.request_id ≡ (chosen random r).0
      pub answered : t.status_code ≡ sent_status calls
      pub routed : (t.route ≡ r.path) × (t.method ≡ r.method)
      pub logged : t.entries ≡ (
          if ltb_ℤ (pos 0) limit
          then window read
              (pos_part limit)
              (captured Inner Out inner_handle h inner_request.ctx records)
          else captured Inner Out inner_handle h inner_request.ctx records)

    -- The request's buffer after the handler, and the trace made of it.
    abbrev buffer_after : Buffer
    buffer_after =
        deref (endpoint inner_request (seen limit random start w_header r heap).2 env).1
          (length heap)

    abbrev trace_of : ℤ → Trace
    trace_of code = request_trace read now inner_request buffer_after code

    trace_of-Tells :
        (code : ℤ) → (chosen random r).0 ≢ [] → code ≡ sent_status calls → Tells (trace_of code)
    unfolding request_trace
    trace_of-Tells code id_there answered =
        let c = correlation_middleware-IsCorrelated limit random start w_header r heap in
        let id_inside : get_request_id inner_request.ctx ≢ [] =
          λ e. id_there (sym c.id_in_context ∙ e) in
        record {
          keyed = c.id_in_context;
          answered = answered;
          routed = (c.request_kept.0, c.request_kept.1);
          logged =
              ap (get_entries read) (
                deref-some _ (length heap) _ (
                  log_all-buffer Inner Out inner_handle h inner_request.ctx records
                    (seen limit random start w_header r heap).2 (length heap)
                    (if ltb_ℤ (pos 0) limit then new_buffer limit else empty_buffer 0) id_inside
                    c.buffered c.fresh_buffer))
              ∙ entries_of_fresh read limit
                  (captured Inner Out inner_handle h inner_request.ctx records);
        }

    -- A request that gets an ID and whose handler logs some records and answers without informational
    -- statuses, without a flush before it sets its status and without a hijack before it answers: if the status that the client gets is `min_code` or more, the store is the one after
    -- one `Promote` of a trace with the request's ID, that status, the route and all that the handler
    -- logged, in order, up to the buffer's limit; and else the store is as before.
    pub stack_promotes :
        (chosen random r).0 ≢ []
        → All IsFinal calls
        → is_settled calls ≡ true
        → (min_code ≤ℤ sent_status calls
            → (t : Trace) × (stack.store ≡ (promote inner_request.ctx t s).0) × Tells t)
          × (¬ (min_code ≤ℤ sent_status calls) → stack.store ≡ s)
    unfolding correlation_middleware
    stack_promotes id_there final settled =
        let c = correlation_middleware-IsCorrelated limit random start w_header r heap in
        let code = (pass_all send (fresh_writer, w) calls).0.status_code in
        let answered : code ≡ sent_status calls = recorded-sent_status send calls w final settled in
        let served =
          auto_promote_store S Err promote E W send (status_policy min_code ∷ []) endpoint read now
            inner_request (seen limit random start w_header r heap).2 env s w in
        let decided = status_decision min_code code inner_request env in
        (
          λ high. (
            trace_of code,
            served.0 (length heap) (decided ∙ (leb_ℤ_iff min_code code).1 (rw answered high))
                (λ e. id_there (sym c.id_in_context ∙ e)) c.buffered,
            trace_of-Tells code id_there answered,
          ),
          λ low.
              served.1
                (inl (decided ∙ leb_ℤ_of_gt min_code code (λ high. low (rw answered at high)))),
        )
