-- ===== src/BodyCapture/Promoted.antt =====
-- What a promoted trace holds of the bodies of its request: `BodyCaptureMiddleware` of bodycapture.go
-- around `AutoPromoteMiddleware` of autopromote.go, in the order that the comment of the former shows.
use promolog.Prelude.{
  ℕ, ◌≤◌, ◌<◌, ℤ, Bool, true, inl, inr, ◌⊎◌, List, [], ◌∷◌, Option, none, some, ◌≡◌, ◌≢◌, refl, sym,
  ap, ◌∙◌, subst, length, get_elem?, All, Str,
}
use promolog.Trace.{Trace, Time}
use promolog.Buffer.{Buffer, set_request_body}
use promolog.Context.{Context, Heap, get_request_id, get_buffer}
use promolog.Context.Laws.{update_self}
use promolog.Http.{Request, Call}
use promolog.Response.{ResponseWriter, fresh_writer, pass, pass_all}
use promolog.Policy.{PromotionPolicy, any_policy}
use promolog.Operation.{deref}
use promolog.AutoPromote.{request_trace, Served, auto_promote_middleware}
use promolog.AutoPromote.Promoted.{auto_promote_store}
use promolog.AutoPromote.Pipeline.{deref-some}
use promolog.BodyCapture.{
  BodyCaptureConfig, Body, capture_request, CaptureResponseWriter, fresh_capture, capture_all,
}
use promolog.BodyCapture.Request.{redacted, redacted_in_place, cut, capture_request_cases}
use promolog.BodyCapture.Response.{joined, capture_all-stored}
use promolog.BodyCapture.Middleware.{
  Event, respond, touch, run_plain, run_wrapped, push_request, capture_around,
  body_capture_middleware,
}
use promolog.BodyCapture.Chain.{
  calls_of, writes_of, HasBodies, KeepsBodies, Shows, run_wrapped-Shows, run_wrapped-transparent,
}

pass_all-response :
    {W : Type 0} (send : W → Call → W) (events : List Event) (base : ResponseWriter) (heap : Heap)
    (w : W)
    → (pass_all send (base, w) (calls_of events)).1 ≡ (run_plain send events (heap, w)).1
unfolding pass_all pass run_plain
pass_all-response send [] base heap w = refl
pass_all-response send (respond c ∷ events) base heap w =
    pass_all-response send events (pass send (base, w) c).0 heap (send w c)
pass_all-response send (touch f ∷ events) base heap w =
    pass_all-response send events base (f heap) w

module _ (S Err : Type 0) (promote : Context → Trace → S → S × Option Err) (E W : Type 0)
    (send : W → Call → W) (policies : List (PromotionPolicy E)) (X : Type 0)
    (handler : Request → Body X → List Event) where
  -- The promotion middleware around the handler, on the writer that it is given.
  abbrev promoting :
      Time
      → Time
      → E
      → S
      → W
      → Request
      → Body X
      → (List Event → Heap × W → Heap × W)
      → Heap
      → Served S Err promote E W send
  promoting read now env s w r body run heap =
      auto_promote_middleware S Err promote E W send policies
        (λ r' heap' env'. (calls_of (handler r' body), (run (handler r' body) (heap', w)).0, env'))
        read now r heap env s w

  module _ (cfg : BodyCaptureConfig) (read now : Time) (env : E) (s : S) (w : W) (r : Request)
      (body : Body X) (heap : Heap) (p : ℕ) where
    -- What the handler behind both reads and does, and the status that the promotion records.
    abbrev pub events : List Event
    events = handler r (capture_request cfg body).1

    abbrev pub fires : Bool
    fires =
        (any_policy policies r (pass_all send (fresh_writer, w) (calls_of events)).0.status_code
          env).0

    abbrev pub traced : Served S Err promote E W send
    traced = body_capture_middleware send cfg (promoting read now env s w) r body heap

    abbrev pub ended : Heap × W
    ended =
        run_wrapped send cfg p events fresh_capture
          (push_request (capture_request cfg body).0 p heap, w)

    traced_cases :
        get_buffer r.ctx ≡ some p
        → traced
          ≡ promoting read now env s w r
              (capture_request cfg body).1
              (λ events' s'. run_wrapped send cfg p events' fresh_capture s')
              (push_request (capture_request cfg body).0 p heap)
    unfolding body_capture_middleware capture_around
    traced_cases there = ap (capture_around send cfg (promoting read now env s w) r body heap) there

    traced-store :
        get_buffer r.ctx ≡ some p
        → get_request_id r.ctx ≢ []
        → fires ≡ true
        → traced.store
          ≡ (promote r.ctx
              (request_trace read now r
                (deref ended.0 p)
                (pass_all send (fresh_writer, w) (calls_of events)).0.status_code)
              s).0
    traced-store buffer_there id_there fired =
        ap (λ t. t.store) (traced_cases buffer_there)
        ∙ (auto_promote_store S Err promote E W send policies _ read now r _ env s w).0 p fired
            id_there buffer_there

    traced-response :
        get_buffer r.ctx ≡ some p → traced.response ≡ (run_plain send events (heap, w)).1
    unfolding auto_promote_middleware
    traced-response buffer_there =
        ap (λ t. t.response) (traced_cases buffer_there)
        ∙ pass_all-response send events fresh_writer heap w

    -- The buffer as the handler gets it: with the stored request body.
    request_pushed :
        (b : Buffer) (text : Str)
        → get_elem? heap p ≡ some b
        → (capture_request cfg body).0 ≡ some text
        → Shows cfg p text fresh_capture (push_request (capture_request cfg body).0 p heap)
    unfolding set_request_body
    request_pushed b text there e =
        subst (λ o. Shows cfg p text fresh_capture (push_request o p heap)) (sym e)
          (
            b.response_body,
            record {
              buf = set_request_body text b;
              there = update_self (set_request_body text) p heap b there;
              request_body = refl;
              response_body = refl;
            },
            inl refl,
          )

    shown_response :
        (request text : Str) (crw : CaptureResponseWriter) (after : Heap)
        → Shows cfg p request crw after
        → crw.stored ≡ some text
        → HasBodies p after request text
    shown_response request text crw after (response, has, inl nothing) e = absurd (cc (nothing, e))
    shown_response request text crw after (response, has, inr stored) e =
        subst (HasBodies p after request) (cc (stored, e)) has

    -- The ID of the request, and the redaction of the first bytes of each body.
    pub record HasTracedBodies (t : Trace) : Type 0 where
      pub keyed : t.request_id ≡ get_request_id r.ctx
      pub request : t.request_body ≡ (redacted_in_place cfg body.bytes).2
      pub response : t.response_body ≡ (redacted cfg (joined (writes_of events))).2

    trace_of-HasTracedBodies :
        (code : ℤ) (request response : Str)
        → request ≡ (redacted_in_place cfg body.bytes).2
        → response ≡ (redacted cfg (joined (writes_of events))).2
        → HasBodies p ended.0 request response
        → HasTracedBodies (request_trace read now r (deref ended.0 p) code)
    unfolding request_trace
    trace_of-HasTracedBodies code request response e e' has =
        let same = deref-some ended.0 p has.buf has.there in
        record {
          keyed = refl;
          request = ap (λ b. b.request_body) same ∙ (has.request_body ∙ e);
          response = ap (λ b. b.response_body) same ∙ (has.response_body ∙ e');
        }

    -- For a request with an ID and a buffer in its context, a limit that is not 0, a request body with
    -- bytes and no error within one byte more than the limit, a handler that writes at least one byte
    -- and sets no body of the buffer itself, and a policy that fires on the recorded status: the store
    -- is the one after one `Promote` of a trace with the request's ID, with the redaction of the first
    -- bytes of the request body, and with the redaction of the first bytes of all that the handler
    -- wrote, as many as the limit allows; and the response is the handler's own calls, through the
    -- wrapper as without it.
    pub promoted_bodies :
        (b : Buffer)
        → get_buffer r.ctx ≡ some p
        → get_elem? heap p ≡ some b
        → get_request_id r.ctx ≢ []
        → 0 < cfg.max_body_size
        → body.bytes ≢ []
        → (body.failure ≡ none) ⊎ (cut cfg ≤ length body.bytes)
        → All (KeepsBodies p) events
        → joined (writes_of events) ≢ []
        → fires ≡ true
        → (t : Trace) × (traced.store ≡ (promote r.ctx t s).0)
          × HasTracedBodies t
          × (traced.response ≡ (run_plain send events (heap, w)).1)
          × (ended.1 ≡ traced.response)
    promoted_bodies b buffer_there there id_there room some_body whole keeps some_write fired =
        let stored = ap (λ q. q.0) ((capture_request_cases cfg body).0 some_body whole).0 in
        let shows =
          run_wrapped-Shows cfg p (redacted_in_place cfg body.bytes).2 send events fresh_capture
            (push_request (capture_request cfg body).0 p heap) w keeps
            (request_pushed b (redacted_in_place cfg body.bytes).2 there stored) in
        let has =
          shown_response (redacted_in_place cfg body.bytes).2
            (redacted cfg (joined (writes_of events))).2
            (capture_all cfg fresh_capture (writes_of events)) ended.0 shows
            (capture_all-stored cfg (writes_of events) room some_write) in
        (
          request_trace read now r (deref ended.0 p)
              (pass_all send (fresh_writer, w) (calls_of events)).0.status_code,
          traced-store buffer_there id_there fired,
          trace_of-HasTracedBodies _ _ _ refl refl has,
          traced-response buffer_there,
          run_wrapped-transparent send cfg p events fresh_capture _ heap w
              ∙ sym (traced-response buffer_there),
        )
