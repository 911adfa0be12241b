-- ===== src/AutoPromote/Promoted.antt =====
-- When the middleware promotes a request, and with which trace.
use promolog.Prelude.{
  ℕ, ℤ, Bool, true, false, List, [], Option, none, some, ◌≡◌, ◌≢◌, ◌⊎◌, inl, inr, ap, ◌∙◌, is_empty,
  is_empty_of_ne, if_same, if◌then◌else◌,
}
use promolog.Trace.{Trace, Time}
use promolog.Context.{Context, Heap, get_request_id, get_buffer}
use promolog.Http.{Request, Call}
use promolog.Response.{fresh_writer, pass_all}
use promolog.Policy.{PromotionPolicy, any_policy}
use promolog.Operation.{deref}
use promolog.AutoPromote.{request_trace, promote_from_request, Served, auto_promote_middleware}

module _ (S Err : Type 0) (promote : Context → Trace → S → S × Option Err) (E W : Type 0)
    (send : W → Call → W) (policies : List (PromotionPolicy E))
    (next : Request → Heap → E → List Call × Heap × E) (read now : Time) (r : Request) (heap : Heap)
    (env : E) (s : S) (w : W) where
  -- The status that the wrapper recorded, and what the policies say to it.
  abbrev pub recorded : ℤ
  recorded = (pass_all send (fresh_writer, w) (next r heap env).0).0.status_code

  abbrev pub decision : Bool × E
  decision = any_policy policies r recorded (next r heap env).2

  abbrev pub served : Served S Err promote E W send
  served = auto_promote_middleware S Err promote E W send policies next read now r heap env s w

  nothing_to_promote :
      (code : ℤ) (buffers : Heap)
      → (get_request_id r.ctx ≡ []) ⊎ (get_buffer r.ctx ≡ none)
      → promote_from_request S Err promote read now r code buffers s ≡ s
  unfolding promote_from_request
  nothing_to_promote code buffers (inl no_id) = rw no_id
  nothing_to_promote code buffers (inr no_buffer) =
      rw no_buffer (if_same (is_empty (get_request_id r.ctx)) s)

  -- If a policy fires, and the context has a request ID and a buffer, the store is the one after one
  -- `Promote` of the trace made of the request, of the recorded status and of what the buffer holds
  -- after the handler. If no policy fires, or the ID or the buffer is missing, the store is as
  -- before.
  pub auto_promote_store :
      ((p : ℕ)
        → decision.0 ≡ true
        → get_request_id r.ctx ≢ []
        → get_buffer r.ctx ≡ some p
        → served.store
          ≡ (promote r.ctx (request_trace read now r (deref (next r heap env).1 p) recorded) s).0)
      × ((decision.0 ≡ false) ⊎ ((get_request_id r.ctx ≡ []) ⊎ (get_buffer r.ctx ≡ none))
          → served.store ≡ s)
  unfolding auto_promote_middleware promote_from_request
  auto_promote_store = (
    λ p fires id_there buffer_there.
        rw (fires, is_empty_of_ne (get_request_id r.ctx) id_there, buffer_there),
    elim [
      | inl quiet ↦ rw quiet
      | inr missing ↦
          ap (λ store. if decision.0 then store else s)
            (nothing_to_promote recorded (next r heap env).1 missing)
          ∙ if_same decision.0 s
    ],
  )
