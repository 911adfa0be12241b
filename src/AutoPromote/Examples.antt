-- ===== src/AutoPromote/Examples.antt =====
-- Tests of the middleware stack, and its theorems at a concrete request.
use promolog.Prelude.{
  ℕ, pos, ◌≤ℤ◌, true, false, List, [], ◌∷◌, ◌++◌, Option, none, some, ◌≡◌, ◌≢◌, ◌⊎◌, refl, Str, lit,
  lookup, All,
}
use promolog.Trace.{Trace}
use promolog.Context.{Context, Heap, request_id, buffer, get_request_id, get_buffer}
use promolog.Buffer.{empty_buffer}
use promolog.Http.{Request, Call, write_header, write, header_get}
use promolog.Http.Sent.{sent_status, is_informational}
use promolog.Response.Recorded.{IsFinal}
use promolog.Policy.{status_policy}
use promolog.Operation.{deref}
use promolog.Identifier.{generate_id}
use promolog.Handler.{Handler, LogRecord}
use promolog.Correlation.{choose_ids}
use promolog.Correlation.Linked.{chosen}
use promolog.AutoPromote.{request_trace}
use promolog.AutoPromote.Promoted.{recorded, decision, served, auto_promote_store}
use promolog.AutoPromote.Pipeline.{stack, Tells, stack_promotes}

abbrev keep_trace : Context → Trace → List Trace → List Trace × Option Str
keep_trace ctx t s = (t ∷ s, none)

abbrev log_call : List Call → Call → List Call
log_call calls c = calls ++ c ∷ []

abbrev request : Request
request = record {
  path = lit "/api";
  method = lit "GET";
  user_agent = [];
  remote_addr = [];
  header = [];
  ctx = buffer 0 ∷ request_id (lit "req-1") ∷ [];
}

abbrev failing : List Call
failing = write_header (pos 503) ∷ write (lit "down") ∷ []

abbrev fail : Request → Heap → Unit {0} → List Call × Heap × Unit {0}
fail r heap env = (failing, heap, env)

abbrev heap : Heap
heap = empty_buffer 0 ∷ []

promoted_once :
    ((p : ℕ)
      → (decision
          (List Trace)
          Str
          keep_trace
          (Unit {0})
          (List Call)
          log_call
          (status_policy (pos 500) ∷ [])
          fail
          (pos 8)
          (pos 9)
          request
          heap
          tt
          []
          []).0
        ≡ true
      → get_request_id request.ctx ≢ []
      → get_buffer request.ctx ≡ some p
      → (served
          (List Trace)
          Str
          keep_trace
          (Unit {0})
          (List Call)
          log_call
          (status_policy (pos 500) ∷ [])
          fail
          (pos 8)
          (pos 9)
          request
          heap
          tt
          []
          []).store
        ≡ request_trace (pos 8) (pos 9) request (deref heap p) (
            recorded
              (List Trace)
              Str
              keep_trace
              (Unit {0})
              (List Call)
              log_call
              (status_policy (pos 500) ∷ [])
              fail
              (pos 8)
              (pos 9)
              request
              heap
              tt
              []
              [])
          ∷ [])
    × (((decision
              (List Trace)
              Str
              keep_trace
              (Unit {0})
              (List Call)
              log_call
              (status_policy (pos 500) ∷ [])
              fail
              (pos 8)
              (pos 9)
              request
              heap
              tt
              []
              []).0
            ≡ false)
          ⊎ ((get_request_id request.ctx ≡ []) ⊎ (get_buffer request.ctx ≡ none))
        → (served
            (List Trace)
            Str
            keep_trace
            (Unit {0})
            (List Call)
            log_call
            (status_policy (pos 500) ∷ [])
            fail
            (pos 8)
            (pos 9)
            request
            heap
            tt
            []
            []).store
          ≡ [])
promoted_once =
    auto_promote_store (List Trace) Str keep_trace (Unit {0}) (List Call) log_call
      (status_policy (pos 500) ∷ []) fail (pos 8) (pos 9) request heap tt [] []

abbrev base : Handler (Unit {0}) Str
base = record { inner = tt; request_id = []; attrs = []; buffer_limit = pos 0 }

abbrev echo : Unit {0} → Context → LogRecord → Str
echo inner ctx r = r.message

abbrev lines : List LogRecord
lines =
    record { time = pos 1; level = lit "INFO"; message = lit "a"; attrs = [] }
    ∷ record { time = pos 2; level = lit "ERROR"; message = lit "b"; attrs = [] }
    ∷ []

has_id : (chosen (some (171 ∷ [])) request).0 ≢ []
unfolding choose_ids header_get lookup generate_id
has_id e = cc e

failing-IsFinal : All IsFinal failing
unfolding is_informational
failing-IsFinal = (refl, (tt, tt))

stack_promotes_example :
    (pos 500 ≤ℤ sent_status failing
      → (t : Trace) × ((stack
            (List Trace)
            Str
            keep_trace
            (Unit {0})
            (List Call)
            log_call
            (Unit {0})
            Str
            echo
            base
            lines
            failing
            (pos 500)
            (pos 1)
            (some (171 ∷ []))
            (pos 7)
            (pos 8)
            (pos 9)
            []
            request
            heap
            tt
            []
            []).store
          ≡ t ∷ [])
        × Tells
            (List Trace)
            Str
            keep_trace
            (Unit {0})
            (List Call)
            log_call
            (Unit {0})
            Str
            echo
            base
            lines
            failing
            (pos 500)
            (pos 1)
            (some (171 ∷ []))
            (pos 7)
            (pos 8)
            (pos 9)
            []
            request
            heap
            tt
            []
            []
            t)
    × (¬ (pos 500 ≤ℤ sent_status failing)
        → (stack
            (List Trace)
            Str
            keep_trace
            (Unit {0})
            (List Call)
            log_call
            (Unit {0})
            Str
            echo
            base
            lines
            failing
            (pos 500)
            (pos 1)
            (some (171 ∷ []))
            (pos 7)
            (pos 8)
            (pos 9)
            []
            request
            heap
            tt
            []
            []).store
          ≡ [])
stack_promotes_example =
    stack_promotes (List Trace) Str keep_trace (Unit {0}) (List Call) log_call (Unit {0}) Str echo
      base lines failing (pos 500) (pos 1) (some (171 ∷ [])) (pos 7) (pos 8) (pos 9) [] request heap
      tt [] [] has_id failing-IsFinal refl
