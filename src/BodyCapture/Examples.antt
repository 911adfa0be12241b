-- ===== src/BodyCapture/Examples.antt =====
-- Tests of the body capture, and its theorems at concrete bodies.
use promolog.Prelude.{
  ◌≤◌, ◌<◌, true, List, [], ◌∷◌, ◌++◌, Option, none, some, ◌≡◌, ◌≢◌, ◌⊎◌, inl, refl, Str, lit, pos,
  drop, length, All, arith, take,
}
use promolog.Trace.{Trace}
use promolog.Buffer.{empty_buffer, tag}
use promolog.Context.{Context, Heap, request_id, buffer, get_request_id, get_buffer, update}
use promolog.Context.Laws.{update_self}
use promolog.Http.{Request, Call, write_header, write}
use promolog.Response.{note, pass, pass_all}
use promolog.Policy.{status_policy, any_policy}
use promolog.BodyCapture.{
  BodyCaptureConfig, default_config, with_max_body_size, with_redactor, configure, redact, Body,
  capture_request, capture_read, read_limited, fresh_capture, capture_write, capture_all,
}
use promolog.BodyCapture.Request.{
  redacted, redacted_in_place, after_redactor, cut, capture_request_cases,
}
use promolog.BodyCapture.Response.{joined, capture_all-stored}
use promolog.BodyCapture.Middleware.{Event, respond, touch, run_plain}
use promolog.BodyCapture.Chain.{writes_of, KeepsBodies}
use promolog.BodyCapture.Promoted.{fires, traced, ended, HasTracedBodies, promoted_bodies}

-- A redactor that overwrites the first byte of its slice, and returns the slice.
abbrev overwrite : Str → Str → Str × Str × Str
overwrite [] behind = ([], behind, [])
overwrite (c ∷ s) behind = (b'*' ∷ s, behind, b'*' ∷ s)

-- A redactor that appends a mark: it overwrites the byte behind its slice, where there is one.
abbrev append_mark : Str → Str → Str × Str × Str
append_mark slice [] = (slice, [], slice ++ b'!' ∷ [])
append_mark slice (c ∷ behind) = (slice, b'!' ∷ behind, slice ++ b'!' ∷ [])

abbrev three_bytes : BodyCaptureConfig
three_bytes = record { max_body_size = 3; redactor = some overwrite }

configured :
    configure
      (with_max_body_size (pos 3) ∷ with_redactor overwrite ∷ with_max_body_size (pos 0) ∷ [])
      default_config
    ≡ three_bytes
unfolding configure with_max_body_size with_redactor
configured = refl

abbrev body : Body Str
body = record { bytes = lit "secret"; failure = none }

-- The handler reads what the redactor wrote.
handler_reads_redacted : (capture_request three_bytes body).1.bytes ≡ lit "*ecret"
unfolding capture_request read_limited capture_read redact lit
handler_reads_redacted = refl

-- The handler reads the mark in place of the fourth byte.
handler_reads_mark :
    (capture_request (record three_bytes { redactor = some append_mark }) body).1.bytes
    ≡ lit "sec!et"
unfolding capture_request read_limited capture_read redact lit
handler_reads_mark = refl

response_body :
    (capture_all three_bytes fresh_capture (lit "ab" ∷ lit "cd" ∷ [])).stored ≡ some (lit "*bc")
unfolding capture_all capture_write redact lit
response_body = refl

capture_request_cases_example :
    (body.bytes ≢ []
      → (body.failure ≡ none) ⊎ (cut three_bytes ≤ length body.bytes)
      → (capture_request three_bytes body
          ≡ (some (redacted_in_place three_bytes body.bytes).2, after_redactor three_bytes body))
        × ((redacted_in_place three_bytes body.bytes).0 ≡ take 3 body.bytes
            → (redacted_in_place three_bytes body.bytes).1 ≡ drop 3 (take 4 body.bytes)
            → (capture_request three_bytes body).1 ≡ body))
    × (body.bytes ≡ [] → capture_request three_bytes body ≡ (none, body))
    × (body.failure ≢ none
        → length body.bytes < cut three_bytes
        → capture_request three_bytes body ≡ (none, body))
capture_request_cases_example = capture_request_cases three_bytes body

ab_there : joined (lit "ab" ∷ lit "cd" ∷ []) ≢ []
unfolding lit
ab_there h = cc h

two_writes_stored :
    (capture_all three_bytes fresh_capture (lit "ab" ∷ lit "cd" ∷ [])).stored
    ≡ some (redacted three_bytes (joined (lit "ab" ∷ lit "cd" ∷ []))).2
two_writes_stored = capture_all-stored three_bytes (lit "ab" ∷ lit "cd" ∷ []) (omega arith) ab_there

abbrev keep_trace : Context → Trace → List Trace → List Trace × Option Str
keep_trace ctx t s = (t ∷ s, none)

abbrev log_call : List Call → Call → List Call
log_call calls c = calls ++ c ∷ []

abbrev login : Request
login = record {
  path = lit "/login";
  method = lit "POST";
  user_agent = [];
  remote_addr = [];
  header = [];
  ctx = buffer 0 ∷ request_id (lit "req-1") ∷ [];
}

-- It tags the buffer, fails, and writes back what it has read.
abbrev echo_failure : Request → Body Str → List Event
echo_failure r b =
    touch (update (tag (lit "step") (lit "auth")) 0)
    ∷ respond (write_header (pos 503))
    ∷ respond (write b.bytes)
    ∷ respond (write (lit "!"))
    ∷ []

abbrev one_buffer : Heap
one_buffer = empty_buffer 0 ∷ []

tag-KeepsBodies : KeepsBodies 0 (touch (update (tag (lit "step") (lit "auth")) 0))
unfolding tag
tag-KeepsBodies heap request response has = record {
  buf = tag (lit "step") (lit "auth") has.buf;
  there = update_self (tag (lit "step") (lit "auth")) 0 heap has.buf has.there;
  request_body = has.request_body;
  response_body = has.response_body;
}

abbrev answered : List Event
answered = echo_failure login (capture_request three_bytes body).1

echo_failure-KeepsBodies : All (KeepsBodies 0) answered
echo_failure-KeepsBodies = (tag-KeepsBodies, (tt, (tt, (tt, tt))))

echo_failure-writes : joined (writes_of answered) ≢ []
unfolding capture_request read_limited capture_read redact lit
echo_failure-writes h = cc h

echo_failure-fires :
    fires
      (List Trace)
      Str
      keep_trace
      (Unit {0})
      (List Call)
      log_call
      (status_policy (pos 500) ∷ [])
      Str
      echo_failure
      three_bytes
      (pos 8)
      (pos 9)
      tt
      []
      []
      login
      body
      one_buffer
      0
    ≡ true
unfolding any_policy status_policy pass_all pass note
echo_failure-fires = refl

login_buffer : get_buffer login.ctx ≡ some 0
unfolding get_buffer
login_buffer = refl

login_id : get_request_id login.ctx ≢ []
unfolding get_request_id lit
login_id h = cc h

body_there : body.bytes ≢ []
unfolding lit
body_there h = cc h

promoted_bodies_example :
    (t : Trace) × ((traced
        (List Trace)
        Str
        keep_trace
        (Unit {0})
        (List Call)
        log_call
        (status_policy (pos 500) ∷ [])
        Str
        echo_failure
        three_bytes
        (pos 8)
        (pos 9)
        tt
        []
        []
        login
        body
        one_buffer
        0).store
      ≡ (keep_trace login.ctx t []).0)
    × HasTracedBodies
        (List Trace)
        Str
        keep_trace
        (Unit {0})
        (List Call)
        log_call
        (status_policy (pos 500) ∷ [])
        Str
        echo_failure
        three_bytes
        (pos 8)
        (pos 9)
        tt
        []
        []
        login
        body
        one_buffer
        0
        t
    × ((traced
          (List Trace)
          Str
          keep_trace
          (Unit {0})
          (List Call)
          log_call
          (status_policy (pos 500) ∷ [])
          Str
          echo_failure
          three_bytes
          (pos 8)
          (pos 9)
          tt
          []
          []
          login
          body
          one_buffer
          0).response
        ≡ (run_plain log_call answered (one_buffer, [])).1)
    × ((ended
          (List Trace)
          Str
          keep_trace
          (Unit {0})
          (List Call)
          log_call
          (status_policy (pos 500) ∷ [])
          Str
          echo_failure
          three_bytes
          (pos 8)
          (pos 9)
          tt
          []
          []
          login
          body
          one_buffer
          0).1
        ≡ (traced
            (List Trace)
            Str
            keep_trace
            (Unit {0})
            (List Call)
            log_call
            (status_policy (pos 500) ∷ [])
            Str
            echo_failure
            three_bytes
            (pos 8)
            (pos 9)
            tt
            []
            []
            login
            body
            one_buffer
            0).response)
promoted_bodies_example =
    promoted_bodies (List Trace) Str keep_trace (Unit {0}) (List Call) log_call
      (status_policy (pos 500) ∷ []) Str echo_failure three_bytes (pos 8) (pos 9) tt [] [] login
      body one_buffer 0 (empty_buffer 0) login_buffer refl login_id (omega arith) body_there
      (inl refl) echo_failure-KeepsBodies echo_failure-writes echo_failure-fires
