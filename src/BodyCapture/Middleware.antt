-- ===== src/BodyCapture/Middleware.antt =====
-- `BodyCaptureMiddleware` of bodycapture.go around a handler. What a handler does is the list of its
-- events: the calls on its response writer, and what it does to the buffers between them.
use promolog.Prelude.{
  ℕ, ◌-◌, true, false, List, [], ◌∷◌, Option, none, some, ltb, Str, if◌then◌else◌,
}
use promolog.Buffer.{set_request_body, set_response_body}
use promolog.Context.{Heap, get_buffer, update}
use promolog.Http.{Request, Call, write_header, write, flush, hijack, Abilities}
use promolog.BodyCapture.{
  BodyCaptureConfig, Body, capture_request, CaptureResponseWriter, fresh_capture, capture_write,
}

pub data Event : Type 0 where
  respond : Call → Event
  touch : (Heap → Heap) → Event

-- The wrapper's variants by method set.
pub data CaptureVariant : Type 0 where
  crw_flush_hijacker crw_flusher crw_hijacker plain_capture : CaptureVariant

unfoldable pub wrap_capture_response_writer : Abilities → CaptureVariant
wrap_capture_response_writer w =
    if w.flusher
    then if w.hijacker then crw_flush_hijacker else crw_flusher
    else if w.hijacker
    then crw_hijacker
    else plain_capture

-- The optional methods that a variant declares.
unfoldable pub capture_abilities : CaptureVariant → Abilities
capture_abilities crw_flush_hijacker = record { flusher = true; hijacker = true }
capture_abilities crw_flusher = record { flusher = true; hijacker = false }
capture_abilities crw_hijacker = record { flusher = false; hijacker = true }
capture_abilities plain_capture = record { flusher = false; hijacker = false }

abbrev pub push_stored : Option Str → ℕ → Heap → Heap
push_stored none p heap = heap
push_stored (some text) p heap = update (set_response_body text) p heap

abbrev pub push_request : Option Str → ℕ → Heap → Heap
push_request none p heap = heap
push_request (some text) p heap = update (set_request_body text) p heap

-- What `Write` of the wrapper does before it calls the writer below.
unfoldable pub note_written :
    BodyCaptureConfig → ℕ → CaptureResponseWriter × Heap → Str → CaptureResponseWriter × Heap
note_written cfg p (crw, heap) b =
    let crw' = capture_write cfg crw b in
    (
      crw',
      if ltb 0 (cfg.max_body_size - crw.captured) then push_stored crw'.stored p heap else heap,
    )

-- What each method of the wrapper does before it calls the writer below.
unfoldable pub note_call :
    BodyCaptureConfig → ℕ → CaptureResponseWriter × Heap → Call → CaptureResponseWriter × Heap
unfolding note_written
note_call cfg p s (write b) = note_written cfg p s b
note_call cfg p s (write_header code) = s
note_call cfg p s flush = s
note_call cfg p s hijack = s

module _ {W : Type 0} (send : W → Call → W) where
  -- A handler on the writer itself.
  unfoldable pub run_plain : List Event → Heap × W → Heap × W
  run_plain [] s = s
  run_plain (respond c ∷ events) (heap, w) = run_plain events (heap, send w c)
  run_plain (touch f ∷ events) (heap, w) = run_plain events (f heap, w)

  -- A handler on the wrapper: its note of a call, then the same call on the writer below.
  unfoldable pub run_wrapped :
      BodyCaptureConfig → ℕ → List Event → CaptureResponseWriter → Heap × W → Heap × W
  run_wrapped cfg p [] crw s = s
  run_wrapped cfg p (respond c ∷ events) crw (heap, w) =
      let (crw', heap') = note_call cfg p (crw, heap) c in
      run_wrapped cfg p events crw' (heap', send w c)
  run_wrapped cfg p (touch f ∷ events) crw (heap, w) = run_wrapped cfg p events crw (f heap, w)

  module _ {X A : Type 0} (cfg : BodyCaptureConfig)
      (next : Request → Body X → (List Event → Heap × W → Heap × W) → Heap → A) where
    -- With the buffer of the context, if there is one.
    unfoldable pub capture_around : Request → Body X → Heap → Option ℕ → A
    capture_around r body heap none = next r body run_plain heap
    capture_around r body heap (some p) =
        let (stored, body') = capture_request cfg body in
        next r body' (λ events s. run_wrapped cfg p events fresh_capture s)
          (push_request stored p heap)

    -- The handler behind it gets the request, its body, a writer as the function that runs a handler's
    -- events, and the buffers.
    unfoldable pub body_capture_middleware : Request → Body X → Heap → A
    unfolding capture_around
    body_capture_middleware r body heap = capture_around r body heap (get_buffer r.ctx)
