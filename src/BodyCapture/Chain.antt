-- ===== src/BodyCapture/Chain.antt =====
-- What the buffer holds of the bodies while a handler writes through the wrapper, and what the writer
-- below the wrapper gets.
use promolog.Prelude.{
  ℕ, ◌-◌, true, false, Bool-cases, inl, inr, ◌⊎◌, List, [], ◌∷◌, none, some, ◌≡◌, refl, sym, subst,
  ltb, get_elem?, All, Str,
}
use promolog.Buffer.{Buffer, set_response_body}
use promolog.Context.{Heap}
use promolog.Context.Laws.{update_self}
use promolog.Http.{Call, write_header, write, flush, hijack, Abilities}
use promolog.BodyCapture.{BodyCaptureConfig, CaptureResponseWriter, capture_write, capture_all}
use promolog.BodyCapture.Middleware.{
  Event, respond, touch, push_stored, note_written, note_call, run_plain, run_wrapped,
  wrap_capture_response_writer, capture_abilities,
}

abbrev pub calls_of : List Event → List Call
calls_of [] = []
calls_of (respond c ∷ events) = c ∷ calls_of events
calls_of (touch f ∷ events) = calls_of events

-- The bytes of each write.
abbrev pub writes_of : List Event → List Str
writes_of [] = []
writes_of (respond (write b) ∷ events) = b ∷ writes_of events
writes_of (respond (write_header code) ∷ events) = writes_of events
writes_of (respond flush ∷ events) = writes_of events
writes_of (respond hijack ∷ events) = writes_of events
writes_of (touch f ∷ events) = writes_of events

-- The buffer at `p` with its bodies.
pub record HasBodies (p : ℕ) (heap : Heap) (request response : Str) : Type 0 where
  pub buf : Buffer
  pub there : get_elem? heap p ≡ some buf
  pub request_body : buf.request_body ≡ request
  pub response_body : buf.response_body ≡ response

-- The handler sets no body: what it does to the buffers keeps the bodies of the buffer at `p`.
abbrev pub KeepsBodies : ℕ → Event → Type 0
KeepsBodies p (respond c) = Unit
KeepsBodies p (touch f) =
    (heap : Heap) (request response : Str)
    → HasBodies p heap request response
    → HasBodies p (f heap) request response

module _ (cfg : BodyCaptureConfig) (p : ℕ) (request : Str) where
  -- The buffer shows what the wrapper has stored.
  abbrev pub Shows : CaptureResponseWriter → Heap → Type 0
  Shows crw heap =
      (response : Str) × HasBodies p heap request response
      × ((crw.stored ≡ none) ⊎ (crw.stored ≡ some response))

  pushed :
      (crw : CaptureResponseWriter) (heap : Heap) (before text : Str)
      → HasBodies p heap request before
      → crw.stored ≡ some text
      → Shows crw (push_stored crw.stored p heap)
  unfolding set_response_body
  pushed crw heap before text has e =
      subst (λ o. Shows crw (push_stored o p heap)) (sym e)
        (
          text,
          record {
            buf = set_response_body text has.buf;
            there = update_self (set_response_body text) p heap has.buf has.there;
            request_body = has.request_body;
            response_body = refl;
          },
          inr e,
        )

  capture_write_room :
      (crw : CaptureResponseWriter) (b : Str)
      → ltb 0 (cfg.max_body_size - crw.captured) ≡ true
      → (text : Str) × ((capture_write cfg crw b).stored ≡ some text)
  unfolding capture_write
  capture_write_room crw b room = rw room (_, refl)

  capture_write_full :
      (crw : CaptureResponseWriter) (b : Str)
      → ltb 0 (cfg.max_body_size - crw.captured) ≡ false
      → capture_write cfg crw b ≡ crw
  unfolding capture_write
  capture_write_full crw b full = rw full

  -- One write: where there is no room, neither the wrapper nor the buffer changes.
  note_written-Shows :
      (crw : CaptureResponseWriter) (heap : Heap) (b : Str)
      → Shows crw heap
      → Shows (capture_write cfg crw b) (note_written cfg p (crw, heap) b).1
  unfolding note_written
  note_written-Shows crw heap b shows =
      elim (Bool-cases (ltb 0 (cfg.max_body_size - crw.captured))) [
        | inl room ↦
            let (text, e) = capture_write_room crw b room in
            rw room (pushed (capture_write cfg crw b) heap shows.0 text shows.1 e)
        | inr full ↦ rw full (subst (λ c. Shows c heap) (sym (capture_write_full crw b full)) shows)
      ]

  touched :
      (crw : CaptureResponseWriter) (heap : Heap) (f : Heap → Heap)
      → KeepsBodies p (touch f)
      → Shows crw heap
      → Shows crw (f heap)
  touched crw heap f keeps (response, has, stored) =
      (response, keeps heap request response has, stored)

  module _ {W : Type 0} (send : W → Call → W) where
    pub run_wrapped-Shows :
        (events : List Event) (crw : CaptureResponseWriter) (heap : Heap) (w : W)
        → All (KeepsBodies p) events
        → Shows crw heap
        → Shows
            (capture_all cfg crw (writes_of events))
            (run_wrapped send cfg p events crw (heap, w)).0
    unfolding run_wrapped note_call capture_all note_written
    run_wrapped-Shows [] crw heap w keeps shows = shows
    run_wrapped-Shows (respond (write b) ∷ events) crw heap w keeps shows =
        run_wrapped-Shows events (capture_write cfg crw b) (note_written cfg p (crw, heap) b).1
          (send w (write b)) keeps.1 (note_written-Shows crw heap b shows)
    run_wrapped-Shows (respond (write_header code) ∷ events) crw heap w keeps shows =
        run_wrapped-Shows events crw heap (send w (write_header code)) keeps.1 shows
    run_wrapped-Shows (respond flush ∷ events) crw heap w keeps shows =
        run_wrapped-Shows events crw heap (send w flush) keeps.1 shows
    run_wrapped-Shows (respond hijack ∷ events) crw heap w keeps shows =
        run_wrapped-Shows events crw heap (send w hijack) keeps.1 shows
    run_wrapped-Shows (touch f ∷ events) crw heap w keeps shows =
        run_wrapped-Shows events crw (f heap) w keeps.1 (touched crw heap f keeps.0 shows)

-- The writer below the wrapper gets what it gets without the wrapper.
pub run_wrapped-transparent :
    {W : Type 0} (send : W → Call → W) (cfg : BodyCaptureConfig) (p : ℕ) (events : List Event)
    (crw : CaptureResponseWriter) (heap heap' : Heap) (w : W)
    → (run_wrapped send cfg p events crw (heap, w)).1 ≡ (run_plain send events (heap', w)).1
unfolding run_wrapped run_plain
run_wrapped-transparent send cfg p [] crw heap heap' w = refl
run_wrapped-transparent send cfg p (respond c ∷ events) crw heap heap' w =
    run_wrapped-transparent send cfg p events (note_call cfg p (crw, heap) c).0
      (note_call cfg p (crw, heap) c).1 heap' (send w c)
run_wrapped-transparent send cfg p (touch f ∷ events) crw heap heap' w =
    run_wrapped-transparent send cfg p events crw (f heap) (f heap') w

-- The wrapper has the optional methods of the writer below it.
capture_abilities_lem : (w : Abilities) → capture_abilities (wrap_capture_response_writer w) ≡ w
unfolding capture_abilities wrap_capture_response_writer
capture_abilities_lem w = elim (Bool-cases w.flusher) [
  | inl f ↦ elim (Bool-cases w.hijacker) [ inl h ↦ rw (f, h) | inr h ↦ rw (f, h) ]
  | inr f ↦ elim (Bool-cases w.hijacker) [ inl h ↦ rw (f, h) | inr h ↦ rw (f, h) ]
]
