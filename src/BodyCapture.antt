-- ===== src/BodyCapture.antt =====
-- bodycapture.go: the middleware that copies the start of the request body and of the response body
-- into the buffer of the context. A body is the bytes that it still gives and the error behind
-- them. A redactor may write to the slice that it is given, and an `append` to that slice writes to the
-- bytes behind it: given both, it answers with what they then hold and with the result.
-- The greatest `int` as a limit, to which the code adds 1, is left out.
pub mod Request
pub mod Response
pub mod Middleware
pub mod Chain
pub mod Promoted
mod Examples
use promolog.Prelude.{
  ℕ, ◌+◌, ◌-◌, ◌*◌, ℤ, pos, pos_part, ltb_ℤ, List, [], ◌∷◌, ◌++◌, Option, none, some, ltb,
  if◌then◌else◌, length, take, drop, Str, is_empty,
}

pub record BodyCaptureConfig : Type 0 where
  pub max_body_size : ℕ
  pub redactor : Option (Str → Str → Str × Str × Str)

abbrev pub default_config : BodyCaptureConfig
default_config = record { max_body_size = 64 * 1024; redactor = none }

unfoldable pub with_max_body_size : ℤ → BodyCaptureConfig → BodyCaptureConfig
with_max_body_size n c = if ltb_ℤ (pos 0) n then record c { max_body_size = pos_part n } else c

unfoldable pub with_redactor : (Str → Str → Str × Str × Str) → BodyCaptureConfig → BodyCaptureConfig
with_redactor fn c = record c { redactor = some fn }

unfoldable pub configure :
    List (BodyCaptureConfig → BodyCaptureConfig) → BodyCaptureConfig → BodyCaptureConfig
configure [] c = c
configure (o ∷ os) c = configure os (o c)

-- What the slice and the bytes behind it hold after the redactor, and what is stored.
unfoldable pub redact : Option (Str → Str → Str × Str × Str) → Str → Str → Str × Str × Str
redact none captured behind = (captured, behind, captured)
redact (some fn) captured behind = fn captured behind

pub record Body (X : Type 0) : Type 0 where
  pub bytes : Str
  pub failure : Option X

-- `io.ReadAll` of a reader of at most `n` bytes: the bytes, the error, and the body behind them.
unfoldable pub read_limited : {X : Type 0} → ℕ → Body X → Str × Option X × Body X
read_limited n b = (
  take n b.bytes,
  (if ltb (length b.bytes) n then b.failure else none),
  record b { bytes = drop n b.bytes },
)

-- `io.MultiReader(bytes.NewReader(body), r.Body)`.
abbrev pub prepend : {X : Type 0} → Str → Body X → Body X
prepend bytes b = record b { bytes = bytes ++ b.bytes }

-- Behind the read: what is stored in the buffer, if anything, and the body of the handler behind the
-- middleware. `captured` shares its array with `body`, which has one byte behind the limit at most.
unfoldable pub capture_read :
    {X : Type 0} → BodyCaptureConfig → Str → Option X → Body X → Option Str × Body X
capture_read cfg body (some e) rest = (none, prepend body rest)
capture_read cfg body none rest =
    if is_empty body
    then (none, prepend body rest)
    else (let (slice, behind, stored) =
          redact cfg.redactor (take cfg.max_body_size body) (drop cfg.max_body_size body) in
        (some stored, prepend (slice ++ behind) rest))

-- The capture of the request body. A nil body and `http.NoBody`, which the code leaves alone, are a
-- body without bytes.
unfoldable pub capture_request : {X : Type 0} → BodyCaptureConfig → Body X → Option Str × Body X
capture_request cfg b =
    let (body, failure, rest) = read_limited (cfg.max_body_size + 1) b in
    capture_read cfg body failure rest

-- `captureResponseWriter`, with the response body that it has stored in the buffer, if any.
pub record CaptureResponseWriter : Type 0 where
  pub cap_buf : Str
  pub captured : ℕ
  pub stored : Option Str

abbrev pub fresh_capture : CaptureResponseWriter
fresh_capture = record { cap_buf = []; captured = 0; stored = none }

-- The redactor is given a copy here, with nothing behind it. The write to the writer below is that of its own bytes.
unfoldable pub capture_write :
    BodyCaptureConfig → CaptureResponseWriter → Str → CaptureResponseWriter
capture_write cfg crw b =
    let remaining = cfg.max_body_size - crw.captured in
    let to_capture = if ltb remaining (length b) then take remaining b else b in
    let cap_buf = crw.cap_buf ++ to_capture in
    if ltb 0 remaining
    then record {
      cap_buf = cap_buf;
      captured = crw.captured + length to_capture;
      stored = some (redact cfg.redactor cap_buf []).2;
    }
    else crw

unfoldable pub capture_all :
    BodyCaptureConfig → CaptureResponseWriter → List Str → CaptureResponseWriter
capture_all cfg crw [] = crw
capture_all cfg crw (b ∷ bs) = capture_all cfg (capture_write cfg crw b) bs
