-- ===== src/Response.antt =====
-- `responseWriter` of autopromote.go: the wrapper that remembers the status code. The writer that it
-- wraps is any state with an answer to each call. Of the optional interfaces of that writer, Flusher
-- and Hijacker are modelled, which the variants of the wrapper pass on.
pub mod Recorded
mod Examples
use promolog.Prelude.{ℤ, pos, Bool, true, false, List, [], ◌∷◌, Str, if◌then◌else◌}
use promolog.Http.{Call, write_header, write, flush, hijack, Abilities}

-- `responseWriter`, without the writer that it embeds.
pub record ResponseWriter : Type 0 where
  pub status_code : ℤ
  pub written : Bool

-- `&responseWriter{ResponseWriter: w, statusCode: http.StatusOK}`.
abbrev pub fresh_writer : ResponseWriter
fresh_writer = record { status_code = pos 200; written = false }

unfoldable pub note_header : ℤ → ResponseWriter → ResponseWriter
note_header code base =
    if base.written then base else record base { status_code = code; written = true }

unfoldable pub note_write : ResponseWriter → ResponseWriter
note_write base =
    if base.written then base else record base { status_code = pos 200; written = true }

-- What each method of the wrapper changes before it calls the wrapped writer.
unfoldable pub note : Call → ResponseWriter → ResponseWriter
unfolding note_header note_write
note (write_header code) base = note_header code base
note (write b) base = note_write base
note flush base = base
note hijack base = base

-- The wrapper's variants by method set.
pub data Variant : Type 0 where
  rw_flush_hijacker rw_flusher rw_hijacker plain : Variant

unfoldable pub wrap_response_writer : Abilities → Variant
wrap_response_writer w =
    if w.flusher
    then if w.hijacker then rw_flush_hijacker else rw_flusher
    else if w.hijacker
    then rw_hijacker
    else plain

-- The optional methods that a variant declares.
unfoldable pub variant_abilities : Variant → Abilities
variant_abilities rw_flush_hijacker = record { flusher = true; hijacker = true }
variant_abilities rw_flusher = record { flusher = true; hijacker = false }
variant_abilities rw_hijacker = record { flusher = false; hijacker = true }
variant_abilities plain = record { flusher = false; hijacker = false }

-- A call through the wrapper: its own note, then the same call on the wrapped writer.
unfoldable pub pass : {W : Type 0} → (W → Call → W) → ResponseWriter × W → Call → ResponseWriter × W
pass send (base, w) c = (note c base, send w c)

-- What a handler does with its writer, call by call.
unfoldable pub pass_all :
    {W : Type 0} → (W → Call → W) → ResponseWriter × W → List Call → ResponseWriter × W
pass_all send s [] = s
pass_all send s (c ∷ cs) = pass_all send (pass send s c) cs
