-- ===== src/Http.antt =====
-- The parts of net/http that the middleware of the package reads and writes: a request, and the
-- calls that a handler makes on its response writer. A header holds the canonical form of a name,
-- the one that `Get` and `Set` use, with its first value.
pub mod Sent
use promolog.Prelude.{ℤ, pos, Bool, Str, Dict, List, [], ◌∷◌, Option, none, some, lookup}
use promolog.Context.{Context}

pub record Request : Type 0 where
  pub path : Str
  pub method : Str
  pub user_agent : Str
  pub remote_addr : Str
  pub header : Dict Str
  pub ctx : Context

abbrev pub text_or_empty : Option Str → Str
text_or_empty none = []
text_or_empty (some v) = v

-- `Header.Get`: the empty string where the name is missing.
unfoldable pub header_get : Str → Dict Str → Str
header_get k h = text_or_empty (lookup k h)

-- A call on a `ResponseWriter`, with the optional interfaces.
pub data Call : Type 0 where
  write_header : ℤ → Call
  write : Str → Call
  flush hijack : Call

-- Whether a writer is an http.Flusher and an http.Hijacker. Its other optional interfaces are left out.
pub record Abilities : Type 0 where
  pub flusher : Bool
  pub hijacker : Bool
