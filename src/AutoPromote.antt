-- ===== src/AutoPromote.antt =====
-- `AutoPromoteMiddleware` and `promoteFromRequest` of autopromote.go. The handler behind it is any
-- function: the calls that it makes on its response writer, and what it leaves in the buffers and in
-- the environment of clock and random source. The store is any state with a `Promote`.
pub mod Promoted
pub mod Pipeline
mod Examples
use promolog.Prelude.{
  ℕ, ℤ, pos, Bool, true, false, List, [], ◌∷◌, Option, none, some, Str, is_empty, if◌then◌else◌,
}
use promolog.Trace.{Trace, Time, zero_time}
use promolog.Buffer.{Buffer, tags, get_entries}
use promolog.Context.{Context, Heap, get_request_id, get_parent_request_id, get_buffer}
use promolog.Http.{Request, Call}
use promolog.Response.{fresh_writer, pass_all}
use promolog.Policy.{PromotionPolicy, any_policy}
use promolog.Operation.{deref}

-- The trace of a request; `read` is the time at which `Entries` is called, `now` that of the last
-- field.
unfoldable pub request_trace : Time → Time → Request → Buffer → ℤ → Trace
request_trace read now r b status_code = record {
  request_id = get_request_id r.ctx;
  parent_request_id = get_parent_request_id r.ctx;
  error_chain = [];
  status_code = status_code;
  route = r.path;
  method = r.method;
  user_agent = r.user_agent;
  remote_ip = r.remote_addr;
  user_id = [];
  tags = tags b;
  entries = get_entries read b;
  request_body = b.request_body;
  response_body = b.response_body;
  created_at = now;
  kind = [];
  operation_id = [];
  operation_name = [];
  origin_request_id = [];
  status = [];
  started_at = zero_time;
  duration = pos 0;
}

module _ (S Err : Type 0) (promote : Context → Trace → S → S × Option Err) where
  unfoldable pub promote_buffer : Time → Time → Request → ℤ → Heap → Option ℕ → S → S
  promote_buffer read now r status_code heap none s = s
  promote_buffer read now r status_code heap (some p) s =
      (promote r.ctx (request_trace read now r (deref heap p) status_code) s).0

  -- The error of `Promote` is dropped.
  unfoldable pub promote_from_request : Time → Time → Request → ℤ → Heap → S → S
  unfolding promote_buffer
  promote_from_request read now r status_code heap s =
      if is_empty (get_request_id r.ctx)
      then s
      else promote_buffer read now r status_code heap (get_buffer r.ctx) s

  module _ (E W : Type 0) (send : W → Call → W) where
    -- What the middleware leaves: the store, the response writer, the buffers, the environment.
    pub record Served : Type 0 where
      pub store : S
      pub response : W
      pub heap : Heap
      pub env : E

    unfoldable pub auto_promote_middleware :
        List (PromotionPolicy E)
        → (Request → Heap → E → List Call × Heap × E)
        → Time
        → Time
        → Request
        → Heap
        → E
        → S
        → W
        → Served
    auto_promote_middleware policies next read now r heap env s w =
        let (calls, heap', env') = next r heap env in
        let (base, w') = pass_all send (fresh_writer, w) calls in
        let (fires, env'') = any_policy policies r base.status_code env' in
        record {
          store = if fires then promote_from_request read now r base.status_code heap' s else s;
          response = w';
          heap = heap';
          env = env'';
        }
