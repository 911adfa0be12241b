-- ===== src/Buffer.antt =====
-- `Buffer` of promolog.go. Every method holds the mutex from its first line to its return, so a
-- call is one step: a function from the buffer to the new buffer, or to the result. The limit is
-- the ℕ that `NewBuffer` leaves after its clamp.
pub mod Window
pub mod Concurrent
pub mod Tags
mod Examples
use promolog.Prelude.{
  ℕ, ◌+◌, ◌-◌, ◌/◌, ℤ, pos, negsuc, pos_part, ltb_ℤ, List, [], ◌∷◌, ◌++◌, Option, none, some, ltb,
  ◌==◌, if◌then◌else◌, length, set, take, drop, Str, lit, Dict, lookup, insert,
}
use promolog.Decimal.{decimal}
use promolog.Trace.{Entry, Time}

pub record Buffer : Type 0 where
  pub entries : List Entry
  pub limit : ℕ
  pub head : List Entry
  pub tail : List Entry
  pub total : ℕ
  pub elided : ℕ
  pub tags : Option (Dict Str)
  pub request_body : Str
  pub response_body : Str

-- `&Buffer{limit: n}`.
abbrev pub empty_buffer : ℕ → Buffer
empty_buffer n = record {
  entries = [];
  limit = n;
  head = [];
  tail = [];
  total = 0;
  elided = 0;
  tags = none;
  request_body = [];
  response_body = [];
}

unfoldable pub new_buffer : ℤ → Buffer
new_buffer limit = if ltb_ℤ limit (pos 0) then empty_buffer 0 else empty_buffer (pos_part limit)

-- The map that `Tag` writes to: a fresh one where `tags` is nil.
abbrev pub tags_or_new : Option (Dict Str) → Dict Str
tags_or_new none = []
tags_or_new (some m) = m

unfoldable pub tag : Str → Str → Buffer → Buffer
tag key value b = record b { tags = some (insert key value (tags_or_new b.tags)) }

-- `Tags` returns nil where there is no tag.
unfoldable pub copy_tags : Option (Dict Str) → Option (Dict Str)
copy_tags none = none
copy_tags (some []) = none
copy_tags (some (e ∷ m)) = some (e ∷ m)

unfoldable pub tags : Buffer → Option (Dict Str)
unfolding copy_tags
tags b = copy_tags b.tags

-- `copy(dst, src)` overwrites the first elements of `dst`, as many as both slices have.
abbrev pub copy : List Entry → List Entry → List Entry
copy dst src = take (length dst) src ++ drop (length src) dst

-- `copy(tail, tail[1:]); tail[tailSize-1] = e`.
abbrev pub overwrite_oldest : ℕ → List Entry → Entry → List Entry
overwrite_oldest tail_size t e = set (copy t (drop 1 t)) (tail_size - 1) e

unfoldable pub append_limited : Buffer → Entry → Buffer
append_limited b e =
    let b' = record b { total = b.total + 1 } in
    let head_size = b.limit / 2 in
    let tail_size = b.limit - head_size in
    if ltb (length b.head) head_size
    then record b' { head = b.head ++ e ∷ [] }
    else if ltb (length b.tail) tail_size
    then record b' { tail = b.tail ++ e ∷ [] }
    else record b' { elided = b.elided + 1; tail = overwrite_oldest tail_size b.tail e }

unfoldable pub append : Buffer → Entry → Buffer
unfolding append_limited
append b e = if b.limit == 0 then record b { entries = b.entries ++ e ∷ [] } else append_limited b e

-- The synthetic entry between head and tail; `now` is the time of the call of `Entries`.
unfoldable pub elided_entry : Time → ℕ → ℕ → Entry
elided_entry now elided limit = record {
  time = now;
  level = lit "WARN";
  message =
      lit "promolog: "
      ++ (decimal elided
          ++ (lit " log entries elided (buffer limit " ++ (decimal limit ++ lit ")")));
  attrs = none;
}

unfoldable pub get_entries : Time → Buffer → List Entry
get_entries now b =
    if b.limit == 0
    then b.entries
    else if ltb 0 b.elided
    then b.head ++ elided_entry now b.elided b.limit ∷ b.tail
    else b.head ++ b.tail

-- The deprecated `Snapshot`.
unfoldable pub snapshot : Time → Buffer → List Entry
unfolding get_entries
snapshot now b = get_entries now b

unfoldable pub set_request_body : Str → Buffer → Buffer
set_request_body body b = record b { request_body = body }

unfoldable pub set_response_body : Str → Buffer → Buffer
set_response_body body b = record b { response_body = body }

-- A run of calls of `Append`, in the order in which they get the mutex.
unfoldable pub append_all : Buffer → List Entry → Buffer
append_all b [] = b
append_all b (e ∷ es) = append_all (append b e) es
