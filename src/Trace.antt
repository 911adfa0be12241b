-- ===== src/Trace.antt =====
-- The data of promolog.go: log entries, traces and summaries. An instant is
-- the number of nanoseconds since Go's zero time, a duration a number of nanoseconds.
pub mod Age
use promolog.Prelude.{
  ◌-◌, ◌^◌, ℤ, pos, negsuc, ◌-ℤ◌, ◌+ℤ◌, ltb_ℤ, if◌then◌else◌, List, Option, Bool, Str, Dict, eqb_ℤ,
}

abbrev pub Time : Type 0
Time = ℤ

abbrev pub Duration : Type 0
Duration = ℤ

-- `time.Time{}` and `IsZero`.
abbrev pub zero_time : Time
zero_time = pos 0

abbrev pub is_zero : Time → Bool
is_zero t = eqb_ℤ t zero_time

pub record Entry : Type 0 where
  pub time : Time
  pub level : Str
  pub message : Str
  pub attrs : Option (Dict Str)

pub record Trace : Type 0 where
  pub request_id : Str
  pub parent_request_id : Str
  pub error_chain : Str
  pub status_code : ℤ
  pub route : Str
  pub method : Str
  pub user_agent : Str
  pub remote_ip : Str
  pub user_id : Str
  pub tags : Option (Dict Str)
  pub entries : List Entry
  pub request_body : Str
  pub response_body : Str
  pub created_at : Time
  pub kind : Str
  pub operation_id : Str
  pub operation_name : Str
  pub origin_request_id : Str
  pub status : Str
  pub started_at : Time
  pub duration : Duration

pub record TraceSummary : Type 0 where
  pub request_id : Str
  pub parent_request_id : Str
  pub error_chain : Str
  pub status_code : ℤ
  pub route : Str
  pub method : Str
  pub remote_ip : Str
  pub user_id : Str
  pub tags : Option (Dict Str)
  pub created_at : Time
  pub kind : Str
  pub operation_id : Str
  pub operation_name : Str
  pub origin_request_id : Str
  pub status : Str
  pub started_at : Time
  pub duration : Duration

abbrev pub max_duration : Duration
max_duration = pos (2 ^ 63 - 1)

abbrev pub min_duration : Duration
min_duration = negsuc (2 ^ 63 - 1)

-- `t.Sub(u)`, which stops at the ends of an int64.
unfoldable pub time_sub : Time → Time → Duration
time_sub t u =
    let d = t -ℤ u in
    if ltb_ℤ max_duration d then max_duration else if ltb_ℤ d min_duration then min_duration else d

-- `t.Add(d)`.
abbrev pub time_add : Time → Duration → Time
time_add t d = t +ℤ d
