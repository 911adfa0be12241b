-- ===== src/Sqlite/Cleanup.antt =====
-- `RunCleanup`, `runCleanupWithEngine` and `deleteOlderThan` of sqlite/store.go. Two readings of the
-- clock are arguments: the one that makes the cutoff, in the zone of the host, and the later one that
-- ages are taken at. A panic
-- of `StatusCodeStr` is `none`; it leaves the table as it was, since nothing is deleted before it.
use promolog.Prelude.{
  ℕ, ◌+◌, pos, ltb_ℤ, ◌&&◌, ◌∷◌, [], List, Bool, Option, none, some, Str, lit, Dict, if◌then◌else◌,
}
use promolog.Trace.{Time, Duration, time_sub, time_add}
use promolog.StatusCode.{status_code_str, negate_int}
use promolog.Rule.{RetentionEngine, has_rules, min_ttl, hours_duration, match_retention}
use promolog.Sqlite.Row.{Row}
use promolog.Sqlite.Table.{
  Stamp, Result, ok, err, Table, Cursor, CursorEnd, finished, scan_error, iterate_error,
}

pub data CleanupError (E : Type 0) : Type 0 where
  load_retention_engine_failed : E → CleanupError E
  query_candidates_failed : E → CleanupError E
  scan_candidate_failed : E → CleanupError E
  iterate_candidates_failed : E → CleanupError E
  delete_trace_failed : Str → E → CleanupError E
  delete_expired_failed : E → CleanupError E

-- `t.Add(-ttl)`.
abbrev pub cutoff_of : Time → Duration → Time
cutoff_of t ttl = time_add t (negate_int ttl)

-- `time.Now().Add(-ttl)`, in the zone of the host.
abbrev pub local_cutoff : Duration → Time → Duration → Stamp
local_cutoff zone now ttl = record { instant = cutoff_of now ttl; zone = zone }

-- The least of the default TTL and, where it is positive, the engine's.
unfoldable pub candidate_ttl : Duration → Option RetentionEngine → Duration
candidate_ttl default_ttl engine =
    let rt = min_ttl engine in if ltb_ℤ (pos 0) rt && ltb_ℤ rt default_ttl then rt else default_ttl

-- The fields of a candidate; `none` is a panic.
unfoldable pub candidate_fields : Row → Option (Dict Str)
candidate_fields r = elim (status_code_str r.status_code) [
  | none ↦ none
  | some code ↦ some (
      (lit "remote_ip", r.remote_ip)
      ∷ (lit "route", r.route)
      ∷ (lit "status_code", code)
      ∷ (lit "method", r.method)
      ∷ (lit "user_agent", r.user_agent)
      ∷ (lit "user_id", r.user_id)
      ∷ [])
]

-- The engine of `StartCleanup`: nil where loading it failed.
abbrev pub engine_or_nil : {E : Type 0} → Result E RetentionEngine → Option RetentionEngine
engine_or_nil (ok engine) = some engine
engine_or_nil (err e) = none

module _ (path_match : Str → Str → Option Bool) where
  unfoldable pub effective_ttl : Duration → Option RetentionEngine → Dict Str → Duration
  effective_ttl default_ttl engine fields = elim (match_retention path_match engine fields) [
    | none ↦ default_ttl
    | some rule ↦ hours_duration rule.ttl_hours
  ]

  -- `now.Sub(createdAt) > effectiveTTL`.
  unfoldable pub is_expired : Time → Duration → Option RetentionEngine → Row → Option Bool
  is_expired now default_ttl engine r = elim (candidate_fields r) [
    | none ↦ none
    | some fields ↦
        some (ltb_ℤ (effective_ttl default_ttl engine fields) (time_sub now r.created_at))
  ]

  -- The loop over the candidates: the IDs to delete.
  unfoldable pub select_expired :
      Time → Duration → Option RetentionEngine → List Row → Option (List Str)
  select_expired now default_ttl engine [] = some []
  select_expired now default_ttl engine (r ∷ rs) =
      let rest = select_expired now default_ttl engine rs in
      elim (is_expired now default_ttl engine r) [
        | none ↦ none
        | some gone ↦ elim rest [
          | none ↦ none
          | some ids ↦ some (if gone then r.request_id ∷ ids else ids)
        ]
      ]

  module _ (T : Table) where
    -- The table behind a pass, the number of traces deleted, and the error.
    abbrev pub Pass : Type 0
    Pass = T.State × ℕ × Option (CleanupError T.Error)

    unfoldable pub delete_older_than : Stamp → T.State → Pass
    delete_older_than cutoff s =
        let res = T.delete_before cutoff s in
        elim res.1 [ err e ↦ (res.0, 0, some (delete_expired_failed e)) | ok n ↦ (res.0, n, none) ]

    unfoldable pub delete_all : List Str → ℕ → T.State → Pass
    delete_all [] deleted s = (s, deleted, none)
    delete_all (id ∷ ids) deleted s =
        let res = T.delete_row id s in
        elim res.1 [
          | err e ↦ (res.0, deleted, some (delete_trace_failed id e))
          | ok n ↦ delete_all ids (deleted + n) res.0
        ]

    -- Behind the loop over the rows: its errors, or the deletions.
    unfoldable pub finish_pass : CursorEnd T.Error → List Str → T.State → Pass
    finish_pass (scan_error e) ids s = (s, 0, some (scan_candidate_failed e))
    finish_pass (iterate_error e) ids s = (s, 0, some (iterate_candidates_failed e))
    finish_pass finished ids s = delete_all ids 0 s

    unfoldable pub delete_expired :
        Time → Duration → Option RetentionEngine → Cursor T.Error → T.State → Option Pass
    delete_expired now default_ttl engine cursor s =
        elim (select_expired now default_ttl engine cursor.found) [
          | none ↦ none
          | some ids ↦ some (finish_pass cursor.end ids s)
        ]

    -- `zone` is that of `time.Now()`, the zone of the host.
    unfoldable pub run_cleanup_with_engine :
        Duration → Time → Time → Duration → Option RetentionEngine → T.State → Option Pass
    run_cleanup_with_engine zone now later default_ttl engine s =
        if has_rules engine
        then elim (T.rows_before (local_cutoff zone now (candidate_ttl default_ttl engine)) s) [
          | err e ↦ some (s, 0, some (query_candidates_failed e))
          | ok cursor ↦ delete_expired later default_ttl engine cursor s
        ]
        else some (delete_older_than (local_cutoff zone now default_ttl) s)

    -- `load` is `LoadRetentionEngine`.
    unfoldable pub run_cleanup :
        (T.State → Result T.Error RetentionEngine)
        → Duration
        → Time
        → Time
        → Duration
        → T.State
        → Option Pass
    run_cleanup load zone now later default_ttl s = elim (load s) [
      | err e ↦ some (s, 0, some (load_retention_engine_failed e))
      | ok engine ↦ run_cleanup_with_engine zone now later default_ttl (some engine) s
    ]

    -- One tick of `StartCleanup`, which drops every error.
    unfoldable pub cleanup_tick :
        (T.State → Result T.Error RetentionEngine)
        → Duration
        → Time
        → Time
        → Duration
        → T.State
        → Option T.State
    cleanup_tick load zone now later default_ttl s =
        elim (run_cleanup_with_engine zone now later default_ttl (engine_or_nil (load s)) s) [
          | none ↦ none
          | some pass ↦ some pass.0
        ]
