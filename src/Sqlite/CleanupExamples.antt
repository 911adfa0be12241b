-- ===== src/Sqlite/CleanupExamples.antt =====
-- Tests of the cleanup, and its theorem on a table in memory.
use promolog.Prelude.{
  ℕ, pos, ◌*◌, List, [], ◌∷◌, Option, none, some, ◌≡◌, ◌≢◌, refl, keep, ltb_ℤ, Bool, true, Str, lit,
  str_eq, arith, ◌+ℤ◌, ◌-ℤ◌, ◌*ℤ◌, lookup,
}
use promolog.Trace.{time_sub}
use promolog.StatusCode.{status_code_str, negate_int, fill, put_sign}
use promolog.Rule.{
  RetentionRule, RetentionEngine, has_rules, min_ttl, min_ttl_of, hours_duration, wrap_int,
  min_hours, better, field_matches, match_operator, match_retention, match_retention_rules,
}
use promolog.Sqlite.Row.{Row}
use promolog.Sqlite.Table.{Result, ok, has_id}
use promolog.Sqlite.Cleanup.{
  run_cleanup, run_cleanup_with_engine, delete_expired, select_expired, candidate_ttl, is_expired,
  candidate_fields, delete_all, effective_ttl, finish_pass, delete_older_than,
}
use promolog.Sqlite.Expired.{Cleans, run_cleanup-Cleans}
use promolog.Sqlite.Zoned.{cleanup_shifted_by_zone}
use promolog.Sqlite.Unique.{NodupIds}
use promolog.Sqlite.Memory.{memory, memory_laws}

abbrev exact_match : Str → Str → Option Bool
exact_match pattern name = some (str_eq pattern name)

abbrev hour : ℕ
hour = 3600000000000

abbrev row : Str → Str → ℕ → Row
row id route hours = record {
  request_id = id;
  parent_request_id = none;
  error_chain = [];
  status_code = pos 500;
  route = route;
  method = lit "GET";
  user_agent = [];
  remote_ip = [];
  user_id = [];
  entries = lit "[]";
  tags = none;
  request_body = none;
  response_body = none;
  kind = none;
  operation_name = none;
  origin_request_id = none;
  status = none;
  started_at = none;
  duration_ms = none;
  created_at = pos (hours * hour);
}

-- Health checks are kept for two hours.
abbrev health_rule : ℕ → RetentionRule
health_rule hours = record {
  id = pos 1;
  name = lit "health";
  field = lit "route";
  operator = lit "equals";
  value = lit "/health";
  ttl_hours = pos hours;
  enabled = true;
  created_at = pos 0;
}

abbrev rows : List Row
rows =
    row (lit "a") (lit "/health") 90
    ∷ row (lit "b") (lit "/health") 99
    ∷ row (lit "c") (lit "/pay") 90
    ∷ row (lit "d") (lit "/pay") 50
    ∷ []

abbrev load_health : List Row → Result ℕ RetentionEngine
load_health _ = ok (record { rules = health_rule 2 ∷ [] })

abbrev load_zero : List Row → Result ℕ RetentionEngine
load_zero _ =
    ok (record { rules = health_rule 2 ∷ record (health_rule 0) { field = lit "method" } ∷ [] })

-- A pass at hour 100, with a day as the default.
cleaned :
    run_cleanup exact_match memory load_health
      (pos 0)
      (pos (100 * hour))
      (pos (100 * hour))
      (pos (24 * hour))
      rows
    ≡ some (row (lit "b") (lit "/health") 99 ∷ row (lit "c") (lit "/pay") 90 ∷ [], 2, none)
unfolding run_cleanup run_cleanup_with_engine has_rules delete_expired select_expired ◌+ℤ◌ ◌-ℤ◌ ◌*ℤ◌
    negate_int candidate_ttl min_ttl min_ttl_of hours_duration wrap_int min_hours is_expired
    candidate_fields status_code_str put_sign fill lookup str_eq lit better field_matches
    match_operator match_retention match_retention_rules delete_all effective_ttl finish_pass
    time_sub
cleaned = refl

-- A rule with a TTL of no hours, which matches nothing here: the health check of hour 90 outlives its two hours.
zero_ttl_hides :
    run_cleanup exact_match memory load_zero
      (pos 0)
      (pos (100 * hour))
      (pos (100 * hour))
      (pos (24 * hour))
      rows
    ≡ some (
      row (lit "a") (lit "/health") 90
          ∷ row (lit "b") (lit "/health") 99
          ∷ row (lit "c") (lit "/pay") 90
          ∷ [],
      1,
      none,
    )
unfolding run_cleanup run_cleanup_with_engine has_rules delete_expired select_expired ◌+ℤ◌ ◌-ℤ◌ ◌*ℤ◌
    negate_int candidate_ttl min_ttl min_ttl_of hours_duration wrap_int min_hours is_expired
    candidate_fields status_code_str put_sign fill lookup str_eq lit better field_matches
    match_operator match_retention match_retention_rules delete_all effective_ttl finish_pass
    time_sub
zero_ttl_hides = refl

rows_unique : NodupIds rows
unfolding has_id str_eq lit
rows_unique = (refl, (refl, (refl, (refl, tt))))

run_cleanup-Cleans_example :
    Cleans exact_match
      (pos (24 * hour))
      (record { rules = health_rule 2 ∷ [] })
      memory
      memory_laws
      (pos (100 * hour))
      (pos (100 * hour))
      rows
      (row (lit "b") (lit "/health") 99 ∷ row (lit "c") (lit "/pay") 90 ∷ [])
      2
run_cleanup-Cleans_example =
    run_cleanup-Cleans exact_match (pos (24 * hour)) (record { rules = health_rule 2 ∷ [] }) memory
      memory_laws load_health (pos (100 * hour)) (pos (100 * hour)) rows
      (row (lit "b") (lit "/health") 99 ∷ row (lit "c") (lit "/pay") 90 ∷ []) 2 rows_unique refl
      (omega arith) (omega arith) (omega arith) (omega arith) cleaned

abbrev load_none : List Row → Result ℕ RetentionEngine
load_none _ = ok (record { rules = [] })

-- Two hours east of UTC, with a TTL of eleven hours: the rows of ten hours are deleted.
cleaned_east :
    run_cleanup exact_match memory load_none
      (pos (2 * hour))
      (pos (100 * hour))
      (pos (100 * hour))
      (pos (11 * hour))
      rows
    ≡ some (row (lit "b") (lit "/health") 99 ∷ [], 3, none)
unfolding run_cleanup run_cleanup_with_engine has_rules delete_older_than ◌+ℤ◌ negate_int
cleaned_east = refl

east : pos (2 * hour) ≢ pos 0
east h = cc h

cleanup_shifted_by_zone_example :
    row (lit "b") (lit "/health") 99 ∷ []
    ≡ keep (λ r. ltb_ℤ (pos (100 * hour) -ℤ r.created_at) (pos (11 * hour) -ℤ pos (2 * hour))) rows
unfolding has_rules
cleanup_shifted_by_zone_example =
    cleanup_shifted_by_zone exact_match (pos (11 * hour)) (record { rules = [] }) memory memory_laws
      load_none (pos (2 * hour)) (pos (100 * hour)) (pos (100 * hour)) rows
      (row (lit "b") (lit "/health") 99 ∷ []) 3 refl refl east (omega arith) cleaned_east
