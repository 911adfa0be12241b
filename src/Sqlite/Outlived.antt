-- ===== src/Sqlite/Outlived.antt =====
-- The effective TTL of a row against the TTL that bounds the candidates of a cleanup pass.
use promolog.Prelude.{
  pos, ◌≤ℤ◌, ◌<ℤ◌, ltb_ℤ_iff, List, [], ◌∷◌, Bool, true, false, ◌&&◌, inl, inr, Option, none, some,
  ◌≡◌, refl, arith, Str, Dict, Option-cases,
}
use promolog.Trace.{Time, Duration, time_sub}
use promolog.Trace.Age.{time_sub-le}
use promolog.Rule.{
  RetentionEngine, has_rules, min_ttl, RetentionRule, match_retention_rules, match_retention,
  hours_duration,
}
use promolog.Rule.Ttl.{Fits, min_ttl-le}
use promolog.Sqlite.Row.{Row}
use promolog.Sqlite.Cleanup.{candidate_fields, effective_ttl, candidate_ttl}
use promolog.Sqlite.Deleted.{row_ttl, outlived}

pub candidate_ttl-bounds :
    (d : Duration) (engine : Option RetentionEngine)
    → pos 0 <ℤ d
    → (pos 0 <ℤ candidate_ttl d engine) × (candidate_ttl d engine ≤ℤ d)
unfolding candidate_ttl
candidate_ttl-bounds d engine h = ground arith

candidate_ttl-le :
    (d x : Duration) (engine : Option RetentionEngine)
    → pos 0 <ℤ min_ttl engine
    → min_ttl engine ≤ℤ x
    → candidate_ttl d engine ≤ℤ x
unfolding candidate_ttl
candidate_ttl-le d x engine positive le = ground arith

and_left : (a b : Bool) → (a && b) ≡ true → a ≡ true
and_left a b h = ground arith

pub and_right : (a b : Bool) → (a && b) ≡ true → b ≡ true
and_right a b h = ground arith

pub and_both : (a b : Bool) → a ≡ true → b ≡ true → (a && b) ≡ true
and_both a b h k = rw (h, k)

unruled_match :
    (path_match : Str → Str → Option Bool) (fields : Dict Str) (engine : RetentionEngine)
    → has_rules (some engine) ≡ false
    → match_retention path_match (some engine) fields ≡ none
unfolding has_rules match_retention match_retention_rules
unruled_match path_match fields engine = by_rules engine.rules
  where
    by_rules :
        (rules : List RetentionRule)
        → (elim rules [ [] ↦ false | _ ∷ _ ↦ true ]) ≡ false
        → match_retention_rules path_match fields none rules ≡ none
    by_rules [] h = refl
    by_rules (q ∷ qs) h = cc h

module _ (path_match : Str → Str → Option Bool) (d : Duration) (engine : RetentionEngine) where
  -- The row has outlived its effective TTL.
  abbrev pub age_test : Time → Row → Bool
  age_test = outlived path_match d (some engine)

  -- No candidate TTL is longer than the TTL of a row.
  pub candidate_ttl-row_ttl :
      (r : Row)
      → Fits engine.rules
      → pos 0 <ℤ d
      → candidate_ttl d (some engine) ≤ℤ row_ttl path_match d (some engine) r
  unfolding effective_ttl
  candidate_ttl-row_ttl r fits positive = elim (Option-cases (candidate_fields r)) [
    | inl panic ↦ rw (panic, row_ttl) (candidate_ttl-bounds d (some engine) positive).1
    | inr (fields, known) ↦ elim (Option-cases (match_retention path_match (some engine) fields)) [
      | inl unmatched ↦
          rw (known, row_ttl, unmatched, effective_ttl)
            (candidate_ttl-bounds d (some engine) positive).1
      | inr (rule, matched) ↦
          let (le, above) = min_ttl-le path_match fields engine rule fits matched in
          rw (known, row_ttl, matched, effective_ttl)
            (candidate_ttl-le d (hours_duration rule.ttl_hours) (some engine) above le)
    ]
  ]

  pub row_ttl-unruled :
      (r : Row) → has_rules (some engine) ≡ false → row_ttl path_match d (some engine) r ≡ d
  unfolding effective_ttl
  row_ttl-unruled r unruled = elim (Option-cases (candidate_fields r)) [
    | inl panic ↦ rw (panic, row_ttl)
    | inr (fields, known) ↦
        rw (known, row_ttl, effective_ttl, unruled_match path_match fields engine unruled)
  ]

  -- What is too old at one time is too old later.
  pub older :
      (now later : Time) (r : Row)
      → now ≤ℤ later
      → row_ttl path_match d (some engine) r <ℤ time_sub now r.created_at
      → age_test later r ≡ true
  older now later r le age =
      (ltb_ℤ_iff (row_ttl path_match d (some engine) r) (time_sub later r.created_at)).1
        (omega (arith, age, time_sub-le now later r.created_at le))
