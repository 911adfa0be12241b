-- ===== src/Rule.antt =====
-- rule.go: filter rules and retention rules, the two engines that evaluate them, and the operators
-- that compare a field with a rule's value. `path.Match` of Go's standard library is a parameter,
-- with `none` for its error. A nil engine is `none`.
pub mod FirstMatch
pub mod Operators
pub mod Shortest
pub mod Ttl
mod Examples
use promolog.Prelude.{
  ℕ, ◌*◌, ◌-◌, ◌+◌, ◌%◌, ◌^◌, ℤ, pos, negsuc, pos_part, neg_part, ltb_ℤ, ◌*ℤ◌, Bool, true, false,
  Option, none, some, List, [], ◌&&◌, ◌∷◌, Str, lit, str_eq, has_prefix, contains, Dict, lookup,
  insert, ltb, if◌then◌else◌, keep,
}
use promolog.Trace.{Time, Trace, Duration}
use promolog.StatusCode.{status_code_str}

pub record FilterRule : Type 0 where
  pub id : ℤ
  pub name : Str
  pub field : Str
  pub operator : Str
  pub value : Str
  pub action : Str
  pub enabled : Bool
  pub created_at : Time

pub record RetentionRule : Type 0 where
  pub id : ℤ
  pub name : Str
  pub field : Str
  pub operator : Str
  pub value : Str
  pub ttl_hours : ℤ
  pub enabled : Bool
  pub created_at : Time

pub record RuleAction : Type 0 where
  pub action : Str
  pub rule : FilterRule

pub record RuleEngine : Type 0 where
  pub rules : List FilterRule

pub record RetentionEngine : Type 0 where
  pub rules : List RetentionRule

unfoldable pub new_rule_engine : List FilterRule → RuleEngine
new_rule_engine rules = record { rules = keep (λ r. r.enabled) rules }

unfoldable pub new_retention_engine : List RetentionRule → RetentionEngine
new_retention_engine rules = record { rules = keep (λ r. r.enabled) rules }

unfoldable pub has_rules : Option RetentionEngine → Bool
has_rules none = false
has_rules (some re) = elim re.rules [ [] ↦ false | _ ∷ _ ↦ true ]

-- The loop of `MinTTL` over `re.rules[1:]`.
unfoldable pub min_hours : ℤ → List RetentionRule → ℤ
min_hours hours [] = hours
min_hours hours (r ∷ rs) = min_hours (if ltb_ℤ r.ttl_hours hours then r.ttl_hours else hours) rs

-- An int64 from its value modulo 2^64.
unfoldable pub wrap_int : ℤ → ℤ
wrap_int z =
    let m = (pos_part z % 2 ^ 64 + (2 ^ 64 - neg_part z % 2 ^ 64)) % 2 ^ 64 in
    if ltb m (2 ^ 63) then pos m else negsuc (2 ^ 64 - 1 - m)

-- `time.Duration(hours) * time.Hour`, in int64 nanoseconds.
unfoldable pub hours_duration : ℤ → Duration
hours_duration hours = wrap_int (hours *ℤ pos 3600000000000)

unfoldable pub min_ttl_of : List RetentionRule → Duration
min_ttl_of [] = pos 0
min_ttl_of (r ∷ rs) = hours_duration (min_hours r.ttl_hours rs)

unfoldable pub min_ttl : Option RetentionEngine → Duration
unfolding min_ttl_of
min_ttl none = pos 0
min_ttl (some re) = min_ttl_of re.rules

-- `TraceFields`. Its `strings.TrimSpace` finds no space in the digits of a status code; a panic of
-- `StatusCodeStr` is `none`.
unfoldable pub trace_fields : Trace → Option (Dict Str)
trace_fields t = elim (status_code_str t.status_code) [
  | none ↦ none
  | some code ↦ some (
      (lit "remote_ip", t.remote_ip)
      ∷ (lit "route", t.route)
      ∷ (lit "status_code", code)
      ∷ (lit "method", t.method)
      ∷ (lit "user_agent", t.user_agent)
      ∷ (lit "user_id", t.user_id)
      ∷ [])
]

-- `!found || r.TTLHours < best.TTLHours`, with `best` as `none` until one is found.
unfoldable pub better : RetentionRule → Option RetentionRule → Bool
better r none = true
better r (some best) = ltb_ℤ r.ttl_hours best.ttl_hours

module _ (path_match : Str → Str → Option Bool) where
  unfoldable pub match_operator : Str → Str → Str → Bool
  match_operator op field_value rule_value =
      if str_eq op (lit "equals")
      then str_eq field_value rule_value
      else if str_eq op (lit "contains")
      then contains field_value rule_value
      else if str_eq op (lit "starts_with")
      then has_prefix field_value rule_value
      else if str_eq op (lit "matches_glob")
      then elim (path_match rule_value field_value) [ none ↦ false | some matched ↦ matched ]
      else false

  -- `fieldValue, ok := fields[r.Field]` and, where it is there, `matchOperator`.
  unfoldable pub field_matches : Str → Str → Str → Dict Str → Bool
  field_matches field op value fields = elim (lookup field fields) [
    | none ↦ false
    | some field_value ↦ match_operator op field_value value
  ]

  -- The loop of `RuleEngine.Match`; `none` is `matched == false`.
  unfoldable pub match_rules : Dict Str → List FilterRule → Option RuleAction
  match_rules fields [] = none
  match_rules fields (r ∷ rs) =
      let rest = match_rules fields rs in
      if field_matches r.field r.operator r.value fields
      then some (record { action = r.action; rule = r })
      else rest

  unfoldable pub match : Option RuleEngine → Dict Str → Option RuleAction
  match none fields = none
  match (some re) fields = match_rules fields re.rules

  -- The loop of `RetentionEngine.Match`.
  unfoldable pub match_retention_rules :
      Dict Str → Option RetentionRule → List RetentionRule → Option RetentionRule
  match_retention_rules fields best [] = best
  match_retention_rules fields best (r ∷ rs) =
      match_retention_rules fields
        (if field_matches r.field r.operator r.value fields && better r best then some r else best)
        rs

  unfoldable pub match_retention : Option RetentionEngine → Dict Str → Option RetentionRule
  match_retention none fields = none
  match_retention (some re) fields = match_retention_rules fields none re.rules
