-- ===== src/Rule/Examples.antt =====
-- Tests of the rule engines, and their theorems at concrete rules.
use promolog.Prelude.{
  ◌*◌, ℤ, ◌*ℤ◌, pos, Bool, true, false, List, [], ◌∷◌, ◌++◌, Option, none, some, ◌≡◌, ◌≢◌, ◌⊎◌, ◌↔◌,
  refl, All, Str, lit, str_eq, Dict, lookup, contains, has_prefix,
}
use promolog.Rule.{
  FilterRule, RetentionRule, RuleAction, new_rule_engine, new_retention_engine, match, match_rules,
  match_operator, field_matches, match_retention, match_retention_rules, better, min_ttl,
  hours_duration, wrap_int, min_hours,
}
use promolog.Rule.FirstMatch.{IsFirst, Selects, action_of, match-IsFirst}
use promolog.Rule.Operators.{match_operator_iff}
use promolog.Rule.Shortest.{applies, IsShortest, match-IsShortest}

-- A `path.Match` for the tests: no pattern but the equal text matches.
abbrev exact_match : Str → Str → Option Bool
exact_match pattern name = some (str_eq pattern name)

abbrev filter_rule : Str → Str → Bool → FilterRule
filter_rule value action enabled = record {
  id = pos 1;
  name = [];
  field = lit "route";
  operator = lit "starts_with";
  value = value;
  action = action;
  enabled = enabled;
  created_at = pos 0;
}

abbrev rules : List FilterRule
rules =
    filter_rule (lit "/admin") (lit "suppress") false
    ∷ filter_rule (lit "/adm") (lit "always_promote") true
    ∷ filter_rule (lit "/") (lit "suppress") true
    ∷ []

abbrev fields : Dict Str
fields = (lit "route", lit "/admin/x") ∷ (lit "method", lit "GET") ∷ []

second_rule :
    match exact_match (some (new_rule_engine rules)) fields
    ≡ some (action_of exact_match fields (filter_rule (lit "/adm") (lit "always_promote") true))
unfolding match new_rule_engine match_rules field_matches match_operator lookup str_eq lit
    has_prefix
second_rule = refl

match-IsFirst_example :
    ((a : RuleAction)
      → (match exact_match (some (new_rule_engine rules)) fields ≡ some a) ↔ (
          (r : FilterRule) × IsFirst (Selects exact_match fields) r rules
          × (a ≡ action_of exact_match fields r)))
    × ((match exact_match (some (new_rule_engine rules)) fields ≡ none)
        ↔ All (λ r. ¬ Selects exact_match fields r) rules)
match-IsFirst_example = match-IsFirst exact_match fields rules

abbrev retention_rule : Str → ℤ → Bool → RetentionRule
retention_rule value ttl enabled = record {
  id = pos 1;
  name = [];
  field = lit "route";
  operator = lit "contains";
  value = value;
  ttl_hours = ttl;
  enabled = enabled;
  created_at = pos 0;
}

abbrev retention_rules : List RetentionRule
retention_rules =
    retention_rule (lit "min") (pos 48) true
    ∷ retention_rule (lit "adm") (pos 24) true
    ∷ retention_rule (lit "x") (pos 24) true
    ∷ retention_rule (lit "x") (pos 1) false
    ∷ []

shortest_rule :
    match_retention exact_match (some (new_retention_engine retention_rules)) fields
    ≡ some (retention_rule (lit "adm") (pos 24) true)
unfolding match_retention match_retention_rules better new_retention_engine field_matches
    match_operator lookup str_eq lit has_prefix contains
shortest_rule = refl

shortest_ttl : min_ttl (some (new_retention_engine retention_rules)) ≡ pos (24 * 3600000000000)
unfolding min_ttl min_hours hours_duration wrap_int new_retention_engine ◌*ℤ◌
shortest_ttl = refl

match-IsShortest_example :
    ((match_retention exact_match (some (new_retention_engine retention_rules)) fields ≡ none)
      × All (λ q. applies exact_match fields q ≡ false) retention_rules)
    ⊎ ((r : RetentionRule) × (match_retention exact_match
            (some (new_retention_engine retention_rules))
            fields
          ≡ some r)
        × IsShortest exact_match fields r retention_rules)
match-IsShortest_example = match-IsShortest exact_match fields retention_rules

match_operator_iff_example :
    ((match_operator exact_match (lit "equals") (lit "GET") (lit "GE") ≡ true)
      ↔ (lit "GET" ≡ lit "GE"))
    × ((match_operator exact_match (lit "contains") (lit "GET") (lit "GE") ≡ true)
        ↔ ((before after : Str) × (lit "GET" ≡ before ++ (lit "GE" ++ after))))
    × ((match_operator exact_match (lit "starts_with") (lit "GET") (lit "GE") ≡ true)
        ↔ ((rest : Str) × (lit "GET" ≡ lit "GE" ++ rest)))
    × ((match_operator exact_match (lit "matches_glob") (lit "GET") (lit "GE") ≡ true)
        ↔ (exact_match (lit "GE") (lit "GET") ≡ some true))
    × ((op : Str)
        → op ≢ lit "equals"
        → op ≢ lit "contains"
        → op ≢ lit "starts_with"
        → op ≢ lit "matches_glob"
        → match_operator exact_match op (lit "GET") (lit "GE") ≡ false)
match_operator_iff_example = match_operator_iff exact_match (lit "GET") (lit "GE")
