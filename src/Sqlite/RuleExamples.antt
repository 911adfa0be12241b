-- ===== src/Sqlite/RuleExamples.antt =====
-- Tests of the rule tables, and their theorems on tables in memory.
use promolog.Prelude.{
  ℕ, ℤ, pos, List, [], ◌∷◌, Bool, true, false, Option, none, some, ◌≡◌, refl, Str, lit, str_eq,
  Dict,
}
use promolog.Rule.{FilterRule, RetentionRule, RuleEngine, new_rule_engine, match}
use promolog.Sqlite.Table.{ok}
use promolog.Sqlite.RuleTable.{RuleTable}
use promolog.Sqlite.Rules.{
  filter_rules, retention_rules, rule_not_found, create_in, update_in, delete_in, list_in,
  finish_create, read_back, create_rule, update_rule, delete_rule, list_rules, load_rule_engine,
  create_retention_rule, list_retention_rules,
}
use promolog.Sqlite.RuleSpec.{update, Spec, perform, view, rules-Spec}
use promolog.Sqlite.RuleEngines.{PicksOldest, load_rule_engine-PicksOldest}
use promolog.Sqlite.RuleMemory.{rule_memory, rule_memory_laws}

abbrev exact_match : Str → Str → Option Bool
exact_match pattern name = some (str_eq pattern name)

abbrev table : RuleTable FilterRule
table = rule_memory filter_rules

abbrev rule : ℤ → Str → ℕ → FilterRule
rule id action created_at = record {
  id = id;
  name = lit "r";
  field = lit "route";
  operator = lit "equals";
  value = lit "/a";
  action = action;
  enabled = true;
  created_at = pos created_at;
}

abbrev rules : List FilterRule
rules = rule (pos 2) (lit "promote") 9 ∷ rule (pos 5) (lit "suppress") 4 ∷ []

created_rule : create_rule table (rule (pos 0) (lit "x") 0) rules ≡ (
  rule (pos 2) (lit "promote") 9 ∷ rule (pos 5) (lit "suppress") 4 ∷ rule (pos 8) (lit "x") 7 ∷ [],
  ok (rule (pos 8) (lit "x") 7),
)
unfolding create_in finish_create read_back
created_rule = refl

updated_rule :
    update_rule table (rule (pos 5) (lit "x") 0) rules
    ≡ (rule (pos 2) (lit "promote") 9 ∷ rule (pos 5) (lit "x") 4 ∷ [], none)
unfolding update_in
updated_rule = refl

missing_rule : (delete_rule table (pos 3) rules).1 ≡ some (rule_not_found (pos 3))
unfolding delete_in
missing_rule = refl

oldest_first :
    list_rules table rules
    ≡ (rule (pos 5) (lit "suppress") 4 ∷ rule (pos 2) (lit "promote") 9 ∷ [], none)
unfolding list_in
oldest_first = refl

abbrev retention : RetentionRule
retention = record {
  id = pos 0;
  name = lit "short";
  field = lit "route";
  operator = lit "equals";
  value = lit "/a";
  ttl_hours = pos 3;
  enabled = false;
  created_at = pos 0;
}

retention_listed :
    list_retention_rules
      (rule_memory retention_rules)
      (create_retention_rule (rule_memory retention_rules) retention []).0
    ≡ (record retention { id = pos 1; created_at = pos 7 } ∷ [], none)
unfolding create_in list_in
retention_listed = refl

rules-Spec_example :
    Spec filter_rules ℕ
      (view filter_rules table (rule_memory_laws filter_rules) rules)
      (update (rule (pos 5) (lit "x") 0))
      (perform filter_rules table (update (rule (pos 5) (lit "x") 0)) rules).1
      (view filter_rules table
        (rule_memory_laws filter_rules)
        (perform filter_rules table (update (rule (pos 5) (lit "x") 0)) rules).0)
rules-Spec_example =
    rules-Spec filter_rules table (rule_memory_laws filter_rules)
      (update (rule (pos 5) (lit "x") 0)) rules

abbrev fields : Dict Str
fields = (lit "route", lit "/a") ∷ []

abbrev engine : RuleEngine
engine = new_rule_engine (rule (pos 5) (lit "suppress") 4 ∷ rule (pos 2) (lit "promote") 9 ∷ [])

engine_loaded : load_rule_engine table rules ≡ ok engine
unfolding load_rule_engine list_in
engine_loaded = refl

load_rule_engine-PicksOldest_example :
    PicksOldest exact_match fields rules (match exact_match (some engine) fields)
load_rule_engine-PicksOldest_example =
    load_rule_engine-PicksOldest exact_match fields table (rule_memory_laws filter_rules) rules
      engine engine_loaded
